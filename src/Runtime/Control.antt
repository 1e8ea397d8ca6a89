-- ===== src/Runtime/Control.antt =====
-- `ClientRuntime` of crates/velum-client-runtime/src/lib.rs: what each critical section under its lock
-- does. A connected client is a number; `closed` and `aborted` record the calls of `Client::close`
-- and `JoinHandle::abort`. The tasks that the runtime spawns call `complete_connect` and then
-- `complete_connection_closed`, at any time and in any order with the calls of other threads.
-- The snapshot `Stopping` that `stop` publishes before it closes the client is not kept.
pub mod Spec
pub mod Refines
pub mod Ended
use velum.Prelude.{
  ℕ, Bool, true, false, not, ◌&&◌, ◌||◌, Option, none, some, List, [], ◌∷◌, Result, ok, err, ◌==◌,
  if◌then◌else◌, Run, done, panic, and_run,
}
use velum.Runtime.Lifecycle
use velum.Runtime.Lifecycle.{
  RuntimePhase, RuntimeFailure, ClientError, RuntimeError, RuntimeSnapshot, default_snapshot,
  failure_of, is_connecting, is_online, executor_unavailable, not_online, superseded, begin_connect,
  begin_stop, complete_stop, fail_online,
}

abbrev pub ClientId : Type 0
ClientId = ℕ

-- `RuntimeInner`, the published snapshot, and the calls made on clients and tasks. A
-- `LifecycleTask` is its generation.
pub record ClientRuntime : Type 0 where
  pub lifecycle : RuntimeSnapshot
  pub client : Option ClientId
  pub lifecycle_task : Option ℕ
  pub published : RuntimeSnapshot
  pub closed : List ClientId
  pub aborted : List ℕ

-- `ClientRuntime::new`
abbrev pub new_runtime : ClientRuntime
new_runtime = record {
  lifecycle = default_snapshot;
  client = none;
  lifecycle_task = none;
  published = default_snapshot;
  closed = [];
  aborted = [];
}

-- `publish`
abbrev pub publish : ClientRuntime → ClientRuntime
publish self = record self { published = self.lifecycle }

-- `client.close()` on what may be there.
abbrev pub close_client : Option ClientId → List ClientId → List ClientId
close_client none closed = closed
close_client (some client) closed = client ∷ closed

abbrev pub close_result : Result ClientId ClientError → List ClientId → List ClientId
close_result (err error) closed = closed
close_result (ok client) closed = client ∷ closed

-- `clear_lifecycle_task`
unfoldable pub clear_lifecycle_task : Option ℕ → ℕ → Option ℕ
clear_lifecycle_task none generation = none
clear_lifecycle_task (some task) generation = if task == generation then none else some task

-- What `start_with` does behind `begin_connect`.
abbrev pub started :
    ClientRuntime → RuntimeSnapshot × Result ℕ RuntimeError → ClientRuntime × Result ℕ RuntimeError
started self (lifecycle, err error) = (record self { lifecycle = lifecycle }, err error)
started self (lifecycle, ok generation) = (
  record (publish (record self { lifecycle = lifecycle })) { lifecycle_task = some generation },
  ok generation,
)

-- `start_with`; whether a Tokio runtime is there is its first argument.
unfoldable pub start : Bool → ClientRuntime → Run (ClientRuntime × Result ℕ RuntimeError)
unfolding begin_connect
start executor self =
    if not executor
    then done (self, err executor_unavailable)
    else and_run (begin_connect self.lifecycle) λ began. done (started self began)

-- `complete_connect` behind its guard.
unfoldable pub apply_connect :
    ClientRuntime → ℕ → Result ClientId ClientError → Run (ClientRuntime × Option ClientId)
unfolding Lifecycle.complete_connect clear_lifecycle_task failure_of
apply_connect self generation (ok client) =
    and_run (Lifecycle.complete_connect self.lifecycle generation (ok tt)) λ (lifecycle, applied).
      done (publish (record self { lifecycle = lifecycle; client = some client }), some client)
apply_connect self generation (err error) =
    and_run (Lifecycle.complete_connect self.lifecycle generation (err (failure_of error)))
      λ (lifecycle, applied). done (
        publish (record self {
          lifecycle = lifecycle;
          lifecycle_task = clear_lifecycle_task self.lifecycle_task generation;
        }),
        none,
      )

unfoldable pub complete_connect :
    ClientRuntime → ℕ → Result ClientId ClientError → Run (ClientRuntime × Option ClientId)
unfolding apply_connect
complete_connect self generation result =
    if not (generation == self.lifecycle.generation) || not (is_connecting self.lifecycle.phase)
    then done (record self { closed = close_result result self.closed }, none)
    else apply_connect self generation result

unfoldable pub complete_connection_closed : ClientRuntime → ℕ → RuntimeFailure → Run ClientRuntime
unfolding fail_online clear_lifecycle_task
complete_connection_closed self generation failure =
    and_run (fail_online self.lifecycle generation failure) λ (lifecycle, applied).
      if not applied
      then done self
      else done (
          publish (record self {
            lifecycle = lifecycle;
            client = none;
            lifecycle_task = clear_lifecycle_task self.lifecycle_task generation;
          }))

abbrev pub abort_task : Option ℕ → List ℕ → List ℕ
abort_task none aborted = aborted
abort_task (some task) aborted = task ∷ aborted

-- `stop` behind `begin_stop`. The wait for the aborted task changes nothing of the runtime.
abbrev pub stopping_with : ClientRuntime → RuntimeSnapshot × Option ℕ → Run (ClientRuntime × ℕ)
stopping_with self (lifecycle, none) = done (self, lifecycle.generation)
stopping_with self (lifecycle, some generation) =
    and_run (complete_stop lifecycle generation) λ (after, completed). done (
      publish (record self {
        lifecycle = after;
        client = none;
        lifecycle_task = none;
        closed = close_client self.client self.closed;
        aborted = abort_task self.lifecycle_task self.aborted;
      }),
      generation,
    )

unfoldable pub stop : ClientRuntime → Run (ClientRuntime × ℕ)
unfolding begin_stop complete_stop
stop self = and_run (begin_stop self.lifecycle) λ began. stopping_with self began

unfoldable pub is_generation_online : ClientRuntime → ℕ → Bool
is_generation_online self generation =
    self.published.generation == generation && is_online self.published.phase

abbrev client_of : ℕ → Option ClientId → Result (ℕ × ClientId) RuntimeError
client_of generation none = err not_online
client_of generation (some client) = ok (generation, client)

unfoldable pub active_client : ClientRuntime → Result (ℕ × ClientId) RuntimeError
active_client self =
    if not (is_online self.lifecycle.phase)
    then err not_online
    else client_of self.lifecycle.generation self.client

-- The critical sections, and what each returns.
pub data Event : Type 0 where
  starts : Bool → Event
  connects : ℕ → Result ClientId ClientError → Event
  closes : ℕ → RuntimeFailure → Event
  stops : Event

pub data Reply : Type 0 where
  started_as : Result ℕ RuntimeError → Reply
  connected_as : Option ClientId → Reply
  noted : Reply
  stopped_at : ℕ → Reply

unfoldable pub step : ClientRuntime → Event → Run (ClientRuntime × Reply)
unfolding start complete_connect complete_connection_closed stop
step self (starts executor) =
    and_run (start executor self) λ (self', result). done (self', started_as result)
step self (connects generation result) =
    and_run (complete_connect self generation result)
      λ (self', client). done (self', connected_as client)
step self (closes generation failure) =
    and_run (complete_connection_closed self generation failure) λ self'. done (self', noted)
step self stops = and_run (stop self) λ (self', generation). done (self', stopped_at generation)

unfoldable pub run : ClientRuntime → List Event → Run (ClientRuntime × List Reply)
run self [] = done (self, [])
run self (event ∷ events) =
    and_run (step self event) λ (self', reply).
      and_run (run self' events) λ (self'', replies). done (self'', reply ∷ replies)
