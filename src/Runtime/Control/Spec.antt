-- ===== src/Runtime/Control/Spec.antt =====
-- What `ClientRuntime` of crates/velum-client-runtime/src/lib.rs promises: one attempt or connection
-- at a time, numbered by generations, and reports about another generation are void.
use velum.Prelude.{
  ℕ, ◌+◌, Bool, true, false, ◌&&◌, Option, none, some, List, [], ◌∷◌, Result, ok, err, ◌==◌,
  if◌then◌else◌,
}
use velum.Runtime.Lifecycle.{
  RuntimePhase, RuntimeFailure, ClientError, RuntimeSnapshot, failure_of, stopped, connecting,
  online, failed, executor_unavailable, busy,
}
use velum.Runtime.Control.{
  ClientId, ClientRuntime, close_result, Event, starts, connects, closes, stops, Reply, started_as,
  connected_as, noted, stopped_at,
}

pub data Connection : Type 0 where
  idle dialing : Connection
  up : ClientId → Connection
  down : RuntimeFailure → Connection

pub record Authority : Type 0 where
  pub generation : ℕ
  pub connection : Connection
  pub closed : List ClientId
  pub aborted : List ℕ

abbrev begun : Authority → Authority × Reply
begun self = (
  record self { generation = self.generation + 1; connection = dialing },
  started_as (ok (self.generation + 1)),
)

abbrev begin_at : Connection → Authority → Authority × Reply
begin_at idle self = begun self
begin_at (down failure) self = begun self
begin_at dialing self = (self, started_as (err busy))
begin_at (up client) self = (self, started_as (err busy))

abbrev pub settled : Result ClientId ClientError → Connection
settled (ok client) = up client
settled (err error) = down (failure_of error)

abbrev pub client_in : Result ClientId ClientError → Option ClientId
client_in (ok client) = some client
client_in (err error) = none

abbrev is_dialing : Connection → Bool
is_dialing dialing = true
is_dialing _ = false

abbrev pub is_up : Connection → Bool
is_up (up client) = true
is_up _ = false

abbrev stop_at : Connection → Authority → Authority × Reply
stop_at idle self = (self, stopped_at self.generation)
stop_at dialing self = (
  record self {
    generation = self.generation + 1;
    connection = idle;
    aborted = self.generation ∷ self.aborted;
  },
  stopped_at (self.generation + 1),
)
stop_at (up client) self = (
  record self {
    generation = self.generation + 1;
    connection = idle;
    closed = client ∷ self.closed;
    aborted = self.generation ∷ self.aborted;
  },
  stopped_at (self.generation + 1),
)
stop_at (down failure) self = (
  record self { generation = self.generation + 1; connection = idle },
  stopped_at (self.generation + 1),
)

-- A start begins a new generation if there is nothing to end first. A result for the generation that
-- dials is taken, and the client of any other is closed. The end of the connection is taken for the
-- generation that is up. A stop ends what there is, and takes a generation for itself.
unfoldable pub respond : Authority → Event → Authority × Reply
respond self (starts executor) =
    if executor
    then begin_at self.connection self
    else (self, started_as (err executor_unavailable))
respond self (connects generation result) =
    if generation == self.generation && is_dialing self.connection
    then (record self { connection = settled result }, connected_as (client_in result))
    else (record self { closed = close_result result self.closed }, connected_as none)
respond self (closes generation failure) =
    if generation == self.generation && is_up self.connection
    then (record self { connection = down failure }, noted)
    else (self, noted)
respond self stops = stop_at self.connection self

unfoldable pub respond_all : Authority → List Event → Authority × List Reply
respond_all self [] = (self, [])
respond_all self (event ∷ events) =
    let (self', reply) = respond self event in
    let (self'', replies) = respond_all self' events in (self'', reply ∷ replies)

-- How the runtime represents it.
abbrev phase_in : Connection → RuntimePhase
phase_in idle = stopped
phase_in dialing = connecting
phase_in (up client) = online
phase_in (down failure) = failed

abbrev failure_in : Connection → Option RuntimeFailure
failure_in (down failure) = some failure
failure_in _ = none

abbrev holder : Connection → Option ClientId
holder (up client) = some client
holder _ = none

abbrev task_in : Connection → ℕ → Option ℕ
task_in idle generation = none
task_in dialing generation = some generation
task_in (up client) generation = some generation
task_in (down failure) generation = none

abbrev snapshot_of : ℕ → Authority → RuntimeSnapshot
snapshot_of revision self = record {
  revision = revision;
  generation = self.generation;
  phase = phase_in self.connection;
  failure = failure_in self.connection;
}

abbrev pub represent : ℕ → Authority → ClientRuntime
represent revision self = record {
  lifecycle = snapshot_of revision self;
  client = holder self.connection;
  lifecycle_task = task_in self.connection self.generation;
  published = snapshot_of revision self;
  closed = self.closed;
  aborted = self.aborted;
}

abbrev pub new_authority : Authority
new_authority = record { generation = 0; connection = idle; closed = []; aborted = [] }
