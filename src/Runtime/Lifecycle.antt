-- ===== src/Runtime/Lifecycle.antt =====
-- crates/velum-client-runtime/src/state.rs: the phases of a client connection. A failed `expect` is
-- `panic`. A `Lifecycle` is its snapshot.
use velum.Prelude.{
  ℕ, Bool, true, false, not, ◌||◌, Option, none, some, Result, ok, err, ◌==◌, if◌then◌else◌, Run,
  done, and_run, expect, checked_add,
}

pub data RuntimePhase : Type 0 where
  stopped connecting online stopping failed : RuntimePhase

-- `ClientError` of crates/velum-client-api/src/lib.rs.
pub data ClientError : Type 0 where
  certificate connect_timeout connection control_too_large datagram_too_large : ClientError
  datagram_unavailable protocol transport : ClientError

pub data RuntimeFailure : Type 0 where
  certificate connect_timeout connection control_too_large datagram_too_large : RuntimeFailure
  datagram_unavailable protocol transport : RuntimeFailure

-- `RuntimeFailure::from`
unfoldable pub failure_of : ClientError → RuntimeFailure
failure_of ClientError.certificate = RuntimeFailure.certificate
failure_of ClientError.connect_timeout = RuntimeFailure.connect_timeout
failure_of ClientError.connection = RuntimeFailure.connection
failure_of ClientError.control_too_large = RuntimeFailure.control_too_large
failure_of ClientError.datagram_too_large = RuntimeFailure.datagram_too_large
failure_of ClientError.datagram_unavailable = RuntimeFailure.datagram_unavailable
failure_of ClientError.protocol = RuntimeFailure.protocol
failure_of ClientError.transport = RuntimeFailure.transport

pub record RuntimeSnapshot : Type 0 where
  pub revision : ℕ
  pub generation : ℕ
  pub phase : RuntimePhase
  pub failure : Option RuntimeFailure

-- `RuntimeSnapshot::default`
abbrev pub default_snapshot : RuntimeSnapshot
default_snapshot = record { revision = 0; generation = 0; phase = stopped; failure = none }

pub data RuntimeError : Type 0 where
  busy executor_unavailable not_online superseded : RuntimeError
  client : ClientError → RuntimeError

abbrev pub is_stopped : RuntimePhase → Bool
is_stopped stopped = true
is_stopped _ = false

abbrev pub is_connecting : RuntimePhase → Bool
is_connecting connecting = true
is_connecting _ = false

abbrev pub is_online : RuntimePhase → Bool
is_online online = true
is_online _ = false

abbrev pub is_stopping : RuntimePhase → Bool
is_stopping stopping = true
is_stopping _ = false

-- `matches!(phase, Stopped | Failed)`
abbrev pub may_connect : RuntimePhase → Bool
may_connect stopped = true
may_connect failed = true
may_connect _ = false

-- `Lifecycle::transition`, on the snapshot.
unfoldable pub transition :
    RuntimeSnapshot → RuntimePhase → Option RuntimeFailure → Run RuntimeSnapshot
transition self phase failure =
    and_run (expect (checked_add self.revision 1))
      λ revision. done (record self { revision = revision; phase = phase; failure = failure })

-- The next generation, and the phase that it begins in.
unfoldable pub next_generation : RuntimeSnapshot → RuntimePhase → Run RuntimeSnapshot
unfolding transition
next_generation self phase =
    and_run (expect (checked_add self.generation 1))
      λ generation. transition (record self { generation = generation }) phase none

unfoldable pub begin_connect : RuntimeSnapshot → Run (RuntimeSnapshot × Result ℕ RuntimeError)
unfolding next_generation
begin_connect self =
    if not (may_connect self.phase)
    then done (self, err busy)
    else and_run (next_generation self connecting) λ next. done (next, ok next.generation)

-- The phase that the result of a connection leads to.
abbrev pub phase_of : Result (Unit {0}) RuntimeFailure → RuntimePhase
phase_of (ok _) = online
phase_of (err failure) = failed

abbrev pub failure_kept : Result (Unit {0}) RuntimeFailure → Option RuntimeFailure
failure_kept (ok _) = none
failure_kept (err failure) = some failure

unfoldable pub complete_connect :
    RuntimeSnapshot → ℕ → Result (Unit {0}) RuntimeFailure → Run (RuntimeSnapshot × Bool)
unfolding transition
complete_connect self generation result =
    if not (generation == self.generation) || not (is_connecting self.phase)
    then done (self, false)
    else and_run (transition self (phase_of result) (failure_kept result)) λ next. done (next, true)

unfoldable pub begin_stop : RuntimeSnapshot → Run (RuntimeSnapshot × Option ℕ)
unfolding next_generation
begin_stop self =
    if is_stopped self.phase
    then done (self, none)
    else and_run (next_generation self stopping) λ next. done (next, some next.generation)

unfoldable pub complete_stop : RuntimeSnapshot → ℕ → Run (RuntimeSnapshot × Bool)
unfolding transition
complete_stop self generation =
    if not (generation == self.generation) || not (is_stopping self.phase)
    then done (self, false)
    else and_run (transition self stopped none) λ next. done (next, true)

unfoldable pub fail_online : RuntimeSnapshot → ℕ → RuntimeFailure → Run (RuntimeSnapshot × Bool)
unfolding transition
fail_online self generation failure =
    if not (generation == self.generation) || not (is_online self.phase)
    then done (self, false)
    else and_run (transition self failed (some failure)) λ next. done (next, true)
