-- ===== src/Lifecycle/Run.antt =====
-- The manager over time (fact/lifecycle.go): `StartLifecycleManager`, then any sequence of the inputs
-- that reach it, in any order. Each input is handled under the manager's lock or in its one goroutine.
use chat_wire.Common.{ℕ, String, Bool, true, false, Option, none, List, [], ◌∷◌, arith}
use chat_wire.Lifecycle.State.{
  stopped, LifecycleRequest, Manager, Globals, World, sync_compatibility,
}
use chat_wire.Lifecycle.Queue.{submit, cancel_pending_requests}
use chat_wire.Lifecycle.Events.{
  ProgressEvent, HealthEvent, handle_progress_event, handle_ready_event, handle_exit_event,
  handle_health_event, notify_soft_mod_detected,
}
use chat_wire.Lifecycle.Checks.{RoundEnv, run_round}
use chat_wire.Lifecycle.Invariant.{WellFormed, sync_globals-InSync}
use chat_wire.Lifecycle.Invariant.Events.{
  handle_progress_event-WellFormed, handle_ready_event-WellFormed, handle_exit_event-WellFormed,
  handle_health_event-WellFormed, notify_soft_mod_detected-WellFormed,
}
use chat_wire.Lifecycle.Invariant.Rounds.{submit-WellFormed, run_round-WellFormed}

-- The manager that `StartLifecycleManager` makes.
abbrev pub new_manager : ℕ → Manager
new_manager now = record {
  phase = stopped;
  phase_since = now;
  booted = false;
  current_pid = 0;
  current_generation = 0;
  current_action = none;
  last_error = "";
  started_at = 0;
  ready_at = 0;
  queue = [];
  shutdown_requested = false;
  health_restart_queued = false;
  soft_mod_detected = false;
  soft_mod_update_recovery = false;
  operation_token = "";
  operation_kind = none;
  operation_save_name = "";
  last_progress_at = 0;
  last_progress_kind = "";
}

pub start_lifecycle_manager : ℕ → Globals → World
start_lifecycle_manager now g =
    sync_compatibility (record { lm = new_manager now; globals = g; effects = [] })

-- `StopLifecycleManager`, and the end of the loop that it waits for.
unfoldable pub stop_lifecycle_manager : World → World
stop_lifecycle_manager w =
    cancel_pending_requests (record w { lm = record w.lm { shutdown_requested = true } })

-- What reaches the manager: the events of its channels, a hello of SoftMod, a request, a round of
-- its loop, and the stop of the manager itself.
pub data Input : Type 0 where
  ready_event : ℕ → ℕ → Input
  goodbye_event : ℕ → Input
  exit_event : ℕ → ℕ → Option String → Input
  progress_event : ProgressEvent → Input
  health_event : ℕ → Bool → HealthEvent → Input
  soft_mod_hello : ℕ → Input
  request : LifecycleRequest → Input
  round : RoundEnv → Input
  shut_down : Input

unfoldable pub handle : Input → World → World
handle (ready_event now gen) w = handle_ready_event now gen w
handle (goodbye_event gen) w = w
handle (exit_event now gen err) w = handle_exit_event now gen err w
handle (progress_event evt) w = handle_progress_event evt w
handle (health_event now alive evt) w = handle_health_event now alive evt w
handle (soft_mod_hello gen) w = notify_soft_mod_detected gen w
handle (request r) w = (submit r w).1
handle (round env) w = (run_round env w).0
handle shut_down w = stop_lifecycle_manager w

unfoldable pub run : List Input → World → World
unfolding handle
run [] w = w
run (i ∷ is) w = run is (handle i w)

start-WellFormed : (now : ℕ) (g : Globals) → WellFormed (start_lifecycle_manager now g)
unfolding start_lifecycle_manager
start-WellFormed now g = grind (arith, sync_globals-InSync)

cancel-WellFormed : (w : World) → WellFormed w → WellFormed (stop_lifecycle_manager w)
unfolding cancel_pending_requests stop_lifecycle_manager
cancel-WellFormed w v = grind (arith, sync_globals-InSync)

handle-WellFormed : (i : Input) (w : World) → WellFormed w → WellFormed (handle i w)
unfolding handle
handle-WellFormed (ready_event now gen) w v = handle_ready_event-WellFormed now gen w v
handle-WellFormed (goodbye_event gen) w v = v
handle-WellFormed (exit_event now gen err) w v = handle_exit_event-WellFormed now gen err w v
handle-WellFormed (progress_event evt) w v = handle_progress_event-WellFormed evt w v
handle-WellFormed (health_event now alive evt) w v =
    handle_health_event-WellFormed now alive evt w v
handle-WellFormed (soft_mod_hello gen) w v = notify_soft_mod_detected-WellFormed gen w v
handle-WellFormed (request r) w v = submit-WellFormed r w v
handle-WellFormed (round env) w v = run_round-WellFormed env w v
handle-WellFormed shut_down w v = cancel-WellFormed w v

all-WellFormed : (is : List Input) (w : World) → WellFormed w → WellFormed (run is w)
unfolding run
all-WellFormed [] w v = v
all-WellFormed (i ∷ is) w v = all-WellFormed is (handle i w) (handle-WellFormed i w v)

-- From the start of the manager, after any inputs in any order, the phase agrees with the manager's
-- other fields and the globals agree with the manager: a stopped manager has no process, is not
-- booted and has no start time, a starting one is not booted, a running one is; the globals say that
-- Factorio runs exactly if the phase is not stopped, that it is booted exactly if the manager says
-- so, and that a reboot is queued exactly if the queue holds such a request.
pub run-WellFormed :
    (now : ℕ) (g : Globals) (is : List Input) → WellFormed (run is (start_lifecycle_manager now g))
run-WellFormed now g is = all-WellFormed is _ (start-WellFormed now g)
