-- ===== src/Lifecycle/Checks.antt =====
-- The checks that each round of the loop makes (fact/lifecycle.go), and the round itself.
use chat_wire.Common.{
  ℕ, ◌-◌, ◌*◌, String, Bool, true, false, not, ◌&&◌, ◌||◌, ltb, ◌==◌, Option, none, some, List, [],
  ◌∷◌, ◌++◌, if◌then◌else◌,
}
use chat_wire.Lifecycle.State.{
  ActionKind, start, other, restart_factorio, RequestId, numbered, LifecycleRequest, World, second,
  is_stopped, is_starting, is_running, sync_compatibility,
}
use chat_wire.Lifecycle.Queue.{next_request, submit}
use chat_wire.Lifecycle.Events.{HealthEvent, finish_operation_error, finalize_stopped}
use chat_wire.Lifecycle.Stop.{Outcome}
use chat_wire.Lifecycle.Execute.{ExecuteEnv, execute, should_auto_start}

-- A request that the manager makes itself: nobody waits for it.
pub own_request : ActionKind → String → RequestId → ℕ → LifecycleRequest
own_request kind reason id now = record {
  kind = kind;
  reason = reason;
  save_name = "";
  force_chat_wire_exit = false;
  request_id = id;
  when_empty = false;
  before_exit = none;
  done = false;
  accepted_at = now;
  save_snapshot = "";
}

-- The test of the loop over the queue in `checkSoftModAfterUpdate`.
pub replaces_process : ActionKind → Bool
replaces_process start = false
replaces_process (other s) = false
replaces_process _ = true

unfoldable pub any_replaces : List LifecycleRequest → Bool
unfolding replaces_process
any_replaces [] = false
any_replaces (r ∷ rs) = replaces_process r.kind || any_replaces rs

-- `checkSoftModAfterUpdate`.
unfoldable pub check_soft_mod_after_update : ℕ → World → World
unfolding own_request
check_soft_mod_after_update now w =
    if not w.soft_mod_update_recovery
      || w.soft_mod_detected
      || not w.inject_soft_mod
      || not (is_running w.phase)
      || not w.booted
      || w.ready_at == 0
      || ltb (now - w.ready_at) (30 * second)
      || w.update_in_progress
      || w.mod_operation
      || w.shutdown_requested
    then w
    else if any_replaces w.queue
    then w
    else sync_compatibility (record w {
      lm = record w.lm {
        soft_mod_update_recovery = false;
        queue =
            w.queue
            ++ own_request restart_factorio
                "SoftMod missing after Factorio update; rebooting to restore it."
                (numbered "softmod-update-recovery-" w.current_generation "") now
              ∷ [];
      };
    })

-- The start-up is late: fifteen minutes in all, or two minutes without progress.
pub startup_is_late : ℕ → World → Bool
startup_is_late now w =
    ltb (900 * second) (now - w.started_at)
    || ltb (120 * second)
        (now - (if w.last_progress_at == 0 then w.started_at else w.last_progress_at))

-- `checkStartupTimeout`; `counter` is the number drawn for the request's id.
unfoldable pub check_startup_timeout : ℕ → ℕ → World → World
unfolding own_request startup_is_late
check_startup_timeout now counter w =
    if not (is_starting w.phase) || w.started_at == 0
    then w
    else if startup_is_late now w
    then (submit
        (own_request restart_factorio "Factorio startup timed out; forcing restart."
          (numbered "startup-timeout-" counter "") now)
        (finish_operation_error "Factorio startup timed out" w)).1
    else w

-- `reconcileProcessHealth`: a process that is gone is closed. The notice of a missing pipe goes
-- through the channel of health events, so it is the second part of the result.
unfoldable pub reconcile_process_health : ℕ → Bool → World → World × Option HealthEvent
reconcile_process_health now alive w =
    if is_stopped w.phase || w.current_generation == 0
    then (w, none)
    else if not alive
    then (
      finalize_stopped now w.current_generation (some "factorio process no longer alive") true w,
      none,
    )
    else if (is_starting w.phase || is_running w.phase) && not w.pipe_open
    then (
      w,
      some (record {
        generation = w.current_generation;
        kind = "stdin-missing";
        err = "factorio stdin pipe is not available";
      }),
    )
    else (w, none)

-- What a round of `run` meets after its events are drained: the clock, the process, the number for a
-- request's id, the hook `LaunchFactorio`, and the environment of the request that it executes.
pub record RoundEnv : Type 0 where
  pub now : ℕ
  pub alive : Bool
  pub counter : ℕ
  pub hook : Bool
  pub execute_env : ExecuteEnv

pub data Round : Type 0 where
  executed : Outcome → Round
  idle : Round

-- The checks, in their order. The health event that they post is drained in the next round.
unfoldable pub run_checks : RoundEnv → World → World
unfolding reconcile_process_health check_startup_timeout check_soft_mod_after_update
run_checks env w =
    check_soft_mod_after_update env.now
      (check_startup_timeout env.now env.counter (reconcile_process_health env.now env.alive w).0)

unfoldable pub run_next : RoundEnv → Option LifecycleRequest × World → World × Round
unfolding own_request
run_next env (some r, w) = let (w', outcome) = execute env.execute_env r w in (w', executed outcome)
run_next env (none, w) =
    let r = own_request start "auto-start" (numbered "auto-" env.counter "") env.now in
    let auto = execute env.execute_env r w in
    if should_auto_start env.hook env.execute_env.start_env w
    then (auto.0, executed auto.1)
    else (w, idle)

-- One round of `run` after `drainAsyncEvents`: a request of the queue, or an automatic start, or
-- nothing to do until the next signal.
unfoldable pub run_round : RoundEnv → World → World × Round
unfolding run_checks run_next
run_round env w = run_next env (next_request (run_checks env w))
