-- ===== src/Lifecycle/Invariant/Rounds.antt =====
-- Whole requests and rounds of the loop keep the invariant.
use chat_wire.Common.{
  ℕ, Bool, String, true, false, Option, none, some, List, arith, if-All, not, ◌&&◌, ◌||◌, ◌==◌,
}
use chat_wire.Lifecycle.State.{
  World, ActionKind, LifecycleRequest, Effect, start, stop, restart_factorio, restart_chat_wire,
  change_map, map_reset, other, is_set, is_starting, set_autolaunch,
}
use chat_wire.Lifecycle.Queue.{next_request, submit, best_request, take_request}
use chat_wire.Lifecycle.Stop.{Outcome, finished, blocked, execute_stop}
use chat_wire.Lifecycle.Execute.{
  ExecuteEnv, exit_hooked, install_save, begin_operation, swap_map, perform, close_request,
  run_request, is_change_map, request_noop, execute, execute_staged, reset_map,
}
use chat_wire.Lifecycle.Checks.{
  check_soft_mod_after_update, check_startup_timeout, reconcile_process_health, RoundEnv,
  run_checks, run_next, run_round, any_replaces, Round, startup_is_late,
}
use chat_wire.Lifecycle.Induction.{then_after-All, restore_auto-All}
use chat_wire.Lifecycle.Invariant.{WellFormed, sync_globals-InSync}
use chat_wire.Lifecycle.Invariant.Events.{finalize_stopped-WellFormed, failed-WellFormed}
use chat_wire.Lifecycle.Invariant.Requests.{execute_stop-WellFormed, execute_start-WellFormed}

set_autolaunch-WellFormed :
    (enable report : Bool) (w : World) → WellFormed w → WellFormed (set_autolaunch enable report w)
set_autolaunch-WellFormed enable report w v = record {
  agrees = ground arith;
  in_sync = ground arith;
}

exit_hooked-WellFormed :
    (hook : Bool) (r : LifecycleRequest) (w : World)
    → WellFormed w
    → WellFormed (exit_hooked hook r w).0
unfolding exit_hooked
exit_hooked-WellFormed false r w v = v
exit_hooked-WellFormed true r w v = record { agrees = ground arith; in_sync = ground arith }

install_save-WellFormed :
    (err : Option String) (name : String) (w : World)
    → WellFormed w
    → WellFormed (install_save err name w).0
unfolding install_save
install_save-WellFormed none name w v = record { agrees = ground arith; in_sync = ground arith }
install_save-WellFormed (some err) name w v = v

reset_map-WellFormed :
    (err : Option String) (save : String) (scenario : Bool) (w : World)
    → WellFormed w
    → WellFormed (reset_map err save scenario w).0
unfolding reset_map
reset_map-WellFormed none save scenario w v = record {
  agrees = ground arith;
  in_sync = ground arith;
}
reset_map-WellFormed (some err) save scenario w v = v

swap_map-WellFormed :
    (env : ExecuteEnv) (work : World → World × Outcome) (save : String) (w : World)
    → ((u : World) → WellFormed u → WellFormed (work u).0)
    → WellFormed w
    → WellFormed (swap_map env work save w).0
swap_map-WellFormed env work save w keeps v =
    let off = set_autolaunch-WellFormed false false w v in
    let stopped = execute_stop-WellFormed env.stop_env _ off in
    then_after-All WellFormed _ _
      (restore_auto-All WellFormed w.auto_start _
        (then_after-All WellFormed (execute_stop env.stop_env (set_autolaunch false false w)) work
          stopped keeps)
        (set_autolaunch-WellFormed w.auto_start false))
      (λ u vu.
        execute_start-WellFormed env.start_env save _ (set_autolaunch-WellFormed true false u vu))

perform-WellFormed :
    (env : ExecuteEnv) (kind : ActionKind) (r : LifecycleRequest) (w : World)
    → WellFormed w
    → WellFormed (perform env kind r w).0
unfolding perform
perform-WellFormed env start r w v = execute_start-WellFormed env.start_env "" w v
perform-WellFormed env stop r w v = execute_stop-WellFormed env.stop_env w v
perform-WellFormed env restart_factorio r w v =
    then_after-All WellFormed _ _ (execute_stop-WellFormed env.stop_env w v)
      (execute_start-WellFormed env.start_env "")
perform-WellFormed env restart_chat_wire r w v =
    then_after-All WellFormed _ _ (execute_stop-WellFormed env.stop_env w v)
      (exit_hooked-WellFormed env.exit_hook r)
perform-WellFormed env change_map r w v =
    swap_map-WellFormed env _ _ w (install_save-WellFormed env.change_error env.map_name) v
perform-WellFormed env map_reset r w v =
    swap_map-WellFormed env _ _ w
      (reset_map-WellFormed env.reset_error env.reset_save env.reset_scenario) v
perform-WellFormed env (other s) r w v = v

begin_operation-WellFormed :
    (token : String) (r : LifecycleRequest) (w : World)
    → WellFormed w
    → WellFormed (begin_operation token r w)
unfolding begin_operation
begin_operation-WellFormed token r w v = record { agrees = ground arith; in_sync = ground arith }

close_request-WellFormed :
    (started : Bool) (r : LifecycleRequest) (snapshot : String) (o : World × Outcome)
    → WellFormed o.0
    → WellFormed (close_request started r snapshot o).0
unfolding close_request
close_request-WellFormed started r snapshot (w, blocked) v = v
close_request-WellFormed true r snapshot (w, finished none) v = grind (arith, sync_globals-InSync)
close_request-WellFormed false r snapshot (w, finished none) v = grind (arith, sync_globals-InSync)
close_request-WellFormed true r snapshot (w, finished (some e)) v =
    grind (arith, sync_globals-InSync)
close_request-WellFormed false r snapshot (w, finished (some e)) v =
    grind (arith, sync_globals-InSync)

run_request-WellFormed :
    (env : ExecuteEnv) (r : LifecycleRequest) (snapshot : String) (w : World)
    → WellFormed w
    → WellFormed (run_request env r snapshot w).0
unfolding run_request
run_request-WellFormed env r snapshot w v = close_request-WellFormed _ r snapshot _ (
    perform-WellFormed env r.kind r _
      (if-All WellFormed (request_noop w r.kind) v (begin_operation-WellFormed env.token r w v)))

staged-WellFormed :
    (err : String) (es : List Effect) (w : World)
    → WellFormed w
    → WellFormed
        (record w { lm = record w.lm { current_action = none; last_error = err }; effects = es })
staged-WellFormed err es w v = record { agrees = ground arith; in_sync = ground arith }

execute_staged-WellFormed :
    (staged : Option String) (env : ExecuteEnv) (r : LifecycleRequest) (w : World)
    → WellFormed w
    → WellFormed (execute_staged staged env r w).0
unfolding execute_staged
execute_staged-WellFormed (some snapshot) env r w v = run_request-WellFormed env r snapshot w v
execute_staged-WellFormed none env r w v = staged-WellFormed env.stage_error _ w v

-- Executing a request keeps the invariant, whatever the environment does meanwhile.
pub execute-WellFormed :
    (env : ExecuteEnv) (r : LifecycleRequest) (w : World)
    → WellFormed w
    → WellFormed (execute env r w).0
unfolding execute
execute-WellFormed env r w v =
    if-All (λ (o : World × Outcome). WellFormed o.0)
      (is_change_map r.kind && not (is_set r.save_snapshot))
      (execute_staged-WellFormed env.staged env r w v)
      (run_request-WellFormed env r r.save_snapshot w v)

next_request-WellFormed : (w : World) → WellFormed w → WellFormed (next_request w).1
unfolding next_request
next_request-WellFormed w v = go (best_request w 0 w.queue none)
  where
    go : (o : Option (ℕ × LifecycleRequest)) → WellFormed (take_request w o).1
    go none = v
    go (some (i, r)) = grind (arith, sync_globals-InSync)

pub submit-WellFormed :
    (r : LifecycleRequest) (w : World) → WellFormed w → WellFormed (submit r w).1
unfolding submit
submit-WellFormed r w v = grind (arith, sync_globals-InSync)

check_soft_mod-WellFormed :
    (now : ℕ) (w : World) → WellFormed w → WellFormed (check_soft_mod_after_update now w)
unfolding check_soft_mod_after_update
check_soft_mod-WellFormed now w v =
    if-All WellFormed _ v
      (if-All WellFormed (any_replaces w.queue) v (grind (arith, sync_globals-InSync)))

check_startup_timeout-WellFormed :
    (now counter : ℕ) (w : World) → WellFormed w → WellFormed (check_startup_timeout now counter w)
unfolding check_startup_timeout
check_startup_timeout-WellFormed now counter w v =
    if-All WellFormed (not (is_starting w.phase) || w.started_at == 0) v (
      if-All WellFormed (startup_is_late now w)
        (submit-WellFormed _ _ (failed-WellFormed "Factorio startup timed out" w v)) v)

reconcile_process_health-WellFormed :
    (now : ℕ) (alive : Bool) (w : World)
    → WellFormed w
    → WellFormed (reconcile_process_health now alive w).0
unfolding reconcile_process_health
reconcile_process_health-WellFormed now alive w v = ground (
  arith,
  finalize_stopped-WellFormed now w.current_generation (some "factorio process no longer alive")
      true w v,
)

-- A round of the loop keeps the invariant: its checks, and the request that it executes.
pub run_round-WellFormed :
    (env : RoundEnv) (w : World) → WellFormed w → WellFormed (run_round env w).0
unfolding run_round run_checks
run_round-WellFormed env w v = next (next_request (run_checks env w)) (
    next_request-WellFormed _ (
      check_soft_mod-WellFormed env.now _ (
        check_startup_timeout-WellFormed env.now env.counter _
          (reconcile_process_health-WellFormed env.now env.alive w v))))
  where
    next : (o : Option LifecycleRequest × World) → WellFormed o.1 → WellFormed (run_next env o).0
    next (some r, u) vu = unfold run_next in execute-WellFormed env.execute_env r u vu
    next (none, u) vu =
        unfold run_next in
        if-All (λ (o : World × Round). WellFormed o.0) _ (execute-WellFormed env.execute_env _ u vu)
          vu
