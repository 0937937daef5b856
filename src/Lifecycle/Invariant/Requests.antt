-- ===== src/Lifecycle/Invariant/Requests.antt =====
-- Stops, starts and whole requests keep the invariant.
use chat_wire.Common.{ℕ, Bool, String, true, none, List, ◌++◌, arith}
use chat_wire.Lifecycle.State.{World, sync_compatibility}
use chat_wire.Lifecycle.Stop.{
  Signal, exit, goodbye, ready, progressed, tick, Poll, receive, wait_for_stop, StopEnv, begin_stop,
  execute_stop,
}
use chat_wire.Lifecycle.Execute.{StartEnv, execute_start}
use chat_wire.Lifecycle.Invariant.{WellFormed, sync_globals-InSync}
use chat_wire.Lifecycle.Induction.{wait_for_stop-All, execute_stop-All}
use chat_wire.Lifecycle.Invariant.Events.{
  handle_progress_event-WellFormed, handle_ready_event-WellFormed, finalize_stopped-WellFormed,
  handle_exit_event-WellFormed, emitted-WellFormed,
}

receive-WellFormed :
    (now generation : ℕ) (s : Signal) (seen : Bool) (w : World)
    → WellFormed w
    → WellFormed (receive now generation s seen w).0
unfolding receive
receive-WellFormed now generation (exit gen err) seen w v =
    handle_exit_event-WellFormed now gen err w v
receive-WellFormed now generation (goodbye gen) seen w v = v
receive-WellFormed now generation (ready gen) seen w v =
    ground (arith, handle_ready_event-WellFormed now gen w v)
receive-WellFormed now generation (progressed evt) seen w v =
    handle_progress_event-WellFormed evt w v
receive-WellFormed now generation tick seen w v = v

pub wait_for_stop-WellFormed :
    (ps : List Poll) (generation deadline : ℕ) (seen allow : Bool) (w : World)
    → WellFormed w
    → WellFormed (wait_for_stop ps generation deadline seen allow w).0
wait_for_stop-WellFormed ps generation =
    wait_for_stop-All WellFormed generation
      (λ now w. finalize_stopped-WellFormed now generation none true w)
      (λ now s seen w. receive-WellFormed now generation s seen w) ps

pub execute_start-WellFormed :
    (env : StartEnv) (save : String) (w : World)
    → WellFormed w
    → WellFormed (execute_start env save w).0
unfolding execute_start
execute_start-WellFormed env save w v = grind (arith, sync_globals-InSync)

pub begin_stop-WellFormed : (now : ℕ) (w : World) → WellFormed w → WellFormed (begin_stop now w)
unfolding begin_stop
begin_stop-WellFormed now w v = grind (arith, sync_globals-InSync)

stop_idle-WellFormed :
    (w : World)
    → WellFormed w
    → WellFormed (sync_compatibility (record w { lm = record w.lm { current_action = none } }))
stop_idle-WellFormed w v = grind (arith, sync_globals-InSync)

timed_out-WellFormed :
    (err : String) (w : World)
    → WellFormed w
    → WellFormed (record w { lm = record w.lm { last_error = err } })
timed_out-WellFormed err w v = record { agrees = ground arith; in_sync = ground arith }

pub execute_stop-WellFormed :
    (env : StopEnv) (w : World) → WellFormed w → WellFormed (execute_stop env w).0
execute_stop-WellFormed =
    execute_stop-All WellFormed wait_for_stop-WellFormed stop_idle-WellFormed begin_stop-WellFormed
      (λ es w quiet. emitted-WellFormed (w.effects ++ es) w) timed_out-WellFormed
