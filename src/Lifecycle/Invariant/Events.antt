-- ===== src/Lifecycle/Invariant/Events.antt =====
-- The handlers of events keep the invariant.
use chat_wire.Common.{ℕ, Bool, String, true, Option, some, List, arith, if-All, if◌then◌else◌}
use chat_wire.Lifecycle.State.{World, Effect, is_set}
use chat_wire.Lifecycle.Events.{
  ProgressEvent, HealthEvent, handle_progress_event, handle_ready_event, finalize_stopped,
  handle_exit_event, handle_health_event, queue_health_restart, finish_operation_error,
  notify_soft_mod_detected,
}
use chat_wire.Lifecycle.Invariant.{WellFormed, sync_globals-InSync}

pub handle_progress_event-WellFormed :
    (evt : ProgressEvent) (w : World) → WellFormed w → WellFormed (handle_progress_event evt w)
unfolding handle_progress_event
handle_progress_event-WellFormed evt w v = ground arith

pub handle_ready_event-WellFormed :
    (now generation : ℕ) (w : World)
    → WellFormed w
    → WellFormed (handle_ready_event now generation w)
unfolding handle_ready_event
handle_ready_event-WellFormed now generation w v = grind (arith, sync_globals-InSync)

pub finalize_stopped-WellFormed :
    (now generation : ℕ) (err : Option String) (report : Bool) (w : World)
    → WellFormed w
    → WellFormed (finalize_stopped now generation err report w)
unfolding finalize_stopped
finalize_stopped-WellFormed now generation err report w v = grind (arith, sync_globals-InSync)

pub handle_exit_event-WellFormed :
    (now generation : ℕ) (err : Option String) (w : World)
    → WellFormed w
    → WellFormed (handle_exit_event now generation err w)
unfolding handle_exit_event
handle_exit_event-WellFormed now generation err w v =
    ground (arith, finalize_stopped-WellFormed now generation err true w v)

queue_health_restart-WellFormed :
    (now : ℕ) (evt : HealthEvent) (w : World)
    → WellFormed w
    → WellFormed (queue_health_restart now evt w)
unfolding queue_health_restart
queue_health_restart-WellFormed now evt w v = grind (arith, sync_globals-InSync)

-- Fields that the invariant does not read.
noted-WellFormed :
    (err : String) (w : World)
    → WellFormed w
    → WellFormed (record w { lm = record w.lm { last_error = err } })
noted-WellFormed err w v = record { agrees = ground arith; in_sync = ground arith }

pub failed-WellFormed :
    (err : String) (w : World) → WellFormed w → WellFormed (finish_operation_error err w)
failed-WellFormed err w v = record { agrees = ground arith; in_sync = ground arith }

pub emitted-WellFormed :
    (es : List Effect) (w : World) → WellFormed w → WellFormed (record w { effects = es })
emitted-WellFormed es w v = record { agrees = v.agrees; in_sync = v.in_sync }

pub handle_health_event-WellFormed :
    (now : ℕ) (alive : Bool) (evt : HealthEvent) (w : World)
    → WellFormed w
    → WellFormed (handle_health_event now alive evt w)
unfolding handle_health_event
handle_health_event-WellFormed now alive evt w v =
    let noted = noted-WellFormed (if is_set evt.err then evt.err else w.last_error) w v in
    if-All WellFormed _ v (
      if-All WellFormed _ noted (
        if-All WellFormed _
          (finalize_stopped-WellFormed now evt.generation (some evt.kind) true _
            (failed-WellFormed evt.kind _ noted))
          (emitted-WellFormed _ _ (queue_health_restart-WellFormed now evt _ noted))))

pub notify_soft_mod_detected-WellFormed :
    (generation : ℕ) (w : World) → WellFormed w → WellFormed (notify_soft_mod_detected generation w)
unfolding notify_soft_mod_detected
notify_soft_mod_detected-WellFormed generation w v = ground arith
