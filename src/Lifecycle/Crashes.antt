-- ===== src/Lifecycle/Crashes.antt =====
-- Crashes while starting (fact/lifecycle.go, `finalizeStopped`).
use chat_wire.Common.{ℕ, suc, ◌-◌, ◌*◌, ◌≤◌, ◌<◌, ◌≡◌, ◌≢◌, String, Bool, false, Option, arith}
use chat_wire.Lifecycle.State.{World, starting, second}
use chat_wire.Lifecycle.Events.{finalize_stopped, close_process, count_crash, detach_process}
use chat_wire.Lifecycle.Invariant.{sync_globals-Kept}

-- The counter goes up by one, and automatic starts go off exactly with the third crash in a row.
abbrev pub Counted : World → World → Type 0
Counted w u =
    (u.crash_loop_count ≡ suc w.crash_loop_count)
    × (w.crash_loop_count < 2 → u.auto_start ≡ w.auto_start)
    × (2 ≤ w.crash_loop_count → (u.auto_start ≡ false) × (u.option_auto_start ≡ false))

detach_process-kept :
    (now : ℕ) (err : Option String) (report : Bool) (w : World)
    → ((detach_process now err report w).crash_loop_count ≡ w.crash_loop_count)
      × ((detach_process now err report w).auto_start ≡ w.auto_start)
unfolding detach_process
detach_process-kept now err report w =
    let kept = sync_globals-Kept _ _ in (kept.crash_loop_count, kept.auto_start)

count_crash-Counted :
    (now started : ℕ) (w : World)
    → started ≢ 0
    → now - started < 120 * second
    → Counted w (count_crash now started w)
unfolding count_crash
count_crash-Counted now started w s h = ground arith

-- A process that ends while it starts, within two minutes of its launch, is counted; the third in a
-- row turns automatic starts off in the session and in the configuration, and the first two do not.
pub finalize_stopped-Counted :
    (now : ℕ) (err : Option String) (report : Bool) (w : World)
    → w.phase ≡ starting
    → w.started_at ≢ 0
    → now - w.started_at < 120 * second
    → Counted w (finalize_stopped now w.current_generation err report w)
unfolding finalize_stopped close_process
finalize_stopped-Counted now err report w p s h = ground (
  arith,
  detach_process-kept now err report w,
  count_crash-Counted now w.started_at (detach_process now err report w) s h,
)
