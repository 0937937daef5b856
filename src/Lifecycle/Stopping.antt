-- ===== src/Lifecycle/Stopping.antt =====
-- How a stop ends (fact/lifecycle.go, `waitForStop` and `executeStop`).
use chat_wire.Common.{
  ℕ, ◌<◌, ◌≡◌, inl, inr, refl, String, Bool, true, false, not, ◌&&◌, ltb, Option, none, some, List,
  [], ◌∷◌, arith, if◌then◌else◌, if-All, Bool-cases,
}
use chat_wire.Lifecycle.State.{stopped, stopping, World, Effect, is_stopped}
use chat_wire.Lifecycle.Events.{
  finalize_stopped, handle_exit_event, handle_ready_event, handle_progress_event,
}
use chat_wire.Lifecycle.Stop.{
  Signal, exit, goodbye, ready, progressed, tick, Poll, Wait, ended, timed_out, waiting, receive,
  extend_deadline, wait_for_stop, StopEnv, begin_stop, execute_stop, Outcome, finished, blocked,
  after_kill, after_interrupt, after_quit, emit,
}

-- Between two rounds of a wait the phase is `stopping` and the process is the awaited one.
pub record Awaits (generation : ℕ) (w : World) : Type 0 where
  pub still : w.phase ≡ stopping
  pub same : w.current_generation ≡ generation

-- How a wait leaves the phase: stopped if the process ended, and still stopping otherwise.
abbrev pub PhaseAfter : ℕ → World × Wait → Type 0
PhaseAfter generation (w, ended) = w.phase ≡ stopped
PhaseAfter generation (w, timed_out) = Awaits generation w
PhaseAfter generation (w, waiting) = Awaits generation w

finalize_stopped-phase :
    (now generation : ℕ) (err : Option String) (report : Bool) (w : World)
    → w.current_generation ≡ generation
    → (finalize_stopped now generation err report w).phase ≡ stopped
unfolding finalize_stopped
finalize_stopped-phase now generation err report w same = ground arith

-- A round that does not see the exit of the awaited process leaves it awaited.
receive-Awaits :
    (now generation : ℕ) (s : Signal) (seen : Bool) (w : World)
    → 0 < generation
    → Awaits generation w
    → (receive now generation s seen w).2 ≡ false
    → Awaits generation (receive now generation s seen w).0
unfolding receive handle_exit_event
receive-Awaits now generation (exit gen err) seen w pos a other =
    unfold finalize_stopped in ground arith
receive-Awaits now generation (goodbye gen) seen w pos a other = a
receive-Awaits now generation (ready gen) seen w pos a other =
    unfold handle_ready_event in ground arith
receive-Awaits now generation (progressed evt) seen w pos a other =
    unfold handle_progress_event in ground arith
receive-Awaits now generation tick seen w pos a other = a

receive-ended :
    (now generation : ℕ) (s : Signal) (seen : Bool) (w : World)
    → 0 < generation
    → Awaits generation w
    → (receive now generation s seen w).2 ≡ true
    → (receive now generation s seen w).0.phase ≡ stopped
unfolding receive handle_exit_event
receive-ended now generation (exit gen err) seen w pos a same =
    unfold finalize_stopped in ground arith
receive-ended now generation (goodbye gen) seen w pos a same = cc
receive-ended now generation (ready gen) seen w pos a same = cc
receive-ended now generation (progressed evt) seen w pos a same = cc
receive-ended now generation tick seen w pos a same = cc

pub wait_for_stop-PhaseAfter :
    (generation : ℕ) (ps : List Poll) (deadline : ℕ) (seen allow : Bool) (w : World)
    → 0 < generation
    → Awaits generation w
    → PhaseAfter generation (wait_for_stop ps generation deadline seen allow w)
unfolding wait_for_stop
wait_for_stop-PhaseAfter generation [] deadline seen allow w pos a = a
wait_for_stop-PhaseAfter generation (p ∷ ps) deadline seen allow w pos a =
    let d = extend_deadline w.lm deadline in
    let r = receive p.now generation p.signal seen w in
    let rest = wait_for_stop ps generation d r.1 allow r.0 in
    let gone : World × Wait = (finalize_stopped p.now generation none true w, ended) in
    let closed = finalize_stopped-phase p.now generation none true w a.same in
    let Q = PhaseAfter generation in
    let on_exit : Q (if r.2 then (r.0, ended) else rest) = elim (Bool-cases r.2) [
      | inl e ↦ rw e (receive-ended p.now generation p.signal seen w pos a e)
      | inr e ↦ rw e (
          wait_for_stop-PhaseAfter generation ps d r.1 allow r.0 pos
            (receive-Awaits p.now generation p.signal seen w pos a e))
    ] in
    if-All Q (allow && seen && not p.alive) {x = gone} closed
      (if-All Q (not p.alive) {x = gone} closed (if-All Q (ltb d p.now) a on_exit))

-- How `executeStop` leaves the manager: stopped where it returns no error; still stopping, with the
-- same process, where it gives up or is still waiting.
abbrev pub StopLeaves : ℕ → World × Outcome → Type 0
StopLeaves generation (w, finished none) = w.phase ≡ stopped
StopLeaves generation (w, finished (some err)) =
    Awaits generation w × (err ≡ "Factorio stop timed out") × (w.last_error ≡ err)
StopLeaves generation (w, blocked) = Awaits generation w

emitted-Awaits : (es : List Effect) (gen : ℕ) (w : World) → Awaits gen w → Awaits gen (emit es w)
emitted-Awaits es gen w a = record { still = a.still; same = a.same }

after_kill-StopLeaves :
    (gen : ℕ) (o : World × Wait) → PhaseAfter gen o → StopLeaves gen (after_kill o)
after_kill-StopLeaves gen (w, ended) h = h
after_kill-StopLeaves gen (w, timed_out) h = (record { still = h.still; same = h.same }, refl, refl)
after_kill-StopLeaves gen (w, waiting) h = h

after_interrupt-StopLeaves :
    (env : StopEnv) (gen : ℕ) (o : World × Wait)
    → 0 < gen
    → PhaseAfter gen o
    → StopLeaves gen (after_interrupt env gen o)
after_interrupt-StopLeaves env gen (w, ended) pos h = h
after_interrupt-StopLeaves env gen (w, timed_out) pos h =
    after_kill-StopLeaves gen _
      (wait_for_stop-PhaseAfter gen env.kill_polls _ false true _ pos (emitted-Awaits _ gen w h))
after_interrupt-StopLeaves env gen (w, waiting) pos h = h

after_quit-StopLeaves :
    (env : StopEnv) (gen : ℕ) (o : World × Wait)
    → 0 < gen
    → PhaseAfter gen o
    → StopLeaves gen (after_quit env gen o)
after_quit-StopLeaves env gen (w, ended) pos h = h
after_quit-StopLeaves env gen (w, timed_out) pos h =
    after_interrupt-StopLeaves env gen _ pos (
      wait_for_stop-PhaseAfter gen env.interrupt_polls _ false true _ pos
        (emitted-Awaits _ gen w h))
after_quit-StopLeaves env gen (w, waiting) pos h = h

begin_stop-Awaits : (now : ℕ) (w : World) → Awaits w.current_generation (begin_stop now w)
unfolding begin_stop
begin_stop-Awaits now w = record { still = refl; same = refl }

-- Where a process has been started, `execute_stop` returns without an error only with the phase
-- stopped; where it gives up it reports that the stop timed out, and where it gives up or is still
-- waiting the phase is stopping and the generation is that of the process it was to stop.
pub execute_stop-StopLeaves :
    (env : StopEnv) (w : World)
    → 0 < w.current_generation
    → StopLeaves w.current_generation (execute_stop env w)
unfolding execute_stop
execute_stop-StopLeaves env w pos = elim (Bool-cases (is_stopped w.phase)) [
  | inl e ↦ rw e (ground arith)
  | inr e ↦ rw e (
      after_quit-StopLeaves env w.current_generation _ pos (
        wait_for_stop-PhaseAfter w.current_generation env.quit_polls _ false false _ pos
          (emitted-Awaits _ _ _ (begin_stop-Awaits env.start_at w))))
]
