-- ===== src/Lifecycle/Termination.antt =====
-- The wait for a stop ends (fact/lifecycle.go, `waitForStop`).
use chat_wire.Common.{
  ℕ, ◌+◌, ◌*◌, ◌≤◌, ◌<◌, ◌≢◌, Bool, true, not, ◌&&◌, ltb, none, List, [], ◌∷◌, ◌++◌, arith,
  if◌then◌else◌, if-All, All,
}
use chat_wire.Lifecycle.State.{Manager, World, second}
use chat_wire.Lifecycle.Events.{
  finalize_stopped, handle_exit_event, handle_ready_event, handle_progress_event,
}
use chat_wire.Lifecycle.Stop.{
  Signal, exit, goodbye, ready, progressed, tick, Poll, Wait, ended, waiting, receive,
  extend_deadline, wait_for_stop,
}

-- No progress that a round receives is later than this time.
abbrev pub ProgressBy : ℕ → Signal → Type 0
ProgressBy t (progressed evt) = evt.at ≤ t
ProgressBy t _ = Unit {0}

abbrev pub PollBy : ℕ → Poll → Type 0
PollBy t p = ProgressBy t p.signal

-- The longest extension, that of a save.
abbrev pub save_time : ℕ
save_time = 180 * second

extend_deadline-le :
    (m : Manager) (deadline t : ℕ)
    → m.last_progress_at ≤ t
    → deadline ≤ t + save_time
    → extend_deadline m deadline ≤ t + save_time
unfolding extend_deadline
extend_deadline-le m deadline t h k = ground arith

receive-progress :
    (t now generation : ℕ) (s : Signal) (seen : Bool) (w : World)
    → ProgressBy t s
    → w.last_progress_at ≤ t
    → (receive now generation s seen w).0.last_progress_at ≤ t
unfolding receive handle_exit_event
receive-progress t now generation (exit gen err) seen w b h =
    unfold finalize_stopped in ground arith
receive-progress t now generation (goodbye gen) seen w b h = h
receive-progress t now generation (ready gen) seen w b h = unfold handle_ready_event in ground arith
receive-progress t now generation (progressed evt) seen w b h =
    unfold handle_progress_event in ground arith
receive-progress t now generation tick seen w b h = h

-- A wait returns, with or without the process's end, at the latest at the first round whose clock is
-- more than three minutes past both the last progress and the deadline: the conditions are that no
-- progress is reported later than `t`, and that the deadline is at most three minutes behind `t`.
pub wait_for_stop-ne-waiting :
    (t generation : ℕ) (ps qs : List Poll) (p : Poll) (deadline : ℕ) (seen allow : Bool) (w : World)
    → All (PollBy t) ps
    → w.last_progress_at ≤ t
    → deadline ≤ t + save_time
    → t + save_time < p.now
    → (wait_for_stop (ps ++ (p ∷ qs)) generation deadline seen allow w).1 ≢ waiting
unfolding wait_for_stop
wait_for_stop-ne-waiting t generation [] qs p deadline seen allow w bs h k late =
    ground (arith, extend_deadline-le w.lm deadline t h k)
wait_for_stop-ne-waiting t generation (o ∷ ps) qs p deadline seen allow w bs h k late =
    let d = extend_deadline w.lm deadline in
    let r = receive o.now generation o.signal seen w in
    let rest = wait_for_stop (ps ++ (p ∷ qs)) generation d r.1 allow r.0 in
    let gone : World × Wait = (finalize_stopped o.now generation none true w, ended) in
    let Q = λ (x : World × Wait). x.1 ≢ waiting in
    let on_exit : Q (if r.2 then (r.0, ended) else rest) =
      if-All Q r.2 (λ e. cc)
        (wait_for_stop-ne-waiting t generation ps qs p d r.1 allow r.0 bs.1
          (receive-progress t o.now generation o.signal seen w bs.0 h)
          (extend_deadline-le w.lm deadline t h k) late) in
    if-All Q (allow && seen && not o.alive) {x = gone} (λ e. cc)
      (if-All Q (not o.alive) {x = gone} (λ e. cc) (if-All Q (ltb d o.now) (λ e. cc) on_exit))
