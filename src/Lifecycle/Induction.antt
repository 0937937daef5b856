-- ===== src/Lifecycle/Induction.antt =====
-- Rules for the loops of fact/lifecycle.go: what the parts of a wait keep, the wait keeps, and what
-- the parts of a stop keep, the stop keeps.
use chat_wire.Common.{
  ℕ, suc, ◌≡◌, refl, arith, String, Bool, true, false, not, ◌&&◌, ltb, none, some, List, [], ◌∷◌,
  ◌++◌, if◌then◌else◌, if-All,
}
use chat_wire.Lifecycle.State.{
  World, Effect, launch, sync_compatibility, is_stopped, set_autolaunch,
}
use chat_wire.Lifecycle.Execute.{then_after, restore_auto}
use chat_wire.Lifecycle.Events.{finalize_stopped}
use chat_wire.Lifecycle.Stop.{
  Signal, Poll, Wait, ended, timed_out, waiting, receive, extend_deadline, wait_for_stop, StopEnv,
  begin_stop, execute_stop, Outcome, finished, blocked, after_kill, after_interrupt, after_quit,
  quit_effects,
}

-- How many launches a trace of effects holds.
abbrev pub launches : List Effect → ℕ
launches [] = 0
launches (launch gen save ∷ es) = suc (launches es)
launches (_ ∷ es) = launches es

quit_effects-launches : (booted : Bool) (w : World) → launches (quit_effects booted w) ≡ 0
quit_effects-launches booted w = ground arith

module _ {κ} (P : World → Type κ) where
  pub wait_for_stop-All :
      (generation : ℕ)
      → ((now : ℕ) (w : World) → P w → P (finalize_stopped now generation none true w))
      → ((now : ℕ) (s : Signal) (seen : Bool) (w : World)
          → P w
          → P (receive now generation s seen w).0)
      → (ps : List Poll) (deadline : ℕ) (seen allow : Bool) (w : World) → P w
      → P (wait_for_stop ps generation deadline seen allow w).0
  unfolding wait_for_stop
  wait_for_stop-All generation close take [] deadline seen allow w v = v
  wait_for_stop-All generation close take (p ∷ ps) deadline seen allow w v =
      let d = extend_deadline w.lm deadline in
      let r = receive p.now generation p.signal seen w in
      let rest = wait_for_stop ps generation d r.1 allow r.0 in
      let gone : World × Wait = (finalize_stopped p.now generation none true w, ended) in
      let received = take p.now p.signal seen w v in
      let Q = λ (o : World × Wait). P o.0 in
      let on_exit : Q (if r.2 then (r.0, ended) else rest) =
        if-All Q r.2 received
          (wait_for_stop-All generation close take ps d r.1 allow r.0 received) in
      let on_time : Q (if ltb d p.now then (w, timed_out) else if r.2 then (r.0, ended) else rest) =
        if-All Q (ltb d p.now) v on_exit in
      if-All Q (allow && seen && not p.alive) {x = gone} (close p.now w v)
        (if-All Q (not p.alive) {x = gone} (close p.now w v) on_time)

  module _
      (wait : (ps : List Poll) (generation deadline : ℕ) (seen allow : Bool) (w : World)
        → P w
        → P (wait_for_stop ps generation deadline seen allow w).0)
      (idle : (w : World)
        → P w
        → P (sync_compatibility (record w { lm = record w.lm { current_action = none } })))
      (begin : (now : ℕ) (w : World) → P w → P (begin_stop now w))
      (emitted : (es : List Effect) (w : World)
        → launches es ≡ 0
        → P w
        → P (record w { effects = w.effects ++ es }))
      (noted : (err : String) (w : World)
        → P w
        → P (record w { lm = record w.lm { last_error = err } })) where
    killed : (o : World × Wait) → P o.0 → P (after_kill o).0
    killed (w, ended) v = v
    killed (w, timed_out) v = noted _ w v
    killed (w, waiting) v = v

    interrupted :
        (env : StopEnv) (gen : ℕ) (o : World × Wait) → P o.0 → P (after_interrupt env gen o).0
    interrupted env gen (w, ended) v = v
    interrupted env gen (w, timed_out) v = killed _ (wait _ gen _ false true _ (emitted _ w refl v))
    interrupted env gen (w, waiting) v = v

    quitted : (env : StopEnv) (gen : ℕ) (o : World × Wait) → P o.0 → P (after_quit env gen o).0
    quitted env gen (w, ended) v = v
    quitted env gen (w, timed_out) v =
        interrupted env gen _ (wait _ gen _ false true _ (emitted _ w refl v))
    quitted env gen (w, waiting) v = v

    pub execute_stop-All : (env : StopEnv) (w : World) → P w → P (execute_stop env w).0
    unfolding execute_stop
    execute_stop-All env w v =
        let w1 = begin_stop env.start_at w in
        if-All (λ (o : World × Outcome). P o.0) (is_stopped w.phase) (idle w v)
          (quitted env w.current_generation _ (
            wait _ w.current_generation _ false false _ (
              emitted (quit_effects w.booted w1) w1 (quit_effects-launches w.booted w1)
                (begin env.start_at w v))))

-- A step after a stop, and the start or exit that follows.
pub then_after-All {κ} :
    (P : World → Type κ) (o : World × Outcome) (k : World → World × Outcome)
    → P o.0
    → ((w : World) → P w → P (k w).0)
    → P (then_after o k).0
then_after-All P (w, finished none) k v go = go w v
then_after-All P (w, finished (some err)) k v go = v
then_after-All P (w, blocked) k v go = v

pub restore_auto-All {κ} :
    (P : World → Type κ) (was_auto : Bool) (o : World × Outcome)
    → P o.0
    → ((w : World) → P w → P (set_autolaunch was_auto false w))
    → P (restore_auto was_auto o).0
restore_auto-All P was_auto (w, finished none) v set = v
restore_auto-All P was_auto (w, finished (some err)) v set = set w v
restore_auto-All P was_auto (w, blocked) v set = v
