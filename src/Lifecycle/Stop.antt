-- ===== src/Lifecycle/Stop.antt =====
-- The stop sequence (fact/lifecycle.go): `executeStop` and the wait for the process to end. What the
-- environment does during a wait is a list of polls, one for each round of the loop.
use chat_wire.Common.{
  ℕ, ◌+◌, ◌*◌, String, str_eq, Bool, true, false, not, ◌&&◌, ◌||◌, ltb, ◌==◌, Option, none, some,
  List, [], ◌∷◌, ◌++◌, if◌then◌else◌,
}
use chat_wire.Lifecycle.State.{
  stopping, Effect, send_quit, interrupt, kill, warn_players, Manager, World, second, is_stopped,
  sync_compatibility,
}
use chat_wire.Lifecycle.Events.{
  ProgressEvent, handle_progress_event, handle_ready_event, handle_exit_event, finalize_stopped,
}

-- What one `select` of `waitForStop` receives.
pub data Signal : Type 0 where
  exit : ℕ → Option String → Signal
  goodbye : ℕ → Signal
  ready : ℕ → Signal
  progressed : ProgressEvent → Signal
  tick : Signal

-- One round: the clock, `lifecycleProcessAlive()`, and the event received.
pub record Poll : Type 0 where
  pub now : ℕ
  pub alive : Bool
  pub signal : Signal

-- `waiting`: the polls given are used up and the loop has not returned.
pub data Wait : Type 0 where
  ended timed_out waiting : Wait

-- `shouldExtendStopDeadline`.
unfoldable pub should_extend_stop_deadline : String → Bool
should_extend_stop_deadline kind =
    not (str_eq kind "" || str_eq kind "stop-requested" || str_eq kind "spawn")

abbrev pub later : ℕ → ℕ → ℕ
later d candidate = if ltb d candidate then candidate else d

-- The deadline, moved by the last progress: three minutes from a save, twenty seconds from others.
unfoldable pub extend_deadline : Manager → ℕ → ℕ
extend_deadline m deadline =
    if str_eq m.last_progress_kind "save" && not (m.last_progress_at == 0)
    then later deadline (m.last_progress_at + 180 * second)
    else if should_extend_stop_deadline m.last_progress_kind && not (m.last_progress_at == 0)
    then later deadline (m.last_progress_at + 20 * second)
    else deadline

-- The `select`: the world after the event, `goodbyeSeen`, and whether the awaited process exited.
unfoldable pub receive : ℕ → ℕ → Signal → Bool → World → World × Bool × Bool
receive now generation (exit gen err) seen w =
    (handle_exit_event now gen err w, seen, gen == generation)
receive now generation (goodbye gen) seen w = (w, (if gen == generation then true else seen), false)
receive now generation (ready gen) seen w =
    ((if gen == generation then handle_ready_event now gen w else w), seen, false)
receive now generation (progressed evt) seen w = (handle_progress_event evt w, seen, false)
receive now generation tick seen w = (w, seen, false)

-- `waitForStop` from a deadline on.
unfoldable pub wait_for_stop : List Poll → ℕ → ℕ → Bool → Bool → World → World × Wait
wait_for_stop [] generation deadline seen allow w = (w, waiting)
wait_for_stop (p ∷ ps) generation deadline seen allow w =
    let deadline' = extend_deadline w.lm deadline in
    let (w', seen', exited) = receive p.now generation p.signal seen w in
    let rest = wait_for_stop ps generation deadline' seen' allow w' in
    if allow && seen && not p.alive
    then (finalize_stopped p.now generation none true w, ended)
    else if not p.alive
    then (finalize_stopped p.now generation none true w, ended)
    else if ltb deadline' p.now
    then (w, timed_out)
    else if exited
    then (w', ended)
    else rest

-- The environment of a stop: the clock before each of the three waits, and its polls.
pub record StopEnv : Type 0 where
  pub start_at : ℕ
  pub quit_at : ℕ
  pub quit_polls : List Poll
  pub interrupt_at : ℕ
  pub interrupt_polls : List Poll
  pub kill_at : ℕ
  pub kill_polls : List Poll

-- A call that has returned with an error or none, or is still blocked in a wait.
pub data Outcome : Type 0 where
  finished : Option String → Outcome
  blocked : Outcome

abbrev pub emit : List Effect → World → World
emit es w = record w { effects = w.effects ++ es }

-- The last wait, after SIGKILL: the phase stays `stopping` where it times out.
abbrev pub after_kill : World × Wait → World × Outcome
after_kill (w, ended) = (w, finished none)
after_kill (w, waiting) = (w, blocked)
after_kill (w, timed_out) = (
  record w { lm = record w.lm { last_error = "Factorio stop timed out" } },
  finished (some "Factorio stop timed out"),
)

abbrev pub after_interrupt : StopEnv → ℕ → World × Wait → World × Outcome
after_interrupt env gen (w, ended) = (w, finished none)
after_interrupt env gen (w, waiting) = (w, blocked)
after_interrupt env gen (w, timed_out) =
    after_kill
      (wait_for_stop env.kill_polls gen (env.kill_at + 5 * second) false true (emit (kill ∷ []) w))

abbrev pub after_quit : StopEnv → ℕ → World × Wait → World × Outcome
after_quit env gen (w, ended) = (w, finished none)
after_quit env gen (w, waiting) = (w, blocked)
after_quit env gen (w, timed_out) = after_interrupt env gen (
    wait_for_stop env.interrupt_polls gen (env.interrupt_at + 20 * second) false true
      (emit (interrupt ∷ []) w))

-- The state in which the stop begins.
unfoldable pub begin_stop : ℕ → World → World
begin_stop now w =
    let w1 = sync_compatibility (record w {
      lm = record w.lm {
        phase = stopping;
        phase_since = now;
        last_progress_at = now;
        last_progress_kind = "stop-requested";
      };
    }) in
    record w1 { globals = record w1.globals { relaunch_throttle = 0; no_response_count = 0 } }

-- The warning to the players, and `/quit`.
abbrev pub quit_effects : Bool → World → List Effect
quit_effects booted w =
    (if booted && ltb 0 w.num_players then warn_players ∷ [] else [])
    ++ (if booted && w.fact_is_running then send_quit ∷ [] else [])

-- `executeStop`.
unfoldable pub execute_stop : StopEnv → World → World × Outcome
unfolding begin_stop wait_for_stop
execute_stop env w =
    if is_stopped w.phase
    then (
      sync_compatibility (record w { lm = record w.lm { current_action = none } }),
      finished none,
    )
    else let w1 = begin_stop env.start_at w in
      after_quit env w.current_generation (
        wait_for_stop env.quit_polls w.current_generation (env.quit_at + 45 * second) false false
          (emit (quit_effects w.booted w1) w1))
