-- ===== src/Lifecycle/Execute.antt =====
-- The start sequence and the execution of a request (fact/lifecycle.go), and one round of the loop.
use chat_wire.Common.{
  ℕ, ◌+◌, ◌%◌, ◌^◌, String, Bool, true, false, not, ◌&&◌, ◌||◌, Option, none, some, List, [], ◌∷◌,
  ◌++◌, if◌then◌else◌,
}
use Prim.Native.String.{◌++◌ as text_append}
use chat_wire.Lifecycle.State.{
  stopped, starting, ActionKind, start, stop, restart_factorio, restart_chat_wire, change_map,
  map_reset, other, LifecycleRequest, Effect, launch, exit_chat_wire, begin, reply, remove_file,
  World, is_stopped, is_starting, is_running, is_stopping, is_set, sync_compatibility,
  set_autolaunch,
}
use chat_wire.Lifecycle.Events.{operation_title, finish_operation_error}
use chat_wire.Lifecycle.Stop.{StopEnv, Outcome, finished, blocked, execute_stop}

-- What a start meets: the clock, the hook `WithinHours` where there is one, the answer of
-- `LaunchFactorio`, whether SoftMod announced itself during the launch, and the process's id.
pub record StartEnv : Type 0 where
  pub now : ℕ
  pub within_hours : Option Bool
  pub launch_error : Option String
  pub failed_at : ℕ
  pub soft_mod_seen : Bool
  pub pid : ℕ

abbrev pub outside_hours : StartEnv → Bool
outside_hours env = elim env.within_hours [ none ↦ false | some inside ↦ not inside ]

-- `currentGeneration++` on a uint64.
abbrev pub next_generation : ℕ → ℕ
next_generation g = (g + 1) % 2 ^ 64

-- The manager's fields when a launch begins.
pub begin_start : ℕ → World → World
begin_start now w = sync_compatibility (record w {
  lm = record w.lm {
    phase = starting;
    phase_since = now;
    started_at = now;
    last_progress_at = now;
    last_progress_kind = "spawn";
    ready_at = 0;
    booted = false;
    soft_mod_detected = false;
    soft_mod_update_recovery = false;
    current_pid = 0;
    current_generation = next_generation w.current_generation;
  };
})

pub launch_failed : ℕ → String → World → World
launch_failed now err w = sync_compatibility (record w {
  lm = record w.lm {
    phase = stopped;
    phase_since = now;
    started_at = 0;
    current_pid = 0;
    booted = false;
    last_error = err;
  };
})

-- The process runs: the recovery check is armed by a pending update and taken from it, and the
-- process's id is kept.
pub launched : StartEnv → World → World
launched env w = sync_compatibility (record w {
  lm = record w.lm {
    soft_mod_detected = w.soft_mod_detected || env.soft_mod_seen;
    soft_mod_update_recovery =
        w.factorio_update_pending
        && w.inject_soft_mod
        && not (w.soft_mod_detected || env.soft_mod_seen);
    current_pid = env.pid;
  };
  globals = record w.globals {
    factorio_update_pending = false;
    factorio_cmd = some env.pid;
    pipe_open = true;
    pipe_generation = w.current_generation;
  };
})

abbrev pub after_launch : StartEnv → World → World × Outcome
after_launch env w = elim env.launch_error [
  | some err ↦ (launch_failed env.failed_at err w, finished (some err))
  | none ↦ (launched env w, finished none)
]

abbrev pub no_action : World → World
no_action w = record w { lm = record w.lm { current_action = none } }

-- `executeStart`.
unfoldable pub execute_start : StartEnv → String → World → World × Outcome
unfolding begin_start launch_failed launched
execute_start env save w =
    if is_running w.phase || is_starting w.phase
    then (no_action w, finished none)
    else if is_stopping w.phase
    then (w, finished (some "Factorio is still stopping; refusing to launch another process"))
    else if w.update_in_progress || w.mod_operation
    then (no_action w, finished (some "factorio update or mod operation is in progress"))
    else if outside_hours env
    then (no_action w, finished (some "outside allowed play hours"))
    else let w1 = begin_start env.now w in
      after_launch env (record w1 { effects = w.effects ++ launch w1.current_generation save ∷ [] })

-- What a request meets: the snapshot that `stageMapChange` makes or its error, the token of the
-- operation, the stop, the work between stop and start with its error or the name of the save, and
-- the start. `reset_scenario`: a scenario
-- is set. `exit_hook`: the hook `ExitChatWire` is set. `map_name` is `cfg.Local.Name`.
pub record ExecuteEnv : Type 0 where
  pub staged : Option String
  pub stage_error : String
  pub token : String
  pub stop_env : StopEnv
  pub change_error : Option String
  pub reset_error : Option String
  pub reset_save : String
  pub reset_scenario : Bool
  pub exit_hook : Bool
  pub map_name : String
  pub start_env : StartEnv

-- `requestNoop`.
pub request_noop : World → ActionKind → Bool
request_noop w start = is_running w.phase || is_starting w.phase
request_noop w stop = is_stopped w.phase
request_noop w _ = false

-- `beginOperation`; the empty token stands for an operation that was not begun.
unfoldable pub begin_operation : String → LifecycleRequest → World → World
begin_operation token r w = record w {
  lm = record w.lm {
    operation_token = token;
    operation_kind = some r.kind;
    operation_save_name = r.save_name;
  };
  effects = w.effects ++ begin token (operation_title (some r.kind)) r.save_name ∷ [];
}

-- The step after a stop: it runs only when the stop returned no error.
abbrev pub then_after : World × Outcome → (World → World × Outcome) → World × Outcome
then_after (w, finished none) k = k w
then_after (w, finished (some err)) k = (w, finished (some err))
then_after (w, blocked) k = (w, blocked)

unfoldable pub exit_hooked : Bool → LifecycleRequest → World → World × Outcome
exit_hooked false r w = (w, finished none)
exit_hooked true r w = elim r.before_exit [
  | some (some err) ↦ (w, finished (some err))
  | _ ↦ (
    record w { effects = w.effects ++ exit_chat_wire r.force_chat_wire_exit ∷ [] },
    finished none,
  )
]

-- The error path of a map change or reset: automatic starts go back to what they were.
abbrev pub restore_auto : Bool → World × Outcome → World × Outcome
restore_auto was_auto (w, finished none) = (w, finished none)
restore_auto was_auto (w, finished (some err)) =
    (set_autolaunch was_auto false w, finished (some err))
restore_auto was_auto (w, blocked) = (w, blocked)

-- `GenNewMap` in `mapResetAfterStop`: a generated map is the next to load, and `NewMap` says whether a
-- scenario is set.
unfoldable pub reset_map : Option String → String → Bool → World → World × Outcome
reset_map none save scenario w = (
  record w { globals = record w.globals { new_map = scenario; pending_save = save } },
  finished none,
)
reset_map (some err) save scenario w = (w, finished (some err))

-- `doChangeMapAfterStop`: where its file operations succeed, the installed save is the next to load.
unfoldable pub install_save : Option String → String → World → World × Outcome
install_save none name w = (
  record w {
    globals = record w.globals {
      new_map = false;
      pending_save = text_append name "_new.zip";
      relaunch_throttle = 0;
    };
  },
  finished none,
)
install_save (some err) name w = (w, finished (some err))

-- A map change or reset: automatic starts are off during the stop and the work, and go back to what
-- they were if either fails; then they are on, and the save is started.
abbrev pub swap_map : ExecuteEnv → (World → World × Outcome) → String → World → World × Outcome
swap_map env work save w =
    then_after
      (restore_auto w.auto_start
        (then_after (execute_stop env.stop_env (set_autolaunch false false w)) work))
      (λ w2. execute_start env.start_env save (set_autolaunch true false w2))

-- The switch of `execute`.
unfoldable pub perform : ExecuteEnv → ActionKind → LifecycleRequest → World → World × Outcome
unfolding exit_hooked install_save reset_map
perform env start r w = execute_start env.start_env "" w
perform env stop r w = execute_stop env.stop_env w
perform env restart_factorio r w =
    then_after (execute_stop env.stop_env w) (execute_start env.start_env "")
perform env restart_chat_wire r w =
    then_after (execute_stop env.stop_env w) (exit_hooked env.exit_hook r)
perform env change_map r w =
    swap_map env (install_save env.change_error env.map_name) (text_append env.map_name "_new.zip")
      w
perform env map_reset r w =
    swap_map env (reset_map env.reset_error env.reset_save env.reset_scenario) env.reset_save w
perform env (other s) r w = (w, finished (some (text_append "unknown lifecycle action: " s)))

-- The error of a request, where it has one, is the manager's last error and ends its operation.
pub keep_error : Option String → String → String
keep_error none old = old
keep_error (some e) old = e

unfoldable pub report_error : Bool → Option String → World → World
report_error true (some e) w = finish_operation_error e w
report_error _ _ w = w

-- The manager once the action is over.
abbrev pub kept_request : Option String → World → World
unfolding keep_error
kept_request err w = sync_compatibility (record w {
  lm = record w.lm { current_action = none; last_error = keep_error err w.last_error };
})

-- The answer to a waiting caller, and the removal of the snapshot.
unfoldable pub answers : LifecycleRequest → String → Option String → List Effect
answers r snapshot err =
    (if r.done then reply err ∷ [] else [])
    ++ (if is_set snapshot then remove_file snapshot ∷ [] else [])

-- The end of `execute`: the action is over, its error is kept, and the waiting caller is answered.
unfoldable pub close_request : Bool → LifecycleRequest → String → World × Outcome → World × Outcome
unfolding keep_error report_error answers
close_request started r snapshot (w, blocked) = (w, blocked)
close_request started r snapshot (w, finished err) =
    let w1 = report_error started err (kept_request err w) in
    (record w1 { effects = w1.effects ++ answers r snapshot err }, finished err)

pub is_change_map : ActionKind → Bool
is_change_map change_map = true
is_change_map _ = false

unfoldable pub run_request : ExecuteEnv → LifecycleRequest → String → World → World × Outcome
unfolding begin_operation close_request request_noop
run_request env r snapshot w =
    let noop = request_noop w r.kind in
    let w1 = if noop then w else begin_operation env.token r w in
    close_request (not noop) r snapshot (perform env r.kind r w1)

-- The start of `execute` where a map change was queued without a snapshot: it stages one, or fails.
unfoldable pub execute_staged :
    Option String → ExecuteEnv → LifecycleRequest → World → World × Outcome
unfolding run_request
execute_staged (some snapshot) env r w = run_request env r snapshot w
execute_staged none env r w = (
  record w {
    lm = record w.lm { current_action = none; last_error = env.stage_error };
    effects = w.effects ++ (if r.done then reply (some env.stage_error) ∷ [] else []);
  },
  finished (some env.stage_error),
)

-- `execute`.
unfoldable pub execute : ExecuteEnv → LifecycleRequest → World → World × Outcome
unfolding run_request is_change_map execute_staged
execute env r w =
    if is_change_map r.kind && not (is_set r.save_snapshot)
    then execute_staged env.staged env r w
    else run_request env r r.save_snapshot w

-- `shouldAutoStart`; `hook`: `LaunchFactorio` is set.
unfoldable pub should_auto_start : Bool → StartEnv → World → Bool
should_auto_start hook env w =
    is_stopped w.phase
    && w.auto_start
    && not w.update_in_progress
    && not w.mod_operation
    && hook
    && not (outside_hours env)
