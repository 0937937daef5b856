-- ===== src/Lifecycle/Events.antt =====
-- The handlers of asynchronous events (fact/lifecycle.go). `now` is the time that the handler reads,
-- `alive` what `lifecycleProcessAlive` answers. A handler whose generation is stale does nothing.
use chat_wire.Common.{
  ℕ, ◌+◌, ◌-◌, ◌*◌, String, Bool, true, false, not, ◌&&◌, ◌||◌, ltb, leb, ◌==◌, str_eq, Option,
  none, some, List, [], ◌∷◌, ◌++◌, if◌then◌else◌,
}
use Prim.Native.String.{◌++◌ as text_append}
use chat_wire.Lifecycle.State.{
  stopped, running, ActionKind, start, stop, restart_factorio, restart_chat_wire, change_map,
  map_reset, other, LifecycleRequest, numbered, Effect, complete, fail, progress, cancel,
  cancel_delayed, offline_notice, Manager, World, second, is_stopped, is_starting, is_running,
  is_stopping, kind_is_follow_up, is_set, contains, sync_compatibility, set_autolaunch,
}

pub record ProgressEvent : Type 0 where
  pub generation : ℕ
  pub kind : String
  pub detail : String
  pub at : ℕ

pub record HealthEvent : Type 0 where
  pub generation : ℕ
  pub kind : String
  pub err : String

-- `lifecycleOperationTitle`; the zero kind has the default title.
abbrev pub operation_title : Option ActionKind → String
operation_title none = "Operation"
operation_title (some start) = "Starting Factorio"
operation_title (some stop) = "Stopping Factorio"
operation_title (some restart_factorio) = "Restarting Factorio"
operation_title (some restart_chat_wire) = "Restarting ChatWire"
operation_title (some change_map) = "Changing Map"
operation_title (some map_reset) = "Resetting Map"
operation_title (some (other s)) = "Operation"

abbrev pub clear_operation : Manager → Manager
clear_operation m = record m {
  operation_token = "";
  operation_kind = none;
  operation_save_name = "";
}

-- `finishOperationError` on an error.
abbrev pub finish_operation_error : String → World → World
finish_operation_error err w = record w {
  lm = clear_operation w.lm;
  effects = w.effects ++ fail w.operation_token (operation_title w.operation_kind) err ∷ [];
}

-- The switch of `handleProgressEvent`: the status line that it schedules, named by the event's kind.
unfoldable pub progress_effects : String → Option ActionKind → String → List Effect
progress_effects token op kind =
    if str_eq kind "mod-load"
      || str_eq kind "map-load"
      || str_eq kind "save"
      || str_eq kind "rcon-ready"
    then progress token (operation_title op) kind ∷ []
    else []

-- `handleProgressEvent`.
unfoldable pub handle_progress_event : ProgressEvent → World → World
unfolding progress_effects
handle_progress_event evt w =
    if not (evt.generation == w.current_generation) || evt.generation == 0 then w else record w {
      lm = record w.lm { last_progress_at = evt.at; last_progress_kind = evt.kind };
      effects = w.effects ++ progress_effects w.operation_token w.operation_kind evt.kind;
    }

-- The switch at the end of `handleReadyEvent`.
unfoldable pub complete_ready : String → Option ActionKind → String → List Effect
complete_ready token (some start) save = complete token "" "" ∷ []
complete_ready token (some restart_factorio) save = complete token "" "" ∷ []
complete_ready token (some change_map) save =
    let desc =
      if is_set save
      then text_append "Map change to " (text_append save " complete.")
      else "Map change complete." in
    complete token "Changing Map" desc ∷ []
complete_ready token (some map_reset) save =
    complete token "Resetting Map" "Map reset complete." ∷ []
complete_ready token _ save = []

-- `handleReadyEvent`; the wait for the version text and the chat lines are not state.
unfoldable pub handle_ready_event : ℕ → ℕ → World → World
handle_ready_event now generation w =
    if not (generation == w.current_generation) || not (is_starting w.phase)
    then w
    else let w' = sync_compatibility (record w {
      lm = record w.lm { phase = running; phase_since = now; booted = true; ready_at = now };
    }) in
      record w' {
        lm = clear_operation w'.lm;
        globals = record w'.globals { pending_save = ""; new_map = false; crash_loop_count = 0 };
        effects =
            w.effects ++ complete_ready w.operation_token w.operation_kind w.operation_save_name;
      }

-- `shouldReportOfflineStatus`.
unfoldable pub should_report_offline : Option ActionKind → Option String → Bool
should_report_offline k (some err) = true
should_report_offline k none = not (kind_is_follow_up k)

-- The text of an exit error that is kept: one that is not the manager's own SIGKILL.
unfoldable pub kept_error : Option String → Option String
kept_error none = none
kept_error (some err) = if contains err "signal: killed" then none else some err

abbrev pub or_else : Option String → String → String
or_else none d = d
or_else (some s) d = s

is_stop_kind : Option ActionKind → Bool
is_stop_kind (some stop) = true
is_stop_kind _ = false

is_change_map_kind : Option ActionKind → Bool
is_change_map_kind (some change_map) = true
is_change_map_kind _ = false

is_some : Option String → Bool
is_some none = false
is_some (some s) = true

-- The description under which `finalizeStopped` fails the operation.
pub stop_description : Bool → Option String → Option ActionKind → String → String
unfolding is_change_map_kind
stop_description was_starting exit_err op_kind save =
    let desc =
      if was_starting
      then "Factorio stopped before startup completed."
      else "Factorio stopped unexpectedly." in
    if is_change_map_kind op_kind && is_set save && was_starting
    then text_append "Map change to " (text_append save " did not complete.")
    else or_else (kept_error exit_err) desc

-- The calls on the operation after the lock is released.
unfoldable pub stopped_effects : Manager → Bool → Bool → Option String → List Effect
unfolding stop_description is_stop_kind is_some
stopped_effects m continuing was_starting exit_err =
    if not (is_set m.operation_token)
    then []
    else cancel_delayed m.operation_token
      ∷ ((if not (is_some exit_err) && is_stop_kind m.operation_kind
            then cancel m.operation_token ∷ []
            else [])
          ++ (if not continuing && (was_starting || is_some exit_err)
              then fail m.operation_token (operation_title m.operation_kind)
                  (stop_description was_starting exit_err m.operation_kind m.operation_save_name)
                ∷ []
              else []))

-- The crash counter: a process that ends while starting within two minutes counts, and the third in
-- a row turns automatic starts off.
unfoldable pub count_crash : ℕ → ℕ → World → World
count_crash now started w =
    let count =
      if not (started == 0) && ltb (now - started) (120 * second)
      then w.crash_loop_count + 1
      else 0 in
    let w' = record w {
      globals = record w.globals { crash_loop_count = count; last_crash = now };
    } in
    let off = set_autolaunch false true w' in
    if leb 3 count
    then record off { globals = record off.globals { option_auto_start = false } }
    else w'

-- The phase is `stopping` and the operation goes on with a start or an exit.
abbrev pub is_continuing : Manager → Bool
is_continuing m = is_stopping m.phase && kind_is_follow_up m.operation_kind

-- The manager's fields after `finalizeStopped`.
abbrev pub stopped_manager : ℕ → Option String → Manager → Manager
stopped_manager now exit_err m = record m {
  phase = stopped;
  phase_since = now;
  booted = false;
  started_at = 0;
  ready_at = 0;
  last_progress_at = 0;
  last_progress_kind = "";
  health_restart_queued = false;
  soft_mod_update_recovery = false;
  operation_token = if is_continuing m then m.operation_token else "";
  operation_kind = if is_continuing m then m.operation_kind else none;
  operation_save_name = if is_continuing m then m.operation_save_name else "";
  current_pid = 0;
  current_action = none;
  last_error = or_else (kept_error exit_err) m.last_error;
}

-- `finalizeStopped` past its guards, up to the crash counter: an unfinished check of SoftMod goes
-- to the next launch, the pipe and the command are dropped, and the chat is told.
unfoldable pub detach_process : ℕ → Option String → Bool → World → World
detach_process now exit_err report w =
    let pending = w.soft_mod_update_recovery || w.factorio_update_pending in
    let w1 = sync_compatibility (record w {
      lm = stopped_manager now exit_err w.lm;
      globals = record w.globals { factorio_update_pending = pending };
    }) in
    let offline =
      if report
        && (is_running w.phase || w.booted)
        && should_report_offline w.operation_kind exit_err
      then offline_notice ∷ []
      else [] in
    record w1 {
      globals = record w1.globals { pipe_open = false; pipe_generation = 0; factorio_cmd = none };
      effects = w.effects ++ offline;
    }

-- `finalizeStopped` past its guards.
unfoldable pub close_process : ℕ → Option String → Bool → World → World
unfolding count_crash stopped_effects detach_process
close_process now exit_err report w =
    let w2 = detach_process now exit_err report w in
    let w3 = if is_starting w.phase then count_crash now w.started_at w2 else w2 in
    record w3 {
      effects =
          w3.effects ++ stopped_effects w.lm (is_continuing w.lm) (is_starting w.phase) exit_err;
    }

-- `finalizeStopped`.
unfoldable pub finalize_stopped : ℕ → ℕ → Option String → Bool → World → World
unfolding close_process
finalize_stopped now generation exit_err report w =
    if not (generation == w.current_generation) && not (generation == 0)
    then w
    else if is_stopped w.phase
    then w
    else close_process now exit_err report w

-- `handleExitEvent`.
unfoldable pub handle_exit_event : ℕ → ℕ → Option String → World → World
handle_exit_event now generation err w =
    if generation == 0 then w else finalize_stopped now generation err true w

health_request : ℕ → HealthEvent → LifecycleRequest
health_request now evt = record {
  kind = restart_factorio;
  reason =
      text_append "Factorio health issue detected ("
        (text_append evt.kind (text_append "): " evt.err));
  save_name = "";
  force_chat_wire_exit = false;
  request_id = numbered "health-" evt.generation (text_append "-" evt.kind);
  when_empty = false;
  before_exit = none;
  done = false;
  accepted_at = now;
  save_snapshot = "";
}

-- The branch of a live process: one restart is queued until the process stops.
unfoldable pub queue_health_restart : ℕ → HealthEvent → World → World
unfolding health_request
queue_health_restart now evt w =
    if w.health_restart_queued
    then w
    else sync_compatibility (record w {
      lm = record w.lm {
        queue = w.queue ++ health_request now evt ∷ [];
        health_restart_queued = true;
      };
    })

abbrev pub keep_health_error : HealthEvent → World → World
keep_health_error evt w = record w {
  lm = record w.lm { last_error = if is_set evt.err then evt.err else w.last_error };
}

abbrev pub report_health : HealthEvent → World → World
report_health evt w = record w {
  effects =
      w.effects ++ progress w.operation_token (operation_title w.operation_kind) evt.kind ∷ [];
}

-- `handleHealthEvent`: a dead process is closed, a live one is restarted, once.
unfoldable pub handle_health_event : ℕ → Bool → HealthEvent → World → World
unfolding queue_health_restart
handle_health_event now alive evt w =
    if evt.generation == 0 || not (evt.generation == w.current_generation)
    then w
    else if is_stopping w.phase || is_stopped w.phase
    then keep_health_error evt w
    else if not alive
    then finalize_stopped now evt.generation (some evt.kind) true
        (finish_operation_error evt.kind (keep_health_error evt w))
    else report_health evt (queue_health_restart now evt (keep_health_error evt w))

-- `NotifySoftModDetected`.
unfoldable pub notify_soft_mod_detected : ℕ → World → World
notify_soft_mod_detected generation w =
    if not (generation == 0) && generation == w.current_generation
    then record w {
      lm = record w.lm { soft_mod_detected = true; soft_mod_update_recovery = false };
    }
    else w
