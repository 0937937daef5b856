-- ===== src/Lifecycle/State.antt =====
-- The state of fact/lifecycle.go: `lifecycleManager`, and the globals of the packages fact and glob
-- that it reads and writes. A `time.Time` is its number of nanoseconds, 0 for the zero time.
use chat_wire.Common.{
  ℕ, String, str_eq, Bool, true, false, not, ◌||◌, ◌==◌, Option, none, some, List, [], ◌∷◌, ◌++◌,
  if◌then◌else◌,
}
use mathlib.Core.Bool.{◌&&◌}
use text.Mathlib.Text.{find?}

pub data LifecyclePhase : Type 0 where
  stopped starting running stopping : LifecyclePhase

-- `other` is a string that is none of the constants.
pub data ActionKind : Type 0 where
  start stop restart_factorio restart_chat_wire change_map map_reset : ActionKind
  other : String → ActionKind

-- A request's id: a text that the caller gave, or a number between two texts.
pub data RequestId : Type 0 where
  given : String → RequestId
  numbered : String → ℕ → String → RequestId

-- `lifecycleRequest`, with the fields of `Request`. `before_exit` is the function's presence and the
-- error that it returns; `done` says that the caller waits on a channel.
pub record LifecycleRequest : Type 0 where
  pub kind : ActionKind
  pub reason : String
  pub save_name : String
  pub force_chat_wire_exit : Bool
  pub request_id : RequestId
  pub when_empty : Bool
  pub before_exit : Option (Option String)
  pub done : Bool
  pub accepted_at : ℕ
  pub save_snapshot : String

-- What the manager does to the world outside: the process, the chat and the callers that wait.
pub data Effect : Type 0 where
  send_quit interrupt kill offline_notice warn_players : Effect
  autostart_notice : Bool → Effect
  launch : ℕ → String → Effect
  exit_chat_wire : Bool → Effect
  complete fail progress begin : String → String → String → Effect
  cancel cancel_delayed : String → Effect
  reply : Option String → Effect
  remove_file : String → Effect

pub record Manager : Type 0 where
  pub phase : LifecyclePhase
  pub phase_since : ℕ
  pub booted : Bool
  pub current_pid : ℕ
  pub current_generation : ℕ
  pub current_action : Option ActionKind
  pub last_error : String
  pub started_at : ℕ
  pub ready_at : ℕ
  pub queue : List LifecycleRequest
  pub shutdown_requested : Bool
  pub health_restart_queued : Bool
  pub soft_mod_detected : Bool
  pub soft_mod_update_recovery : Bool
  pub operation_token : String
  pub operation_kind : Option ActionKind
  pub operation_save_name : String
  pub last_progress_at : ℕ
  pub last_progress_kind : String

pub record Globals : Type 0 where
  pub fact_is_running : Bool
  pub factorio_booted : Bool
  pub factorio_booted_at : ℕ
  pub queue_reboot : Bool
  pub queue_fact_reboot : Bool
  pub do_reboot_cw : Bool
  pub update_in_progress : Bool
  pub mod_operation : Bool
  pub auto_start : Bool
  pub num_players : ℕ
  pub online_players : List String
  pub factorio_update_pending : Bool
  pub inject_soft_mod : Bool
  pub crash_loop_count : ℕ
  pub last_crash : ℕ
  pub pipe_open : Bool
  pub pipe_generation : ℕ
  pub factorio_cmd : Option ℕ
  pub option_auto_start : Bool
  pub pending_save : String
  pub new_map : Bool
  pub relaunch_throttle : ℕ
  pub no_response_count : ℕ

pub record World : Type 0 where
  pub lm : Manager
  pub open lm use *
  pub globals : Globals
  pub open globals use *
  pub effects : List Effect

abbrev pub second : ℕ
second = 1000000000

abbrev pub is_stopped : LifecyclePhase → Bool
is_stopped stopped = true
is_stopped _ = false

abbrev pub is_starting : LifecyclePhase → Bool
is_starting starting = true
is_starting _ = false

abbrev pub is_running : LifecyclePhase → Bool
is_running running = true
is_running _ = false

abbrev pub is_stopping : LifecyclePhase → Bool
is_stopping stopping = true
is_stopping _ = false

-- The kinds that go on after the stop: the test `continuing` and `shouldReportOfflineStatus`.
abbrev pub is_follow_up : ActionKind → Bool
is_follow_up start = false
is_follow_up stop = false
is_follow_up (other s) = false
is_follow_up _ = true

abbrev pub kind_is_follow_up : Option ActionKind → Bool
kind_is_follow_up none = false
kind_is_follow_up (some k) = is_follow_up k

-- `s != ""` and `strings.Contains`.
abbrev pub is_set : String → Bool
is_set s = not (str_eq s "")

unfoldable pub contains : String → String → Bool
contains s part = elim (find? s part) [ none ↦ false | some i ↦ true ]

-- One turn of the loop over the queue in `syncCompatibilityLocked`.
pub scan_kind : ActionKind → Bool → Globals → Globals
scan_kind restart_chat_wire true g = record g { queue_reboot = true; do_reboot_cw = true }
scan_kind restart_chat_wire false g = record g { do_reboot_cw = true }
scan_kind restart_factorio true g = record g { queue_fact_reboot = true }
scan_kind _ _ g = g

unfoldable pub scan_queue : List LifecycleRequest → Globals → Globals
unfolding scan_kind
scan_queue [] g = g
scan_queue (r ∷ rs) g = scan_queue rs (scan_kind r.kind r.when_empty g)

-- The globals before the loop over the queue.
abbrev pub reset_flags : Manager → Globals → Globals
reset_flags m g =
    let boot_time =
      if is_stopped m.phase
      then 0
      else if m.started_at == 0
      then g.factorio_booted_at
      else m.started_at in
    record g {
      fact_is_running = is_starting m.phase || is_running m.phase || is_stopping m.phase;
      factorio_booted = m.booted;
      factorio_booted_at = boot_time;
      num_players = if is_stopped m.phase then 0 else g.num_players;
      online_players = if is_stopped m.phase then [] else g.online_players;
      queue_reboot = false;
      queue_fact_reboot = false;
      do_reboot_cw = false;
    }

unfoldable pub sync_globals : Manager → Globals → Globals
sync_globals m g = scan_queue m.queue (reset_flags m g)

-- `syncCompatibilityLocked`.
abbrev pub sync_compatibility : World → World
sync_compatibility w = record w { globals = sync_globals w.lm w.globals }

-- `SetAutolaunch` of fact/util.go: a change of the setting, with a notice where it is reported.
abbrev pub set_autolaunch : Bool → Bool → World → World
set_autolaunch enable report w =
    if (not enable && w.auto_start) || (enable && not w.auto_start)
    then record w {
      globals = record w.globals { auto_start = enable };
      effects = w.effects ++ (if report then autostart_notice enable ∷ [] else []);
    }
    else w

-- `State`, as `currentStateLocked` reports it.
pub record State : Type 0 where
  pub phase : LifecyclePhase
  pub pid : ℕ
  pub booted : Bool
  pub pending_action : Option ActionKind
  pub since : ℕ
  pub last_error : String

pending_kind : Option ActionKind → List LifecycleRequest → Option ActionKind
pending_kind (some k) q = some k
pending_kind none [] = none
pending_kind none (r ∷ rs) = some r.kind

unfoldable pub current_state : Manager → State
unfolding pending_kind
current_state m = record {
  phase = m.phase;
  pid = m.current_pid;
  booted = m.booted;
  pending_action = pending_kind m.current_action m.queue;
  since = m.phase_since;
  last_error = m.last_error;
}
