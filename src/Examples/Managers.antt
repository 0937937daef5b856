-- ===== src/Examples/Managers.antt =====
-- The lifecycle manager (fact/lifecycle.go) at concrete inputs.
use chat_wire.Common.{ℕ, ◌*◌, ◌≢◌, refl, true, false, none, some, List, [], ◌∷◌, arith}
use chat_wire.Lifecycle.State.{
  starting, running, restart_factorio, stop, change_map, given, LifecycleRequest, Globals, World,
  second,
}
use chat_wire.Lifecycle.Queue.{next_request}
use chat_wire.Lifecycle.Events.{finalize_stopped}
use chat_wire.Lifecycle.Stop.{Poll, StopEnv, exit, tick, execute_stop, wait_for_stop, waiting}
use chat_wire.Lifecycle.Execute.{StartEnv, ExecuteEnv, execute}
use chat_wire.Lifecycle.Checks.{RoundEnv}
use chat_wire.Lifecycle.Invariant.{WellFormed}
use chat_wire.Lifecycle.Induction.{launches}
use chat_wire.Lifecycle.Succession.{AtMostOne, phase_before_start, operating, execute-AtMostOne}
use chat_wire.Lifecycle.Stopping.{StopLeaves, execute_stop-StopLeaves}
use chat_wire.Lifecycle.Choice.{Chosen, next_request-Chosen}
use chat_wire.Lifecycle.Termination.{wait_for_stop-ne-waiting}
use chat_wire.Lifecycle.Crashes.{Counted, finalize_stopped-Counted}
use chat_wire.Lifecycle.Run.{
  Input, progress_event, soft_mod_hello, ready_event, exit_event, request, round, shut_down,
  new_manager, run, start_lifecycle_manager, run-WellFormed,
}

abbrev globals_at_boot : Globals
globals_at_boot = record {
  fact_is_running = false;
  factorio_booted = false;
  factorio_booted_at = 0;
  queue_reboot = false;
  queue_fact_reboot = false;
  do_reboot_cw = false;
  update_in_progress = false;
  mod_operation = false;
  auto_start = true;
  num_players = 0;
  online_players = [];
  factorio_update_pending = false;
  inject_soft_mod = false;
  crash_loop_count = 0;
  last_crash = 0;
  pipe_open = false;
  pipe_generation = 0;
  factorio_cmd = none;
  option_auto_start = true;
  pending_save = "";
  new_map = false;
  relaunch_throttle = 0;
  no_response_count = 0;
}

-- A manager whose second process runs, with a map change waiting behind a stop.
abbrev restart_request : LifecycleRequest
restart_request = record {
  kind = restart_factorio;
  reason = "update";
  save_name = "";
  force_chat_wire_exit = false;
  request_id = given "r1";
  when_empty = false;
  before_exit = none;
  done = true;
  accepted_at = 7;
  save_snapshot = "";
}

abbrev stop_request : LifecycleRequest
stop_request = record restart_request { kind = stop; request_id = given "r2" }

abbrev map_request : LifecycleRequest
map_request = record restart_request {
  kind = change_map;
  request_id = given "r3";
  save_name = "old";
  save_snapshot = "/tmp/old.zip";
}

abbrev running_manager : World
running_manager = record {
  lm = record (new_manager 5) {
    phase = running;
    booted = true;
    current_pid = 4242;
    current_generation = 2;
    started_at = 1 * second;
    ready_at = 9 * second;
    queue = stop_request ∷ map_request ∷ [];
  };
  globals = record globals_at_boot {
    fact_is_running = true;
    factorio_booted = true;
    pipe_open = true;
    pipe_generation = 2;
    num_players = 3;
  };
  effects = [];
}

abbrev starting_manager : World
starting_manager = record running_manager {
  lm = record running_manager.lm { phase = starting; booted = false; started_at = 100 * second };
}

-- The process goes away with the second poll after `/quit`.
abbrev stop_env : StopEnv
stop_env = record {
  start_at = 200 * second;
  quit_at = 200 * second;
  quit_polls =
      record { now = 201 * second; alive = true; signal = tick }
      ∷ record { now = 202 * second; alive = true; signal = exit 2 none }
      ∷ [];
  interrupt_at = 0;
  interrupt_polls = [];
  kill_at = 0;
  kill_polls = [];
}

abbrev start_env : StartEnv
start_env = record {
  now = 210 * second;
  within_hours = none;
  launch_error = none;
  failed_at = 0;
  soft_mod_seen = false;
  pid = 4243;
}

abbrev execute_env : ExecuteEnv
execute_env = record {
  staged = some "/tmp/new.zip";
  stage_error = "";
  token = "t1";
  stop_env = stop_env;
  change_error = none;
  reset_error = none;
  reset_save = "";
  reset_scenario = false;
  exit_hook = true;
  map_name = "main";
  start_env = start_env;
}

abbrev round_env : RoundEnv
round_env = record {
  now = 210 * second;
  alive = true;
  counter = 1;
  hook = true;
  execute_env = execute_env;
}

abbrev some_inputs : List Input
some_inputs =
    round round_env
    ∷ ready_event (215 * second) 1
    ∷ request restart_request
    ∷ exit_event (220 * second) 1 (some "exit status 1")
    ∷ shut_down
    ∷ []

run-WellFormed_example : WellFormed (run some_inputs (start_lifecycle_manager 5 globals_at_boot))
run-WellFormed_example = run-WellFormed 5 globals_at_boot some_inputs

execute-AtMostOne_example :
    AtMostOne
      (launches running_manager.effects)
      2
      (phase_before_start execute_env restart_factorio
        (operating execute_env restart_request running_manager))
      (execute execute_env restart_request running_manager).0
execute-AtMostOne_example = execute-AtMostOne execute_env restart_request running_manager

execute_stop-StopLeaves_example : StopLeaves 2 (execute_stop stop_env running_manager)
execute_stop-StopLeaves_example = execute_stop-StopLeaves stop_env running_manager (omega arith)

next_request-Chosen_example : Chosen running_manager (next_request running_manager)
next_request-Chosen_example = next_request-Chosen running_manager

abbrev quiet_poll : ℕ → Poll
quiet_poll now = record { now = now; alive = true; signal = tick }

wait_for_stop-ne-waiting_example :
    (wait_for_stop
      (quiet_poll (1 * second) ∷ quiet_poll (300 * second) ∷ [])
      2
      (45 * second)
      false
      false
      running_manager).1
    ≢ waiting
wait_for_stop-ne-waiting_example =
    wait_for_stop-ne-waiting (60 * second) 2 (quiet_poll (1 * second) ∷ []) []
      (quiet_poll (300 * second)) (45 * second) false false running_manager (tt, tt) (omega arith)
      (omega arith) (omega arith)

finalize_stopped-Counted_example :
    Counted starting_manager
      (finalize_stopped (150 * second) 2 (some "exit status 1") true starting_manager)
finalize_stopped-Counted_example =
    finalize_stopped-Counted (150 * second) (some "exit status 1") true starting_manager refl
      (ground arith) (omega arith)

-- Reports of the first process, while the second one runs.
abbrev late_reports : List Input
late_reports =
    exit_event (200 * second) 1 none
    ∷ shut_down
    ∷ progress_event (record { generation = 1; kind = "save"; detail = ""; at = 3 })
    ∷ soft_mod_hello 1
    ∷ []
