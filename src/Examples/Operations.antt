-- ===== src/Examples/Operations.antt =====
-- The jobs of the web control panel (webcontrol/jobs.go) at concrete inputs.
use chat_wire.Common.{◌≡◌, refl, string_eq, String, true, false, none, some, List, [], ◌∷◌}
use chat_wire.Common.Assoc.{lookup, insert, erase}
use chat_wire.WebControl.Jobs.{
  Job, Jobs, Ask, StartWith, new_job, start_job, known, item, returned, accepted, work,
}
use chat_wire.WebControl.Jobs.Steps.{Step, asked, worked, steps, step}
use chat_wire.WebControl.Jobs.Admission.{Answered, start_job-Answered}
use chat_wire.WebControl.Jobs.Once.{start_job_once}
use chat_wire.WebControl.Jobs.Restart.{
  Found, other, stored, new_jobs, load_files, load_job, valid_id,
}
use chat_wire.WebControl.Jobs.Restart.Ready.{Ready, new_jobs-Ready, restart_once}
use chat_wire.Common.Result.{ok}

abbrev no_digest : String → String
no_digest s = s

abbrev no_jobs : Jobs
no_jobs = record { items = []; keys = []; busy = ""; pending = []; disk = [] }

abbrev restart_ask : Ask
restart_ask = record {
  server = "a";
  actor = "u1";
  action = "factorio-restart";
  key = "k1";
  payload = "{}";
}

abbrev other_ask : Ask
other_ask = record restart_ask { key = "k2"; action = "factorio-stop" }

abbrev first_start : StartWith
first_start = record { repairs = []; saved = true; now = 10; token = "t1" }

abbrev next_start : StartWith
next_start = record { repairs = true ∷ []; saved = true; now = 20; token = "t2" }

abbrev first_job : Job
first_job = new_job no_digest "t1" 10 restart_ask

-- The job's outcome is not saved at first; the next request repairs it.
abbrev between : List Step
between = worked true false "job_t1" (returned (some "done")) 15 ∷ asked next_start other_ask ∷ []

start_job-Answered_example :
    Answered no_digest restart_ask no_jobs (start_job no_digest first_start restart_ask no_jobs)
start_job-Answered_example = start_job-Answered no_digest first_start restart_ask no_jobs

first_job-accepted : (start_job no_digest first_start restart_ask no_jobs).1 ≡ accepted first_job
unfolding start_job lookup
first_job-accepted = refl

next_token-new :
    lookup "job_t2"
      (step no_digest
        (worked true false "job_t1" (returned (some "done")) 15)
        (start_job no_digest first_start restart_ask no_jobs).0).items
    ≡ none
unfolding step start_job lookup work insert
next_token-new = refl

start_job_once_example :
    start_job no_digest next_start restart_ask
      (steps no_digest between (start_job no_digest first_start restart_ask no_jobs).0)
    ≡ (
      steps no_digest between (start_job no_digest first_start restart_ask no_jobs).0,
      known (
          item "job_t1"
            (steps no_digest between (start_job no_digest first_start restart_ask no_jobs).0)),
    )
start_job_once_example =
    start_job_once no_digest first_start next_start restart_ask restart_ask first_job no_jobs
      between first_job-accepted (tt, (next_token-new, tt)) refl

-- The server stops while the job runs, and starts again.
abbrev cut_short : Job
cut_short = record first_job { state = "running"; phase = "executing" }

abbrev job_file : Found
job_file = record {
  file = stored cut_short;
  closed_at = 50;
  closed_saved = true;
  reconnected_at = 50;
  reconnected_saved = true;
}

abbrev note_file : Found
note_file = record job_file { file = other }

abbrev closed_job : Job
closed_job = record cut_short {
  state = "unknown";
  error = "Instance restarted; operation was not replayed.";
  updated_at = 50;
}

abbrev restarted : Jobs
restarted = record {
  items = ("job_t1", closed_job) ∷ [];
  keys = (cut_short.key, "job_t1") ∷ [];
  busy = "";
  pending = [];
  disk = ("job_t1", closed_job) ∷ [];
}

restarted-loaded :
    new_jobs true true (("job_t1", cut_short) ∷ []) (note_file ∷ job_file ∷ note_file ∷ [])
    ≡ ok restarted
unfolding new_jobs load_files load_job valid_id insert erase
restarted-loaded = refl

new_jobs-Ready_example : Ready restarted
new_jobs-Ready_example =
    new_jobs-Ready true true (("job_t1", cut_short) ∷ []) (note_file ∷ job_file ∷ note_file ∷ [])
      restarted restarted-loaded

restart_once_example :
    start_job no_digest next_start restart_ask (steps no_digest [] restarted)
    ≡ (steps no_digest [] restarted, known (item "job_t1" (steps no_digest [] restarted)))
restart_once_example =
    restart_once no_digest true true (("job_t1", cut_short) ∷ []) (note_file ∷ []) job_file
      (note_file ∷ []) cut_short restarted next_start restart_ask [] restarted-loaded refl (tt, tt)
      tt refl
