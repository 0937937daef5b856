-- ===== src/WebControl/Jobs/Restart.antt =====
-- `NewJobs` of webcontrol/jobs.go: the jobs are read from their files when the server starts, and
-- those that were at work are closed.
pub mod Loading
pub mod Ready
use Prim.Native.Char.{Char, code}
use Prim.Native.String.{len, [] as empty, ◌∷◌ as ◌∷ₜ◌}
use chat_wire.Common.{
  ℕ, ◌≡◌, ◌≢◌, refl, sym, ap, ◌∙◌, arith, String, str_eq, eq_iff, Bool, true, false, not, ◌&&◌,
  ◌||◌, Option, none, some, List, [], ◌∷◌, if◌then◌else◌, string_eq, ltb, leb, ◌==◌, All, if-All,
  if-cases,
}
use chat_wire.Common.Assoc.{Assoc, lookup, insert, lookup-insert, erase-All}
use chat_wire.Common.Result.{Result, ok, err, ◌>>=◌, ◌>>◌, refuse_if, bind-ok, refuse_if-ok, is_ok}
use chat_wire.WebControl.Jobs.{Job, Jobs, save}

-- `ValidID`.
abbrev pub is_id_char : ℕ → Bool
is_id_char c =
    leb 97 c && leb c 122 || leb 65 c && leb c 90 || leb 48 c && leb c 57 || c == 45 || c == 95

pub all_id_chars : String → Bool
all_id_chars empty = true
all_id_chars (c ∷ₜ s) = is_id_char (code c) && all_id_chars s

unfoldable pub valid_id : String → Bool
unfolding all_id_chars
valid_id s = not (len s == 0 || ltb 80 (len s)) && all_id_chars s

pub data LoadError : Type 0 where
  no_directory cannot_read bad_json invalid_job_id cannot_save : LoadError

-- A file of the directory: one that does not end in `.json`, or what reading it gives.
pub data File : Type 0 where
  other unreadable unparsable : File
  stored : Job → File

-- A file with the clock and the disk's answers to the two saves that it may need.
pub record Found : Type 0 where
  pub file : File
  pub closed_at : ℕ
  pub closed_saved : Bool
  pub reconnected_at : ℕ
  pub reconnected_saved : Bool

abbrev pub is_at_work : Job → Bool
is_at_work v =
    str_eq v.state "queued" || str_eq v.state "running" || str_eq v.state "waiting_for_empty"

abbrev pub close_job : ℕ → Job → Job
close_job now v = record v {
  state = "unknown";
  error = "Instance restarted; operation was not replayed.";
  updated_at = now;
}

abbrev pub is_restarted : Job → Bool
is_restarted v = str_eq v.state "waiting_for_restart" && str_eq v.action "chatwire-restart"

abbrev pub reconnect_job : ℕ → Job → Job
reconnect_job now v = record v {
  state = "succeeded";
  phase = "reconnected";
  updated_at = now;
  result = some "{\"status\":\"new ChatWire process started\"}";
}

-- A job that has to change is saved first.
abbrev pub settle : Bool → Bool → Job → Job × Jobs → Result LoadError (Job × Jobs)
settle false saved new (v, j) = ok (v, j)
settle true true new (v, j) = ok (new, save true new j)
settle true false new (v, j) = err cannot_save

abbrev pub put_loaded : Job × Jobs → Jobs
put_loaded (v, j) = record j { items = insert v.id v j.items; keys = insert v.key v.id j.keys }

unfoldable pub load_job : Found → Job → Jobs → Result LoadError Jobs
load_job f v j = do
  refuse_if (not (valid_id v.id)) invalid_job_id
  a ← settle (is_at_work v) f.closed_saved (close_job f.closed_at v) (v, j)
  b ← settle (is_restarted a.0) f.reconnected_saved (reconnect_job f.reconnected_at a.0) a
  ok (put_loaded b)

abbrev pub load_file : Found → File → Jobs → Result LoadError Jobs
load_file f other j = ok j
load_file f unreadable j = err cannot_read
load_file f unparsable j = err bad_json
load_file f (stored v) j = load_job f v j

unfoldable pub load_files : List Found → Jobs → Result LoadError Jobs
load_files [] j = ok j
load_files (f ∷ fs) j = load_file f f.file j >>= λ u. load_files fs u

-- `NewJobs`: whether the directory is made and listed, the disk, and the files in their order.
unfoldable pub new_jobs : Bool → Bool → Assoc String Job → List Found → Result LoadError Jobs
new_jobs made listed disk files = do
  refuse_if (not made) no_directory
  refuse_if (not listed) no_directory
  load_files files (record { items = []; keys = []; busy = ""; pending = []; disk = disk })
