-- ===== src/WebControl/Jobs/Restart/Ready.antt =====
-- The jobs after a restart of the server (webcontrol/jobs.go).
use mathlib.Core.Path.{subst}
use chat_wire.Common.{
  eq_iff, ◌≡◌, refl, sym, ap, ◌∙◌, arith, String, str_eq, Bool, true, false, not, List, [], ◌∷◌,
  ◌++◌, if◌then◌else◌, string_eq, All,
}
use chat_wire.Common.Assoc.{Assoc, lookup, insert, lookup-insert, erase-All}
use chat_wire.Common.Result.{ok, ok-inj, bind-ok, refuse_if-ok}
use chat_wire.WebControl.Jobs.{
  Job, Jobs, Ask, StartWith, known, different_request, key_of, hash_of, item, start_job,
}
use chat_wire.WebControl.Jobs.Keyed.{Keyed}
use chat_wire.WebControl.Jobs.Once.{answer-Keyed, steps-Keyed}
use chat_wire.WebControl.Jobs.Steps.{Step, steps, NewTokens}
use chat_wire.WebControl.Jobs.Restart.{
  Found, File, no_directory, other, unreadable, unparsable, stored, is_at_work, load_job, load_file,
  load_files, new_jobs,
}
use chat_wire.WebControl.Jobs.Restart.Loading.{
  Loaded, as_loaded, as_loaded-hash, is_at_work-as_loaded, load_job-Loaded,
}

-- No job is at work, none holds the server, and no outcome waits to be saved.
pub record Ready (j : Jobs) : Type 0 where
  pub closed : All (λ e. is_at_work e.1 ≡ false) j.items
  pub free : j.busy ≡ ""
  pub saved : j.pending ≡ []

load_job-Ready : (f : Found) (v : Job) (j u : Jobs) → load_job f v j ≡ ok u → Ready j → Ready u
unfolding insert
load_job-Ready f v j u h r =
    let l = load_job-Loaded f v j u h in
    let P = λ (e : String × Job). is_at_work e.1 ≡ false in
    record {
      closed =
          subst (All P) (sym l.items) (is_at_work-as_loaded f v, erase-All P v.id j.items r.closed);
      free = l.busy ∙ r.free;
      saved = l.pending ∙ r.saved;
    }

load_file-Ready :
    (f : Found) (file : File) (j u : Jobs) → load_file f file j ≡ ok u → Ready j → Ready u
load_file-Ready f other j u h r = subst Ready (ok-inj j u h) r
load_file-Ready f unreadable j u h r = absurd (ground arith)
load_file-Ready f unparsable j u h r = absurd (ground arith)
load_file-Ready f (stored v) j u h r = load_job-Ready f v j u h r

load_files-Ready : (fs : List Found) (j u : Jobs) → load_files fs j ≡ ok u → Ready j → Ready u
unfolding load_files
load_files-Ready [] j u h r = subst Ready (ok-inj j u h) r
load_files-Ready (f ∷ fs) j u h r =
    let (w, e, h1) = bind-ok (load_file f f.file j) (load_files fs) u h in
    load_files-Ready fs w u h1 (load_file-Ready f f.file j w e r)

abbrev nothing_loaded : Assoc String Job → Jobs
nothing_loaded disk = record { items = []; keys = []; busy = ""; pending = []; disk = disk }

new_jobs-loaded :
    (made listed : Bool) (disk : Assoc String Job) (files : List Found) (j : Jobs)
    → new_jobs made listed disk files ≡ ok j
    → load_files files (nothing_loaded disk) ≡ ok j
unfolding new_jobs
new_jobs-loaded made listed disk files j h =
    let (m, h1) = refuse_if-ok (not made) no_directory _ j h in
    let (l, h2) = refuse_if-ok (not listed) no_directory _ j h1 in h2

-- When the server has started, no job of the files is queued, running or waiting for an empty server, a new job
-- can be accepted, and no outcome waits to be saved.
pub new_jobs-Ready :
    (made listed : Bool) (disk : Assoc String Job) (files : List Found) (j : Jobs)
    → new_jobs made listed disk files ≡ ok j
    → Ready j
new_jobs-Ready made listed disk files j h =
    load_files-Ready files (nothing_loaded disk) j (new_jobs-loaded made listed disk files j h)
      (record { closed = tt; free = refl; saved = refl })

-- A file of another job, by its id and its key.
abbrev pub OtherFile : Job → File → Type 0
OtherFile v (stored w) = (str_eq w.id v.id ≡ false) × (str_eq w.key v.key ≡ false)
OtherFile v _ = Unit {0}

abbrev pub OtherJob : Job → Found → Type 0
OtherJob v f = OtherFile v f.file

-- The key of `v` names the job `v`.
abbrev KeyOf : Job → Jobs → Type 0
KeyOf v j = Keyed v.key v.id v.hash j

beq_same : (s : String) → str_eq s s ≡ true
beq_same s = (eq_iff s s).1 refl

own-Keyed : (f : Found) (v : Job) (j u : Jobs) → Loaded f v j u → KeyOf v u
own-Keyed f v j u l = record {
  named =
      ap (lookup v.key) l.keys ∙ lookup-insert v.key v.key v.id j.keys ∙ rw (beq_same v.key) refl;
  job = as_loaded f v;
  held =
      ap (lookup v.id) l.items
      ∙ lookup-insert v.id v.id (as_loaded f v) j.items
      ∙ rw (beq_same v.id) refl;
  hashed = as_loaded-hash f v;
}

other-Keyed :
    (f : Found) (v w : Job) (j u : Jobs)
    → Loaded f w j u
    → OtherFile v (stored w)
    → KeyOf v j
    → KeyOf v u
other-Keyed f v w j u l apart k = record {
  named = ap (lookup v.key) l.keys ∙ lookup-insert w.key v.key w.id j.keys ∙ rw (apart.1) k.named;
  job = k.job;
  held =
      ap (lookup v.id) l.items
      ∙ lookup-insert w.id v.id (as_loaded f w) j.items
      ∙ rw (apart.0) k.held;
  hashed = k.hashed;
}

load_file-Keyed :
    (v : Job) (f : Found) (file : File) (j u : Jobs)
    → load_file f file j ≡ ok u
    → OtherFile v file
    → KeyOf v j
    → KeyOf v u
load_file-Keyed v f other j u h apart k = subst (KeyOf v) (ok-inj j u h) k
load_file-Keyed v f unreadable j u h apart k = absurd (ground arith)
load_file-Keyed v f unparsable j u h apart k = absurd (ground arith)
load_file-Keyed v f (stored w) j u h apart k =
    other-Keyed f v w j u (load_job-Loaded f w j u h) apart k

load_files-Keyed :
    (v : Job) (fs : List Found) (j u : Jobs)
    → load_files fs j ≡ ok u
    → All (OtherJob v) fs
    → KeyOf v j
    → KeyOf v u
unfolding load_files
load_files-Keyed v [] j u h apart k = subst (KeyOf v) (ok-inj j u h) k
load_files-Keyed v (f ∷ fs) j u h apart k =
    let (w, e, h1) = bind-ok (load_file f f.file j) (load_files fs) u h in
    load_files-Keyed v fs w u h1 apart.1 (load_file-Keyed v f f.file j w e apart.0 k)

-- The file of `v` comes somewhere, and no later file is of its id or its key.
file-Keyed :
    (v : Job) (before : List Found) (f : Found) (later : List Found) (j u : Jobs)
    → load_files (before ++ f ∷ later) j ≡ ok u
    → f.file ≡ stored v
    → All (OtherJob v) later
    → KeyOf v u
unfolding load_files
file-Keyed v [] f later j u h e apart =
    let (w, e1, h1) = bind-ok (load_file f f.file j) (load_files later) u h in
    load_files-Keyed v later w u h1 apart
      (own-Keyed f v j w (load_job-Loaded f v j w (ap (λ x. load_file f x j) (sym e) ∙ e1)))
file-Keyed v (g ∷ before) f later j u h e apart =
    let (w, e1, h1) = bind-ok (load_file g g.file j) (load_files (before ++ f ∷ later)) u h in
    file-Keyed v before f later w u h1 e apart

-- A job whose file is read when the server starts is not accepted again, after whatever requests and work: a request
-- with its idempotency key is answered with that job if its action and payload have the same digest, is refused
-- otherwise, and changes nothing. No later file has the job's id or key, and the random tokens are
-- new.
pub restart_once :
    (digest : String → String) (made listed : Bool) (disk : Assoc String Job) (before : List Found)
    (f : Found) (later : List Found) (v : Job) (j : Jobs) (again : StartWith) (b : Ask)
    (ss : List Step)
    → new_jobs made listed disk (before ++ f ∷ later) ≡ ok j
    → f.file ≡ stored v
    → All (OtherJob v) later
    → NewTokens digest ss j
    → key_of digest b ≡ v.key
    → (let u = steps digest ss j in
        start_job digest again b u
        ≡ (u, if str_eq v.hash (hash_of digest b) then known (item v.id u) else different_request))
restart_once digest made listed disk before f later v j again b ss started e apart new same_key =
    let keyed =
      file-Keyed v before f later (nothing_loaded disk) j
        (new_jobs-loaded made listed disk (before ++ f ∷ later) j started) e apart in
    answer-Keyed digest again b v.id v.hash (steps digest ss j) (
      steps-Keyed digest (key_of digest b) v.id v.hash ss j new
        (subst (λ k. Keyed k v.id v.hash j) (sym same_key) keyed))
