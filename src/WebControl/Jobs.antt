-- ===== src/WebControl/Jobs.antt =====
-- The jobs of the web control panel (webcontrol/jobs.go). A job is accepted once for each idempotency
-- key, one at a time, and is on disk before it runs. `Digest` is an argument; so are the answers of the
-- disk, one for each save, and the result of the operation that is run.
pub mod Admission
pub mod Steps
pub mod Keyed
pub mod Once
pub mod Restart
use chat_wire.Common.{
  ℕ, String, str_eq, Bool, true, false, not, Option, none, some, List, [], ◌∷◌, ◌++◌, if◌then◌else◌,
  string_eq,
}
use Prim.Native.String.{◌++◌ as text_append}
use chat_wire.Common.Assoc.{Assoc, lookup, insert, erase}

-- `Job`; `result` is the text of the result where there is one.
pub record Job : Type 0 where
  pub id : String
  pub server_id : String
  pub actor : String
  pub action : String
  pub state : String
  pub phase : String
  pub created_at : ℕ
  pub updated_at : ℕ
  pub result : Option String
  pub error : String
  pub key : String
  pub hash : String

-- `Jobs`, with the directory's contents: the last saved form of each job.
pub record Jobs : Type 0 where
  pub items : Assoc String Job
  pub keys : Assoc String String
  pub busy : String
  pub pending : List String
  pub disk : Assoc String Job

-- `save`: the job is in its file, or an error is returned and the old file stands;
-- that the directory's `Sync` fails after the rename is left out.
abbrev pub save : Bool → Job → Jobs → Jobs
save true v j = record j { disk = insert v.id v j.disk }
save false v j = j

-- What is asked: `server`, the actor's id, `action`, `key` and the payload.
pub record Ask : Type 0 where
  pub server : String
  pub actor : String
  pub action : String
  pub key : String
  pub payload : String

abbrev pub joined : String → String → String
joined a b = text_append a (text_append "\0" b)

abbrev pub key_of : (String → String) → Ask → String
key_of digest a = digest (joined a.actor (joined a.server a.key))

abbrev pub hash_of : (String → String) → Ask → String
hash_of digest a = digest (joined a.action a.payload)

-- The answer of `Start`: a job with the status 200 or 202, or a status with an error.
pub data Answer : Type 0 where
  known accepted : Job → Answer
  different_request busy_now storage_unavailable cannot_persist : Answer

-- `items[id]`, which is the zero job where there is none.
abbrev pub zero_job : Job
zero_job = record {
  id = "";
  server_id = "";
  actor = "";
  action = "";
  state = "";
  phase = "";
  created_at = 0;
  updated_at = 0;
  result = none;
  error = "";
  key = "";
  hash = "";
}

abbrev pub item_or : Option Job → Job
item_or none = zero_job
item_or (some v) = v

abbrev pub item : String → Jobs → Job
item id j = item_or (lookup id j.items)

-- The loop over the pending outcomes: each is saved and no longer pending, up to the first error.
pub repair : List Bool → List String → Jobs → Jobs × Bool
repair disk [] j = (record j { pending = [] }, true)
repair [] (id ∷ ids) j = (record j { pending = id ∷ ids }, false)
repair (false ∷ disk) (id ∷ ids) j = (record j { pending = id ∷ ids }, false)
repair (true ∷ disk) (id ∷ ids) j = repair disk ids (save true (item id j) j)

abbrev pub new_job : (String → String) → String → ℕ → Ask → Job
new_job digest token now a = record {
  id = text_append "job_" token;
  server_id = a.server;
  actor = a.actor;
  action = a.action;
  state = "queued";
  phase = "accepted";
  created_at = now;
  updated_at = now;
  result = none;
  error = "";
  key = key_of digest a;
  hash = hash_of digest a;
}

-- What `Start` meets: the answers of the disk to the repairs and to the new job's save, the clock and
-- the token.
pub record StartWith : Type 0 where
  pub repairs : List Bool
  pub saved : Bool
  pub now : ℕ
  pub token : String

abbrev pub admit : Job → Jobs → Jobs
admit v j = record j { items = insert v.id v j.items; keys = insert v.key v.id j.keys; busy = v.id }

abbrev pub persist : Bool → Job → Jobs → Jobs × Answer
persist true v j = (admit v (save true v j), accepted v)
persist false v j = (j, cannot_persist)

abbrev pub after_repair : Bool → Job → Jobs × Bool → Jobs × Answer
after_repair saved v (j, false) = (j, storage_unavailable)
after_repair saved v (j, true) = persist saved v j

-- The answer to a key that is known.
abbrev pub repeated : String → Job → Answer
repeated hash v = if str_eq v.hash hash then known v else different_request

abbrev pub fresh : (String → String) → StartWith → Ask → Jobs → Jobs × Answer
fresh digest env a j =
    if not (str_eq j.busy "")
    then (j, busy_now)
    else after_repair env.saved (new_job digest env.token env.now a)
        (repair env.repairs j.pending j)

abbrev pub start_known : (String → String) → StartWith → Ask → Option String → Jobs → Jobs × Answer
start_known digest env a (some id) j = (j, repeated (hash_of digest a) (item id j))
start_known digest env a none j = fresh digest env a j

-- `Start` up to the worker that it starts.
unfoldable pub start_job : (String → String) → StartWith → Ask → Jobs → Jobs × Answer
unfolding repair
start_job digest env a j = start_known digest env a (lookup (key_of digest a) j.keys) j

-- `Update`: the job changes only if the change is on disk.
abbrev pub changed : String → String → Option String → String → ℕ → Job → Job
changed state phase result msg now v = record v {
  state = state;
  phase = phase;
  result = result;
  error = msg;
  updated_at = now;
}

abbrev pub put_item : String → Job → Jobs → Jobs
put_item id v j = record j { items = insert id v j.items }

pub update_found : Bool → String → (Job → Job) → Option Job → Jobs → Jobs × Bool
update_found saved id change none j = (j, false)
update_found false id change (some v) j = (j, false)
update_found true id change (some v) j = (put_item id (change v) (save true (change v) j), true)

pub update : Bool → String → String → String → Option String → String → ℕ → Jobs → Jobs × Bool
unfolding update_found
update saved id state phase result msg now j =
    update_found saved id (changed state phase result msg now) (lookup id j.items) j

abbrev pub unable : String
unable = "Unable to persist operation outcome; inspect instance logs before retrying."

-- A job whose outcome could not be saved.
abbrev pub unsaved : String → Job → Job
unsaved msg v =
    if str_eq v.phase "storage_error"
    then record v { result = none; error = msg }
    else record v { state = "unknown"; phase = "storage_error"; result = none; error = unable }

-- `finish`: the outcome is kept in memory even where it is not on disk, and is then pending.
pub finish : Bool → String → String → String → Option String → String → ℕ → Jobs → Jobs
finish saved id state phase result msg now j =
    let v = changed state phase result msg now (item id j) in
    if saved
    then record j { items = insert id v j.items; disk = insert v.id v j.disk }
    else record j { items = insert id (unsaved msg v) j.items; pending = id ∷ j.pending }

-- How the operation ends: it returns a result, an error that may be an unknown outcome, or panics.
pub data Ending : Type 0 where
  returned : Option String → Ending
  failed : Bool → Option String → String → Ending
  panicked : Ending

pub finish_run : Bool → String → Ending → ℕ → Jobs → Jobs
unfolding finish
finish_run saved id (returned result) now j = finish saved id "succeeded" "complete" result "" now j
finish_run saved id (failed unknown result msg) now j =
    finish saved id (if unknown then "unknown" else "failed") "complete" result msg now j
finish_run saved id panicked now j =
    finish saved id "unknown" "interrupted" none
      "Operation interrupted; inspect instance logs before retrying." now j

abbrev pub release : String → Jobs → Jobs
release id j = if str_eq j.busy id then record j { busy = "" } else j

abbrev pub after_update : Bool → String → Ending → ℕ → Jobs × Bool → Jobs × Bool
after_update saved id ending now (j, true) = (finish_run saved id ending now j, true)
after_update saved id ending now (j, false) = (
  finish saved id "failed" "storage_error" none
      "Operation was not executed because its start could not be persisted." now j,
  false,
)

-- The worker of `Start`, with the action that it runs, in one step: `started` and `ended` are the disk's answers. The second part of the result
-- says that the operation was run.
unfoldable pub work : Bool → Bool → String → Ending → ℕ → Jobs → Jobs × Bool
unfolding update finish_run
work started ended id ending now j =
    let (j', ran) =
      after_update ended id ending now (update started id "running" "executing" none "" now j) in
    (release id j', ran)

-- `Lookup`: none where the key is unknown.
unfoldable pub lookup_job : (String → String) → Ask → Jobs → Option Answer
lookup_job digest a j = elim (lookup (key_of digest a) j.keys) [
  | none ↦ none
  | some id ↦ some (repeated (hash_of digest a) (item id j))
]
