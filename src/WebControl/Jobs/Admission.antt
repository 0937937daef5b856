-- ===== src/WebControl/Jobs/Admission.antt =====
-- Which operations of the web control panel are accepted (webcontrol/jobs.go).
use chat_wire.Common.{
  ℕ, ◌≡◌, ◌≢◌, inl, inr, refl, String, str_eq, eq_iff, Bool, true, false, Option, none, some, List,
  [], ◌∷◌, arith, string_eq, Bool-cases,
}
use chat_wire.Common.Assoc.{lookup, lookup-insert}
use chat_wire.WebControl.Jobs.{
  Job, Jobs, Ask, StartWith, Answer, known, accepted, different_request, busy_now,
  storage_unavailable, cannot_persist, key_of, hash_of, item, repair, repeated, start_known,
  start_job, after_repair, persist, admit, save, new_job,
}

-- The jobs that were there are there, with the same keys.
pub record Same (j u : Jobs) : Type 0 where
  pub items : u.items ≡ j.items
  pub keys : u.keys ≡ j.keys
  pub busy : u.busy ≡ j.busy

pub repair-Same : (disk : List Bool) (ids : List String) (j : Jobs) → Same j (repair disk ids j).0
unfolding repair
repair-Same disk [] j = record { items = refl; keys = refl; busy = refl }
repair-Same [] (id ∷ ids) j = record { items = refl; keys = refl; busy = refl }
repair-Same (false ∷ disk) (id ∷ ids) j = record { items = refl; keys = refl; busy = refl }
repair-Same (true ∷ disk) (id ∷ ids) j =
    let rest = repair-Same disk ids (save true (item id j) j) in
    record { items = rest.items; keys = rest.keys; busy = rest.busy }

-- What each answer of `start_job` says of the jobs before and after it.
pub record Admitted (digest : String → String) (a : Ask) (v : Job) (j u : Jobs) : Type 0 where
  pub was_idle : j.busy ≡ ""
  pub was_new : lookup (key_of digest a) j.keys ≡ none
  pub on_disk : lookup v.id u.disk ≡ some v
  pub in_memory : lookup v.id u.items ≡ some v
  pub by_key : lookup (key_of digest a) u.keys ≡ some v.id
  pub now_busy : u.busy ≡ v.id
  pub same_hash : v.hash ≡ hash_of digest a

abbrev pub Answered : (String → String) → Ask → Jobs → Jobs × Answer → Type 0
Answered digest a j (u, accepted v) = Admitted digest a v j u
Answered digest a j (u, busy_now) = (u ≡ j) × (j.busy ≢ "")
Answered digest a j (u, storage_unavailable) = Same j u
Answered digest a j (u, cannot_persist) = Same j u
Answered digest a j (u, known v) =
    (u ≡ j)
    × (v.hash ≡ hash_of digest a)
    × ((id : String) × (lookup (key_of digest a) j.keys ≡ some id) × (v ≡ item id j))
Answered digest a j (u, different_request) =
    (u ≡ j)
    × ((id : String) × (lookup (key_of digest a) j.keys ≡ some id)
        × ((item id j).hash ≢ hash_of digest a))

str_refl : (s : String) → str_eq s s ≡ true
str_refl s = (eq_iff s s).1 refl

admit-Admitted :
    (digest : String → String) (token : String) (now : ℕ) (a : Ask) (j w : Jobs)
    → j.busy ≡ ""
    → lookup (key_of digest a) j.keys ≡ none
    → (let v = new_job digest token now a in Admitted digest a v j (admit v (save true v w)))
admit-Admitted digest token now a j w idle new =
    let v = new_job digest token now a in
    record {
      was_idle = idle;
      was_new = new;
      on_disk = rw (lookup-insert v.id v.id v w.disk) (rw (str_refl v.id) refl);
      in_memory = rw (lookup-insert v.id v.id v w.items) (rw (str_refl v.id) refl);
      by_key = rw (lookup-insert v.key v.key v.id w.keys) (rw (str_refl v.key) refl);
      now_busy = refl;
      same_hash = refl;
    }

after_repair-Answered :
    (digest : String → String) (env : StartWith) (a : Ask) (j : Jobs) (r : Jobs × Bool)
    → j.busy ≡ ""
    → lookup (key_of digest a) j.keys ≡ none
    → Same j r.0
    → Answered digest a j (after_repair env.saved (new_job digest env.token env.now a) r)
after_repair-Answered digest env a j (w, false) idle new same = same
after_repair-Answered digest env a j (w, true) idle new same = persist-Answered env.saved
  where
    persist-Answered :
        (b : Bool) → Answered digest a j (persist b (new_job digest env.token env.now a) w)
    persist-Answered true = admit-Admitted digest env.token env.now a j w idle new
    persist-Answered false = same

repeated-Answered :
    (digest : String → String) (a : Ask) (j : Jobs) (id : String)
    → lookup (key_of digest a) j.keys ≡ some id
    → Answered digest a j (j, repeated (hash_of digest a) (item id j))
repeated-Answered digest a j id e = elim (Bool-cases (str_eq (item id j).hash (hash_of digest a))) [
  | inl h ↦ rw h (refl, (eq_iff _ _).0 h, (id, e, refl))
  | inr h ↦ rw h (refl, (id, e, λ same. differs h ((eq_iff _ _).1 same)))
]
  where
    differs : {b : Bool} → b ≡ false → b ≢ true
    differs h t = ground arith

start_known-Answered :
    (digest : String → String) (env : StartWith) (a : Ask) (j : Jobs) (o : Option String)
    → lookup (key_of digest a) j.keys ≡ o
    → Answered digest a j (start_known digest env a o j)
start_known-Answered digest env a j (some id) e = repeated-Answered digest a j id e
start_known-Answered digest env a j none e = elim (Bool-cases (str_eq j.busy "")) [
  | inl h ↦ rw h (
      after_repair-Answered digest env a j (repair env.repairs j.pending j) ((eq_iff j.busy "").0 h)
        e (repair-Same env.repairs j.pending j))
  | inr h ↦ rw h (refl, λ same. ground (arith, (eq_iff j.busy "").1 same))
]

-- A job is accepted only if no other is active and its key is new; then it is on disk and in memory
-- under its key before it runs. A key that is known is answered with its job if the request is the
-- same and refused otherwise, and changes nothing; so does a refusal while another job is active. Where
-- the disk fails, the jobs, the keys and the active job stay as they were.
pub start_job-Answered :
    (digest : String → String) (env : StartWith) (a : Ask) (j : Jobs)
    → Answered digest a j (start_job digest env a j)
unfolding start_job
start_job-Answered digest env a j = start_known-Answered digest env a j _ refl
