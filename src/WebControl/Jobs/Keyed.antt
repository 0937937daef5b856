-- ===== src/WebControl/Jobs/Keyed.antt =====
-- The job that an idempotency key names stays (webcontrol/jobs.go).
use chat_wire.Common.{
  ℕ, ◌≡◌, refl, sym, ap, ◌∙◌, String, str_eq, eq_iff, Bool, true, false, not, Option, none, some,
  arith, string_eq, if-All, Bool-cases, inl, inr,
}
use chat_wire.Common.Assoc.{lookup, lookup-insert}
use chat_wire.WebControl.Jobs.{
  Job, Jobs, Ask, StartWith, Answer, key_of, item, item_or, start_known, after_repair, persist,
  admit, save, new_job, update_found, finish, changed, put_item, unsaved,
}
use chat_wire.WebControl.Jobs.Admission.{Same, repair-Same}
use chat_wire.WebControl.Jobs.Steps.{asked, NewToken}

-- The job that a key names, by the hash of its request.
pub record Keyed (k id h : String) (j : Jobs) : Type 0 where
  pub named : lookup k j.keys ≡ some id
  pub job : Job
  pub held : lookup id j.items ≡ some job
  pub hashed : job.hash ≡ h

Same-Keyed : (k id h : String) (j u : Jobs) → Same j u → Keyed k id h j → Keyed k id h u
Same-Keyed k id h j u s v = record {
  named = ap (lookup k) s.keys ∙ v.named;
  job = v.job;
  held = ap (lookup id) s.items ∙ v.held;
  hashed = v.hashed;
}

-- A job put down again with the same hash.
put-Keyed :
    (k id h i : String) (w : Job) (j : Jobs)
    → ((v : Job) → lookup i j.items ≡ some v → w.hash ≡ v.hash)
    → Keyed k id h j
    → Keyed k id h (put_item i w j)
put-Keyed k id h i w j keeps v = elim (Bool-cases (str_eq i id)) [
  | inl e ↦ record {
    named = v.named;
    job = w;
    held = rw (lookup-insert i id w j.items) (rw e refl);
    hashed = keeps v.job (ap (λ x. lookup x j.items) ((eq_iff i id).0 e) ∙ v.held) ∙ v.hashed;
  }
  | inr e ↦ record {
    named = v.named;
    job = v.job;
    held = rw (lookup-insert i id w j.items) (rw e v.held);
    hashed = v.hashed;
  }
]

admit-Keyed :
    (k id h : String) (w : Job) (j : Jobs)
    → lookup w.key j.keys ≡ none
    → lookup w.id j.items ≡ none
    → Keyed k id h j
    → Keyed k id h (admit w (save true w j))
admit-Keyed k id h w j no_key no_id v = record {
  named = ground (arith, lookup-insert w.key k w.id j.keys, v.named, no_key, eq_iff w.key k);
  job = v.job;
  held = ground (arith, lookup-insert w.id id w j.items, v.held, no_id, eq_iff w.id id);
  hashed = v.hashed;
}

persist-Keyed :
    (k id h : String) (saved : Bool) (w : Job) (j : Jobs)
    → lookup w.key j.keys ≡ none
    → lookup w.id j.items ≡ none
    → Keyed k id h j
    → Keyed k id h (persist saved w j).0
persist-Keyed k id h true w j no_key no_id v = admit-Keyed k id h w j no_key no_id v
persist-Keyed k id h false w j no_key no_id v = v

after_repair-Keyed :
    (k id h : String) (saved : Bool) (w : Job) (j : Jobs) (r : Jobs × Bool)
    → Same j r.0
    → lookup w.key j.keys ≡ none
    → lookup w.id j.items ≡ none
    → Keyed k id h j
    → Keyed k id h (after_repair saved w r).0
after_repair-Keyed k id h saved w j (u, false) same no_key no_id v = Same-Keyed k id h j u same v
after_repair-Keyed k id h saved w j (u, true) same no_key no_id v =
    persist-Keyed k id h saved w u (ap (lookup w.key) same.keys ∙ no_key)
      (ap (lookup w.id) same.items ∙ no_id) (Same-Keyed k id h j u same v)

pub start_known-Keyed :
    (digest : String → String) (k id h : String) (env : StartWith) (a : Ask) (j : Jobs)
    (o : Option String)
    → lookup (key_of digest a) j.keys ≡ o
    → NewToken (asked env a) j
    → Keyed k id h j
    → Keyed k id h (start_known digest env a o j).0
start_known-Keyed digest k id h env a j (some i) e new v = v
start_known-Keyed digest k id h env a j none e new v =
    if-All (λ (r : Jobs × Answer). Keyed k id h r.0) (not (str_eq j.busy "")) v
      (after_repair-Keyed k id h env.saved (new_job digest env.token env.now a) j _
        (repair-Same env.repairs j.pending j) e new v)

pub update_found-Keyed :
    (k id h : String) (saved : Bool) (i : String) (change : Job → Job) (o : Option Job) (j : Jobs)
    → ((w : Job) → (change w).hash ≡ w.hash)
    → lookup i j.items ≡ o
    → Keyed k id h j
    → Keyed k id h (update_found saved i change o j).0
unfolding update_found
update_found-Keyed k id h saved i change none j keeps e v = v
update_found-Keyed k id h false i change (some w) j keeps e v = v
update_found-Keyed k id h true i change (some w) j keeps e v =
    let same =
      put-Keyed k id h i (change w) j
        (λ u eu. keeps w ∙ ap (λ (o : Option Job). (item_or o).hash) (sym e ∙ eu)) v in
    record { named = same.named; job = same.job; held = same.held; hashed = same.hashed }

unsaved-hash : (msg : String) (w : Job) → (unsaved msg w).hash ≡ w.hash
unsaved-hash msg w =
    if-All (λ (u : Job). u.hash ≡ w.hash) (str_eq w.phase "storage_error") refl refl

pub finish-Keyed :
    (k id h : String) (saved : Bool) (i state phase : String) (result : Option String)
    (msg : String) (now : ℕ) (j : Jobs)
    → Keyed k id h j
    → Keyed k id h (finish saved i state phase result msg now j)
unfolding finish
finish-Keyed k id h saved i state phase result msg now j v =
    let w = changed state phase result msg now (item i j) in
    let kept : (u : Job) → lookup i j.items ≡ some u → w.hash ≡ u.hash =
      λ u e. ap (λ (o : Option Job). (item_or o).hash) e in
    let ok = put-Keyed k id h i w j kept v in
    let bad = put-Keyed k id h i (unsaved msg w) j (λ u e. unsaved-hash msg w ∙ kept u e) v in
    if-All (Keyed k id h) saved
      (record { named = ok.named; job = ok.job; held = ok.held; hashed = ok.hashed })
      (record { named = bad.named; job = bad.job; held = bad.held; hashed = bad.hashed })
