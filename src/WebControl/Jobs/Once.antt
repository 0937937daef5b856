-- ===== src/WebControl/Jobs/Once.antt =====
-- A request of the web control panel is accepted once for its idempotency key (webcontrol/jobs.go),
-- however often it is sent again, and whatever happens between.
use chat_wire.Common.{
  ℕ, ◌≡◌, refl, sym, ap, ◌∙◌, String, str_eq, Bool, true, false, some, List, [], ◌∷◌, arith,
  if◌then◌else◌, string_eq, if-All,
}
use mathlib.Core.Path.{subst}
use chat_wire.Common.Assoc.{lookup}
use chat_wire.WebControl.Jobs.{
  Job, Jobs, Ask, StartWith, Answer, known, accepted, different_request, busy_now,
  storage_unavailable, cannot_persist, key_of, hash_of, item, item_or, start_job, update,
  finish_run, work, release, Ending, returned, failed, panicked, after_update,
}
use chat_wire.WebControl.Jobs.Admission.{Answered, start_job-Answered}
use chat_wire.WebControl.Jobs.Steps.{Step, asked, worked, step, steps, NewToken, NewTokens}
use chat_wire.WebControl.Jobs.Keyed.{Keyed, start_known-Keyed, update_found-Keyed, finish-Keyed}

finish_run-Keyed :
    (k id h : String) (saved : Bool) (i : String) (ending : Ending) (now : ℕ) (j : Jobs)
    → Keyed k id h j
    → Keyed k id h (finish_run saved i ending now j)
unfolding finish_run
finish_run-Keyed k id h saved i (returned r) now j v = finish-Keyed k id h saved i _ _ _ _ now j v
finish_run-Keyed k id h saved i (failed u r m) now j v = finish-Keyed k id h saved i _ _ _ _ now j v
finish_run-Keyed k id h saved i panicked now j v = finish-Keyed k id h saved i _ _ _ _ now j v

after_update-Keyed :
    (k id h : String) (saved : Bool) (i : String) (ending : Ending) (now : ℕ) (r : Jobs × Bool)
    → Keyed k id h r.0
    → Keyed k id h (after_update saved i ending now r).0
after_update-Keyed k id h saved i ending now (j, true) v =
    finish_run-Keyed k id h saved i ending now j v
after_update-Keyed k id h saved i ending now (j, false) v =
    finish-Keyed k id h saved i _ _ _ _ now j v

release-Keyed : (k id h i : String) (j : Jobs) → Keyed k id h j → Keyed k id h (release i j)
release-Keyed k id h i j v =
    if-All (Keyed k id h) (str_eq j.busy i)
      (record { named = v.named; job = v.job; held = v.held; hashed = v.hashed }) v

step-Keyed :
    (digest : String → String) (k id h : String) (s : Step) (j : Jobs)
    → NewToken s j
    → Keyed k id h j
    → Keyed k id h (step digest s j)
unfolding step start_job work update
step-Keyed digest k id h (asked env a) j new v =
    start_known-Keyed digest k id h env a j _ refl new v
step-Keyed digest k id h (worked started ended i ending now) j new v = release-Keyed k id h i _ (
    after_update-Keyed k id h ended i ending now _
      (update_found-Keyed k id h started i _ _ j (λ w. refl) refl v))

pub steps-Keyed :
    (digest : String → String) (k id h : String) (ss : List Step) (j : Jobs)
    → NewTokens digest ss j
    → Keyed k id h j
    → Keyed k id h (steps digest ss j)
unfolding steps
steps-Keyed digest k id h [] j new v = v
steps-Keyed digest k id h (s ∷ ss) j new v =
    steps-Keyed digest k id h ss (step digest s j) new.1 (step-Keyed digest k id h s j new.0 v)

accepted_inj : {a b : Job} → accepted a ≡ accepted b → a ≡ b
accepted_inj h = ground arith

accepted-Keyed :
    (digest : String → String) (a : Ask) (v : Job) (j : Jobs) (r : Jobs × Answer)
    → Answered digest a j r
    → r.1 ≡ accepted v
    → Keyed (key_of digest a) v.id (hash_of digest a) r.0
accepted-Keyed digest a v j (u, accepted w) h e =
    let same = accepted_inj e in
    record {
      named = h.by_key ∙ ap (λ (x : Job). some x.id) same;
      job = w;
      held = ap (λ (x : Job). lookup x.id u.items) (sym same) ∙ h.in_memory;
      hashed = h.same_hash;
    }
accepted-Keyed digest a v j (u, known w) h e = ground arith
accepted-Keyed digest a v j (u, different_request) h e = ground arith
accepted-Keyed digest a v j (u, busy_now) h e = ground arith
accepted-Keyed digest a v j (u, storage_unavailable) h e = ground arith
accepted-Keyed digest a v j (u, cannot_persist) h e = ground arith

pub answer-Keyed :
    (digest : String → String) (env : StartWith) (b : Ask) (id h : String) (u : Jobs)
    → Keyed (key_of digest b) id h u
    → start_job digest env b u
      ≡ (u, if str_eq h (hash_of digest b) then known (item id u) else different_request)
unfolding start_job
answer-Keyed digest env b id h u v = rw v.named (
    ap (λ x. (u, if str_eq x (hash_of digest b) then known (item id u) else different_request))
      (ap (λ o. (item_or o).hash) v.held ∙ v.hashed))

-- Once a request has been accepted, a request with the same idempotency key is never accepted again,
-- after whatever further requests and work: it is answered with the accepted job as it then is if its
-- action and payload have the same digest, and refused otherwise, and changes nothing. The condition
-- is that the random token of no later request is that of a job.
pub start_job_once :
    (digest : String → String) (env again : StartWith) (a b : Ask) (v : Job) (j : Jobs)
    (ss : List Step)
    → (start_job digest env a j).1 ≡ accepted v
    → NewTokens digest ss (start_job digest env a j).0
    → key_of digest b ≡ key_of digest a
    → (let u = steps digest ss (start_job digest env a j).0 in
        start_job digest again b u ≡ (
          u,
          if str_eq (hash_of digest a) (hash_of digest b)
              then known (item v.id u)
              else different_request,
        ))
start_job_once digest env again a b v j ss acc new same_key =
    let keyed =
      accepted-Keyed digest a v j (start_job digest env a j) (start_job-Answered digest env a j)
        acc in
    answer-Keyed digest again b v.id (hash_of digest a) _ (
      steps-Keyed digest (key_of digest b) v.id (hash_of digest a) ss _ new (
        subst (λ k. Keyed k v.id (hash_of digest a) (start_job digest env a j).0) (sym same_key)
          keyed))
