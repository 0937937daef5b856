-- ===== src/Lifecycle/Choice.antt =====
-- Which request runs next (fact/lifecycle.go, `nextRequest`).
use chat_wire.Common.{
  ℕ, suc, ◌≤◌, ◌<◌, ◌≡◌, refl, ◌∙◌, ap, true, false, ◌&&◌, Option, none, some, List, [], ◌∷◌, ◌++◌,
  arith, if◌then◌else◌, Bool-cases, inl, inr, length, length-append, All, All-append, All-map,
}
use mathlib.Core.Path.{subst}
use mathlib.Core.List.{append_assoc, append-nil}
use chat_wire.Lifecycle.State.{World, LifecycleRequest}
use chat_wire.Lifecycle.Queue.{
  action_priority, request_runnable, is_better, best_request, remove_at, take_request, next_request,
}

abbrev pub NotRunnable : World → LifecycleRequest → Type 0
NotRunnable w x = request_runnable w x ≡ false

-- A request that stood before the chosen one, and one that stood behind it.
abbrev pub Lower : World → LifecycleRequest → LifecycleRequest → Type 0
Lower w r x = request_runnable w x ≡ true → action_priority x.kind < action_priority r.kind

abbrev pub NotHigher : World → LifecycleRequest → LifecycleRequest → Type 0
NotHigher w r x = request_runnable w x ≡ true → action_priority x.kind ≤ action_priority r.kind

-- `r` is the first runnable request of the highest priority in `q`.
pub record IsBest (w : World) (q : List LifecycleRequest) (j : ℕ) (r : LifecycleRequest)
    : Type 0 where
  pub front : List LifecycleRequest
  pub back : List LifecycleRequest
  pub split : q ≡ front ++ (r ∷ back)
  pub place : length front ≡ j
  pub runs : request_runnable w r ≡ true
  pub before : All (Lower w r) front
  pub after : All (NotHigher w r) back

abbrev Best : World → List LifecycleRequest → Option (ℕ × LifecycleRequest) → Type 0
Best w q none = All (NotRunnable w) q
Best w q (some (j, r)) = IsBest w q j r

extend :
    (w : World) (q : List LifecycleRequest) (j : ℕ) (r x : LifecycleRequest)
    → NotHigher w r x
    → IsBest w q j r
    → IsBest w (q ++ (x ∷ [])) j r
extend w q j r x h b = record {
  front = b.front;
  back = b.back ++ (x ∷ []);
  split = rw b.split (append_assoc b.front (r ∷ b.back) (x ∷ []));
  place = b.place;
  runs = b.runs;
  before = b.before;
  after = All-append (NotHigher w r) b.back (x ∷ []) b.after (h, tt);
}

-- A runnable request of a higher priority takes the place of the best one.
replace :
    (w : World) (q : List LifecycleRequest) (x : LifecycleRequest)
    → request_runnable w x ≡ true
    → All (Lower w x) q
    → IsBest w (q ++ (x ∷ [])) (length q) x
replace w q x runs lower = record {
  front = q;
  back = [];
  split = refl;
  place = refl;
  runs = runs;
  before = lower;
  after = tt;
}

outranked :
    (w : World) (q : List LifecycleRequest) (j : ℕ) (r x : LifecycleRequest)
    → action_priority r.kind < action_priority x.kind
    → IsBest w q j r
    → All (Lower w x) q
outranked w q j r x h b = rw b.split (
    All-append (Lower w x) b.front (r ∷ b.back)
      (All-map (Lower w r) (Lower w x) (λ y l runs. omega (arith, l runs)) b.front b.before)
      (
        (λ runs. h),
        All-map (NotHigher w r) (Lower w x) (λ y l runs. omega (arith, l runs)) b.back b.after,
      ))

step :
    (w : World) (q : List LifecycleRequest) (x : LifecycleRequest)
    (best : Option (ℕ × LifecycleRequest))
    → Best w q best
    → Best w
        (q ++ (x ∷ []))
        (if request_runnable w x && is_better x best then some (length q, x) else best)
step w q x none b = elim (Bool-cases (request_runnable w x)) [
  | inl e ↦ rw e (
      unfold is_better in
      replace w q x e (All-map (NotRunnable w) (Lower w x) (λ y no runs. cc) q b))
  | inr e ↦ rw e (All-append (NotRunnable w) q (x ∷ []) b (e, tt))
]
step w q x (some (j, r)) b = elim (Bool-cases (request_runnable w x)) [
  | inl e ↦ elim (Bool-cases (is_better x (some (j, r)))) [
    | inl better ↦
        rw (e, better) (replace w q x e (outranked w q j r x (unfold is_better in ground arith) b))
    | inr worse ↦ rw (e, worse) (extend w q j r x (λ runs. unfold is_better in ground arith) b)
  ]
  | inr e ↦ rw e (extend w q j r x (λ runs. cc) b)
]

best_request-Best :
    (w : World) (i : ℕ) (done q : List LifecycleRequest) (best : Option (ℕ × LifecycleRequest))
    → length done ≡ i
    → Best w done best
    → Best w (done ++ q) (best_request w i q best)
unfolding best_request
best_request-Best w i done [] best e b = rw append-nil b
best_request-Best w i done (x ∷ q) best e b =
    subst (λ l. Best w l (best_request w i (x ∷ q) best)) (append_assoc done (x ∷ []) q)
      (best_request-Best w (suc i) (done ++ (x ∷ [])) q _
        (length-append done (x ∷ []) ∙ omega (arith, e))
        (subst
          (λ k.
            Best w (done ++ (x ∷ []))
              (if request_runnable w x && is_better x best then some (k, x) else best))
          e (step w done x best b)))

remove_at-split :
    (front back : List LifecycleRequest) (r : LifecycleRequest)
    → remove_at (length front) (front ++ (r ∷ back)) ≡ front ++ back
unfolding remove_at
remove_at-split [] back r = refl
remove_at-split (x ∷ front) back r =
    ap (λ (l : List LifecycleRequest). x ∷ l) (remove_at-split front back r)

-- What `next_request` answers: nothing where no request can run, and then nothing changes; else the
-- first runnable request of the highest priority, which alone leaves the queue.
abbrev pub Chosen : World → Option LifecycleRequest × World → Type 0
Chosen w (none, u) = All (NotRunnable w) w.queue × (u ≡ w)
Chosen w (some r, u) =
    (j : ℕ) × (b : IsBest w w.queue j r) × (u.queue ≡ b.front ++ b.back)
    × (u.current_action ≡ some r.kind)

chosen :
    (w : World) (best : Option (ℕ × LifecycleRequest))
    → Best w w.queue best
    → Chosen w (take_request w best)
unfolding take_request
chosen w none b = (b, refl)
chosen w (some (j, r)) b = (
  j,
  b,
  subst (λ k. remove_at k w.queue ≡ b.front ++ b.back) b.place
      (rw b.split (remove_at-split b.front b.back r)),
  refl,
)

-- `next_request` takes the first runnable request of the highest priority out of the queue and
-- leaves the others in their order; it takes none only if none can run.
pub next_request-Chosen : (w : World) → Chosen w (next_request w)
unfolding next_request
next_request-Chosen w = chosen w _ (best_request-Best w 0 [] w.queue none refl tt)
