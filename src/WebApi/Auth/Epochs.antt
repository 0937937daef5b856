-- ===== src/WebApi/Auth/Epochs.antt =====
-- The epochs of users (webapi/auth.go): only a revocation changes one.
use chat_wire.Common.{
  ℕ, suc, ◌+◌, ◌%◌, ◌^◌, ◌<◌, ◌≡◌, refl, ap, ◌∙◌, arith, Bool, true, false, not, ◌||◌, leb, List,
  [], ◌∷◌, Bytes, bytes_eq, bytes_beq, length, if-All, Bool-cases, inl, inr, if◌then◌else◌, ◌==◌,
  Option, none, some, bytes_beq_iff,
}
use chat_wire.Common.Assoc.{Assoc, lookup, lookup-insert}
use chat_wire.Common.Result.{Result}
use chat_wire.WebApi.Auth.{
  Auth, Session, SignIn, Refusal, prune, issue_pruned, issue_locked, landing, exchange_pruned,
  exchange_locked, grant_link, check_current, check_locked, revoke, logout, is_there, is_early,
  epoch_of, epoch_or_zero,
}
use chat_wire.WebApi.Auth.Steps.{
  Step, issuing, landed, looking, exchanging, checking, revoking, logging_out, step, steps,
}

-- The operation leaves the epochs as they are.
abbrev SameEpochs : {A : Type 0} → Auth → Auth × Result Refusal A → Type 0
SameEpochs a r = r.0.epochs ≡ a.epochs

issue_pruned-epochs :
    (token user interaction : Bytes) (now : ℕ) (a : Auth)
    → SameEpochs a (issue_pruned token user interaction now a)
unfolding issue_pruned grant_link
issue_pruned-epochs token user interaction now a =
    if-All (SameEpochs a) (is_there (lookup interaction a.interactions)) refl (
      if-All (SameEpochs a) (is_early now (lookup user a.issued)) refl
        (if-All (SameEpochs a) (leb 1000 (length a.grants)) refl refl))

landing-epochs :
    (token : Bytes) (pruned now : ℕ) (a : Auth) → SameEpochs a (landing token pruned now a)
unfolding landing prune
landing-epochs token pruned now a =
    if-All (SameEpochs a) (leb 10000 (length (prune pruned a).nonces)) refl refl

exchange_pruned-epochs : (s : SignIn) (now : ℕ) (a : Auth) → SameEpochs a (exchange_pruned s now a)
unfolding exchange_pruned
exchange_pruned-epochs s now a =
    if-All (SameEpochs a) (not (is_there (lookup s.token a.grants))) refl (
      if-All (SameEpochs a)
        (not (is_there (lookup s.nonce a.nonces)) || not (epoch_of s.user_id a == s.epoch)) refl
        refl)

check_current-epochs :
    (key : Bytes) (s : Session) (touch : Bool) (now : ℕ) (a : Auth) (o : Option Session)
    → SameEpochs a (check_current key s touch now a o)
check_current-epochs key s touch now a none = refl
check_current-epochs key s touch now a (some current) =
    if-All (SameEpochs a) (not (epoch_of s.actor.id a == s.epoch)) refl refl

pub epoch_of-revoke :
    (user u : Bytes) (a : Auth)
    → epoch_of u (revoke user a)
      ≡ (if bytes_beq user u then suc (epoch_of user a) % 2 ^ 64 else epoch_of u a)
unfolding epoch_of revoke
epoch_of-revoke user u a =
    ground (arith, lookup-insert user u (suc (epoch_of user a) % 2 ^ 64) a.epochs)

-- A step revokes the user.
abbrev pub revokes : Bytes → Step → ℕ
revokes u (revoking user) = if bytes_beq user u then 1 else 0
revokes u _ = 0

abbrev pub revocations : Bytes → List Step → ℕ
revocations u [] = 0
revocations u (s ∷ ss) = revokes u s + revocations u ss

pub same_epoch : (u : Bytes) (a b : Auth) → b.epochs ≡ a.epochs → epoch_of u b ≡ epoch_of u a
unfolding epoch_of
same_epoch u a b h = ap (λ (m : Assoc Bytes ℕ). epoch_or_zero (lookup u m)) h

-- The step is not a revocation.
abbrev pub keeps_epochs : Step → Bool
keeps_epochs (revoking user) = false
keeps_epochs _ = true

pub step-epochs : (s : Step) (a : Auth) → keeps_epochs s ≡ true → (step s a).epochs ≡ a.epochs
unfolding step issue_locked exchange_locked check_locked logout prune
step-epochs (issuing token user interaction pruned now) a h =
    issue_pruned-epochs token user interaction now (prune pruned a)
step-epochs (landed token pruned now) a h = landing-epochs token pruned now a
step-epochs (looking now) a h = refl
step-epochs (exchanging s pruned now) a h = exchange_pruned-epochs s now (prune pruned a)
step-epochs (checking key s touch pruned now) a h =
    check_current-epochs key s touch now (prune pruned a) (lookup key (prune pruned a).sessions)
step-epochs (revoking user) a h = absurd (ground arith)
step-epochs (logging_out key) a h = refl

step_revoke :
    (u user : Bytes) (a : Auth)
    → epoch_of u a < 2 ^ 64
    → epoch_of u (step (revoking user) a)
      ≡ (epoch_of u a + (if bytes_beq user u then 1 else 0)) % 2 ^ 64
unfolding step
step_revoke u user a h = elim (Bool-cases (bytes_beq user u)) [
  | inl b ↦
      rw (epoch_of-revoke user u a, b)
        (ap (λ (x : Bytes). suc (epoch_of x a) % 2 ^ 64) ((bytes_beq_iff user u).0 b) ∙ omega arith)
  | inr b ↦ rw (epoch_of-revoke user u a, b) (omega arith)
]

keeps :
    (u : Bytes) (s : Step) (a : Auth)
    → epoch_of u a < 2 ^ 64
    → keeps_epochs s ≡ true
    → epoch_of u (step s a) ≡ (epoch_of u a + 0) % 2 ^ 64
keeps u s a h e = same_epoch u a (step s a) (step-epochs s a e) ∙ omega arith

epoch_of-step :
    (u : Bytes) (s : Step) (a : Auth)
    → epoch_of u a < 2 ^ 64
    → epoch_of u (step s a) ≡ (epoch_of u a + revokes u s) % 2 ^ 64
epoch_of-step u (issuing token user interaction pruned now) a h = keeps u _ a h refl
epoch_of-step u (landed token pruned now) a h = keeps u _ a h refl
epoch_of-step u (looking now) a h = keeps u _ a h refl
epoch_of-step u (exchanging s pruned now) a h = keeps u _ a h refl
epoch_of-step u (checking key s touch pruned now) a h = keeps u _ a h refl
epoch_of-step u (revoking user) a h = step_revoke u user a h
epoch_of-step u (logging_out key) a h = keeps u _ a h refl

pub epoch_of-steps :
    (u : Bytes) (ss : List Step) (a : Auth)
    → epoch_of u a < 2 ^ 64
    → epoch_of u (steps ss a) ≡ (epoch_of u a + revocations u ss) % 2 ^ 64
unfolding steps
epoch_of-steps u [] a h = omega arith
epoch_of-steps u (s ∷ ss) a h =
    let e = epoch_of-step u s a h in omega (arith, epoch_of-steps u ss (step s a) (omega arith), e)
