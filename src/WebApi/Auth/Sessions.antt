-- ===== src/WebApi/Auth/Sessions.antt =====
-- What a step does to the sessions (webapi/auth.go): those that it makes or changes, and the others.
use chat_wire.Common.{
  ℕ, ◌≡◌, refl, arith, Bool, not, ◌||◌, leb, Bytes, bytes_eq, bytes_beq, length, if-All, if-cases,
  ◌==◌, Option, none, some, All,
}
use chat_wire.Common.Assoc.{lookup, erase-All, retain-All, lookup-All, insert}
use chat_wire.Common.Result.{Result}
use chat_wire.WebApi.Auth.{
  Auth, Session, SignIn, Refusal, prune, issue_pruned, issue_locked, landing, exchange_pruned,
  exchange_locked, grant_link, new_session, check_current, check_locked, revoke, logout, is_there,
  is_early, is_live, epoch_of, touched, refreshed,
}
use chat_wire.WebApi.Auth.Steps.{
  Step, issuing, landed, looking, exchanging, checking, revoking, logging_out, step,
}

-- The sessions that a step makes or changes satisfy `P`.
abbrev pub Makes : (Bytes × Session → Type 0) → Step → Auth → Type 0
Makes P (exchanging s pruned now) a = epoch_of s.user_id a ≡ s.epoch → P (s.key, new_session s now)
Makes P (checking key s touch pruned now) a =
    (current : Session)
    → epoch_of s.actor.id a ≡ s.epoch
    → P (key, current)
    → P (key, touched touch now (refreshed s current))
Makes P _ a = Unit {0}

module _ (P : Bytes × Session → Type 0) where
  abbrev Sessions : {A : Type 0} → Auth × Result Refusal A → Type 0
  Sessions r = All P r.0.sessions

  prune-Sessions : (now : ℕ) (a : Auth) → All P a.sessions → All P (prune now a).sessions
  unfolding prune
  prune-Sessions now a h = retain-All P (is_live now) a.sessions h

  issue_pruned-Sessions :
      (token user interaction : Bytes) (now : ℕ) (a : Auth)
      → All P a.sessions
      → Sessions (issue_pruned token user interaction now a)
  unfolding issue_pruned grant_link
  issue_pruned-Sessions token user interaction now a h =
      if-All Sessions (is_there (lookup interaction a.interactions)) h (
        if-All Sessions (is_early now (lookup user a.issued)) h
          (if-All Sessions (leb 1000 (length a.grants)) h h))

  exchange_pruned-Sessions :
      (s : SignIn) (now : ℕ) (a : Auth)
      → All P a.sessions
      → (epoch_of s.user_id a ≡ s.epoch → P (s.key, new_session s now))
      → Sessions (exchange_pruned s now a)
  unfolding exchange_pruned insert
  exchange_pruned-Sessions s now a h new =
      if-All Sessions (not (is_there (lookup s.token a.grants))) h (
        if-cases Sessions
          (not (is_there (lookup s.nonce a.nonces)) || not (epoch_of s.user_id a == s.epoch))
          (λ e. h) (λ e. (new (ground arith), erase-All P s.key a.sessions h)))

  check_current-Sessions :
      (key : Bytes) (s : Session) (touch : Bool) (now : ℕ) (a : Auth) (o : Option Session)
      → All P a.sessions
      → lookup key a.sessions ≡ o
      → ((current : Session)
          → epoch_of s.actor.id a ≡ s.epoch
          → P (key, current)
          → P (key, touched touch now (refreshed s current)))
      → Sessions (check_current key s touch now a o)
  unfolding insert
  check_current-Sessions key s touch now a none h found new = h
  check_current-Sessions key s touch now a (some current) h found new =
      if-cases Sessions (not (epoch_of s.actor.id a == s.epoch)) (λ e. h)
        (λ e. (
          new current (ground arith) (lookup-All P key current a.sessions h found),
          erase-All P key a.sessions h,
        ))

  pub step-Sessions :
      (s : Step) (a : Auth) → Makes P s a → All P a.sessions → All P (step s a).sessions
  unfolding step issue_locked exchange_locked check_locked logout landing revoke prune epoch_of
  step-Sessions (issuing token user interaction pruned now) a new h =
      issue_pruned-Sessions token user interaction now (prune pruned a) (prune-Sessions pruned a h)
  step-Sessions (landed token pruned now) a new h =
      let v = prune-Sessions pruned a h in
      if-All (λ (r : Auth × Result Refusal (Unit {0})). All P r.0.sessions)
        (leb 10000 (length (prune pruned a).nonces)) v v
  step-Sessions (looking now) a new h = prune-Sessions now a h
  step-Sessions (exchanging s pruned now) a new h =
      exchange_pruned-Sessions s now (prune pruned a) (prune-Sessions pruned a h) new
  step-Sessions (checking key s touch pruned now) a new h =
      check_current-Sessions key s touch now (prune pruned a) (lookup key (prune pruned a).sessions)
        (prune-Sessions pruned a h) refl new
  step-Sessions (revoking user) a new h =
      retain-All P (λ e. not (bytes_beq e.1.actor.id user)) a.sessions h
  step-Sessions (logging_out key) a new h = erase-All P key a.sessions h
