-- ===== src/WebApi/Auth/Fresh.antt =====
-- The sessions that a check accepts (webapi/auth.go).
use mathlib.Core.Path.{subst}
use chat_wire.Common.{
  ℕ, ◌+◌, ◌*◌, ◌<◌, ◌≤◌, ◌≡◌, refl, ap, ◌∙◌, arith, Bool, true, not, ◌==◌, Bytes, bytes_eq,
  bytes_beq_iff, if-All, if-cases, if◌then◌else◌, Option, none, some, All,
}
use chat_wire.Common.Assoc.{lookup, lookup-insert, retain-kept, lookup-All, insert}
use chat_wire.Common.Result.{Result, ok, err}
use chat_wire.WebApi.Auth.{
  Auth, Actor, Session, Refusal, Clock, prune, is_live, check_current, check_locked, check_found,
  check_answered, check, is_stale, epoch_of, minute, hour, touched, refreshed,
}

-- The session `v` is accepted: less than eight hours after it was made and thirty minutes after it was used, and its
-- role has been confirmed less than a minute before the check, or in it. It is kept under its key.
pub record Accepted (t : Clock) (key : Bytes) (a : Auth) (v : Session) : Type 0 where
  pub young : t.pruned_again < v.created + 8 * hour
  pub active : t.pruned_again < v.seen + 30 * minute
  pub confirmed : t.tested < v.checked + minute
  pub stored : lookup key a.sessions ≡ some v

-- If the result is a session, then it is accepted.
abbrev IfAccepted : Clock → Bytes → Auth × Result Refusal Session → Type 0
IfAccepted t key (a, err e) = Unit {0}
IfAccepted t key (a, ok v) = Accepted t key a v

stored_lem :
    (key : Bytes) (v : Session) (a : Auth)
    → lookup key (record a { sessions = insert key v a.sessions }).sessions ≡ some v
stored_lem key v a =
    lookup-insert key key v a.sessions
    ∙ ap (λ b. if b then some v else lookup key a.sessions) ((bytes_beq_iff key key).1 refl)

-- Refreshing and touching lose no time.
kept_times :
    (s current : Session) (touch : Bool) (now : ℕ)
    → (let v = touched touch now (refreshed s current) in
        (v.created ≡ current.created) × (current.seen ≤ v.seen) × (s.checked ≤ v.checked))
kept_times s current touch now = ground arith

accepted_current :
    (t : Clock) (key : Bytes) (s : Session) (touch : Bool) (now : ℕ) (a : Auth) (o : Option Session)
    → lookup key a.sessions ≡ o
    → All (λ e. is_live t.pruned_again e ≡ true) a.sessions
    → t.tested < s.checked + minute
    → IfAccepted t key (check_current key s touch now a o)
accepted_current t key s touch now a none found live h = tt
accepted_current t key s touch now a (some current) found live h =
    let v = touched touch now (refreshed s current) in
    let (made, used, confirmed) = kept_times s current touch now in
    let alive =
      lookup-All (λ e. is_live t.pruned_again e ≡ true) key current a.sessions live found in
    if-All (IfAccepted t key) (not (epoch_of s.actor.id a == s.epoch)) tt (record {
      young = ground arith;
      active = ground arith;
      confirmed = omega arith;
      stored = stored_lem key v a;
    })

accepted_locked :
    (t : Clock) (key : Bytes) (s : Session) (touch : Bool) (a : Auth)
    → t.tested < s.checked + minute
    → IfAccepted t key (check_locked key s touch t.pruned_again t.now a)
unfolding check_locked prune
accepted_locked t key s touch a h =
    accepted_current t key s touch t.now (prune t.pruned_again a) _ refl
      (retain-kept (is_live t.pruned_again) a.sessions) h

accepted_answered :
    (between : Auth → Auth) (t : Clock) (key : Bytes) (touch : Bool) (a : Auth) (s : Session)
    (answer : Result Refusal Actor)
    → t.tested ≤ t.asked
    → IfAccepted t key (check_answered between t key touch a s answer)
accepted_answered between t key touch a s (err e) h = tt
accepted_answered between t key touch a s (ok actor) h =
    accepted_locked t key (record s { actor = actor; checked = t.asked }) touch (between a)
      (omega arith)

module _ (authorize : Bytes → Result Refusal Actor) (between : Auth → Auth) (t : Clock) where
  accepted_found :
      (key : Bytes) (touch : Bool) (a : Auth) (o : Option Session)
      → t.tested ≤ t.asked
      → IfAccepted t key (check_found authorize between t key touch a o)
  accepted_found key touch a none h = tt
  accepted_found key touch a (some s) h =
      if-cases (IfAccepted t key) (is_stale t s)
        (λ e. accepted_answered between t key touch a s (authorize s.actor.id) h)
        (λ e. accepted_locked t key s touch (between a) (ground arith))

  -- Whatever other requests do in the meantime, a check returns only a session that has neither been made eight hours ago nor been out of
  -- use for thirty minutes when it is looked up last, and whose role Discord has confirmed
  -- less than a minute before the check or in it; that session is kept. The clock does not go back between the test
  -- of the role's age and the question to Discord.
  pub check-Accepted :
      (key : Bytes) (touch : Bool) (a u : Auth) (v : Session)
      → t.tested ≤ t.asked
      → check authorize between t key touch a ≡ (u, ok v)
      → Accepted t key u v
  unfolding check
  check-Accepted key touch a u v h e =
      subst (IfAccepted t key) e (accepted_found key touch (prune t.pruned a) _ h)
