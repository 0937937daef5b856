-- ===== src/WebApi/Auth/Once.antt =====
-- A login link is used once (webapi/auth.go).
use mathlib.Core.Path.{subst}
use chat_wire.Common.{
  ℕ, ◌+◌, ◌*◌, ◌≡◌, refl, ◌∙◌, arith, Bool, false, not, ◌||◌, ltb, leb, ◌==◌, List, [], ◌∷◌, length,
  Bytes, bytes_eq, bytes_beq, bytes_beq_iff, if-All, Option, none, some, All,
}
use chat_wire.Common.Assoc.{
  Assoc, lookup, lookup-insert, lookup-erase, lookup-retain, erase, retain,
}
use chat_wire.Common.Result.{Result, ok, err, is_ok}
use chat_wire.WebApi.Auth.{
  Auth, Actor, Session, SignIn, LoginGrant, Refusal, Clock, prune, is_there, is_early, issue_pruned,
  issue_locked, grant_link, landing, exchange_pruned, exchange_locked, exchange_found,
  exchange_answered, exchange, check_current, check_locked, revoke, logout, epoch_of, minute,
  invalid_login,
}
use chat_wire.WebApi.Auth.Steps.{
  Step, issuing, landed, looking, exchanging, checking, revoking, logging_out, step, steps,
}

-- There is no login link with this digest.
abbrev pub NoLink : Bytes → Auth → Type 0
NoLink token a = lookup token a.grants ≡ none

abbrev AfterLink : {A : Type 0} → Bytes → Auth × Result Refusal A → Type 0
AfterLink token r = NoLink token r.0

-- No new link gets the digest.
abbrev pub NewLink : Bytes → Step → Type 0
NewLink token (issuing token' user interaction pruned now) = bytes_beq token' token ≡ false
NewLink token _ = Unit {0}

erase-none :
    {V : Type 0} (k j : Bytes) (m : Assoc Bytes V) → lookup j m ≡ none → lookup j (erase k m) ≡ none
erase-none k j m h = lookup-erase k j m ∙ ground arith

prune-NoLink : (token : Bytes) (now : ℕ) (a : Auth) → NoLink token a → NoLink token (prune now a)
unfolding prune
prune-NoLink token now a h = lookup-retain token (λ e. ltb now e.1.expires) a.grants h

grant_link-NoLink :
    (token token' user interaction : Bytes) (now : ℕ) (a : Auth)
    → bytes_beq token' token ≡ false
    → NoLink token a
    → NoLink token (grant_link token' user interaction now a)
unfolding grant_link
grant_link-NoLink token token' user interaction now a new h =
    let others = retain (λ e. not (bytes_beq e.1.user_id user)) a.grants in
    lookup-insert token' token (record { user_id = user; expires = now + 2 * minute }) others
    ∙ rw (new) (lookup-retain token (λ e. not (bytes_beq e.1.user_id user)) a.grants h)

issue_pruned-NoLink :
    (token token' user interaction : Bytes) (now : ℕ) (a : Auth)
    → bytes_beq token' token ≡ false
    → NoLink token a
    → AfterLink token (issue_pruned token' user interaction now a)
unfolding issue_pruned
issue_pruned-NoLink token token' user interaction now a new h =
    if-All (AfterLink token) (is_there (lookup interaction a.interactions)) h (
      if-All (AfterLink token) (is_early now (lookup user a.issued)) h (
        if-All (AfterLink token) (leb 1000 (length a.grants)) h
          (grant_link-NoLink token token' user interaction now a new h)))

landing-NoLink :
    (token nonce : Bytes) (pruned now : ℕ) (a : Auth)
    → NoLink token a
    → AfterLink token (landing nonce pruned now a)
unfolding landing
landing-NoLink token nonce pruned now a h =
    let v = prune-NoLink token pruned a h in
    if-All (AfterLink token) (leb 10000 (length (prune pruned a).nonces)) v v

exchange_pruned-NoLink :
    (token : Bytes) (s : SignIn) (now : ℕ) (a : Auth)
    → NoLink token a
    → AfterLink token (exchange_pruned s now a)
unfolding exchange_pruned
exchange_pruned-NoLink token s now a h =
    if-All (AfterLink token) (not (is_there (lookup s.token a.grants))) h (
      if-All (AfterLink token)
        (not (is_there (lookup s.nonce a.nonces)) || not (epoch_of s.user_id a == s.epoch)) h
        (erase-none s.token token a.grants h))

check_current-NoLink :
    (token key : Bytes) (s : Session) (touch : Bool) (now : ℕ) (a : Auth) (o : Option Session)
    → NoLink token a
    → AfterLink token (check_current key s touch now a o)
check_current-NoLink token key s touch now a none h = h
check_current-NoLink token key s touch now a (some current) h =
    if-All (AfterLink token) (not (epoch_of s.actor.id a == s.epoch)) h h

step-NoLink :
    (token : Bytes) (s : Step) (a : Auth)
    → NewLink token s
    → NoLink token a
    → NoLink token (step s a)
unfolding step issue_locked exchange_locked check_locked revoke logout
step-NoLink token (issuing token' user interaction pruned now) a new h =
    issue_pruned-NoLink token token' user interaction now (prune pruned a) new
      (prune-NoLink token pruned a h)
step-NoLink token (landed nonce pruned now) a new h = landing-NoLink token nonce pruned now a h
step-NoLink token (looking now) a new h = prune-NoLink token now a h
step-NoLink token (exchanging s pruned now) a new h =
    exchange_pruned-NoLink token s now (prune pruned a) (prune-NoLink token pruned a h)
step-NoLink token (checking key s touch pruned now) a new h =
    check_current-NoLink token key s touch now (prune pruned a)
      (lookup key (prune pruned a).sessions) (prune-NoLink token pruned a h)
step-NoLink token (revoking user) a new h =
    lookup-retain token (λ e. not (bytes_beq e.1.user_id user)) a.grants h
step-NoLink token (logging_out key) a new h = h

steps-NoLink :
    (token : Bytes) (ss : List Step) (a : Auth)
    → All (NewLink token) ss
    → NoLink token a
    → NoLink token (steps ss a)
unfolding steps
steps-NoLink token [] a new h = h
steps-NoLink token (s ∷ ss) a new h =
    steps-NoLink token ss (step s a) new.1 (step-NoLink token s a new.0 h)

-- An exchange that gives a session has used its link.
abbrev IfUsed : Bytes → Auth × Result Refusal Session → Type 0
IfUsed token (a, err e) = Unit {0}
IfUsed token (a, ok v) = NoLink token a

used_pruned : (s : SignIn) (now : ℕ) (a : Auth) → IfUsed s.token (exchange_pruned s now a)
unfolding exchange_pruned
used_pruned s now a = if-All (IfUsed s.token) (not (is_there (lookup s.token a.grants))) tt (
    if-All (IfUsed s.token)
      (not (is_there (lookup s.nonce a.nonces)) || not (epoch_of s.user_id a == s.epoch)) tt
      (lookup-erase s.token s.token a.grants ∙ rw ((bytes_beq_iff s.token s.token).1 refl)))

module _ (authorize : Bytes → Result Refusal Actor) (between : Auth → Auth) (t : Clock)
    (token nonce key csrf : Bytes) where
  used_answered :
      (a : Auth) (g : LoginGrant) (answer : Result Refusal Actor)
      → IfUsed token (exchange_answered between t token nonce key csrf a g answer)
  unfolding exchange_locked
  used_answered a g (err e) = tt
  used_answered a g (ok actor) = used_pruned _ t.now (prune t.pruned_again (between a))

  used_found :
      (a : Auth) (o : Option LoginGrant)
      → IfUsed token (exchange_found authorize between t token nonce key csrf a o)
  used_found a none = tt
  used_found a (some g) = used_answered a g (authorize g.user_id)

  used_lem : (a : Auth) → IfUsed token (exchange authorize between t token nonce key csrf a)
  unfolding exchange
  used_lem a = used_found (prune t.pruned a) _

  not_found :
      (a : Auth)
      → NoLink token a
      → exchange authorize between t token nonce key csrf a ≡ (prune t.pruned a, err invalid_login)
  unfolding exchange
  not_found a h = rw (prune-NoLink token t.pruned a h)

-- An exchange that has looked before, and goes on where there is no link.
module _ (authorize : Bytes → Result Refusal Actor) (between : Auth → Auth) (t : Clock)
    (token nonce key csrf : Bytes) (u : Auth) (gone : NoLink token u) where
  late_pruned :
      (s : SignIn)
      → s.token ≡ token
      → (x : Auth) → x ≡ u
      → is_ok (exchange_locked s t.pruned_again t.now x).1 ≡ false
  unfolding exchange_locked exchange_pruned
  late_pruned s e x same = rw (same, e, prune-NoLink token t.pruned_again u gone) refl

  late_answered :
      (a : Auth) (g : LoginGrant) (answer : Result Refusal Actor)
      → between a ≡ u
      → is_ok (exchange_answered between t token nonce key csrf a g answer).1 ≡ false
  late_answered a g (err e) same = refl
  late_answered a g (ok actor) same = late_pruned _ refl (between a) same

  late_found :
      (a : Auth) (o : Option LoginGrant)
      → between a ≡ u
      → is_ok (exchange_found authorize between t token nonce key csrf a o).1 ≡ false
  late_found a none same = refl
  late_found a (some g) same = late_answered a g (authorize g.user_id) same

  late_lem :
      (a : Auth)
      → between (prune t.pruned a) ≡ u
      → is_ok (exchange authorize between t token nonce key csrf a).1 ≡ false
  unfolding exchange
  late_lem a same = late_found (prune t.pruned a) _ same

-- Once a login link has given a session, it gives none again, after whatever steps, if no new link has the same
-- digest: an exchange of the same link with any nonce that begins then is refused as invalid and only
-- removes what has expired; and one that has begun before, in any state, and takes the lock again then gives no
-- session either.
pub exchange_once :
    (authorize authorize' : Bytes → Result Refusal Actor) (between between' during : Auth → Auth)
    (t t' : Clock) (token nonce nonce' key key' csrf csrf' : Bytes) (a b u : Auth) (v : Session)
    (ss : List Step)
    → exchange authorize between t token nonce key csrf a ≡ (u, ok v)
    → All (NewLink token) ss
    → during (prune t'.pruned b) ≡ steps ss u
    → (exchange authorize' between' t' token nonce' key' csrf' (steps ss u)
        ≡ (prune t'.pruned (steps ss u), err invalid_login))
      × (is_ok (exchange authorize' during t' token nonce' key' csrf' b).1 ≡ false)
exchange_once authorize authorize' between between' during t t' token nonce nonce' key key' csrf
      csrf' a b u v ss done new same =
    let gone =
      steps-NoLink token ss u new
        (subst (IfUsed token) done (used_lem authorize between t token nonce key csrf a)) in
    (
      not_found authorize' between' t' token nonce' key' csrf' (steps ss u) gone,
      late_lem authorize' during t' token nonce' key' csrf' (steps ss u) gone b same,
    )
