-- ===== src/WebApi/Auth/Revoked.antt =====
-- Requests that a revocation overtakes (webapi/auth.go).
use chat_wire.Common.{
  ℕ, ◌^◌, ◌<◌, ◌≡◌, refl, ap, ◌∙◌, arith, Bool, false, not, ◌||◌, ◌==◌, List, Bytes, bytes_eq,
  if-All, if-cases, Option, none, some,
}
use chat_wire.Common.Assoc.{lookup, retain-All, lookup-All}
use chat_wire.Common.Result.{Result, ok, err, is_ok}
use chat_wire.WebApi.Auth.{
  Auth, Actor, Session, SignIn, LoginGrant, Refusal, Clock, prune, is_live, is_there,
  exchange_pruned, exchange_locked, exchange_found, exchange_answered, exchange, check_current,
  check_locked, check_found, check_answered, check, is_stale, epoch_of, begun,
}
use chat_wire.WebApi.Auth.Roles.{Config, Authorization, authorize, authorize_iff}
use chat_wire.WebApi.Auth.Epochs.{revocations, epoch_of-steps}
use chat_wire.WebApi.Auth.Steps.{Step, steps}
use chat_wire.WebApi.Auth.Current.{Current, IsCurrent}

-- `authorize` answers with the user that it was asked for.
same_user :
    (c : Config) (ask : Bytes → Option Authorization) (id : Bytes) (actor : Actor)
    → authorize c ask id ≡ ok actor
    → actor.id ≡ id
same_user c ask id actor h =
    let (a, e, v) = (authorize_iff c ask id actor).0 h in ap (λ (x : Actor). x.id) v.same

late_check_current :
    (key : Bytes) (s : Session) (touch : Bool) (now : ℕ) (a : Auth) (o : Option Session)
    → (epoch_of s.actor.id a == s.epoch) ≡ false
    → is_ok (check_current key s touch now a o).1 ≡ false
late_check_current key s touch now a none h = refl
late_check_current key s touch now a (some current) h = rw (h)

late_check :
    (key : Bytes) (s : Session) (touch : Bool) (pruned now : ℕ) (a : Auth)
    → (epoch_of s.actor.id a == s.epoch) ≡ false
    → is_ok (check_locked key s touch pruned now a).1 ≡ false
unfolding check_locked prune epoch_of
late_check key s touch pruned now a h = late_check_current key s touch now (prune pruned a) _ h

late_exchange_pruned :
    (s : SignIn) (now : ℕ) (a : Auth)
    → (epoch_of s.user_id a == s.epoch) ≡ false
    → is_ok (exchange_pruned s now a).1 ≡ false
unfolding exchange_pruned
late_exchange_pruned s now a h =
    let P = λ (r : Auth × Result Refusal Session). is_ok r.1 ≡ false in
    if-All P (not (is_there (lookup s.token a.grants))) refl (
      if-cases P (not (is_there (lookup s.nonce a.nonces)) || not (epoch_of s.user_id a == s.epoch))
        (λ e. refl) (λ e. absurd (ground arith)))

late_exchange :
    (s : SignIn) (pruned now : ℕ) (a : Auth)
    → (epoch_of s.user_id a == s.epoch) ≡ false
    → is_ok (exchange_locked s pruned now a).1 ≡ false
unfolding exchange_locked prune epoch_of
late_exchange s pruned now a h = late_exchange_pruned s now (prune pruned a) h

-- An epoch after some revocations of its user, of which there are fewer than 2^64, is another one.
other_epoch :
    (u : Bytes) (ss : List Step) (a : Auth) (old : ℕ)
    → epoch_of u a ≡ old
    → old < 2 ^ 64
    → 0 < revocations u ss
    → revocations u ss < 2 ^ 64
    → (epoch_of u (steps ss a) == old) ≡ false
other_epoch u ss a old e h some_revoked few =
    let after = epoch_of-steps u ss a (omega arith) in ground arith

-- The user is revoked in the steps, and fewer than 2^64 times.
abbrev pub Revoked : Bytes → List Step → Type 0
Revoked u ss = (0 < revocations u ss) × (revocations u ss < 2 ^ 64)

within :
    (pruned : ℕ) (u : Bytes) (a : Auth)
    → epoch_of u a < 2 ^ 64
    → epoch_of u (prune pruned a) < 2 ^ 64
unfolding prune epoch_of
within pruned u a h = h

snapshot_epoch :
    (pruned : ℕ) (key : Bytes) (a : Auth) (s : Session)
    → lookup key (prune pruned a).sessions ≡ some s
    → Current a
    → epoch_of s.actor.id (prune pruned a) ≡ s.epoch
unfolding prune epoch_of
snapshot_epoch pruned key a s found current =
    lookup-All (IsCurrent a) key s (prune pruned a).sessions
      (retain-All (IsCurrent a) (is_live pruned) a.sessions current) found

module _ (ss : List Step) (t : Clock) where
  late_exchange_answered :
      (token nonce key csrf : Bytes) (a : Auth) (g : LoginGrant) (answer : Result Refusal Actor)
      → epoch_of g.user_id a < 2 ^ 64
      → Revoked g.user_id ss
      → is_ok (exchange_answered (steps ss) t token nonce key csrf a g answer).1 ≡ false
  late_exchange_answered token nonce key csrf a g (err e) h r = refl
  late_exchange_answered token nonce key csrf a g (ok actor) h r =
      late_exchange _ t.pruned_again t.now (steps ss a)
        (other_epoch g.user_id ss a (epoch_of g.user_id a) refl h r.0 r.1)

  late_check_answered :
      (key : Bytes) (touch : Bool) (a : Auth) (s : Session) (answer : Result Refusal Actor)
      → epoch_of s.actor.id a ≡ s.epoch
      → s.epoch < 2 ^ 64
      → Revoked s.actor.id ss
      → ((actor : Actor) → answer ≡ ok actor → actor.id ≡ s.actor.id)
      → is_ok (check_answered (steps ss) t key touch a s answer).1 ≡ false
  late_check_answered key touch a s (err e) current h r same = refl
  late_check_answered key touch a s (ok actor) current h r same =
      late_check key (record s { actor = actor; checked = t.asked }) touch t.pruned_again t.now
        (steps ss a)
        (ap (λ (u : Bytes). epoch_of u (steps ss a) == s.epoch) (same actor refl)
          ∙ other_epoch s.actor.id ss a s.epoch current h r.0 r.1)

module _ (c : Config) (ask : Bytes → Option Authorization) (ss : List Step) (t : Clock) where
  late_begun :
      (token nonce key csrf : Bytes) (a : Auth) (g : LoginGrant) (o : Option ℕ)
      → epoch_of g.user_id a < 2 ^ 64
      → Revoked g.user_id ss
      → is_ok
          (exchange_found
            (authorize c ask)
            (steps ss)
            t
            token
            nonce
            key
            csrf
            a
            (begun (some g) o)).1
        ≡ false
  late_begun token nonce key csrf a g none h r = refl
  late_begun token nonce key csrf a g (some n) h r =
      late_exchange_answered ss t token nonce key csrf a g (authorize c ask g.user_id) h r

  -- A login link of a user who is revoked while Discord is asked gives no session. Fewer than 2^64
  -- revocations come between, and the user's epoch is a uint64.
  pub exchange-Revoked :
      (token nonce key csrf : Bytes) (a : Auth) (g : LoginGrant)
      → lookup token (prune t.pruned a).grants ≡ some g
      → epoch_of g.user_id a < 2 ^ 64
      → Revoked g.user_id ss
      → is_ok (exchange (authorize c ask) (steps ss) t token nonce key csrf a).1 ≡ false
  unfolding exchange
  exchange-Revoked token nonce key csrf a g found h r = rw (found) (
      late_begun token nonce key csrf (prune t.pruned a) g (lookup nonce (prune t.pruned a).nonces)
        (within t.pruned g.user_id a h) r)

  late_check_found :
      (key : Bytes) (touch : Bool) (a : Auth) (s : Session)
      → epoch_of s.actor.id a ≡ s.epoch
      → s.epoch < 2 ^ 64
      → Revoked s.actor.id ss
      → is_ok (check_found (authorize c ask) (steps ss) t key touch a (some s)).1 ≡ false
  late_check_found key touch a s current h r =
      if-All (λ (v : Auth × Result Refusal Session). is_ok v.1 ≡ false) (is_stale t s)
        (late_check_answered ss t key touch a s (authorize c ask s.actor.id) current h r
          (same_user c ask s.actor.id))
        (late_check key s touch t.pruned_again t.now (steps ss a)
          (other_epoch s.actor.id ss a s.epoch current h r.0 r.1))

  -- A request with a session whose user is revoked while the request is checked is refused, whether or not Discord
  -- is asked, if the session is of its user's epoch. Fewer than 2^64 revocations come between, and
  -- the epoch is a uint64.
  pub check-Revoked :
      (key : Bytes) (touch : Bool) (a : Auth) (s : Session)
      → lookup key (prune t.pruned a).sessions ≡ some s
      → Current a
      → s.epoch < 2 ^ 64
      → Revoked s.actor.id ss
      → is_ok (check (authorize c ask) (steps ss) t key touch a).1 ≡ false
  unfolding check
  check-Revoked key touch a s found current h r = rw (found) (
      late_check_found key touch (prune t.pruned a) s
        (snapshot_epoch t.pruned key a s found current) h r)
