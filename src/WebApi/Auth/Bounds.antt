-- ===== src/WebApi/Auth/Bounds.antt =====
-- How many links and nonces wait to be used (webapi/auth.go).
use chat_wire.Common.{
  ℕ, ◌+◌, ◌*◌, ◌≤◌, ◌≡◌, arith, Bool, false, not, ◌||◌, ltb, leb, List, Bytes, bytes_eq, bytes_beq,
  length, if-All, if-cases, ◌==◌, Option, none, some,
}
use chat_wire.Common.Assoc.{lookup, retain, length-retain, length-erase, length-insert}
use chat_wire.Common.Result.{Result}
use chat_wire.WebApi.Auth.{
  Auth, Session, SignIn, Refusal, new_auth, prune, grant_link, issue_pruned, issue_locked, landing,
  exchange_pruned, exchange_locked, check_current, check_locked, revoke, logout, is_there, is_early,
  minute, epoch_of,
}
use chat_wire.WebApi.Auth.Steps.{
  Step, issuing, landed, looking, exchanging, checking, revoking, logging_out, step, steps,
  steps-Invariant,
}

-- At most 1,000 links and 10,000 nonces.
pub record Bounded (a : Auth) : Type 0 where
  pub links : length a.grants ≤ 1000
  pub nonces : length a.nonces ≤ 10000

prune-Bounded : (now : ℕ) (a : Auth) → Bounded a → Bounded (prune now a)
unfolding prune
prune-Bounded now a b = record {
  links = omega (arith, length-retain (λ e. ltb now e.1.expires) a.grants, b.links);
  nonces = omega (arith, length-retain (λ e. ltb now e.1) a.nonces, b.nonces);
}

grant_link-Bounded :
    (token user interaction : Bytes) (now : ℕ) (a : Auth)
    → leb 1000 (length a.grants) ≡ false
    → Bounded a
    → Bounded (grant_link token user interaction now a)
unfolding grant_link
grant_link-Bounded token user interaction now a few b = record {
  links = ground (
    arith,
    length-insert token (record { user_id = user; expires = now + 2 * minute })
        (retain (λ e. not (bytes_beq e.1.user_id user)) a.grants),
    length-retain (λ e. not (bytes_beq e.1.user_id user)) a.grants,
  );
  nonces = b.nonces;
}

issue_pruned-Bounded :
    (token user interaction : Bytes) (now : ℕ) (a : Auth)
    → Bounded a
    → Bounded (issue_pruned token user interaction now a).0
unfolding issue_pruned
issue_pruned-Bounded token user interaction now a b =
    let P = λ (r : Auth × Result Refusal ℕ). Bounded r.0 in
    if-All P (is_there (lookup interaction a.interactions)) b (
      if-All P (is_early now (lookup user a.issued)) b (
        if-cases P (leb 1000 (length a.grants)) (λ e. b)
          (λ few. grant_link-Bounded token user interaction now a few b)))

landing-Bounded :
    (token : Bytes) (pruned now : ℕ) (a : Auth) → Bounded a → Bounded (landing token pruned now a).0
unfolding landing
landing-Bounded token pruned now a b =
    let u = prune pruned a in
    let v = prune-Bounded pruned a b in
    if-cases (λ (r : Auth × Result Refusal (Unit {0})). Bounded r.0) (leb 10000 (length u.nonces))
      (λ e. v)
      (λ few. record {
        links = v.links;
        nonces = ground (arith, length-insert token (now + 5 * minute) u.nonces);
      })

exchange_pruned-Bounded :
    (s : SignIn) (now : ℕ) (a : Auth) → Bounded a → Bounded (exchange_pruned s now a).0
unfolding exchange_pruned
exchange_pruned-Bounded s now a b =
    let P = λ (r : Auth × Result Refusal Session). Bounded r.0 in
    if-All P (not (is_there (lookup s.token a.grants))) b (
      if-All P (not (is_there (lookup s.nonce a.nonces)) || not (epoch_of s.user_id a == s.epoch)) b
        (record {
          links = omega (arith, length-erase s.token a.grants, b.links);
          nonces = omega (arith, length-erase s.nonce a.nonces, b.nonces);
        }))

check_current-Bounded :
    (key : Bytes) (s : Session) (touch : Bool) (now : ℕ) (a : Auth) (o : Option Session)
    → Bounded a
    → Bounded (check_current key s touch now a o).0
check_current-Bounded key s touch now a none b = b
check_current-Bounded key s touch now a (some current) b =
    if-All (λ (r : Auth × Result Refusal Session). Bounded r.0)
      (not (epoch_of s.actor.id a == s.epoch)) b (record { links = b.links; nonces = b.nonces })

step-Bounded : (s : Step) (a : Auth) → Bounded a → Bounded (step s a)
unfolding step issue_locked exchange_locked check_locked revoke logout
step-Bounded (issuing token user interaction pruned now) a b =
    issue_pruned-Bounded token user interaction now (prune pruned a) (prune-Bounded pruned a b)
step-Bounded (landed token pruned now) a b = landing-Bounded token pruned now a b
step-Bounded (looking now) a b = prune-Bounded now a b
step-Bounded (exchanging s pruned now) a b =
    exchange_pruned-Bounded s now (prune pruned a) (prune-Bounded pruned a b)
step-Bounded (checking key s touch pruned now) a b =
    check_current-Bounded key s touch now (prune pruned a) (lookup key (prune pruned a).sessions)
      (prune-Bounded pruned a b)
step-Bounded (revoking user) a b = record {
  links = omega (arith, length-retain (λ e. not (bytes_beq e.1.user_id user)) a.grants, b.links);
  nonces = b.nonces;
}
step-Bounded (logging_out key) a b = record { links = b.links; nonces = b.nonces }

-- After any steps from the start at most 1,000 links and 10,000 nonces wait to be used.
pub steps-Bounded : (ss : List Step) → Bounded (steps ss new_auth)
steps-Bounded ss =
    steps-Invariant Bounded step-Bounded ss new_auth
      (record { links = omega arith; nonces = omega arith })
