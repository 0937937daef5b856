-- ===== src/WebApi/Auth.antt =====
-- Signing in to the web control panel (webapi/auth.go): login links, nonces, sessions and their
-- revocation. Random tokens, the readings of the clock and `webcontrol.Digest` are arguments. A function
-- that releases the lock while it asks Discord takes what the other requests do to the state as an argument.
pub mod Roles
pub mod Steps
pub mod Bounds
pub mod Epochs
pub mod Sessions
pub mod Current
pub mod Kept
pub mod Revoked
pub mod Once
pub mod Fresh
use chat_wire.Common.{
  ℕ, suc, ◌+◌, ◌*◌, ◌%◌, ◌^◌, Bool, true, false, not, ◌&&◌, ◌||◌, Option, none, some, List, [], ◌∷◌,
  if◌then◌else◌, ltb, leb, ◌==◌, Bytes, bytes_eq, bytes_beq, length,
}
use chat_wire.Common.Assoc.{Assoc, lookup, insert, erase, retain}
use chat_wire.Common.Result.{Result, ok, err}

-- `webcontrol.Actor`.
pub record Actor : Type 0 where
  pub id : Bytes
  pub name : Bytes
  pub admin : Bool

-- `loginGrant`. Times are in nanoseconds.
pub record LoginGrant : Type 0 where
  pub user_id : Bytes
  pub expires : ℕ

-- `session`.
pub record Session : Type 0 where
  pub actor : Actor
  pub csrf : Bytes
  pub created : ℕ
  pub seen : ℕ
  pub checked : ℕ
  pub epoch : ℕ

-- `Auth`; a nonce is the time when it expires.
pub record Auth : Type 0 where
  pub grants : Assoc Bytes LoginGrant
  pub sessions : Assoc Bytes Session
  pub nonces : Assoc Bytes ℕ
  pub interactions : Assoc Bytes ℕ
  pub issued : Assoc Bytes ℕ
  pub epochs : Assoc Bytes ℕ

pub data Refusal : Type 0 where
  invalid_identity interaction_used wait_longer too_many_logins too_many_requests : Refusal
  invalid_login login_used login_revoked sign_in session_revoked : Refusal
  unverified identity_mismatch membership_required role_required : Refusal

abbrev pub second : ℕ
second = 1000000000

abbrev pub minute : ℕ
minute = 60 * second

abbrev pub hour : ℕ
hour = 60 * minute

-- `newAuth`.
abbrev pub new_auth : Auth
new_auth = record {
  grants = [];
  sessions = [];
  nonces = [];
  interactions = [];
  issued = [];
  epochs = [];
}

abbrev pub is_live : ℕ → Bytes × Session → Bool
is_live now e = not (leb (e.1.created + 8 * hour) now || leb (e.1.seen + 30 * minute) now)

-- `prune`.
unfoldable pub prune : ℕ → Auth → Auth
prune now a = record a {
  grants = retain (λ e. ltb now e.1.expires) a.grants;
  nonces = retain (λ e. ltb now e.1) a.nonces;
  sessions = retain (is_live now) a.sessions;
  interactions = retain (λ e. not (ltb (e.1 + 10 * minute) now)) a.interactions;
  issued = retain (λ e. not (ltb (e.1 + minute) now)) a.issued;
}

-- `webcontrol.ValidID`.
abbrev pub is_id_byte : ℕ → Bool
is_id_byte c =
    leb 97 c && leb c 122 || leb 65 c && leb c 90 || leb 48 c && leb c 57 || c == 45 || c == 95

abbrev pub all_id_bytes : Bytes → Bool
all_id_bytes [] = true
all_id_bytes (c ∷ cs) = is_id_byte c && all_id_bytes cs

abbrev pub valid_id : Bytes → Bool
valid_id s = not (length s == 0 || ltb 80 (length s)) && all_id_bytes s

-- The user has been given a link less than five seconds ago.
abbrev pub is_early : ℕ → Option ℕ → Bool
is_early now none = false
is_early now (some last) = ltb now (last + 5 * second)

abbrev pub is_there : {A : Type 0} → Option A → Bool
is_there none = false
is_there (some a) = true

-- The user's old link, if there is one, is taken back.
unfoldable pub grant_link : Bytes → Bytes → Bytes → ℕ → Auth → Auth
grant_link digest user interaction now a =
    let others = retain (λ e. not (bytes_beq e.1.user_id user)) a.grants in
    record a {
      grants = insert digest (record { user_id = user; expires = now + 2 * minute }) others;
      interactions = insert interaction now a.interactions;
      issued = insert user now a.issued;
    }

-- `issue` once Discord has been asked: `token` is the digest of the new link's token.
unfoldable pub issue_pruned : Bytes → Bytes → Bytes → ℕ → Auth → Auth × Result Refusal ℕ
issue_pruned token user interaction now a =
    if is_there (lookup interaction a.interactions)
    then (a, err interaction_used)
    else if is_early now (lookup user a.issued)
    then (a, err wait_longer)
    else if leb 1000 (length a.grants)
    then (a, err too_many_logins)
    else (grant_link token user interaction now a, ok (now + 2 * minute))

unfoldable pub issue_locked : Bytes → Bytes → Bytes → ℕ → ℕ → Auth → Auth × Result Refusal ℕ
issue_locked token user interaction pruned now a =
    issue_pruned token user interaction now (prune pruned a)

-- `issue`, with what `authorize` answers.
unfoldable pub issue :
    Result Refusal Actor → Bytes → Bytes → Bytes → ℕ → ℕ → Auth → Auth × Result Refusal ℕ
issue answer token user interaction pruned now a =
    if not (valid_id user) || not (valid_id interaction)
    then (a, err invalid_identity)
    else elim answer [
      | err e ↦ (a, err e)
      | ok actor ↦ issue_locked token user interaction pruned now a
    ]

-- `landing`: `token` is the digest of the new nonce.
unfoldable pub landing : Bytes → ℕ → ℕ → Auth → Auth × Result Refusal (Unit {0})
landing token pruned now a =
    let u = prune pruned a in
    if leb 10000 (length u.nonces)
    then (u, err too_many_requests)
    else (record u { nonces = insert token (now + 5 * minute) u.nonces }, ok tt)

abbrev pub epoch_or_zero : Option ℕ → ℕ
epoch_or_zero none = 0
epoch_or_zero (some n) = n

-- `a.epochs[user]`.
unfoldable pub epoch_of : Bytes → Auth → ℕ
epoch_of user a = epoch_or_zero (lookup user a.epochs)

-- `revoke`: the epoch is a uint64.
unfoldable pub revoke : Bytes → Auth → Auth
revoke user a = record a {
  epochs = insert user (suc (epoch_of user a) % 2 ^ 64) a.epochs;
  grants = retain (λ e. not (bytes_beq e.1.user_id user)) a.grants;
  sessions = retain (λ e. not (bytes_beq e.1.actor.id user)) a.sessions;
}

-- `logout`.
unfoldable pub logout : Bytes → Auth → Auth
logout key a = record a { sessions = erase key a.sessions }

-- The second half of `exchange`: the grant's user and the epoch are those of the first half.
pub record SignIn : Type 0 where
  pub token : Bytes
  pub nonce : Bytes
  pub user_id : Bytes
  pub epoch : ℕ
  pub actor : Actor
  pub key : Bytes
  pub csrf : Bytes

abbrev pub new_session : SignIn → ℕ → Session
new_session s now = record {
  actor = s.actor;
  csrf = s.csrf;
  created = now;
  seen = now;
  checked = now;
  epoch = s.epoch;
}

unfoldable pub exchange_pruned : SignIn → ℕ → Auth → Auth × Result Refusal Session
exchange_pruned s now a =
    if not (is_there (lookup s.token a.grants))
    then (a, err login_used)
    else if not (is_there (lookup s.nonce a.nonces)) || not (epoch_of s.user_id a == s.epoch)
    then (a, err login_revoked)
    else (
      record a {
        grants = erase s.token a.grants;
        nonces = erase s.nonce a.nonces;
        sessions = insert s.key (new_session s now) a.sessions;
      },
      ok (new_session s now),
    )

unfoldable pub exchange_locked : SignIn → ℕ → ℕ → Auth → Auth × Result Refusal Session
exchange_locked s pruned now a = exchange_pruned s now (prune pruned a)

-- The readings of the clock in a request that asks Discord.
pub record Clock : Type 0 where
  pub pruned : ℕ
  pub tested : ℕ
  pub asked : ℕ
  pub pruned_again : ℕ
  pub now : ℕ

-- The first half of `exchange` has found a link and a nonce.
abbrev pub begun : Option LoginGrant → Option ℕ → Option LoginGrant
begun (some g) (some n) = some g
begun _ _ = none

-- Discord's answer has come; `a` is the state of the first half.
abbrev pub exchange_answered :
    (Auth → Auth)
    → Clock
    → Bytes
    → Bytes
    → Bytes
    → Bytes
    → Auth
    → LoginGrant
    → Result Refusal Actor
    → Auth × Result Refusal Session
exchange_answered between t token nonce key csrf a g (err e) = (between a, err e)
exchange_answered between t token nonce key csrf a g (ok actor) =
    exchange_locked
      (record {
        token = token;
        nonce = nonce;
        user_id = g.user_id;
        epoch = epoch_of g.user_id a;
        actor = actor;
        key = key;
        csrf = csrf;
      })
      t.pruned_again t.now (between a)

module _ (authorize : Bytes → Result Refusal Actor) (between : Auth → Auth) (t : Clock) where
  abbrev pub exchange_found :
      Bytes → Bytes → Bytes → Bytes → Auth → Option LoginGrant → Auth × Result Refusal Session
  exchange_found token nonce key csrf a none = (a, err invalid_login)
  exchange_found token nonce key csrf a (some g) =
      exchange_answered between t token nonce key csrf a g (authorize g.user_id)

  -- `exchange`, on the digests of the link's token, the nonce and the new session's token.
  unfoldable pub exchange : Bytes → Bytes → Bytes → Bytes → Auth → Auth × Result Refusal Session
  exchange token nonce key csrf a =
      let u = prune t.pruned a in
      exchange_found token nonce key csrf u (begun (lookup token u.grants) (lookup nonce u.nonces))

-- The second half of `check`, on the session of the first half.
abbrev pub refreshed : Session → Session → Session
refreshed s current =
    if ltb current.checked s.checked
    then record current { actor = s.actor; checked = s.checked }
    else current

abbrev pub touched : Bool → ℕ → Session → Session
touched touch now s = if touch && ltb s.seen now then record s { seen = now } else s

abbrev pub check_current :
    Bytes → Session → Bool → ℕ → Auth → Option Session → Auth × Result Refusal Session
check_current key s touch now a none = (a, err session_revoked)
check_current key s touch now a (some current) =
    let v = touched touch now (refreshed s current) in
    if not (epoch_of s.actor.id a == s.epoch)
    then (a, err session_revoked)
    else (record a { sessions = insert key v a.sessions }, ok v)

unfoldable pub check_locked : Bytes → Session → Bool → ℕ → ℕ → Auth → Auth × Result Refusal Session
check_locked key s touch pruned now a =
    let u = prune pruned a in check_current key s touch now u (lookup key u.sessions)

-- Discord's answer on the session `s` has come; `a` is the state of the first half.
abbrev pub check_answered :
    (Auth → Auth)
    → Clock
    → Bytes
    → Bool
    → Auth
    → Session
    → Result Refusal Actor
    → Auth × Result Refusal Session
check_answered between t key touch a s (err e) = (revoke s.actor.id (between a), err e)
check_answered between t key touch a s (ok actor) =
    check_locked key (record s { actor = actor; checked = t.asked }) touch t.pruned_again t.now
      (between a)

-- A session whose role has been confirmed a minute ago or earlier is checked again.
abbrev pub is_stale : Clock → Session → Bool
is_stale t s = leb (s.checked + minute) t.tested

module _ (authorize : Bytes → Result Refusal Actor) (between : Auth → Auth) (t : Clock) where
  abbrev pub check_found : Bytes → Bool → Auth → Option Session → Auth × Result Refusal Session
  check_found key touch a none = (a, err sign_in)
  check_found key touch a (some s) =
      if is_stale t s
      then check_answered between t key touch a s (authorize s.actor.id)
      else check_locked key s touch t.pruned_again t.now (between a)

  -- `check`, on the digest of the session's token.
  unfoldable pub check : Bytes → Bool → Auth → Auth × Result Refusal Session
  check key touch a = let u = prune t.pruned a in check_found key touch u (lookup key u.sessions)
