-- ===== src/Examples/SignIn.antt =====
-- Signing in to the web control panel (webapi/auth.go) at concrete inputs.
use chat_wire.Common.{
  ℕ, ◌≡◌, ◌↔◌, refl, arith, true, false, Option, some, List, [], ◌∷◌, Bytes, bytes_eq,
}
use chat_wire.Common.Assoc.{lookup, insert, erase, retain}
use chat_wire.Common.Result.{Result, ok, err, is_ok}
use chat_wire.WebApi.Auth.{
  Auth, Actor, Session, Clock, new_auth, prune, issue_locked, issue_pruned, grant_link, landing,
  Refusal, epoch_of, exchange, exchange_locked, exchange_pruned, check, check_locked, invalid_login,
}
use chat_wire.WebApi.Auth.Roles.{Config, Authorization, Allowed, authorize, actor_of, authorize_iff}
use chat_wire.WebApi.Auth.Steps.{Step, issuing, landed, exchanging, revoking, step, steps}
use chat_wire.WebApi.Auth.Bounds.{Bounded, steps-Bounded}
use chat_wire.WebApi.Auth.Current.{Current, SoundSteps, steps-Current}
use chat_wire.WebApi.Auth.Revoked.{exchange-Revoked, check-Revoked}
use chat_wire.WebApi.Auth.Fresh.{Accepted, check-Accepted}
use chat_wire.WebApi.Auth.Once.{exchange_once}

abbrev guild_config : Config
guild_config = record {
  guild_id = 1 ∷ [];
  admin_role_ids = (2 ∷ []) ∷ [];
  moderator_role_ids = (3 ∷ []) ∷ [];
}

-- Everybody is a moderator of the guild.
abbrev moderators : Bytes → Option Authorization
moderators id =
    some
      (record { user_id = id; name = 9 ∷ []; guild_id = 1 ∷ []; roles = (5 ∷ []) ∷ (3 ∷ []) ∷ [] })

abbrev anna : Bytes
anna = 65 ∷ []

abbrev moderator : Actor
moderator = record { id = anna; name = 9 ∷ []; admin = false }

moderator-allowed : authorize guild_config moderators anna ≡ ok moderator
unfolding authorize actor_of
moderator-allowed = refl

authorize_iff_example :
    (authorize guild_config moderators anna ≡ ok moderator)
    ↔ ((a : Authorization) × (moderators anna ≡ some a) × Allowed guild_config anna a moderator)
authorize_iff_example = authorize_iff guild_config moderators anna moderator

-- The digests of a link, a nonce and a session, and what has happened so far.
abbrev link : Bytes
link = 10 ∷ []

abbrev nonce : Bytes
nonce = 20 ∷ []

abbrev key : Bytes
key = 30 ∷ []

abbrev before : List Step
before = issuing link anna (66 ∷ []) 0 0 ∷ landed nonce 0 0 ∷ []

-- Four clock readings at the start, and a last one.
abbrev at_start : ℕ → Clock
at_start now = record { pruned = 0; tested = 0; asked = 0; pruned_again = 0; now = now }

abbrev one_minute_on : Clock
one_minute_on = record {
  pruned = 60000000005;
  tested = 60000000005;
  asked = 60000000006;
  pruned_again = 60000000009;
  now = 60000000009;
}

steps-Bounded_example : Bounded (steps before new_auth)
steps-Bounded_example = steps-Bounded before

-- Anna signs in.
abbrev sign_in_step : Step
sign_in_step =
    exchanging
      (record {
        token = link;
        nonce = nonce;
        user_id = anna;
        epoch = 0;
        actor = moderator;
        key = key;
        csrf = [];
      })
      0 5

abbrev annas_session : Session
annas_session = record {
  actor = moderator;
  csrf = [];
  created = 5;
  seen = 5;
  checked = 5;
  epoch = 0;
}

abbrev signed_in : List Step
signed_in = issuing link anna (66 ∷ []) 0 0 ∷ landed nonce 0 0 ∷ sign_in_step ∷ []

signed_in-SoundSteps : SoundSteps signed_in new_auth
signed_in-SoundSteps = (tt, (tt, (refl, tt)))

steps-Current_example : Current (steps signed_in new_auth)
steps-Current_example = steps-Current signed_in new_auth signed_in-SoundSteps tt

-- The link is revoked while Discord is asked.
link-there :
    lookup link (prune 0 (steps before new_auth)).grants
    ≡ some (record { user_id = anna; expires = 120000000000 })
unfolding steps step issue_locked issue_pruned grant_link landing prune lookup insert erase retain
link-there = refl

epoch-small : epoch_of anna (steps before new_auth) ≡ 0
unfolding steps step issue_locked issue_pruned grant_link landing prune lookup insert erase retain
    epoch_of
epoch-small = refl

exchange-Revoked_example :
    is_ok
      (exchange
        (authorize guild_config moderators)
        (steps (revoking anna ∷ []))
        (at_start 5)
        link
        nonce
        key
        []
        (steps before new_auth)).1
    ≡ false
exchange-Revoked_example =
    exchange-Revoked guild_config moderators (revoking anna ∷ []) (at_start 5) link nonce key []
      (steps before new_auth) (record { user_id = anna; expires = 120000000000 }) link-there
      (omega (arith, epoch-small)) (omega arith, omega arith)

session-there :
    lookup key (prune 60000000005 (steps signed_in new_auth)).sessions ≡ some annas_session
unfolding steps step issue_locked issue_pruned grant_link landing prune lookup insert erase retain
    epoch_of exchange_locked exchange_pruned
session-there = refl

check-Revoked_example :
    is_ok
      (check
        (authorize guild_config moderators)
        (steps (revoking anna ∷ []))
        one_minute_on
        key
        true
        (steps signed_in new_auth)).1
    ≡ false
check-Revoked_example =
    check-Revoked guild_config moderators (revoking anna ∷ []) one_minute_on key true
      (steps signed_in new_auth) annas_session session-there
      (steps-Current signed_in new_auth signed_in-SoundSteps tt) (omega arith)
      (omega arith, omega arith)

abbrev checked_session : Session
checked_session = record annas_session { seen = 60000000009; checked = 60000000006 }

abbrev checked_auth : Auth
checked_auth =
    (check (authorize guild_config moderators) (λ a. a) one_minute_on key true
      (steps signed_in new_auth)).0

session-checked :
    check
      (authorize guild_config moderators)
      (λ a. a)
      one_minute_on
      key
      true
      (steps signed_in new_auth)
    ≡ (checked_auth, ok checked_session)
unfolding steps step issue_locked issue_pruned grant_link landing prune lookup insert erase retain
    epoch_of exchange_locked exchange_pruned check check_locked authorize actor_of
session-checked = refl

check-Accepted_example : Accepted one_minute_on key checked_auth checked_session
check-Accepted_example =
    check-Accepted (authorize guild_config moderators) (λ a. a) one_minute_on key true
      (steps signed_in new_auth) checked_auth checked_session (omega arith) session-checked

abbrev used : Auth × Result Refusal Session
used =
    exchange (authorize guild_config moderators) (λ a. a) (at_start 5) link nonce key []
      (steps before new_auth)

link-used : used ≡ (used.0, ok annas_session)
unfolding steps step issue_locked issue_pruned grant_link landing prune lookup insert erase retain
    epoch_of exchange exchange_locked exchange_pruned authorize actor_of
link-used = refl

abbrev afterwards : List Step
afterwards = landed (21 ∷ []) 6 6 ∷ issuing (11 ∷ []) anna (67 ∷ []) 6000000000 6000000000 ∷ []

-- The same link has been looked up before, with another nonce.
abbrev two_nonces : Auth
two_nonces =
    steps (issuing link anna (66 ∷ []) 0 0 ∷ landed nonce 0 0 ∷ landed (21 ∷ []) 0 0 ∷ []) new_auth

exchange_once_example :
    (exchange
        (authorize guild_config moderators)
        (λ a. a)
        (at_start 9)
        link
        (21 ∷ [])
        (31 ∷ [])
        []
        (steps afterwards used.0)
      ≡ (prune 0 (steps afterwards used.0), err invalid_login))
    × (is_ok
          (exchange
            (authorize guild_config moderators)
            (λ a. steps afterwards used.0)
            (at_start 9)
            link
            (21 ∷ [])
            (31 ∷ [])
            []
            two_nonces).1
        ≡ false)
exchange_once_example =
    exchange_once (authorize guild_config moderators) (authorize guild_config moderators) (λ a. a)
      (λ a. a) (λ a. steps afterwards used.0) (at_start 5) (at_start 9) link nonce (21 ∷ []) key
      (31 ∷ []) [] [] (steps before new_auth) two_nonces used.0 annas_session afterwards link-used
      (tt, (refl, tt)) refl
