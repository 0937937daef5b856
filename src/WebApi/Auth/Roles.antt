-- ===== src/WebApi/Auth/Roles.antt =====
-- Who may sign in (webapi/auth.go, webapi/server.go): the roles that Discord reports for a user.
use mathlib.Core.Path.{subst}
use chat_wire.Common.{
  ◌≡◌, ◌↔◌, refl, sym, ap, ◌∙◌, bytes_beq_iff, Bool, true, false, not, ◌&&◌, ◌||◌, Option, none,
  some, List, [], ◌∷◌, if◌then◌else◌, Bytes, bytes_beq, arith, ◌==◌, length,
}
use chat_wire.Common.Result.{Result, ok, err, if-ok, ok-inj}
use chat_wire.WebApi.Auth.{
  Actor, Refusal, membership_required, role_required, unverified, identity_mismatch,
}

-- `webcontrol.Authorization`.
pub record Authorization : Type 0 where
  pub user_id : Bytes
  pub name : Bytes
  pub guild_id : Bytes
  pub roles : List Bytes

-- What `Config` says of roles.
pub record Config : Type 0 where
  pub guild_id : Bytes
  pub admin_role_ids : List Bytes
  pub moderator_role_ids : List Bytes

-- `slices.Contains`.
abbrev pub contains : List Bytes → Bytes → Bool
contains [] r = false
contains (x ∷ xs) r = bytes_beq x r || contains xs r

-- The loop of `Config.actor` over the roles, on the flags of an administrator and a moderator.
abbrev pub scan_roles : Config → List Bytes → Bool → Bool → Bool × Bool
scan_roles c [] admin mod_role = (admin, mod_role)
scan_roles c (r ∷ rs) admin mod_role =
    scan_roles c rs (admin || contains c.admin_role_ids r)
      (mod_role || contains c.moderator_role_ids r)

-- `Config.actor`.
unfoldable pub actor_of : Config → Authorization → Result Refusal Actor
actor_of c v =
    let (admin, mod_role) = scan_roles c v.roles false false in
    if not (bytes_beq v.guild_id c.guild_id) || length v.user_id == 0
    then err membership_required
    else if not admin && not mod_role
    then err role_required
    else ok (record { id = v.user_id; name = v.name; admin = admin })

-- The `authorize` that NewServer gives to `newAuth`, on the answer of the primary server.
abbrev pub of_user : Config → Bytes → Authorization → Result Refusal Actor
of_user c id a = if not (bytes_beq a.user_id id) then err identity_mismatch else actor_of c a

abbrev pub of_answer : Config → Bytes → Option Authorization → Result Refusal Actor
of_answer c id none = err unverified
of_answer c id (some a) = of_user c id a

unfoldable pub authorize : Config → (Bytes → Option Authorization) → Bytes → Result Refusal Actor
authorize c ask id = of_answer c id (ask id)

-- One of the roles is in a list of the configuration.
abbrev pub has_role : List Bytes → List Bytes → Bool
has_role ids [] = false
has_role ids (r ∷ rs) = contains ids r || has_role ids rs

scan_roles-has_role :
    (c : Config) (rs : List Bytes) (admin mod_role : Bool)
    → scan_roles c rs admin mod_role
      ≡ (admin || has_role c.admin_role_ids rs, mod_role || has_role c.moderator_role_ids rs)
scan_roles-has_role c [] admin mod_role = ground arith
scan_roles-has_role c (r ∷ rs) admin mod_role = ground (
  arith,
  scan_roles-has_role c rs (admin || contains c.admin_role_ids r)
      (mod_role || contains c.moderator_role_ids r),
)

-- The user `id` is of the configured guild and has one of the configured roles, as Discord says, and `actor` is
-- the user.
pub record Allowed (c : Config) (id : Bytes) (a : Authorization) (actor : Actor) : Type 0 where
  pub user : a.user_id ≡ id
  pub guild : a.guild_id ≡ c.guild_id
  pub named : (length id == 0) ≡ false
  pub role : (has_role c.admin_role_ids a.roles || has_role c.moderator_role_ids a.roles) ≡ true
  pub same : actor ≡ record { id = id; name = a.name; admin = has_role c.admin_role_ids a.roles }

abbrev no_member : Config → Authorization → Bool
no_member c a = not (bytes_beq a.guild_id c.guild_id) || length a.user_id == 0

abbrev no_role : Config → Authorization → Bool
no_role c a = not (has_role c.admin_role_ids a.roles) && not (has_role c.moderator_role_ids a.roles)

abbrev named_actor : Config → Authorization → Actor
named_actor c a = record {
  id = a.user_id;
  name = a.name;
  admin = has_role c.admin_role_ids a.roles;
}

abbrev by_role : Config → Authorization → Result Refusal Actor
by_role c a = if no_role c a then err role_required else ok (named_actor c a)

actor_of_lem :
    (c : Config) (a : Authorization)
    → actor_of c a ≡ (if no_member c a then err membership_required else by_role c a)
unfolding actor_of
actor_of_lem c a = rw (scan_roles-has_role c a.roles false false)

not-false : (b : Bool) → not b ≡ false → b ≡ true
not-false b h = ground arith

neither_false : (a b : Bool) → (a || b) ≡ false → (a ≡ false) × (b ≡ false)
neither_false a b h = ground arith

no_role_iff : (a b : Bool) → ((not a && not b) ≡ false) ↔ ((a || b) ≡ true)
no_role_iff a b = ground arith

authorized :
    (c : Config) (id : Bytes) (a : Authorization) (actor : Actor)
    → of_user c id a ≡ ok actor
    → Allowed c id a actor
authorized c id a actor h =
    let (u, h1) = if-ok (not (bytes_beq a.user_id id)) identity_mismatch (actor_of c a) actor h in
    let (g, h2) =
      if-ok (no_member c a) membership_required (by_role c a) actor (sym (actor_of_lem c a) ∙ h1) in
    let (r, h3) = if-ok (no_role c a) role_required (ok (named_actor c a)) actor h2 in
    let both = neither_false (not (bytes_beq a.guild_id c.guild_id)) (length a.user_id == 0) g in
    let same = (bytes_beq_iff a.user_id id).0 (not-false (bytes_beq a.user_id id) u) in
    record {
      user = same;
      guild =
          (bytes_beq_iff a.guild_id c.guild_id).0
            (not-false (bytes_beq a.guild_id c.guild_id) both.0);
      named = ap (λ (s : Bytes). length s == 0) (sym same) ∙ both.1;
      role =
          (no_role_iff (has_role c.admin_role_ids a.roles)
              (has_role c.moderator_role_ids a.roles)).0
            r;
      same =
          sym (ok-inj (named_actor c a) actor h3)
          ∙ ap
              (λ (i : Bytes). record {
                id = i;
                name = a.name;
                admin = has_role c.admin_role_ids a.roles;
              })
              same;
    }

allowed :
    (c : Config) (id : Bytes) (a : Authorization) (actor : Actor)
    → Allowed c id a actor
    → of_user c id a ≡ ok actor
allowed c id a actor v =
    rw
      (
        (bytes_beq_iff a.user_id id).1 v.user,
        actor_of_lem c a,
        (bytes_beq_iff a.guild_id c.guild_id).1 v.guild,
        ap (λ (s : Bytes). length s == 0) v.user ∙ v.named,
        (no_role_iff (has_role c.admin_role_ids a.roles) (has_role c.moderator_role_ids a.roles)).1
            v.role,
      )
      (ap
          (λ (i : Bytes).
            ok (record { id = i; name = a.name; admin = has_role c.admin_role_ids a.roles }))
          v.user
        ∙ ap (λ (x : Actor). ok x) (sym v.same))

some_inj : (a b : Authorization) → some a ≡ some b → a ≡ b
some_inj a b h = ground arith

of_answer_iff :
    (c : Config) (id : Bytes) (o : Option Authorization) (actor : Actor)
    → (of_answer c id o ≡ ok actor) ↔ ((a : Authorization) × (o ≡ some a) × Allowed c id a actor)
of_answer_iff c id none actor = ((λ h. absurd (ground arith)), (λ (a, e, v). absurd (ground arith)))
of_answer_iff c id (some a) actor = (
  (λ h. (a, refl, authorized c id a actor h)),
  (λ (b, e, v). allowed c id a actor (subst (λ x. Allowed c id x actor) (sym (some_inj a b e)) v)),
)

-- `authorize` answers with an actor exactly if Discord reports the user that was asked for, in the
-- configured guild and with one of the configured roles; the actor is then that user, and an administrator exactly
-- if one of the roles is an administrator's.
pub authorize_iff :
    (c : Config) (ask : Bytes → Option Authorization) (id : Bytes) (actor : Actor)
    → (authorize c ask id ≡ ok actor)
      ↔ ((a : Authorization) × (ask id ≡ some a) × Allowed c id a actor)
unfolding authorize
authorize_iff c ask id actor = of_answer_iff c id (ask id) actor
