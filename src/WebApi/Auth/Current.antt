-- ===== src/WebApi/Auth/Current.antt =====
-- Sessions are of the epoch of their user (webapi/auth.go), so that a revocation ends them.
use chat_wire.Common.{
  ℕ, ◌≡◌, refl, sym, ap, ◌∙◌, arith, Bool, true, not, ◌&&◌, ltb, List, [], ◌∷◌, Bytes, bytes_eq,
  bytes_beq, if-All, bytes_beq_iff, All, All-map, All-both,
}
use chat_wire.Common.Assoc.{retain-All, retain-kept, retain}
use chat_wire.WebApi.Auth.{Auth, Session, revoke, epoch_of, touched, refreshed}
use chat_wire.WebApi.Auth.Epochs.{same_epoch, step-epochs, epoch_of-revoke, keeps_epochs}
use chat_wire.WebApi.Auth.Steps.{
  Step, issuing, landed, looking, exchanging, checking, revoking, logging_out, step, steps,
}
use chat_wire.WebApi.Auth.Sessions.{Makes, step-Sessions}

-- The session is of its user's epoch.
abbrev pub IsCurrent : Auth → Bytes × Session → Type 0
IsCurrent a e = epoch_of e.1.actor.id a ≡ e.1.epoch

abbrev pub Current : Auth → Type 0
Current a = All (IsCurrent a) a.sessions

-- A session with this key has the user and the epoch of `s`.
abbrev pub Same : Bytes → Session → Bytes × Session → Type 0
Same key s e = bytes_beq e.0 key ≡ true → (e.1.actor.id ≡ s.actor.id) × (e.1.epoch ≡ s.epoch)

abbrev pub Kept : Bytes → Session → Auth → Type 0
Kept key s a = All (Same key s) a.sessions

-- What a second half takes from its first half: the actor is the user of the link, and the
-- session is the one that the key names, as long as there is one.
abbrev pub Sound : Step → Auth → Type 0
Sound (exchanging s pruned now) a = s.actor.id ≡ s.user_id
Sound (checking key s touch pruned now) a = Kept key s a
Sound _ a = Unit {0}

abbrev pub SoundSteps : List Step → Auth → Type 0
SoundSteps [] a = Unit {0}
SoundSteps (s ∷ ss) a = Sound s a × SoundSteps ss (step s a)

touched-id : (touch : Bool) (now : ℕ) (s : Session) → (touched touch now s).actor.id ≡ s.actor.id
touched-id touch now s =
    if-All (λ (v : Session). v.actor.id ≡ s.actor.id) (touch && ltb s.seen now) refl refl

touched-epoch : (touch : Bool) (now : ℕ) (s : Session) → (touched touch now s).epoch ≡ s.epoch
touched-epoch touch now s =
    if-All (λ (v : Session). v.epoch ≡ s.epoch) (touch && ltb s.seen now) refl refl

refreshed-id :
    (s current : Session)
    → current.actor.id ≡ s.actor.id
    → (refreshed s current).actor.id ≡ s.actor.id
refreshed-id s current h =
    if-All (λ (v : Session). v.actor.id ≡ s.actor.id) (ltb current.checked s.checked) refl h

refreshed-epoch : (s current : Session) → (refreshed s current).epoch ≡ current.epoch
refreshed-epoch s current =
    if-All (λ (v : Session). v.epoch ≡ current.epoch) (ltb current.checked s.checked) refl refl

-- A step that is no revocation keeps the sessions of their users' epochs.
keeping-Current :
    (s : Step) (a : Auth)
    → keeps_epochs s ≡ true
    → Makes (IsCurrent a) s a
    → Current a
    → Current (step s a)
keeping-Current s a k new h =
    All-map (IsCurrent a) (IsCurrent (step s a))
      (λ e c. same_epoch e.1.actor.id a (step s a) (step-epochs s a k) ∙ c) (step s a).sessions
      (step-Sessions (IsCurrent a) s a new h)

other_epoch :
    (user : Bytes) (a : Auth) (e : Bytes × Session)
    → IsCurrent a e
    → not (bytes_beq e.1.actor.id user) ≡ true
    → IsCurrent (revoke user a) e
other_epoch user a e c other =
    epoch_of-revoke user e.1.actor.id a
    ∙ ground (arith, bytes_beq_iff user e.1.actor.id, bytes_beq_iff e.1.actor.id user)

revoke-Current : (user : Bytes) (a : Auth) → Current a → Current (revoke user a)
unfolding revoke
revoke-Current user a h =
    let others = λ (e : Bytes × Session). not (bytes_beq e.1.actor.id user) in
    All-both (IsCurrent a) (λ e. others e ≡ true) (IsCurrent (revoke user a)) (other_epoch user a)
      (retain others a.sessions) (retain-All (IsCurrent a) others a.sessions h)
      (retain-kept others a.sessions)

-- The session that a check puts back has the user and the epoch of the check's snapshot.
pub checked-Same :
    (key : Bytes) (s current : Session) (touch : Bool) (now : ℕ)
    → Same key s (key, current)
    → Same key s (key, touched touch now (refreshed s current))
checked-Same key s current touch now same b =
    let (id, epoch) = same b in
    (
      touched-id touch now (refreshed s current) ∙ refreshed-id s current id,
      touched-epoch touch now (refreshed s current) ∙ refreshed-epoch s current ∙ epoch,
    )

-- Both of a snapshot: it is the session's, and the session is of its user's epoch.
abbrev Snapshot : Bytes → Session → Auth → Bytes × Session → Type 0
Snapshot key s a e = IsCurrent a e × Same key s e

pub beq_same : (bs : Bytes) → bytes_beq bs bs ≡ true
beq_same bs = (bytes_beq_iff bs bs).1 refl

checked-Snapshot :
    (key : Bytes) (s current : Session) (touch : Bool) (now : ℕ) (a : Auth)
    → epoch_of s.actor.id a ≡ s.epoch
    → Snapshot key s a (key, current)
    → Snapshot key s a (key, touched touch now (refreshed s current))
checked-Snapshot key s current touch now a e h =
    let same = checked-Same key s current touch now h.1 in
    let (id, epoch) = same (beq_same key) in
    (ap (λ (u : Bytes). epoch_of u a) id ∙ e ∙ sym epoch, same)

checking-Current :
    (key : Bytes) (s : Session) (touch : Bool) (pruned now : ℕ) (a : Auth)
    → Kept key s a
    → Current a
    → Current (step (checking key s touch pruned now) a)
checking-Current key s touch pruned now a kept h =
    let u = step (checking key s touch pruned now) a in
    All-map (Snapshot key s a) (IsCurrent u)
      (λ e c.
        same_epoch e.1.actor.id a u (step-epochs (checking key s touch pruned now) a refl) ∙ c.0)
      u.sessions
      (step-Sessions (Snapshot key s a) (checking key s touch pruned now) a
        (λ current e v. checked-Snapshot key s current touch now a e v)
        (All-both (IsCurrent a) (Same key s) (Snapshot key s a) (λ e c d. (c, d)) a.sessions h
          kept))

pub step-Current : (s : Step) (a : Auth) → Sound s a → Current a → Current (step s a)
unfolding step
step-Current (issuing token user interaction pruned now) a sound h =
    keeping-Current (issuing token user interaction pruned now) a refl tt h
step-Current (landed token pruned now) a sound h =
    keeping-Current (landed token pruned now) a refl tt h
step-Current (looking now) a sound h = keeping-Current (looking now) a refl tt h
step-Current (exchanging s pruned now) a sound h =
    keeping-Current (exchanging s pruned now) a refl
      (λ e. ap (λ (u : Bytes). epoch_of u a) sound ∙ e) h
step-Current (checking key s touch pruned now) a sound h =
    checking-Current key s touch pruned now a sound h
step-Current (revoking user) a sound h = revoke-Current user a h
step-Current (logging_out key) a sound h = keeping-Current (logging_out key) a refl tt h

-- Where every second half goes on from what its first half has found, every session is of the
-- current epoch of its user after any steps, if it was so before.
pub steps-Current : (ss : List Step) (a : Auth) → SoundSteps ss a → Current a → Current (steps ss a)
unfolding steps
steps-Current [] a sound h = h
steps-Current (s ∷ ss) a sound h = steps-Current ss (step s a) sound.1 (step-Current s a sound.0 h)
