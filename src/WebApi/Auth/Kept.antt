-- ===== src/WebApi/Auth/Kept.antt =====
-- The session that a check has found while it asks Discord (webapi/auth.go).
use chat_wire.Common.{
  ℕ, ◌≡◌, sym, ◌∙◌, arith, Bool, false, List, [], ◌∷◌, Bytes, bytes_eq, bytes_beq, All, All-map,
  All-both,
}
use chat_wire.WebApi.Auth.{Auth, Session, touched, refreshed}
use chat_wire.WebApi.Auth.Steps.{
  Step, issuing, landed, looking, exchanging, checking, revoking, logging_out, step, steps,
}
use chat_wire.WebApi.Auth.Sessions.{step-Sessions}
use chat_wire.WebApi.Auth.Current.{Same, Kept, Sound, SoundSteps, checked-Same, beq_same}

-- No new session gets the key.
abbrev pub NewKey : Bytes → Step → Type 0
NewKey key (exchanging s pruned now) = bytes_beq s.key key ≡ false
NewKey key _ = Unit {0}

abbrev TwoKept : Bytes → Session → Bytes → Session → Bytes × Session → Type 0
TwoKept key s key' s' e = Same key s e × Same key' s' e

-- Another check, of the same key or of another.
two_checked :
    (key : Bytes) (s : Session) (key' : Bytes) (s' current : Session) (touch : Bool) (now : ℕ)
    → TwoKept key s key' s' (key', current)
    → TwoKept key s key' s' (key', touched touch now (refreshed s' current))
two_checked key s key' s' current touch now h =
    let same = checked-Same key' s' current touch now h.1 in
    let (id, epoch) = same (beq_same key') in
    let (id', epoch') = h.1 (beq_same key') in
    ((λ b. (id ∙ sym id' ∙ (h.0 b).0, epoch ∙ sym epoch' ∙ (h.0 b).1)), same)

step-Kept :
    (key : Bytes) (s : Session) (t : Step) (a : Auth)
    → NewKey key t
    → Sound t a
    → Kept key s a
    → Kept key s (step t a)
step-Kept key s (issuing token user interaction pruned now) a new sound h =
    step-Sessions (Same key s) (issuing token user interaction pruned now) a tt h
step-Kept key s (landed token pruned now) a new sound h =
    step-Sessions (Same key s) (landed token pruned now) a tt h
step-Kept key s (looking now) a new sound h = step-Sessions (Same key s) (looking now) a tt h
step-Kept key s (exchanging t pruned now) a new sound h =
    step-Sessions (Same key s) (exchanging t pruned now) a (λ e b. absurd (ground arith)) h
step-Kept key s (checking key' s' touch pruned now) a new sound h =
    All-map (TwoKept key s key' s') (Same key s) (λ e two. two.0)
      (step (checking key' s' touch pruned now) a).sessions
      (step-Sessions (TwoKept key s key' s') (checking key' s' touch pruned now) a
        (λ current e two. two_checked key s key' s' current touch now two)
        (All-both (Same key s) (Same key' s') (TwoKept key s key' s') (λ e c d. (c, d)) a.sessions h
          sound))
step-Kept key s (revoking user) a new sound h = step-Sessions (Same key s) (revoking user) a tt h
step-Kept key s (logging_out k) a new sound h = step-Sessions (Same key s) (logging_out k) a tt h

-- A snapshot stays the session's, as long as no new session gets its key.
pub steps-Kept :
    (key : Bytes) (s : Session) (ss : List Step) (a : Auth)
    → All (NewKey key) ss
    → SoundSteps ss a
    → Kept key s a
    → Kept key s (steps ss a)
unfolding steps
steps-Kept key s [] a new sound h = h
steps-Kept key s (t ∷ ss) a new sound h =
    steps-Kept key s ss (step t a) new.1 sound.1 (step-Kept key s t a new.0 sound.0 h)
