-- ===== src/OperationStatus/Announced.antt =====
-- An operation is announced (fact/operation_status.go).
use chat_wire.Common.{
  ℕ, suc, ◌+◌, ◌≤◌, ◌<◌, ◌≡◌, refl, ap, ◌∙◌, String, str_eq, string_eq, Bool, true, false, not,
  ◌&&◌, ◌||◌, ltb, ◌==◌, Option, none, some, List, [], ◌∷◌, if-All, arith, All,
}
use chat_wire.OperationStatus.State.{
  Effect, Notices, Timer, MessageRef, Discord, announce_delay, is_blank, say, delete_message,
  delete_messages, announcing, logged, chatted, deleted,
}
use chat_wire.OperationStatus.Calls.{
  with_status, next_delay, started, speak, keep_progress, is_repeated, update_current, has_ref,
  cancel_delayed_progress, track_optional, schedule_cleanup, begin_operation, announce_pending,
  update_operation, update_progress_delayed, emit_scheduled, clean_up, go_on,
}
use chat_wire.OperationStatus.Steps.{
  Call, step, steps, step_stale, token_of, begins, suppresses, cancels, announces, updates, delays,
  emits, finalizes, tracks, schedules, cleans,
}

-- How many lines the log has.
unfoldable pub lines : List Effect → ℕ
lines [] = 0
lines (logged title description ∷ es) = suc (lines es)
lines (chatted description ∷ es) = lines es
lines (deleted r ∷ es) = lines es

-- A call that neither begins an operation nor ends or suppresses the given one.
abbrev pub leaves : String → Call → Bool
leaves token (begins title description t now) = false
leaves token (suppresses t) = not (str_eq t token)
leaves token (cancels t) = true
leaves token (announces t now) = true
leaves token (updates t title description throttled force now) = true
leaves token (delays t title description delay now) = true
leaves token (emits t title description id now) = true
leaves token (finalizes t title description now) = not (str_eq t token)
leaves token (tracks r) = true
leaves token (schedules r now) = true
leaves token (cleans r) = true

module _ (trim_space : String → String) (d : Discord) (token : String) (start told : ℕ) where
  -- The operation is the current one, and is announced only if the log has been told since it began.
  unfoldable Begun : Notices → Type 0
  Begun n =
      (n.status.token ≡ token)
      × (n.status.started_at ≡ start)
      × (n.status.suppress_announce ≡ false)
      × (told ≤ lines n.effects)

  unfoldable Heard : Notices → Type 0
  Heard n = Begun n × (n.status.announced ≡ true → told < lines n.effects)

  Heard-say :
      (title description : String) (n : Notices) → Begun n → Heard (say d title description n)
  unfolding Begun Heard lines
  Heard-say title description n h =
      if-All Heard d.has_channel ((h.0, h.1, h.2, omega (arith, h.3)), λ e. omega (arith, h.3))
        ((h.0, h.1, h.2, omega (arith, h.3)), λ e. omega (arith, h.3))

  Begun-delete_message : (r : MessageRef) (n : Notices) → Begun n → Begun (delete_message d r n)
  unfolding Begun lines
  Begun-delete_message r n h = if-All Begun (d.deletes r) h h

  Heard-delete_message : (r : MessageRef) (n : Notices) → Heard n → Heard (delete_message d r n)
  unfolding Begun Heard lines
  Heard-delete_message r n h = if-All Heard (d.deletes r) h h

  Begun-delete_messages :
      (rs : List MessageRef) (n : Notices) → Begun n → Begun (delete_messages d rs n)
  Begun-delete_messages [] n h = h
  Begun-delete_messages (r ∷ rs) n h =
      Begun-delete_messages rs _ (
        if-All Begun (is_blank r.channel_id || is_blank r.message_id) h
          (Begun-delete_message r n h))

  Heard-speak :
      (title description : String) (n : Notices)
      → Begun n
      → Heard (speak trim_space d title description n)
  unfolding Begun
  Heard-speak title description n h =
      Heard-say title description _ (Begun-delete_messages n.status.optional_messages _ h)

  Heard-update_current :
      (title description : String) (throttled force : Bool) (now : ℕ) (n : Notices)
      → Heard n
      → Heard (update_current trim_space d title description throttled force now n)
  unfolding Begun Heard
  Heard-update_current title description throttled force now n h =
      if-All Heard
        (not force && not n.status.announced && ltb now (n.status.started_at + announce_delay)) h
        (if-All Heard (not throttled) (Heard-speak title description n h.0) (
          if-All Heard (is_repeated trim_space d title description now n.status) h (
            Heard-speak title description
              (with_status (keep_progress trim_space d title description now) n) h.0)))

  Heard-update_operation :
      (t title description : String) (throttled force : Bool) (now : ℕ) (n : Notices)
      → Heard n
      → Heard (update_operation trim_space d t title description throttled force now n)
  unfolding update_operation Begun Heard
  Heard-update_operation t title description throttled force now n h =
      if-All Heard (is_blank t || is_blank (trim_space title) || is_blank (trim_space description))
        h
        (if-All Heard (not (str_eq t n.status.token)) h (
          Heard-update_current (trim_space title) (trim_space description) throttled force now
            (with_status next_delay n) h))

  Heard-update_progress_delayed :
      (t title description : String) (delay now : ℕ) (n : Notices)
      → Heard n
      → Heard (update_progress_delayed trim_space d t title description delay now n)
  unfolding update_progress_delayed Begun Heard
  Heard-update_progress_delayed t title description delay now n h =
      if-All Heard (is_blank t || is_blank (trim_space title) || is_blank (trim_space description))
        h
        (if-All Heard (delay == 0)
          (Heard-update_operation t (trim_space title) (trim_space description) true false now n h)
          (if-All Heard (not (str_eq t n.status.token)) h h))

  Heard-announce_pending :
      (t : String) (now : ℕ) (n : Notices) → Heard n → Heard (announce_pending trim_space d t now n)
  unfolding announce_pending Begun Heard
  Heard-announce_pending t now n h = if-All Heard (is_blank t) h (
      if-All Heard
        (not (str_eq t n.status.token) || n.status.announced || n.status.suppress_announce) h
        (if-All Heard (ltb now (n.status.started_at + announce_delay)) h
          (Heard-say n.status.title n.status.description _ h.0)))

  Heard-emit_scheduled :
      (t title description : String) (id now : ℕ) (n : Notices)
      → Heard n
      → Heard (emit_scheduled trim_space d t title description id now n).0
  unfolding emit_scheduled Begun Heard
  Heard-emit_scheduled t title description id now n h =
      if-All (λ (r : Notices × Bool). Heard r.0)
        (not (str_eq t n.status.token) || not (id == n.status.pending_delay_id)) h
        (if-All (λ (r : Notices × Bool). Heard r.0)
          (is_repeated trim_space d title description now n.status) h
          (Heard-say title description _ h.0))

  Heard-cancel_delayed_progress :
      (t : String) (n : Notices) → Heard n → Heard (cancel_delayed_progress t n)
  unfolding cancel_delayed_progress Begun Heard
  Heard-cancel_delayed_progress t n h =
      if-All Heard (is_blank t) h (if-All Heard (not (str_eq t n.status.token)) h h)

  Heard-track_optional :
      (r : Option MessageRef) (n : Notices) → Heard n → Heard (track_optional r n).0
  unfolding track_optional Begun Heard
  Heard-track_optional none n h = h
  Heard-track_optional (some r) n h =
      if-All (λ (x : Notices × Option MessageRef). Heard x.0)
        (is_blank r.channel_id || is_blank r.message_id) h h

  Heard-schedule_cleanup :
      (r : MessageRef) (now : ℕ) (n : Notices) → Heard n → Heard (schedule_cleanup r now n)
  unfolding schedule_cleanup Begun Heard
  Heard-schedule_cleanup r now n h =
      if-All Heard (is_blank r.channel_id || is_blank r.message_id) h h

  Heard-clean_up : (r : MessageRef) (n : Notices) → Heard n → Heard (clean_up trim_space d r n)
  unfolding clean_up Begun Heard
  Heard-clean_up r n h =
      if-All Heard (has_ref r n.status.optional_messages) (Heard-delete_message r _ h) h

  stays-Heard :
      (c : Call) (t : String) (n : Notices)
      → token_of c ≡ some t
      → str_eq t token ≡ false
      → Heard n
      → Heard (step trim_space d c n)
  unfolding Begun Heard
  stays-Heard c t n e other h = rw (step_stale trim_space d t c n e (ap (str_eq t) h.0.0 ∙ other)) h

  -- Calls that neither begin an operation nor end or suppress this one.
  Heard-step :
      (c : Call) (n : Notices) → leaves token c ≡ true → Heard n → Heard (step trim_space d c n)
  unfolding step
  Heard-step (begins title description t now) n l h = absurd (ground arith)
  Heard-step (suppresses t) n l h = stays-Heard (suppresses t) t n refl (ground arith) h
  Heard-step (finalizes t title description now) n l h =
      stays-Heard (finalizes t title description now) t n refl (ground arith) h
  Heard-step (cancels t) n l h = Heard-cancel_delayed_progress t n h
  Heard-step (announces t now) n l h = Heard-announce_pending t now n h
  Heard-step (updates t title description throttled force now) n l h =
      Heard-update_operation t title description throttled force now n h
  Heard-step (delays t title description delay now) n l h =
      Heard-update_progress_delayed t title description delay now n h
  Heard-step (emits t title description id now) n l h =
      Heard-emit_scheduled t title description id now n h
  Heard-step (tracks r) n l h = Heard-track_optional r n h
  Heard-step (schedules r now) n l h = Heard-schedule_cleanup r now n h
  Heard-step (cleans r) n l h = Heard-clean_up r n h

  Heard-steps :
      (cs : List Call) (n : Notices)
      → All (λ c. leaves token c ≡ true) cs
      → Heard n
      → Heard (steps trim_space d cs n)
  unfolding steps
  Heard-steps [] n l h = h
  Heard-steps (c ∷ cs) n l h = Heard-steps cs _ l.1 (Heard-step c n l.0 h)

  announced_then :
      (now : ℕ) (n : Notices)
      → is_blank token ≡ false
      → start + announce_delay ≤ now
      → Heard n
      → (announce_pending trim_space d token now n).status.announced ≡ true
  unfolding announce_pending Begun Heard
  announced_then now n blank due h =
      ground (arith, h.0.0, h.0.1, h.0.2, string_eq.beq_iff token n.status.token)

Heard-begun :
    (trim_space : String → String) (d : Discord) (title description token : String) (now : ℕ)
    (n : Notices) (timers : List Timer)
    → Heard trim_space d token now
        (lines n.effects)
        (record n { status = started token title description now; timers = timers })
unfolding Begun Heard
Heard-begun trim_space d title description token now n timers =
    ((refl, refl, refl, omega arith), λ e. absurd (ground arith))

-- An operation that begins with a title and a description leaves a goroutine that goes on three seconds later.
-- When it goes on, the operation is announced and the log has been told of it at least once, whatever calls
-- come between, if none of them begins an operation or ends or suppresses this one.
pub begin-Announced :
    (trim_space : String → String) (d : Discord) (title description token : String) (now later : ℕ)
    (n : Notices) (cs : List Call)
    → is_blank (trim_space title) ≡ false
    → is_blank (trim_space description) ≡ false
    → is_blank token ≡ false
    → All (λ c. leaves token c ≡ true) cs
    → now + announce_delay ≤ later
    → (let b = (begin_operation trim_space d title description token now n).0 in
        let timer = announcing (now + announce_delay) token in
        let r = go_on trim_space d timer later (steps trim_space d cs b) in
        (b.timers ≡ timer ∷ n.timers)
        × (r.status.announced ≡ true)
        × (r.status.token ≡ token)
        × (lines n.effects < lines r.effects))
unfolding begin_operation go_on Begun Heard
begin-Announced trim_space d title description token now later n cs t s k l due =
    let told = lines n.effects in
    let before = Heard-steps trim_space d token now told cs _ l (
      Heard-begun trim_space d (trim_space title) (trim_space description) token now n
        (announcing (now + announce_delay) token ∷ n.timers)) in
    let after = Heard-announce_pending trim_space d token now told token later _ before in
    let yes = announced_then trim_space d token now told later _ k due before in
    rw (t, s) (refl, yes, after.0.0, after.1 yes)
