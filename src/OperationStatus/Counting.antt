-- ===== src/OperationStatus/Counting.antt =====
-- The number of the delayed progress while calls come (fact/operation_status.go).
use chat_wire.Common.{
  ℕ, suc, ◌+◌, ◌^◌, ◌%◌, ◌≤◌, ◌≡◌, String, str_eq, string_eq, Bool, true, false, not, ◌&&◌, ◌||◌,
  ltb, leb, ◌==◌, Option, none, some, List, [], ◌∷◌, if-All, if-cases, arith,
}
use chat_wire.OperationStatus.State.{
  Notices, MessageRef, Discord, zero_status, announce_delay, is_blank, say, delete_message,
  delete_messages,
}
use chat_wire.OperationStatus.Calls.{
  with_status, next_delay, speak, keep_progress, is_repeated, update_current, has_ref,
  suppress_pending, cancel_delayed_progress, track_optional, schedule_cleanup, begin_operation,
  announce_pending, update_operation, update_progress_delayed, emit_scheduled, finalize_operation,
  clean_up,
}

module _ (trim_space : String → String) (d : Discord) (token : String) (id : ℕ) where
  -- While the operation is the current one, its number is the first one after 1 up to the number of calls.
  unfoldable pub Ahead : ℕ → ℕ → Notices → Type 0
  Ahead low high n =
      n.status.token ≡ token
      → (k : ℕ) × (low ≤ k) × (k ≤ high) × (n.status.pending_delay_id ≡ (id + k) % 2 ^ 64)

  Ahead-suc : (low high : ℕ) (n : Notices) → Ahead low high n → Ahead low (suc high) n
  unfolding Ahead
  Ahead-suc low high n h e = let a = h e in (a.0, a.1, omega (arith, a.2), a.3)

  pub Ahead-up : (low high top : ℕ) (n : Notices) → high ≤ top → Ahead low high n → Ahead low top n
  unfolding Ahead
  Ahead-up low high top n l h e = let a = h e in (a.0, a.1, omega (arith, a.2, l), a.3)

  pub Ahead-next :
      (low high : ℕ) (n : Notices)
      → Ahead low high n
      → Ahead (suc low) (suc high) (with_status next_delay n)
  unfolding Ahead
  Ahead-next low high n h e =
      let a = h e in (suc a.0, omega (arith, a.1), omega (arith, a.2), rw (a.3) (omega arith))

  Ahead-less : (low high : ℕ) (n : Notices) → Ahead (suc low) high n → Ahead low high n
  unfolding Ahead
  Ahead-less low high n h e = let a = h e in (a.0, omega (arith, a.1), a.2, a.3)

  -- Texts, effects and messages do not count.
  Ahead-delete_message :
      (low high : ℕ) (r : MessageRef) (n : Notices)
      → Ahead low high n
      → Ahead low high (delete_message d r n)
  unfolding Ahead
  Ahead-delete_message low high r n h = if-All (Ahead low high) (d.deletes r) h h

  Ahead-delete_messages :
      (low high : ℕ) (rs : List MessageRef) (n : Notices)
      → Ahead low high n
      → Ahead low high (delete_messages d rs n)
  Ahead-delete_messages low high [] n h = h
  Ahead-delete_messages low high (r ∷ rs) n h = Ahead-delete_messages low high rs _ (
      if-All (Ahead low high) (is_blank r.channel_id || is_blank r.message_id) h
        (Ahead-delete_message low high r n h))

  Ahead-say :
      (low high : ℕ) (title description : String) (n : Notices)
      → Ahead low high n
      → Ahead low high (say d title description n)
  unfolding Ahead
  Ahead-say low high title description n h = if-All (Ahead low high) d.has_channel h h

  pub Ahead-other :
      (low high : ℕ) (n : Notices) → str_eq n.status.token token ≡ false → Ahead low high n
  unfolding Ahead
  Ahead-other low high n other e = absurd (ground (arith, string_eq.beq_iff n.status.token token))

  Ahead-speak :
      (low high : ℕ) (title description : String) (n : Notices)
      → Ahead low high n
      → Ahead low high (speak trim_space d title description n)
  unfolding Ahead
  Ahead-speak low high title description n h =
      Ahead-say low high title description _
        (Ahead-delete_messages low high n.status.optional_messages _ h)

  pub Ahead-update_current :
      (low high : ℕ) (title description : String) (throttled force : Bool) (now : ℕ) (n : Notices)
      → Ahead low high n
      → Ahead low high (update_current trim_space d title description throttled force now n)
  unfolding Ahead
  Ahead-update_current low high title description throttled force now n h =
      if-All (Ahead low high)
        (not force && not n.status.announced && ltb now (n.status.started_at + announce_delay)) h
        (if-All (Ahead low high) (not throttled) (Ahead-speak low high title description n h) (
          if-All (Ahead low high) (is_repeated trim_space d title description now n.status) h (
            Ahead-speak low high title description
              (with_status (keep_progress trim_space d title description now) n) h)))

  -- Where the operation is finished, none is the current one.
  pub Ahead-finalize :
      (low high : ℕ) (t title description : String) (now : ℕ) (n : Notices)
      → is_blank token ≡ false
      → (is_blank t ≡ true → Ahead low high n)
      → (not (str_eq t n.status.token) ≡ true → Ahead low high n)
      → Ahead low high (finalize_operation trim_space d t title description now n)
  unfolding finalize_operation
  Ahead-finalize low high t title description now n blank unnamed stale =
      let cleared =
        Ahead-delete_messages low high n.status.optional_messages
          (record n { status = zero_status })
          (Ahead-other low high _
            (ground (arith, string_eq.beq_iff "" token, string_eq.beq_iff token ""))) in
      if-cases (Ahead low high) (is_blank t) unnamed (λ b.
        if-cases (Ahead low high) (not (str_eq t n.status.token)) stale (λ e.
          if-All (Ahead low high)
            (not (n.status.announced || leb (n.status.started_at + announce_delay) now)
              || is_blank (trim_space title)
              || is_blank (trim_space description))
            cleared (Ahead-say low high (trim_space title) (trim_space description) _ cleared)))

  module _ (low high : ℕ) (n : Notices) (h : Ahead low high n) where
    abbrev pub Next : Notices → Type 0
    Next = Ahead low (suc high)

    same : Next n
    same = Ahead-suc low high n h

    next : Next (with_status next_delay n)
    next = Ahead-less low (suc high) _ (Ahead-next low high n h)

    pub Next-cancel : (t : String) → Next (cancel_delayed_progress t n)
    unfolding cancel_delayed_progress
    Next-cancel t =
        if-All Next (is_blank t) same (if-All Next (not (str_eq t n.status.token)) same next)

    pub Next-suppress : (t : String) → Next (suppress_pending t n)
    unfolding suppress_pending Ahead
    Next-suppress t =
        if-All Next (is_blank t) same (if-All Next (not (str_eq t n.status.token)) same same)

    pub Next-announce : (t : String) (now : ℕ) → Next (announce_pending trim_space d t now n)
    unfolding announce_pending Ahead
    Next-announce t now = if-All Next (is_blank t) same (
        if-All Next
          (not (str_eq t n.status.token) || n.status.announced || n.status.suppress_announce) same
          (if-All Next (ltb now (n.status.started_at + announce_delay)) same
            (Ahead-say low (suc high) n.status.title n.status.description _ same)))

    pub Next-update :
        (t title description : String) (throttled force : Bool) (now : ℕ)
        → Next (update_operation trim_space d t title description throttled force now n)
    unfolding update_operation
    Next-update t title description throttled force now =
        if-All Next (is_blank t || is_blank (trim_space title) || is_blank (trim_space description))
          same
          (if-All Next (not (str_eq t n.status.token)) same (
            Ahead-update_current low (suc high) (trim_space title) (trim_space description)
              throttled force now _ next))

    pub Next-delay :
        (t title description : String) (delay now : ℕ)
        → Next (update_progress_delayed trim_space d t title description delay now n)
    unfolding update_progress_delayed Ahead
    Next-delay t title description delay now =
        if-All Next (is_blank t || is_blank (trim_space title) || is_blank (trim_space description))
          same
          (if-All Next (delay == 0)
            (Next-update t (trim_space title) (trim_space description) true false now)
            (if-All Next (not (str_eq t n.status.token)) same next))

    pub Next-emit :
        (t title description : String) (i now : ℕ)
        → Next (emit_scheduled trim_space d t title description i now n).0
    unfolding emit_scheduled Ahead
    Next-emit t title description i now =
        if-All (λ (r : Notices × Bool). Next r.0)
          (not (str_eq t n.status.token) || not (i == n.status.pending_delay_id)) same
          (if-All (λ (r : Notices × Bool). Next r.0)
            (is_repeated trim_space d title description now n.status) same
            (Ahead-say low (suc high) title description _ same))

    pub Next-track : (r : Option MessageRef) → Next (track_optional r n).0
    unfolding track_optional Ahead
    Next-track none = same
    Next-track (some r) =
        if-All (λ (x : Notices × Option MessageRef). Next x.0)
          (is_blank r.channel_id || is_blank r.message_id) same same

    pub Next-schedule : (r : MessageRef) (now : ℕ) → Next (schedule_cleanup r now n)
    unfolding schedule_cleanup Ahead
    Next-schedule r now = if-All Next (is_blank r.channel_id || is_blank r.message_id) same same

    pub Next-clean : (r : MessageRef) → Next (clean_up trim_space d r n)
    unfolding clean_up Ahead
    Next-clean r =
        if-All Next (has_ref r n.status.optional_messages)
          (Ahead-delete_message low (suc high) r _ same) same

    pub Next-begin :
        (t title description : String) (now : ℕ)
        → not (str_eq t token) ≡ true
        → Next (begin_operation trim_space d title description t now n).0
    unfolding begin_operation
    Next-begin t title description now other =
        if-All (λ (r : Notices × String). Next r.0)
          (is_blank (trim_space title) || is_blank (trim_space description)) same
          (Ahead-other low (suc high) _ (ground arith))

    pub Next-finalize :
        (t title description : String) (now : ℕ)
        → is_blank token ≡ false
        → Next (finalize_operation trim_space d t title description now n)
    Next-finalize t title description now blank =
        Ahead-finalize low (suc high) t title description now n blank (λ e. same) (λ e. same)
