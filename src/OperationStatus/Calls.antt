-- ===== src/OperationStatus/Calls.antt =====
-- The calls of fact/operation_status.go and what its goroutines do when they go on.
use chat_wire.Common.{
  ℕ, ◌+◌, ◌-◌, ◌%◌, ◌^◌, String, str_eq, Bool, true, false, not, ◌&&◌, ◌||◌, ltb, leb, ◌==◌, Option,
  none, some, List, [], ◌∷◌, ◌++◌, if◌then◌else◌,
}
use chat_wire.OperationStatus.State.{
  Status, Notices, Timer, MessageRef, Discord, zero_status, announce_delay, progress_throttle,
  optional_ttl, is_blank, progress_key, same_ref, say, delete_message, delete_messages,
  clear_optional, announcing, progressing, cleaning,
}

-- `operationStatus.pendingDelayID++`, a uint64.
abbrev pub next_delay : Status → Status
next_delay s = record s { pending_delay_id = (s.pending_delay_id + 1) % 2 ^ 64 }

abbrev pub with_status : (Status → Status) → Notices → Notices
with_status f n = record n { status = f n.status }

abbrev pub started : String → String → String → ℕ → Status
started token title description now = record zero_status {
  token = token;
  title = title;
  description = description;
  started_at = now;
}

-- `SuppressPendingOperationAnnouncement`.
unfoldable pub suppress_pending : String → Notices → Notices
suppress_pending token n =
    if is_blank token
    then n
    else if not (str_eq token n.status.token)
    then n
    else with_status (λ s. record s { suppress_announce = true }) n

-- `CancelOperationDelayedProgress`.
unfoldable pub cancel_delayed_progress : String → Notices → Notices
cancel_delayed_progress token n =
    if is_blank token
    then n
    else if not (str_eq token n.status.token)
    then n
    else with_status next_delay n

-- `nextOptionalProgressDelay`; a time before the start counts as the start.
abbrev pub next_optional_progress_delay : ℕ → Bool → ℕ → ℕ → ℕ
next_optional_progress_delay started_at announced delay now =
    if delay == 0
    then 0
    else if announced
    then delay
    else if ltb (now - started_at) announce_delay
    then delay + (announce_delay - (now - started_at))
    else delay

-- `trackOptionalOperationMessage`.
unfoldable pub track_optional : Option MessageRef → Notices → Notices × Option MessageRef
track_optional none n = (n, none)
track_optional (some r) n = if is_blank r.channel_id || is_blank r.message_id then (n, none) else (
  with_status (λ s. record s { optional_messages = s.optional_messages ++ r ∷ [] }) n,
  some r,
)

-- `scheduleOptionalOperationCleanup`.
unfoldable pub schedule_cleanup : MessageRef → ℕ → Notices → Notices
schedule_cleanup r now n =
    if is_blank r.channel_id || is_blank r.message_id
    then n
    else record n { timers = cleaning (now + optional_ttl) r ∷ n.timers }

-- The first entry of the message is taken out, if there is one.
abbrev pub has_ref : MessageRef → List MessageRef → Bool
has_ref r [] = false
has_ref r (m ∷ ms) = same_ref m r || has_ref r ms

abbrev pub remove_ref : MessageRef → List MessageRef → List MessageRef
remove_ref r [] = []
remove_ref r (m ∷ ms) = if same_ref m r then ms else m ∷ remove_ref r ms

module _ (trim_space : String → String) (d : Discord) where
  -- `BeginOperation`; the token is the text of the clock.
  unfoldable pub begin_operation : String → String → String → ℕ → Notices → Notices × String
  begin_operation title description token now n =
      if is_blank (trim_space title) || is_blank (trim_space description) then (n, "") else (
        record n {
          status = started token (trim_space title) (trim_space description) now;
          timers = announcing (now + announce_delay) token ∷ n.timers;
        },
        token,
      )

  -- `AnnouncePendingOperation`.
  unfoldable pub announce_pending : String → ℕ → Notices → Notices
  announce_pending token now n =
      if is_blank token
      then n
      else if not (str_eq token n.status.token) || n.status.announced || n.status.suppress_announce
      then n
      else if ltb now (n.status.started_at + announce_delay)
      then n
      else say d n.status.title n.status.description
          (with_status (λ s. record s { announced = true }) n)

  -- `updateOperation` under its lock, once the token is the current one.
  abbrev pub speak : String → String → Notices → Notices
  speak title description n = say d title description (
      clear_optional d (
        with_status (λ s. record s { title = title; description = description; announced = true })
          n))

  abbrev pub keep_progress : String → String → ℕ → Status → Status
  keep_progress title description now s = record s {
    last_progress_key = progress_key title description;
    last_progress_at = now;
  }

  -- The same progress was told less than ten seconds ago.
  abbrev pub is_repeated : String → String → ℕ → Status → Bool
  is_repeated title description now s =
      str_eq (progress_key title description) s.last_progress_key
      && ltb now (s.last_progress_at + progress_throttle)

  abbrev pub update_current : String → String → Bool → Bool → ℕ → Notices → Notices
  update_current title description throttled force now n =
      if not force && not n.status.announced && ltb now (n.status.started_at + announce_delay)
      then with_status (λ s. record s { title = title; description = description }) n
      else if not throttled
      then speak title description n
      else if is_repeated title description now n.status
      then n
      else speak title description (with_status (keep_progress title description now) n)

  unfoldable pub update_operation : String → String → String → Bool → Bool → ℕ → Notices → Notices
  update_operation token title description throttled force now n =
      if is_blank token || is_blank (trim_space title) || is_blank (trim_space description)
      then n
      else if not (str_eq token n.status.token)
      then n
      else update_current (trim_space title) (trim_space description) throttled force now
          (with_status next_delay n)

  -- `UpdateOperationProgressDelayedWithReminder`; a delay of 0 stands for every delay that is not positive. The
  -- title and the description are trimmed once more by the call that they are passed on to.
  unfoldable pub update_progress_delayed : String → String → String → ℕ → ℕ → Notices → Notices
  update_progress_delayed token title description delay now n =
      if is_blank token || is_blank (trim_space title) || is_blank (trim_space description)
      then n
      else if delay == 0
      then update_operation token (trim_space title) (trim_space description) true false now n
      else if not (str_eq token n.status.token)
      then n
      else record n {
        status = next_delay n.status;
        timers =
            progressing
              (now + next_optional_progress_delay n.status.started_at n.status.announced delay now)
              token (trim_space title) (trim_space description)
              ((n.status.pending_delay_id + 1) % 2 ^ 64)
            ∷ n.timers;
      }

  -- `emitScheduledOperationProgress`, with what it returns.
  unfoldable pub emit_scheduled : String → String → String → ℕ → ℕ → Notices → Notices × Bool
  emit_scheduled token title description id now n =
      if not (str_eq token n.status.token) || not (id == n.status.pending_delay_id)
      then (n, false)
      else if is_repeated title description now n.status
      then (n, true)
      else (
        say d title description (
            with_status
              (λ s. record (keep_progress title description now s) {
                title = title;
                description = description;
                announced = true;
              })
              n),
        true,
      )

  -- `finalizeOperation`: `CompleteOperation`, `FailOperation`, and `CancelOperation` with empty texts.
  unfoldable pub finalize_operation : String → String → String → ℕ → Notices → Notices
  finalize_operation token title description now n =
      if is_blank token
      then n
      else if not (str_eq token n.status.token)
      then n
      else let cleared =
          delete_messages d n.status.optional_messages (record n { status = zero_status }) in
        if not (n.status.announced || leb (n.status.started_at + announce_delay) now)
          || is_blank (trim_space title)
          || is_blank (trim_space description)
        then cleared
        else say d (trim_space title) (trim_space description) cleared

  -- The cleanup of one message after a minute.
  unfoldable pub clean_up : MessageRef → Notices → Notices
  clean_up r n =
      if has_ref r n.status.optional_messages
      then delete_message d r
          (with_status (λ s. record s { optional_messages = remove_ref r s.optional_messages }) n)
      else n

  -- A goroutine goes on.
  unfoldable pub go_on : Timer → ℕ → Notices → Notices
  go_on (announcing due token) now n = announce_pending token now n
  go_on (progressing due token title description id) now n =
      (emit_scheduled token title description id now n).0
  go_on (cleaning due r) now n = clean_up r n
