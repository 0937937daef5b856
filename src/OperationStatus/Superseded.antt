-- ===== src/OperationStatus/Superseded.antt =====
-- A delayed progress that another call has superseded (fact/operation_status.go).
use chat_wire.Common.{
  ℕ, suc, ◌+◌, ◌^◌, ◌%◌, ◌≤◌, ◌<◌, ◌≡◌, refl, sym, String, str_eq, string_eq, Bool, true, false,
  not, ◌&&◌, ◌||◌, ◌==◌, List, [], ◌∷◌, if-cases, inl, inr, Bool-cases, arith, All, length,
}
use chat_wire.OperationStatus.State.{Notices, Timer, Discord, is_blank, progressing}
use chat_wire.OperationStatus.Calls.{
  with_status, next_delay, cancel_delayed_progress, update_operation, update_progress_delayed,
  emit_scheduled, go_on, next_optional_progress_delay,
}
use chat_wire.OperationStatus.Steps.{
  Call, step, steps, begins, suppresses, cancels, announces, updates, delays, emits, finalizes,
  tracks, schedules, cleans,
}
use chat_wire.OperationStatus.Counting.{
  Ahead, Ahead-finalize, Ahead-next, Ahead-other, Ahead-up, Ahead-update_current, Next-announce,
  Next-begin, Next-cancel, Next-clean, Next-delay, Next-emit, Next-finalize, Next-schedule,
  Next-suppress, Next-track, Next-update,
}

-- No operation with the token begins.
abbrev pub begins_other : String → Call → Bool
begins_other token (begins title description t now) = not (str_eq t token)
begins_other token (suppresses t) = true
begins_other token (cancels t) = true
begins_other token (announces t now) = true
begins_other token (updates t title description throttled force now) = true
begins_other token (delays t title description delay now) = true
begins_other token (emits t title description id now) = true
begins_other token (finalizes t title description now) = true
begins_other token (tracks r) = true
begins_other token (schedules r now) = true
begins_other token (cleans r) = true

-- The call replaces a progress of the operation that waits.
abbrev pub supersedes : (String → String) → String → Call → Bool
supersedes trim_space token (begins title description t now) = false
supersedes trim_space token (suppresses t) = false
supersedes trim_space token (cancels t) = str_eq t token
supersedes trim_space token (announces t now) = false
supersedes trim_space token (updates t title description throttled force now) =
    str_eq t token && not (is_blank (trim_space title)) && not (is_blank (trim_space description))
supersedes trim_space token (delays t title description delay now) =
    str_eq t token
    && not (is_blank (trim_space title))
    && not (is_blank (trim_space description))
    && not (delay == 0)
supersedes trim_space token (emits t title description id now) = false
supersedes trim_space token (finalizes t title description now) = str_eq t token
supersedes trim_space token (tracks r) = false
supersedes trim_space token (schedules r now) = false
supersedes trim_space token (cleans r) = false

module _ (trim_space : String → String) (d : Discord) (token : String) (id : ℕ) where
  module _ (blank : is_blank token ≡ false) where
    pub Ahead-step :
        (low high : ℕ) (c : Call) (n : Notices)
        → begins_other token c ≡ true
        → Ahead trim_space d token id low high n
        → Ahead trim_space d token id low (suc high) (step trim_space d c n)
    unfolding step
    Ahead-step low high (begins title description t now) n o h =
        Next-begin trim_space d token id low high n h t title description now o
    Ahead-step low high (suppresses t) n o h = Next-suppress trim_space d token id low high n h t
    Ahead-step low high (cancels t) n o h = Next-cancel trim_space d token id low high n h t
    Ahead-step low high (announces t now) n o h =
        Next-announce trim_space d token id low high n h t now
    Ahead-step low high (updates t title description throttled force now) n o h =
        Next-update trim_space d token id low high n h t title description throttled force now
    Ahead-step low high (delays t title description delay now) n o h =
        Next-delay trim_space d token id low high n h t title description delay now
    Ahead-step low high (emits t title description i now) n o h =
        Next-emit trim_space d token id low high n h t title description i now
    Ahead-step low high (finalizes t title description now) n o h =
        Next-finalize trim_space d token id low high n h t title description now blank
    Ahead-step low high (tracks r) n o h = Next-track trim_space d token id low high n h r
    Ahead-step low high (schedules r now) n o h =
        Next-schedule trim_space d token id low high n h r now
    Ahead-step low high (cleans r) n o h = Next-clean trim_space d token id low high n h r

    Ahead-steps :
        (low high top : ℕ) (cs : List Call) (n : Notices)
        → All (λ c. begins_other token c ≡ true) cs
        → length cs + high ≤ top
        → Ahead trim_space d token id low high n
        → Ahead trim_space d token id low top (steps trim_space d cs n)
    unfolding steps
    Ahead-steps low high top [] n o l h =
        Ahead-up trim_space d token id low high top n (omega (arith, l)) h
    Ahead-steps low high top (c ∷ cs) n o l h =
        Ahead-steps low (suc high) top cs _ o.1 (omega (arith, l)) (Ahead-step low high c n o.0 h)

    gone :
        (high : ℕ) (t : String) (n : Notices)
        → str_eq t token ≡ true
        → not (str_eq t n.status.token) ≡ true
        → Ahead trim_space d token id 1 high n
    gone high t n own stale = Ahead-other trim_space d token id 1 high n (
        ground (
          arith,
          string_eq.beq_iff t token,
          string_eq.beq_iff t n.status.token,
          string_eq.beq_iff n.status.token token,
        ))

    -- A call that supersedes moves the number on, or the operation is no longer the current one.
    Ahead-superseding :
        (high : ℕ) (c : Call) (n : Notices)
        → supersedes trim_space token c ≡ true
        → Ahead trim_space d token id 0 high n
        → Ahead trim_space d token id 1 (suc high) (step trim_space d c n)
    unfolding step cancel_delayed_progress update_operation update_progress_delayed Ahead
    Ahead-superseding high (begins title description t now) n o h = absurd (ground arith)
    Ahead-superseding high (suppresses t) n o h = absurd (ground arith)
    Ahead-superseding high (cancels t) n o h =
        if-cases (Ahead trim_space d token id 1 (suc high)) (is_blank t)
          (λ b. absurd (ground (arith, string_eq.beq_iff t token)))
          (λ b.
            if-cases (Ahead trim_space d token id 1 (suc high)) (not (str_eq t n.status.token))
              (gone (suc high) t n o) (λ e. Ahead-next trim_space d token id 0 high n h))
    Ahead-superseding high (announces t now) n o h = absurd (ground arith)
    Ahead-superseding high (updates t title description throttled force now) n o h =
        if-cases (Ahead trim_space d token id 1 (suc high))
          (is_blank t || is_blank (trim_space title) || is_blank (trim_space description))
          (λ b. absurd (ground (arith, string_eq.beq_iff t token)))
          (λ b.
            if-cases (Ahead trim_space d token id 1 (suc high)) (not (str_eq t n.status.token))
              (gone (suc high) t n (ground arith))
              (λ e.
                Ahead-update_current trim_space d token id 1 (suc high) (trim_space title)
                  (trim_space description) throttled force now (with_status next_delay n)
                  (Ahead-next trim_space d token id 0 high n h)))
    Ahead-superseding high (delays t title description delay now) n o h =
        if-cases (Ahead trim_space d token id 1 (suc high))
          (is_blank t || is_blank (trim_space title) || is_blank (trim_space description))
          (λ b. absurd (ground (arith, string_eq.beq_iff t token)))
          (λ b.
            if-cases (Ahead trim_space d token id 1 (suc high)) (delay == 0)
              (λ z. absurd (ground arith))
              (λ z.
                if-cases (Ahead trim_space d token id 1 (suc high)) (not (str_eq t n.status.token))
                  (gone (suc high) t n (ground arith))
                  (λ e. Ahead-next trim_space d token id 0 high n h)))
    Ahead-superseding high (emits t title description i now) n o h = absurd (ground arith)
    Ahead-superseding high (finalizes t title description now) n o h =
        Ahead-finalize trim_space d token id 1 (suc high) t title description now n blank
          (λ b. absurd (ground (arith, string_eq.beq_iff t token))) (gone (suc high) t n o)
    Ahead-superseding high (tracks r) n o h = absurd (ground arith)
    Ahead-superseding high (schedules r now) n o h = absurd (ground arith)
    Ahead-superseding high (cleans r) n o h = absurd (ground arith)

-- A number that is ahead is another one.
emit_behind :
    (trim_space : String → String) (d : Discord) (token title description : String) (id top now : ℕ)
    (n : Notices)
    → id < 2 ^ 64
    → top < 2 ^ 64
    → Ahead trim_space d token id 1 top n
    → (emit_scheduled trim_space d token title description id now n).0 ≡ n
unfolding emit_scheduled Ahead
emit_behind trim_space d token title description id top now n small few h =
    elim (Bool-cases (str_eq token n.status.token)) [
      | inl e ↦
          let a = h (sym ((string_eq.beq_iff token n.status.token).0 e)) in
          let differs : (id == n.status.pending_delay_id) ≡ false = ground (arith, a.1, a.2, a.3) in
          rw (e, differs) refl
      | inr e ↦ rw (e) refl
    ]

Ahead-waiting :
    (trim_space : String → String) (d : Discord) (token : String) (n : Notices)
    (timers : List Timer)
    → Ahead trim_space d token
        ((n.status.pending_delay_id + 1) % 2 ^ 64)
        0
        0
        (record n { status = next_delay n.status; timers = timers })
unfolding Ahead
Ahead-waiting trim_space d token n timers e = (0, omega arith, omega arith, omega arith)

abbrev waits : (String → String) → String → String → String → ℕ → ℕ → Notices → Timer
waits trim_space token title description delay now n =
    progressing
      (now + next_optional_progress_delay n.status.started_at n.status.announced delay now) token
      (trim_space title) (trim_space description) ((n.status.pending_delay_id + 1) % 2 ^ 64)

delays_then :
    (trim_space : String → String) (d : Discord) (token title description : String) (delay now : ℕ)
    (n : Notices)
    → is_blank token ≡ false
    → is_blank (trim_space title) ≡ false
    → is_blank (trim_space description) ≡ false
    → (delay == 0) ≡ false
    → n.status.token ≡ token
    → update_progress_delayed trim_space d token title description delay now n ≡ record n {
      status = next_delay n.status;
      timers = waits trim_space token title description delay now n ∷ n.timers;
    }
unfolding update_progress_delayed
delays_then trim_space d token title description delay now n k t s z cur =
    rw (k, t, s, z, (string_eq.beq_iff token n.status.token).1 (sym cur)) refl

-- A progress that is to be told later is never told once it has been superseded: by another progress or update
-- of the operation, by the call that cancels it, or by the end of the operation. When its goroutine goes on,
-- nothing is told and nothing changes, whatever calls come before and after, if no operation with the same token
-- begins and there are fewer than 2^64 calls.
pub delayed_superseded :
    (trim_space : String → String) (d : Discord) (token title description : String)
    (delay now later : ℕ) (n : Notices) (before after : List Call) (c : Call)
    → is_blank token ≡ false
    → is_blank (trim_space title) ≡ false
    → is_blank (trim_space description) ≡ false
    → (delay == 0) ≡ false
    → n.status.token ≡ token
    → All (λ x. begins_other token x ≡ true) before
    → supersedes trim_space token c ≡ true
    → All (λ x. begins_other token x ≡ true) after
    → length before + length after + 1 < 2 ^ 64
    → (let waiting = update_progress_delayed trim_space d token title description delay now n in
        let id = waiting.status.pending_delay_id in
        let due =
          now + next_optional_progress_delay n.status.started_at n.status.announced delay now in
        let timer = progressing due token (trim_space title) (trim_space description) id in
        let r =
          steps trim_space d after (step trim_space d c (steps trim_space d before waiting)) in
        (waiting.timers ≡ timer ∷ n.timers) × (go_on trim_space d timer later r ≡ r))
unfolding go_on
delayed_superseded trim_space d token title description delay now later n before after c k t s z cur
      o1 sup o2 few =
    let id = (n.status.pending_delay_id + 1) % 2 ^ 64 in
    let first = Ahead-steps trim_space d token id k 0 0 (length before) before _ o1 (omega arith) (
      Ahead-waiting trim_space d token n
        (waits trim_space token title description delay now n ∷ n.timers)) in
    let moved = Ahead-superseding trim_space d token id k (length before) c _ sup first in
    let last =
      Ahead-steps trim_space d token id k 1 (suc (length before)) (length before + length after + 1)
        after _ o2 (omega arith) moved in
    rw (delays_then trim_space d token title description delay now n k t s z cur) (
      refl,
      emit_behind trim_space d token (trim_space title) (trim_space description) id _ later _
          (omega arith) few last,
    )
