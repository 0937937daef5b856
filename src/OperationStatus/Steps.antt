-- ===== src/OperationStatus/Steps.antt =====
-- Calls in any order (fact/operation_status.go), and calls with the token of another operation.
use chat_wire.Common.{ℕ, ◌≡◌, String, str_eq, Bool, false, Option, none, some, List, [], ◌∷◌, arith}
use chat_wire.OperationStatus.State.{Notices, MessageRef, Discord}
use chat_wire.OperationStatus.Calls.{
  suppress_pending, cancel_delayed_progress, track_optional, schedule_cleanup, begin_operation,
  announce_pending, update_operation, update_progress_delayed, emit_scheduled, finalize_operation,
  clean_up,
}

-- A call, or a goroutine that goes on.
pub data Call : Type 0 where
  begins : String → String → String → ℕ → Call
  suppresses cancels : String → Call
  announces : String → ℕ → Call
  updates : String → String → String → Bool → Bool → ℕ → Call
  delays : String → String → String → ℕ → ℕ → Call
  emits : String → String → String → ℕ → ℕ → Call
  finalizes : String → String → String → ℕ → Call
  tracks : Option MessageRef → Call
  schedules : MessageRef → ℕ → Call
  cleans : MessageRef → Call

-- The operation that a call is for.
abbrev pub token_of : Call → Option String
token_of (begins title description token now) = none
token_of (suppresses token) = some token
token_of (cancels token) = some token
token_of (announces token now) = some token
token_of (updates token title description throttled force now) = some token
token_of (delays token title description delay now) = some token
token_of (emits token title description id now) = some token
token_of (finalizes token title description now) = some token
token_of (tracks r) = none
token_of (schedules r now) = none
token_of (cleans r) = none

module _ (trim_space : String → String) (d : Discord) where
  unfoldable pub step : Call → Notices → Notices
  step (begins title description token now) n =
      (begin_operation trim_space d title description token now n).0
  step (suppresses token) n = suppress_pending token n
  step (cancels token) n = cancel_delayed_progress token n
  step (announces token now) n = announce_pending trim_space d token now n
  step (updates token title description throttled force now) n =
      update_operation trim_space d token title description throttled force now n
  step (delays token title description delay now) n =
      update_progress_delayed trim_space d token title description delay now n
  step (emits token title description id now) n =
      (emit_scheduled trim_space d token title description id now n).0
  step (finalizes token title description now) n =
      finalize_operation trim_space d token title description now n
  step (tracks r) n = (track_optional r n).0
  step (schedules r now) n = schedule_cleanup r now n
  step (cleans r) n = clean_up trim_space d r n

  unfoldable pub steps : List Call → Notices → Notices
  steps [] n = n
  steps (c ∷ cs) n = steps cs (step c n)

  -- A call or a goroutine of an operation that is not the current one changes nothing and tells nothing.
  pub step_stale :
      (token : String) (c : Call) (n : Notices)
      → token_of c ≡ some token
      → str_eq token n.status.token ≡ false
      → step c n ≡ n
  unfolding step suppress_pending cancel_delayed_progress announce_pending update_operation
      update_progress_delayed emit_scheduled finalize_operation
  step_stale token (begins title description t now) n e h = absurd (ground arith)
  step_stale token (suppresses t) n e h = ground arith
  step_stale token (cancels t) n e h = ground arith
  step_stale token (announces t now) n e h = ground arith
  step_stale token (updates t title description throttled force now) n e h = ground arith
  step_stale token (delays t title description delay now) n e h = ground arith
  step_stale token (emits t title description id now) n e h = ground arith
  step_stale token (finalizes t title description now) n e h = ground arith
  step_stale token (tracks r) n e h = absurd (ground arith)
  step_stale token (schedules r now) n e h = absurd (ground arith)
  step_stale token (cleans r) n e h = absurd (ground arith)
