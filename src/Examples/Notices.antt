-- ===== src/Examples/Notices.antt =====
-- The operation that the chat is told about (fact/operation_status.go) at concrete inputs.
use chat_wire.Common.{◌+◌, ◌*◌, ◌<◌, ◌≡◌, refl, String, true, false, none, List, [], ◌∷◌, arith}
use chat_wire.OperationStatus.State.{
  Notices, Discord, zero_status, announce_delay, second, announcing, progressing,
}
use chat_wire.OperationStatus.Calls.{
  begin_operation, update_progress_delayed, go_on, next_optional_progress_delay,
}
use chat_wire.OperationStatus.Steps.{
  Call, step, steps, updates, tracks, cancels, announces, finalizes,
}
use chat_wire.OperationStatus.Announced.{begin-Announced, lines}
use chat_wire.OperationStatus.Superseded.{delayed_superseded}
use chat_wire.OperationStatus.Replaced.{without, steps-without}

-- Texts without blanks around them.
abbrev as_it_is : String → String
as_it_is s = s

abbrev a_discord : Discord
a_discord = record { has_channel = true; deletes = λ r. true }

abbrev idle : Notices
idle = record { status = zero_status; update_message = none; effects = []; timers = [] }

abbrev busy : Notices
busy = record idle {
  status = record zero_status {
    token = "op-5";
    title = "Factorio";
    description = "Starting.";
    started_at = 5 * second;
  };
}

-- Calls of the operation that "op-5" has replaced, among those of "op-5".
abbrev late_calls : List Call
late_calls =
    updates "op-4" "Factorio" "Stopped." false true (9 * second)
    ∷ cancels "op-5"
    ∷ announces "op-4" (9 * second)
    ∷ finalizes "op-4" "" "" (10 * second)
    ∷ []

steps-without_example :
    steps as_it_is a_discord late_calls busy ≡ steps as_it_is a_discord (cancels "op-5" ∷ []) busy
unfolding without
steps-without_example =
    steps-without as_it_is a_discord "op-4" refl late_calls busy refl
      (refl, (refl, (refl, (refl, tt))))

-- An update comes before the operation is announced, and the goroutine of another operation.
begin-Announced_example :
    (let calls =
        updates "op-7" "Factorio" "Loading." false false (8 * second)
        ∷ finalizes "op-5" "" "" (9 * second)
        ∷ [] in
      let b =
        (begin_operation as_it_is a_discord "Factorio" "Starting." "op-7" (7 * second) busy).0 in
      let timer = announcing (7 * second + announce_delay) "op-7" in
      let r = go_on as_it_is a_discord timer (11 * second) (steps as_it_is a_discord calls b) in
      (b.timers ≡ timer ∷ [])
      × (r.status.announced ≡ true)
      × (r.status.token ≡ "op-7")
      × (0 < lines r.effects))
unfolding lines
begin-Announced_example =
    begin-Announced as_it_is a_discord "Factorio" "Starting." "op-7" (7 * second) (11 * second) busy
      (updates "op-7" "Factorio" "Loading." false false (8 * second)
        ∷ finalizes "op-5" "" "" (9 * second)
        ∷ [])
      refl refl refl (refl, (refl, tt)) (omega arith)

delayed_superseded_example :
    (let waiting =
        update_progress_delayed as_it_is a_discord "op-5" "Factorio" "Still starting."
          (30 * second)
          (6 * second)
          busy in
      let due =
        6 * second + next_optional_progress_delay (5 * second) false (30 * second) (6 * second) in
      let timer =
        progressing due "op-5" "Factorio" "Still starting." waiting.status.pending_delay_id in
      let r = steps as_it_is a_discord (announces "op-5" (9 * second) ∷ []) (
        step as_it_is a_discord
          (cancels "op-5")
          (steps as_it_is a_discord (tracks none ∷ []) waiting)) in
      (waiting.timers ≡ timer ∷ []) × (go_on as_it_is a_discord timer (40 * second) r ≡ r))
delayed_superseded_example =
    delayed_superseded as_it_is a_discord "op-5" "Factorio" "Still starting." (30 * second)
      (6 * second) (40 * second) busy (tracks none ∷ []) (announces "op-5" (9 * second) ∷ [])
      (cancels "op-5") refl refl refl refl refl (refl, tt) refl (refl, tt) (omega arith)
