-- ===== src/OperationStatus/State.antt =====
-- The state of fact/operation_status.go, what it tells the chat, and its timers. Times are in nanoseconds; the
-- zero time and the empty token are the ones before the first operation. Go's `strings.TrimSpace` is an
-- argument, as are whether there is a chat channel and which messages Discord deletes.
use Prim.Native.String.{◌++◌ as str_append}
use chat_wire.Common.{
  ℕ, ◌*◌, String, str_eq, Bool, false, ◌&&◌, ◌||◌, Option, none, some, List, [], ◌∷◌, if◌then◌else◌,
}

abbrev pub second : ℕ
second = 1000000000

-- `operationAnnounceDelay`, `operationProgressThrottle`, `operationOptionalTTL`.
abbrev pub announce_delay : ℕ
announce_delay = 3 * second

abbrev pub progress_throttle : ℕ
progress_throttle = 10 * second

abbrev pub optional_ttl : ℕ
optional_ttl = 60 * second

-- `operationMessageRef`.
pub record MessageRef : Type 0 where
  pub channel_id : String
  pub message_id : String

-- `operationStatusState`.
pub record Status : Type 0 where
  pub token : String
  pub title : String
  pub description : String
  pub started_at : ℕ
  pub last_progress_key : String
  pub last_progress_at : ℕ
  pub announced : Bool
  pub suppress_announce : Bool
  pub pending_delay_id : ℕ
  pub optional_messages : List MessageRef

abbrev pub zero_status : Status
zero_status = record {
  token = "";
  title = "";
  description = "";
  started_at = 0;
  last_progress_key = "";
  last_progress_at = 0;
  announced = false;
  suppress_announce = false;
  pending_delay_id = 0;
  optional_messages = [];
}

-- What the log and the chat are told, and the messages that are deleted; the newest comes first.
pub data Effect : Type 0 where
  logged : String → String → Effect
  chatted : String → Effect
  deleted : MessageRef → Effect

-- The goroutines that sleep, each with the time at which it goes on.
pub data Timer : Type 0 where
  announcing : ℕ → String → Timer
  progressing : ℕ → String → String → String → ℕ → Timer
  cleaning : ℕ → MessageRef → Timer

-- The state with the message that the chat's next line is added to (glob/updatemsg.go).
pub record Notices : Type 0 where
  pub status : Status
  pub update_message : Option MessageRef
  pub effects : List Effect
  pub timers : List Timer

pub record Discord : Type 0 where
  pub has_channel : Bool
  pub deletes : MessageRef → Bool

abbrev pub is_blank : String → Bool
is_blank s = str_eq s ""

abbrev pub progress_key : String → String → String
progress_key title description = str_append title (str_append "\n" description)

abbrev pub same_ref : MessageRef → MessageRef → Bool
same_ref a b = str_eq a.channel_id b.channel_id && str_eq a.message_id b.message_id

-- The log and the chat are told, and the update message is reset.
abbrev pub say : Discord → String → String → Notices → Notices
say d title description n =
    if d.has_channel
    then record n {
      effects = chatted description ∷ logged title description ∷ n.effects;
      update_message = none;
    }
    else record n { effects = logged title description ∷ n.effects }

-- `resetUpdateMessageIfMatches`.
abbrev pub reset_if_matches : MessageRef → Option MessageRef → Option MessageRef
reset_if_matches r none = none
reset_if_matches r (some m) = if same_ref m r then none else some m

abbrev pub delete_message : Discord → MessageRef → Notices → Notices
delete_message d r n =
    if d.deletes r
    then record n {
      effects = deleted r ∷ n.effects;
      update_message = reset_if_matches r n.update_message;
    }
    else n

-- `deleteOperationMessages`.
abbrev pub delete_messages : Discord → List MessageRef → Notices → Notices
delete_messages d [] n = n
delete_messages d (r ∷ rs) n =
    delete_messages d rs
      (if is_blank r.channel_id || is_blank r.message_id then n else delete_message d r n)

-- `clearTrackedOptionalMessagesLocked`, with the deletion that follows it.
abbrev pub clear_optional : Discord → Notices → Notices
clear_optional d n =
    delete_messages d n.status.optional_messages
      (record n { status = record n.status { optional_messages = [] } })
