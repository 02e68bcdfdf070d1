-- ===== src/Notifications/Models.antt =====
-- The rows of notifications/models.py, the channels of channels.py, and the values of a context.
use toupac.Prelude.{ℕ, String, Bool, false, Option, some, none, List, [], str_eq, if◌then◌else◌}
use toupac.Prelude.Int.{ℤ}

-- `Channel`
pub data Channel : Type 0 where
  push in_app email sms whatsapp : Channel

abbrev pub channel_text : Channel → String
channel_text push = "push"
channel_text in_app = "in_app"
channel_text email = "email"
channel_text sms = "sms"
channel_text whatsapp = "whatsapp"

-- `Channel(text)`, with no value where it raises `ValueError`
abbrev pub channel_of : String → Option Channel
channel_of s =
    if str_eq s "push"
    then some push
    else if str_eq s "in_app"
    then some in_app
    else if str_eq s "email"
    then some email
    else if str_eq s "sms"
    then some sms
    else if str_eq s "whatsapp"
    then some whatsapp
    else none

-- A value of the context of an emission.
pub data Value : Type 0 where
  text : String → Value
  int : ℤ → Value
  bool : Bool → Value
  float : ℕ → Value
  datetime : ℕ → Value
  uuid : ℕ → Value
  other : Value

abbrev pub Context : Type 0
Context = List (String × Value)

-- A user as the service reads it. `email` is null for a client who has none. A preference is what
-- the JSON object has under a category: `false`, or anything else.
pub record User : Type 0 where
  pub id : ℕ
  pub email : Option String
  pub phone : String
  pub preferences : List (String × Bool)

-- `Notification.TriggerScope`
pub data TriggerScope : Type 0 where
  user role tenant : TriggerScope

-- `Recipient`
pub record Recipient : Type 0 where
  pub user : Option User
  pub target : String
  pub trigger_scope : TriggerScope
  pub trigger_role : String

-- `NotificationTemplate`, with a null tenant for one of the system
pub record Template : Type 0 where
  pub id : ℕ
  pub tenant : Option ℕ
  pub event_code : String
  pub channel : Channel
  pub language : String
  pub title_template : String
  pub template_body : String
  pub action_url_template : String
  pub is_active : Bool

-- `Notification`
pub record Notification : Type 0 where
  pub id : ℕ
  pub tenant : ℕ
  pub event_code : String
  pub recipient_user : ℕ
  pub trigger_scope : TriggerScope
  pub trigger_role : String
  pub priority : String
  pub title : String
  pub body : String
  pub action_url : String
  pub idempotency_key : String

-- `NotificationLog.Status`; nothing here sets `delivered`
pub data LogStatus : Type 0 where
  queued sent delivered failed : LogStatus

-- `NotificationLog`
pub record Log : Type 0 where
  pub id : ℕ
  pub tenant : Option ℕ
  pub user : Option ℕ
  pub notification : Option ℕ
  pub channel : String
  pub recipient : String
  pub event_code : String
  pub content : String
  pub status : LogStatus
  pub provider : String
  pub provider_message_id : String
  pub failure_reason : String
  pub sent_at : Option ℕ

-- `EmitResult`
pub record EmitResult : Type 0 where
  pub notifications_created : ℕ
  pub logs_created : ℕ
  pub logs_failed : ℕ
  pub idempotency_hit : Bool
  pub skipped_no_recipient : Bool
  pub failure_reasons : List String

-- `EmitResult()`
abbrev pub no_result : EmitResult
no_result = record {
  notifications_created = 0;
  logs_created = 0;
  logs_failed = 0;
  idempotency_hit = false;
  skipped_no_recipient = false;
  failure_reasons = [];
}
