-- ===== src/Notifications/Outbox.antt =====
-- The tables of notifications/, the queue and the calls of the providers; retries.py; and what the
-- code takes from Django, Celery, the interpreter and the providers, as arguments.
use toupac.Prelude.{
  ℕ, ◌≤◌, arith, ◌*◌, ◌^◌, String, Bool, true, false, Option, some, none, List, first, ◌==◌,
}
use toupac.Prelude.Results.{Result}
use toupac.Notifications.Models.{
  Channel, push, in_app, email, sms, whatsapp, channel_of, Context, User, Template, Notification,
  Log, TriggerScope,
}
use toupac.Notifications.Catalog.{CatalogError}

-- `NotificationResult`
pub record SendResult : Type 0 where
  pub success : Bool
  pub provider : String
  pub provider_message_id : String
  pub error_message : String

-- `provider.send(recipient, message, subject)` on a channel
pub record SendCall : Type 0 where
  pub channel : String
  pub recipient : String
  pub message : String
  pub subject : String

-- `ResolvedRecipient`
pub record ResolvedRecipient : Type 0 where
  pub user : Option User
  pub trigger_scope : TriggerScope
  pub trigger_role : String

-- Nothing is assumed of these.
pub record Host : Type 0 where
  -- `str(uuid)`, `uuid.UUID(text)`
  pub show_uuid : ℕ → String
  pub is_uuid : String → Bool
  -- `json.dumps(context, sort_keys=True, default=str)`, and `hashlib.sha256(...).hexdigest()`
  pub dumps : Context → String
  pub sha256_hex : String → String
  -- `Template(source).render(context)`, or the text of its exception
  pub render_source : String → Context → Result String String
  -- the registry of resolvers: each gives recipients, or raises with a text
  pub resolvers : List (String × (Context → Option ℕ → Result String (List ResolvedRecipient)))
  -- `get_provider(channel).send(...)` as the n-th call of a provider, or the text of its exception
  pub send : ℕ → SendCall → Result String SendResult
  -- the class of the provider of a channel, in lower case and without `provider`
  pub provider_class : String → String
  -- whether the broker takes the task of a log
  pub accepts : ℕ → Bool

-- What leaves the code: the errors of the catalogue, `Channel(text)` on an unknown channel,
-- `IntegrityError`, `DataError` on a text that its column cannot hold, and the exceptions of a delivery that is made on the spot.
pub data Fault : Type 0 where
  catalog_error : CatalogError → Fault
  unknown_channel : String → Fault
  integrity_error : Fault
  data_error : Fault
  provider_fault : String → Fault
  retry_raised : Fault

-- The primary keys are UUIDv7; `next_id` is the next fresh one.
pub record Outbox : Type 0 where
  pub templates : List Template
  pub notifications : List Notification
  pub logs : List Log
  -- the logs whose task the broker holds
  pub queue : List ℕ
  -- the calls of the providers, in order
  pub calls : List SendCall
  pub next_id : ℕ

-- `NotificationLog.objects.filter(pk=log_id).first()`
abbrev pub find_log : ℕ → List Log → Option Log
find_log i logs = first (λ l. l.id) (λ l. l.id == i) logs

-- `log.notification.title if log.notification_id else ""`
abbrev pub title_of : Option ℕ → List Notification → String
title_of none notifications = ""
title_of (some i) notifications = elim (first (λ n. n.id) (λ n. n.id == i) notifications) [
  | some n ↦ n.title
  | none ↦ ""
]

abbrev pub is_tenant : Option ℕ → Option ℕ → Bool
is_tenant none none = true
is_tenant none (some u) = false
is_tenant (some t) none = false
is_tenant (some t) (some u) = t == u

-- `RetryPolicy`
pub record RetryPolicy : Type 0 where
  pub max_retries : ℕ
  pub base_delay_seconds : ℕ

-- `RETRY_POLICIES`
abbrev pub policy_of : Channel → RetryPolicy
policy_of push = record { max_retries = 3; base_delay_seconds = 60 }
policy_of email = record { max_retries = 3; base_delay_seconds = 60 }
policy_of sms = record { max_retries = 0; base_delay_seconds = 0 }
policy_of whatsapp = record { max_retries = 0; base_delay_seconds = 0 }
policy_of in_app = record { max_retries = 0; base_delay_seconds = 0 }

abbrev policy_or_none : Option Channel → RetryPolicy
policy_or_none (some channel) = policy_of channel
policy_or_none none = record { max_retries = 0; base_delay_seconds = 0 }

-- `get_retry_policy`
unfoldable pub get_retry_policy : String → RetryPolicy
get_retry_policy channel = policy_or_none (channel_of channel)

policy_or_none-le : (c : Option Channel) → (policy_or_none c).max_retries ≤ 3
policy_or_none-le none = omega arith
policy_or_none-le (some push) = omega arith
policy_or_none-le (some in_app) = omega arith
policy_or_none-le (some email) = omega arith
policy_or_none-le (some sms) = omega arith
policy_or_none-le (some whatsapp) = omega arith

pub get_retry_policy-le : (channel : String) → (get_retry_policy channel).max_retries ≤ 3
unfolding get_retry_policy
get_retry_policy-le channel = policy_or_none-le (channel_of channel)

-- `countdown_for`
abbrev pub countdown_for : RetryPolicy → ℕ → ℕ
countdown_for policy retry_number = policy.base_delay_seconds * 2 ^ retry_number
