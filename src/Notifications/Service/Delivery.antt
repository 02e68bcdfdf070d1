-- ===== src/Notifications/Service/Delivery.antt =====
-- notifications/services.py, `_deliver_to_recipient` and what it calls, for one recipient.
use toupac.Prelude.{
  ℕ, suc, ◌+◌, String, Bool, true, false, not, ◌&&◌, Option, some, none, List, [], ◌∷◌, ◌++◌, any,
  first, ◌==◌, str_eq, ◌||◌, ltb, select, if◌then◌else◌,
}
use toupac.Prelude.Results.{Result, ok, err}
use toupac.Prelude.Text.{is_empty, slice_to, concat}
use toupac.Notifications.Models.{
  Channel, in_app, channel_text, Context, User, Recipient, Template, Notification, Log, queued,
}
use toupac.Notifications.Catalog.{NotifEvent}
use toupac.Notifications.Rendering.{render_for_channel}
use toupac.Notifications.Outbox.{
  Host, Fault, integrity_error, data_error, provider_fault, retry_raised, is_tenant,
}
use toupac.Notifications.Tasks.{Ending, done, retry, send_notification_log}
use toupac.Notifications.Service.Desk.{
  M, raise, return, ◌>>=◌, ◌>>◌, fail_log, add_log, exceeds_column,
}

abbrev pub user_id : Option User → Option ℕ
user_id none = none
user_id (some u) = some u.id

-- the filter of `_find_template`, up to the tenant
abbrev pub fits : String → Channel → String → Template → Bool
fits event_code channel language t =
    str_eq t.event_code event_code
    && str_eq (channel_text t.channel) (channel_text channel)
    && str_eq t.language language
    && t.is_active

-- whether a tenant comes before another in `order_by(F("tenant_id").desc(nulls_last=True))`
abbrev pub precedes : Option ℕ → Option ℕ → Bool
precedes none u = false
precedes (some t) none = true
precedes (some t) (some u) = ltb u t

abbrev pub earlier : Template → Option Template → Template
earlier t none = t
earlier t (some u) = if precedes u.tenant t.tenant then u else t

-- `.first()` in that order
abbrev pub foremost : List Template → Option Template
foremost [] = none
foremost (t ∷ ts) = some (earlier t (foremost ts))

-- `_find_template`
unfoldable pub find_template :
    Option ℕ → String → Channel → String → List Template → Option Template
find_template tenant event_code channel language templates = foremost (
    select (λ t. is_tenant t.tenant tenant || is_tenant t.tenant none)
      (select (fits event_code channel language) templates))

-- the rows that `unique_notification_idempotency_per_tenant_user` does not allow together with one
abbrev pub is_same_item : ℕ → ℕ → String → Notification → Bool
is_same_item tenant user key n =
    n.tenant == tenant && n.recipient_user == user && str_eq n.idempotency_key key

abbrev pub item_clash : ℕ → ℕ → String → List Notification → Bool
item_clash tenant user key notifications =
    not (is_empty key) && any (is_same_item tenant user key) notifications

-- the handler of `IntegrityError`: the item that another worker created, or the exception again
abbrev pub existing_item : Option Notification → M (ℕ × Bool)
existing_item (some n) = return (n.id, false)
existing_item none = raise integrity_error

-- `_create_notification`: the item and whether it is new. A tenant is required, so that without one
-- the insertion fails and no row is found in its place.
unfoldable pub create_notification :
    Option ℕ → NotifEvent → Recipient → User → String × String × String → String → M (ℕ × Bool)
create_notification none e r u texts key d = raise integrity_error d
create_notification (some tenant) e r u (title, body, action_url) key d =
    if item_clash tenant u.id key d.outbox.notifications
    then existing_item (first (λ n. n.id) (is_same_item tenant u.id key) d.outbox.notifications) d
    else (let item : Notification = record {
      id = d.outbox.next_id;
      tenant = tenant;
      event_code = e.code;
      recipient_user = u.id;
      trigger_scope = r.trigger_scope;
      trigger_role = r.trigger_role;
      priority = e.priority;
      title = slice_to 200 title;
      body = body;
      action_url = slice_to 500 action_url;
      idempotency_key = key;
    } in
        (
          ok (d.outbox.next_id, true),
          record d {
            outbox = record d.outbox {
              notifications = d.outbox.notifications ++ item ∷ [];
              next_id = suc d.outbox.next_id;
            };
          },
        ))

-- `result.notifications_created += int(created)`
abbrev pub count_item : Bool → M (Unit {0})
count_item created d = (
  ok tt,
  record d {
    result = record d.result {
      notifications_created = d.result.notifications_created + (if created then 1 else 0);
    };
  },
)

-- the item of the alert centre, on its channel and for a known user
abbrev pub item_for :
    Option ℕ
    → NotifEvent
    → Recipient
    → Option User
    → Channel
    → String × String × String
    → String
    → Option ℕ
    → M (Option ℕ)
item_for tenant e r (some u) in_app texts key notification = do
  (item, created) ← create_notification tenant e r u texts key
  count_item created
  return (some item)
item_for tenant e r u channel texts key notification = return notification

-- the log of a message that was rendered; the identifier of its row
unfoldable pub log_message : Option ℕ → NotifEvent → Recipient → Channel → String → Option ℕ → M ℕ
log_message tenant e r channel body notification d =
    if exceeds_column r.target
    then raise data_error d
    else (let log : Log = record {
      id = d.outbox.next_id;
      tenant = tenant;
      user = user_id r.user;
      notification = notification;
      channel = channel_text channel;
      recipient = r.target;
      event_code = e.code;
      content = slice_to 500 body;
      status = queued;
      provider = "";
      provider_message_id = "";
      failure_reason = "";
      sent_at = none;
    } in
        (
          ok d.outbox.next_id,
          record {
            outbox = add_log log d.outbox;
            result = record d.result { logs_created = d.result.logs_created + 1 };
          },
        ))

-- a call of the task outside a worker: `self.retry` raises the exception in its hands
abbrev pub raise_retry : Ending → Result Fault (Unit {0})
raise_retry done = ok tt
raise_retry (retry countdown (some exc)) = err (provider_fault exc)
raise_retry (retry countdown none) = err retry_raised

module _ (host : Host) where
  -- `_enqueue`
  unfoldable pub enqueue : ℕ → Bool → ℕ → M (Unit {0})
  enqueue now true log_id d =
      let (ending, after) = send_notification_log host now 0 log_id d.outbox in
      (raise_retry ending, record d { outbox = after })
  enqueue now false log_id d =
      if host.accepts log_id
      then (ok tt, record d { outbox = record d.outbox { queue = d.outbox.queue ++ log_id ∷ [] } })
      else (ok tt, d)

  module _ (now : ℕ) (tenant : Option ℕ) (context : Context) (language : String)
      (deliver_now : Bool) (e : NotifEvent) (r : Recipient) (key : String) where
    abbrev pub fail_channel : Channel → String → M (Unit {0})
    fail_channel channel reason =
        fail_log tenant (user_id r.user) (channel_text channel) r.target e.code reason

    abbrev pub place : Channel → String
    place channel = concat (e.code ∷ "/" ∷ channel_text channel ∷ "/" ∷ language ∷ [])

    abbrev pub deliver_rendered :
        Channel → Option ℕ → Result String (String × String × String) → M (Option ℕ)
    deliver_rendered channel notification (err exc) = do
      fail_channel channel (concat ("template_error:" ∷ place channel ∷ ":" ∷ exc ∷ []))
      return notification
    deliver_rendered channel notification (ok texts) = do
      item ← item_for tenant e r r.user channel texts key notification
      log_id ← log_message tenant e r channel texts.1 item
      enqueue now deliver_now log_id
      return item

    -- the body of the loop on one channel; the item that the next channels refer to
    unfoldable pub deliver_channel : Channel → Option ℕ → Option Template → M (Option ℕ)
    unfolding render_for_channel
    deliver_channel channel notification none = do
      fail_channel channel (concat ("no_template:" ∷ place channel ∷ []))
      return notification
    deliver_channel channel notification (some template) =
        deliver_rendered channel notification
          (render_for_channel host.render_source template context e channel)

    -- `_deliver_to_recipient`
    unfoldable pub deliver_to_recipient : Option ℕ → List Channel → M (Unit {0})
    unfolding deliver_channel find_template
    deliver_to_recipient notification [] d = return tt d
    deliver_to_recipient notification (channel ∷ channels) d =
        let template = find_template tenant e.code channel language d.outbox.templates in
        (do
          item ← deliver_channel channel notification template
          deliver_to_recipient item channels)
          d
