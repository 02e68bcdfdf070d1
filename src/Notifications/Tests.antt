-- ===== src/Notifications/Tests.antt =====
-- A company with two events, a few templates and a provider, and the theorems on notifications/
-- applied to them.
use toupac.Prelude.{
  ℕ, suc, ◌+◌, ◌≤◌, ◌≡◌, refl, String, true, false, Option, some, none, List, [], ◌∷◌, length, any,
  ◌⊎◌, arith,
}
use toupac.Prelude.Results.{ok, err}
use toupac.Prelude.Text.{slice_to, concat}
use toupac.Cache.{Cache}
use toupac.Cache.Memory.{memory_cache, memory_cache-IsLawful, empty_store}
use toupac.Notifications.Models.{
  push, in_app, email, sms, whatsapp, channel_text, text, Context, User, Recipient, TriggerScope,
  Template, Log, queued, EmitResult, no_result,
}
use toupac.Notifications.Catalog.{
  NotifEvent, get_event, validate_context, register, entry, is_category, is_supported,
}
use toupac.Notifications.Catalog.Registry.{IsSound, IsRegistry, Registered, register-IsRegistry}
use toupac.Notifications.Rendering.{mask_context}
use toupac.Notifications.Rendering.Masking.{entry-mask_context}
use toupac.Notifications.Outbox.{
  Host, Outbox, provider_fault, data_error, find_log, get_retry_policy,
}
use toupac.Notifications.Tasks.{done, work, send_notification_log}
use toupac.Notifications.Tasks.Ends.{is_settled, work_ends, work-replay}
use toupac.Notifications.Service.{
  Emission, RecipientTarget, emit, target_channels, resolve_recipients,
}
use toupac.Notifications.Service.Desk.{fail_log}
use toupac.Notifications.Service.Delivery.{
  deliver_to_recipient, enqueue, find_template, log_message,
}
use toupac.Notifications.Service.Window.{hit, emit-emit}
use toupac.Notifications.Service.Answers.{Answers, emit-Answers}
use toupac.Notifications.Service.Templates.{is_own, find_template-tenant}

abbrev fatou : User
fatou = record { id = 7; email = some "fatou@ex.com"; phone = "+221771234567"; preferences = [] }

-- Django's templates are not run: a source is its own text. The provider of e-mails is down.
abbrev host : Host
host = record {
  show_uuid = λ i. "7";
  is_uuid = λ s. true;
  dumps = λ c. "{}";
  sha256_hex = λ s. s;
  render_source = λ source context. ok source;
  resolvers =
      (
        "ticket.holder",
        λ context tenant. ok (
            record { user = some fatou; trigger_scope = TriggerScope.user; trigger_role = "" }
            ∷ []),
      )
      ∷ [];
  send = λ n call. err "connection refused";
  provider_class = λ channel. "smtp";
  accepts = λ i. true;
}

abbrev ticket_issued : NotifEvent
ticket_issued = record {
  code = "notif.ticket.issued.v1";
  priority = "high";
  category = "trip_updates";
  default_channels = push ∷ in_app ∷ email ∷ [];
  variables = ("qr", record { type = "string"; required = true; max_length = none }) ∷ [];
  resolver_key = "ticket.holder";
  resolver_variables = [];
  confidentiality_masks = "qr" ∷ [];
}

abbrev events : List NotifEvent
events = ticket_issued ∷ []

abbrev context : Context
context = ("qr", text "ABC") ∷ []

abbrev template : ℕ → Option ℕ → Template
template i tenant = record {
  id = i;
  tenant = tenant;
  event_code = "notif.ticket.issued.v1";
  channel = email;
  language = "fr";
  title_template = "Billet";
  template_body = "Votre billet";
  action_url_template = "";
  is_active = true;
}

abbrev outbox : Outbox
outbox = record {
  templates = template 1 none ∷ template 2 (some 4) ∷ [];
  notifications = [];
  logs = [];
  queue = [];
  calls = [];
  next_id = 10;
}

abbrev issue : Emission
issue = record {
  event_code = "notif.ticket.issued.v1";
  context = context;
  tenant = some 4;
  actor = some 7;
  recipient_override = none;
  channels = none;
  language = "fr";
  idempotency_scope = none;
  deliver_now = false;
}

abbrev cache : Cache String
cache = memory_cache String

abbrev issued : EmitResult
issued = record no_result {
  logs_created = 1;
  logs_failed = 2;
  failure_reasons =
      "no_template:notif.ticket.issued.v1/in_app/fr" ∷ "no_template:notif.ticket.issued.v1/push/fr"
      ∷ [];
}

-- one message by e-mail, and a trace for each of the two channels without a template
issue_runs : (emit host cache 0 events issue outbox empty_store).0 ≡ ok issued
unfolding emit get_event validate_context deliver_to_recipient enqueue slice_to concat fail_log
    log_message
issue_runs = refl

entry-mask_context_example :
    (entry "qr" (mask_context context ticket_issued push) ≡ some (text "***"))
    × (entry "qr" (mask_context context ticket_issued in_app) ≡ some (text "ABC"))
    × (entry "qr" (mask_context context ticket_issued email) ≡ some (text "ABC"))
    × (entry "qr" (mask_context context ticket_issued sms) ≡ some (text "ABC"))
    × (entry "qr" (mask_context context ticket_issued whatsapp) ≡ some (text "ABC"))
entry-mask_context_example = entry-mask_context context ticket_issued "qr"

ticket_issued-IsSound : IsSound ticket_issued
unfolding is_category is_supported
ticket_issued-IsSound = record {
  category = refl;
  channel = refl;
  types = refl;
  apart = refl;
  masks = refl;
}

abbrev second_version : NotifEvent
second_version = record ticket_issued { code = "notif.ticket.issued.v2" }

register-IsRegistry_example :
    IsRegistry (register second_version events).0
    × Registered second_version events (register second_version events)
register-IsRegistry_example =
    register-IsRegistry events second_version (ticket_issued-IsSound, refl, tt)

emit-emit_example :
    let marked = (emit host cache 0 events issue outbox empty_store).2 in
    emit host cache 9 events (record issue { language = "en" }) outbox marked
    ≡ (ok hit, outbox, marked)
emit-emit_example =
    emit-emit host (memory_cache-IsLawful String) 0 9 events issue
      (record issue { language = "en" }) outbox outbox empty_store issued issue_runs (omega arith)
      refl refl refl refl (omega arith)

emit-Answers_example : Answers host cache outbox (emit host cache 0 events issue outbox empty_store)
unfolding get_event validate_context target_channels resolve_recipients
emit-Answers_example =
    emit-Answers host cache 0 4 events issue ticket_issued (in_app ∷ push ∷ email ∷ []) outbox
      empty_store refl refl refl refl refl (omega arith, tt)

abbrev recipient : Recipient
recipient = record {
  user = some fatou;
  target = "fatou@ex.com";
  trigger_scope = TriggerScope.user;
  trigger_role = "";
}

abbrev chosen : Template
chosen = template 2 (some 4)

find_template-tenant_example :
    (chosen.event_code ≡ "notif.ticket.issued.v1")
    × (channel_text chosen.channel ≡ "email")
    × (chosen.language ≡ "fr")
    × (chosen.is_active ≡ true)
    × ((chosen.tenant ≡ some 4)
        ⊎ ((chosen.tenant ≡ none)
            × (any
                  (is_own (some 4) "notif.ticket.issued.v1" email "fr")
                  (template 1 none ∷ template 2 (some 4) ∷ [])
                ≡ false)))
unfolding find_template
find_template-tenant_example =
    find_template-tenant (some 4) "notif.ticket.issued.v1" email "fr"
      (template 1 none ∷ template 2 (some 4) ∷ []) chosen refl

-- An address that the column of the journal cannot hold makes the emission raise.
abbrev long_address : RecipientTarget
long_address = record {
  type = "email";
  value =
      "aaaaaaaaaaaaaaaaaaaaaaaaaaaaaaaaaaaaaaaaaaaaaaaaaaaaaaaaaaaaaaaaaaaaaaaaaaaaaaaaaaaaaaaaaaaaaaaaaaaaaaaaa@ex.com";
  user = none;
}

too_long_raises :
    (emit host cache 0 events
      (record issue { recipient_override = some long_address; channels = some ("email" ∷ []) })
      outbox
      empty_store).0
    ≡ err data_error
unfolding emit get_event validate_context deliver_to_recipient slice_to concat fail_log log_message
too_long_raises = refl

-- A delivery on the spot whose provider is down raises out of the emission.
on_the_spot_raises :
    (emit host cache 0 events
      (record issue { deliver_now = true; channels = some ("email" ∷ []) })
      outbox
      empty_store).0
    ≡ err (provider_fault "connection refused")
unfolding emit get_event validate_context deliver_to_recipient enqueue slice_to concat fail_log
    log_message send_notification_log get_retry_policy
on_the_spot_raises = refl

abbrev log : Log
log = record {
  id = 10;
  tenant = some 4;
  user = some 7;
  notification = none;
  channel = "email";
  recipient = "fatou@ex.com";
  event_code = "notif.ticket.issued.v1";
  content = "Votre billet";
  status = queued;
  provider = "";
  provider_message_id = "";
  failure_reason = "";
  sent_at = none;
}

abbrev waiting : Outbox
waiting = record outbox { logs = log ∷ [] }

work_ends_example :
    (after : Outbox) × (work host 4 0 0 10 waiting ≡ some after)
    × (is_settled (find_log 10 after.logs) ≡ true)
    × (length after.calls ≤ 0 + suc (get_retry_policy "email").max_retries)
work_ends_example = work_ends host 0 10 log waiting refl refl

abbrev after_work : Outbox
after_work = work_ends_example.0

work-replay_example : send_notification_log host 5 0 10 after_work ≡ (done, after_work)
work-replay_example = work-replay host 0 10 log waiting after_work refl refl work_ends_example.1 5 0
