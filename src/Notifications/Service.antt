-- ===== src/Notifications/Service.antt =====
-- notifications/services.py: an event is announced, and the service decides whom to tell, by which
-- channels and with which text; with idempotency.py.
pub mod Desk
pub mod Delivery
pub mod Traces
pub mod Window
pub mod Answers
pub mod Templates
use toupac.Prelude.{
  ℕ, zero, suc, ◌+◌, String, Bool, true, false, not, ◌&&◌, ◌||◌, Option, some, none, List, [], ◌∷◌,
  ◌++◌, map, any, length, select, first, update_where, ◌==◌, str_eq, ltb, is_some, get_or_default,
  if◌then◌else◌,
}
use toupac.Prelude.Results.{Result, ok, err}
use toupac.Prelude.Sort.{sort_by}
use toupac.Prelude.Text.{is_empty, slice_to, concat, is_among}
use toupac.Cache.{Cache}
use toupac.Notifications.Models.{
  Channel, push, in_app, email, sms, whatsapp, channel_text, channel_of, Context, User, Recipient,
  TriggerScope, EmitResult, no_result,
}
use toupac.Notifications.Catalog.{
  NotifEvent, CatalogError, get_event, validate_context, unknown_code, entry, never_opt_out,
}
use toupac.Notifications.Outbox.{
  Host, Outbox, Fault, catalog_error, unknown_channel, ResolvedRecipient,
}
use toupac.Notifications.Service.Desk.{
  Progress, M, raise, return, ◌>>=◌, ◌>>◌, fail_log, set_skipped,
}
use toupac.Notifications.Service.Delivery.{deliver_to_recipient}

-- `RecipientTarget`
pub record RecipientTarget : Type 0 where
  pub type : String
  pub value : String
  pub user : Option User

-- The arguments of `emit`.
pub record Emission : Type 0 where
  pub event_code : String
  pub context : Context
  pub tenant : Option ℕ
  pub actor : Option ℕ
  pub recipient_override : Option RecipientTarget
  pub channels : Option (List String)
  pub language : String
  pub idempotency_scope : Option String
  pub deliver_now : Bool

-- `IDEMPOTENCY_TTL_SECONDS`
abbrev pub idempotency_ttl_seconds : ℕ
idempotency_ttl_seconds = 86400

-- `KNOWN_UNIMPLEMENTED_RESOLVERS`
abbrev pub known_unimplemented : List String
known_unimplemented = []

-- `_CHANNEL_PRIORITY.get(channel, 1)`
abbrev pub channel_priority : Channel → ℕ
channel_priority in_app = 0
channel_priority push = 1
channel_priority email = 1
channel_priority sms = 1
channel_priority whatsapp = 1

abbrev pub same_channel : Channel → Channel → Bool
same_channel c d = str_eq (channel_text c) (channel_text d)

-- `{Channel(channel) for channel in channels}`, or the first text that is no channel
abbrev channels_of : List String → Result Fault (List Channel)
channels_of [] = ok []
channels_of (s ∷ ss) = elim (channel_of s) [
  | none ↦ err (unknown_channel s)
  | some c ↦ elim (channels_of ss) [ ok cs ↦ ok (c ∷ cs) | err e ↦ err e ]
]

-- `",".join(texts)`
abbrev join : List String → List String
join [] = []
join (s ∷ []) = s ∷ []
join (s ∷ t ∷ ss) = s ∷ "," ∷ join (t ∷ ss)

-- `_target_channels`
unfoldable pub target_channels : NotifEvent → Option (List String) → Result Fault (List Channel)
target_channels e none = ok (sort_by channel_priority e.default_channels)
target_channels e (some channels) = elim (channels_of channels) [
  | err fault ↦ err fault
  | ok requested ↦
      ok
        (sort_by channel_priority (select (λ c. any (same_channel c) requested) e.default_channels))
]

-- `preferences.get(category, True) is False`
abbrev pub opted_out : String → User → Bool
opted_out category u = not (get_or_default (entry category u.preferences) true)

abbrev pub is_nil {ℓ} : {A : Type ℓ} → List A → Bool
is_nil [] = true
is_nil (x ∷ xs) = false

module _ (host : Host) where
  abbrev show_optional : Option ℕ → String
  show_optional none = ""
  show_optional (some i) = host.show_uuid i

  -- `compute_idempotency_key`
  unfoldable pub compute_idempotency_key : String → Option ℕ → Option String → Context → String
  compute_idempotency_key event_code actor scope context =
      let material = concat (
        event_code
        ∷ ":"
        ∷ show_optional actor
        ∷ ":"
        ∷ get_or_default scope ""
        ∷ ":"
        ∷ host.dumps context
        ∷ []) in
      slice_to 32 (host.sha256_hex material)

  abbrev or_pk : User → String
  or_pk u = if is_empty u.phone then host.show_uuid u.id else u.phone

  -- `_target_for`
  abbrev pub target_for : Option User → String
  target_for none = ""
  target_for (some u) = elim u.email [
    | none ↦ or_pk u
    | some address ↦ if is_empty address then or_pk u else address
  ]

  abbrev pub recipient_of : ResolvedRecipient → Recipient
  recipient_of r = record {
    user = r.user;
    target = target_for r.user;
    trigger_scope = r.trigger_scope;
    trigger_role = r.trigger_role;
  }

  abbrev pub override_of : RecipientTarget → Recipient
  override_of t = record {
    user = t.user;
    target = t.value;
    trigger_scope = TriggerScope.user;
    trigger_role = "";
  }

  abbrev pub resolved :
      Option ℕ → NotifEvent → Result String (List ResolvedRecipient) → M (List Recipient)
  resolved tenant e (ok rs) = return (map recipient_of rs)
  resolved tenant e (err exc) = do
    fail_log tenant none "" "" e.code (concat ("resolver_error:" ∷ e.resolver_key ∷ ":" ∷ exc ∷ []))
    return []

  -- the resolver of the registry, or the trace of its absence
  abbrev pub resolve_by :
      Emission
      → NotifEvent
      → Option (Context → Option ℕ → Result String (List ResolvedRecipient))
      → M (List Recipient)
  resolve_by a e (some resolver) = resolved a.tenant e (resolver a.context a.tenant)
  resolve_by a e none = do
    let cause =
        (if is_among e.resolver_key known_unimplemented
          then "resolver_unimplemented:"
          else "resolver_missing:")
    fail_log a.tenant none "" "" e.code (concat (cause ∷ e.resolver_key ∷ []))
    return []

  abbrev pub resolve_for : Emission → NotifEvent → Option RecipientTarget → M (List Recipient)
  resolve_for a e (some target) = return (override_of target ∷ [])
  resolve_for a e none = resolve_by a e (entry e.resolver_key host.resolvers)

  -- `_resolve_recipients`
  unfoldable pub resolve_recipients : Emission → NotifEvent → M (List Recipient)
  resolve_recipients a e = resolve_for a e a.recipient_override

  -- `_passes_preferences`
  unfoldable pub passes_preferences : Option ℕ → NotifEvent → Option User → M Bool
  passes_preferences tenant e none = return true
  passes_preferences tenant e (some u) =
      if is_among e.category never_opt_out
      then (if opted_out e.category u
          then (do
            fail_log tenant (some u.id) "" "" e.code
                (concat ("preference_violation:" ∷ e.category ∷ ":" ∷ host.show_uuid u.id ∷ []))
            return true)
          else return true)
      else return (not (opted_out e.category u))

  abbrev pub deliver_if :
      Bool → ℕ → Emission → NotifEvent → Recipient → List Channel → String → M (Unit {0})
  deliver_if false now a e r channels key = return tt
  deliver_if true now a e r channels key =
      deliver_to_recipient host now a.tenant a.context a.language a.deliver_now e r key none
        channels

  -- the loop over the recipients
  unfoldable pub deliver_all :
      ℕ → Emission → NotifEvent → List Channel → String → List Recipient → M (Unit {0})
  unfolding passes_preferences
  deliver_all now a e channels key [] = return tt
  deliver_all now a e channels key (r ∷ recipients) = do
    wanted ← passes_preferences a.tenant e r.user
    deliver_if wanted now a e r channels key
    deliver_all now a e channels key recipients

  -- the trace of a request for channels that the event does not have
  abbrev pub no_channel_log : Emission → NotifEvent → M (Unit {0})
  no_channel_log a e =
      fail_log a.tenant none "" "" e.code
        (concat ("channel_not_declared:" ∷ e.code ∷ "/" ∷ join (get_or_default a.channels [])))

  abbrev pub announce_on :
      ℕ
      → Emission
      → NotifEvent
      → String
      → List Recipient
      → Result Fault (List Channel)
      → M (Unit {0})
  announce_on now a e key recipients (err fault) = raise fault
  announce_on now a e key recipients (ok channels) =
      if is_nil channels then no_channel_log a e else deliver_all now a e channels key recipients

  -- `emit` below its guards, up to the mark
  unfoldable pub announce : ℕ → Emission → NotifEvent → String → M (Unit {0})
  unfolding resolve_recipients target_channels deliver_all
  announce now a e key = do
    recipients ← resolve_recipients a e
    if is_nil recipients
        then set_skipped
        else announce_on now a e key recipients (target_channels e a.channels)

  module _ (C : Cache String) where
    -- `_cache_key`
    abbrev pub cache_key : String → String
    cache_key key = concat ("notif_idem:" ∷ key ∷ [])

    -- `already_emitted`
    abbrev pub already_emitted : ℕ → String → C.Store → Bool
    already_emitted now key marks = is_some (C.get now (cache_key key) marks)

    -- `mark_emitted`
    abbrev pub mark_emitted : ℕ → String → C.Store → C.Store
    mark_emitted now key marks = C.set now (cache_key key) "1" idempotency_ttl_seconds marks

    abbrev pub Emitted : Type 0
    Emitted = Result Fault EmitResult × Outbox × C.Store

    -- the end of `emit`: the mark, if anything was logged
    abbrev pub settle : ℕ → String → Result Fault (Unit {0}) × Progress → C.Store → Emitted
    settle now key (err fault, d) marks = (err fault, d.outbox, marks)
    settle now key (ok done, d) marks = (
      ok d.result,
      d.outbox,
      (if ltb 0 d.result.logs_created then mark_emitted now key marks else marks),
    )

    abbrev pub key_of : Emission → String
    key_of a = compute_idempotency_key a.event_code a.actor a.idempotency_scope a.context

    abbrev pub emit_valid : ℕ → Emission → NotifEvent → Outbox → C.Store → Emitted
    emit_valid now a e outbox marks =
        if already_emitted now (key_of a) marks
        then (ok (record no_result { idempotency_hit = true }), outbox, marks)
        else settle now (key_of a)
            (announce now a e (key_of a) (record { outbox = outbox; result = no_result })) marks

    abbrev pub emit_checked :
        ℕ → Emission → NotifEvent → Option CatalogError → Outbox → C.Store → Emitted
    emit_checked now a e (some error) outbox marks = (err (catalog_error error), outbox, marks)
    emit_checked now a e none outbox marks = emit_valid now a e outbox marks

    abbrev pub emit_event : ℕ → Emission → Option NotifEvent → Outbox → C.Store → Emitted
    emit_event now a none outbox marks =
        (err (catalog_error (unknown_code a.event_code)), outbox, marks)
    emit_event now a (some e) outbox marks =
        emit_checked now a e (validate_context host.is_uuid e a.context) outbox marks

    -- `NotificationService.emit`; one call reads the clock and the cache at one instant
    unfoldable pub emit : ℕ → List NotifEvent → Emission → Outbox → C.Store → Emitted
    unfolding announce compute_idempotency_key
    emit now events a outbox marks = emit_event now a (get_event a.event_code events) outbox marks
