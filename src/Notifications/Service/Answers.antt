-- ===== src/Notifications/Service/Answers.antt =====
-- Whether `emit` returns, and what its report counts.
use toupac.Prelude.{
  ℕ, ◌+◌, ◌≤◌, ◌≡◌, All, inl, inr, String, Bool, true, false, Option, some, none, List, [], ◌∷◌,
  length, Bool-cases, arith,
}
use toupac.Prelude.Results.{Result, ok, err}
use toupac.Prelude.Text.{is_among, char_count}
use toupac.Cache.{Cache}
use toupac.Notifications.Models.{Channel, Context, User, Recipient, EmitResult, no_result}
use toupac.Notifications.Catalog.{NotifEvent, get_event, validate_context, never_opt_out, entry}
use toupac.Notifications.Outbox.{Host, Outbox, Fault, ResolvedRecipient}
use toupac.Notifications.Service.{
  Emission, RecipientTarget, target_channels, resolved, resolve_by, resolve_for, resolve_recipients,
  opted_out, passes_preferences, deliver_if, deliver_all, is_nil, announce_on, announce, settle,
  key_of, already_emitted, emit,
}
use toupac.Notifications.Service.Desk.{Progress, M, continue, fail_log}
use toupac.Notifications.Service.Traces.{Returns, fail_log-Returns, deliver_to_recipient-traces}

-- Each row that was added to the journal is counted once, and each failure has its reason.
record Counts (d d' : Progress) : Type 0 where
  rows :
      length d'.outbox.logs + d.result.logs_created + d.result.logs_failed
      ≡ length d.outbox.logs + d'.result.logs_created + d'.result.logs_failed
  reasons :
      length d'.result.failure_reasons + d.result.logs_failed
      ≡ length d.result.failure_reasons + d'.result.logs_failed

abbrev Traced {ℓ} : {A : Type ℓ} → Progress → Result Fault A × Progress → Type 0
Traced d (ok a, d') = Counts d d'
Traced d (err fault, d') = ⊥

Counts-refl : (d : Progress) → Counts d d
Counts-refl d = omega arith

Returns-Traced :
    {A : Type 0} (k : ℕ) (d : Progress) (r : Result Fault A × Progress) → Returns k d r → Traced d r
Returns-Traced k d (ok a, d') h = omega arith
Returns-Traced k d (err fault, d') h = h

Traced-after :
    {B : Type 0} (d d' : Progress) (r : Result Fault B × Progress)
    → Counts d d'
    → Traced d' r
    → Traced d r
Traced-after d d' (ok b, d'') h h' = omega arith
Traced-after d d' (err fault, d'') h h' = h'

Traced-then :
    {A B : Type 0} (d : Progress) (r : Result Fault A × Progress) (f : A → M B)
    → Traced d r
    → ((a : A) (d' : Progress) → Traced d' (f a d'))
    → Traced d (continue r f)
Traced-then d (err fault, d') f h g = absurd h
Traced-then d (ok a, d') f h g = Traced-after d d' (f a d') h (g a d')

-- The target of a recipient fits the column of the journal.
abbrev pub HaveShortTargets : List Recipient → Type 0
HaveShortTargets = All (λ r. char_count r.target ≤ 100)

abbrev pub ResolvesShort : Result Fault (List Recipient) × Progress → Type 0
ResolvesShort (ok recipients, d) = HaveShortTargets recipients
ResolvesShort (err fault, d) = Unit

Traced-then_short :
    {B : Type 0} (d : Progress) (r : Result Fault (List Recipient) × Progress)
    (f : List Recipient → M B)
    → Traced d r
    → ResolvesShort r
    → ((recipients : List Recipient) (d' : Progress)
        → HaveShortTargets recipients
        → Traced d' (f recipients d'))
    → Traced d (continue r f)
Traced-then_short d (err fault, d') f h short g = absurd h
Traced-then_short d (ok recipients, d') f h short g =
    Traced-after d d' (f recipients d') h (g recipients d' short)

fail_log-Traced :
    (tenant user : Option ℕ) (channel recipient event_code reason : String) (d : Progress)
    → char_count recipient ≤ 100
    → Traced d (fail_log tenant user channel recipient event_code reason d)
fail_log-Traced tenant user channel recipient event_code reason d short =
    Returns-Traced 1 d _ (fail_log-Returns tenant user channel recipient event_code reason d short)

module _ (host : Host) where
  resolved-Traced :
      (tenant : Option ℕ) (e : NotifEvent) (r : Result String (List ResolvedRecipient))
      (d : Progress)
      → Traced d (resolved host tenant e r d)
  resolved-Traced tenant e (ok rs) d = Counts-refl d
  resolved-Traced tenant e (err exc) d =
      Traced-then d _ _ (fail_log-Traced _ _ _ _ _ _ d (omega arith)) (λ u d'. Counts-refl d')

  resolve_by-Traced :
      (a : Emission) (e : NotifEvent)
      (o : Option (Context → Option ℕ → Result String (List ResolvedRecipient))) (d : Progress)
      → Traced d (resolve_by host a e o d)
  resolve_by-Traced a e (some resolver) d =
      resolved-Traced a.tenant e (resolver a.context a.tenant) d
  resolve_by-Traced a e none d =
      Traced-then d _ _ (fail_log-Traced _ _ _ _ _ _ d (omega arith)) (λ u d'. Counts-refl d')

  resolve_for-Traced :
      (a : Emission) (e : NotifEvent) (o : Option RecipientTarget) (d : Progress)
      → Traced d (resolve_for host a e o d)
  resolve_for-Traced a e (some target) d = Counts-refl d
  resolve_for-Traced a e none d = resolve_by-Traced a e (entry e.resolver_key host.resolvers) d

  resolve_recipients-Traced :
      (a : Emission) (e : NotifEvent) (d : Progress) → Traced d (resolve_recipients host a e d)
  unfolding resolve_recipients
  resolve_recipients-Traced a e d = resolve_for-Traced a e a.recipient_override d

  passes_preferences-Traced :
      (tenant : Option ℕ) (e : NotifEvent) (u : Option User) (d : Progress)
      → Traced d (passes_preferences host tenant e u d)
  unfolding passes_preferences
  passes_preferences-Traced tenant e none d = Counts-refl d
  passes_preferences-Traced tenant e (some u) d =
      elim (Bool-cases (is_among e.category never_opt_out)) [
        | inr free ↦ rw free (Counts-refl d)
        | inl fixed ↦ elim (Bool-cases (opted_out e.category u)) [
          | inl refusal ↦
              rw (fixed, refusal)
                (Traced-then d _ _ (fail_log-Traced _ _ _ _ _ _ d (omega arith))
                  (λ u d'. Counts-refl d'))
          | inr consent ↦ rw (fixed, consent) (Counts-refl d)
        ]
      ]

  module _ (now : ℕ) (a : Emission) (e : NotifEvent) (key : String) (tenant : ℕ)
      (of : a.tenant ≡ some tenant) (deferred : a.deliver_now ≡ false) where
    deliver_if-Traced :
        (wanted : Bool) (r : Recipient) (channels : List Channel) (d : Progress)
        → char_count r.target ≤ 100
        → Traced d (deliver_if host wanted now a e r channels key d)
    deliver_if-Traced false r channels d short = Counts-refl d
    deliver_if-Traced true r channels d short =
        rw (of, deferred)
          (Returns-Traced (length channels) d _ (
            deliver_to_recipient-traces tenant e r host now a.context a.language key short none
              channels d))

    deliver_all-Traced :
        (channels : List Channel) (recipients : List Recipient) (d : Progress)
        → HaveShortTargets recipients
        → Traced d (deliver_all host now a e channels key recipients d)
    unfolding deliver_all
    deliver_all-Traced channels [] d short = Counts-refl d
    deliver_all-Traced channels (r ∷ recipients) d short =
        Traced-then d _ _ (passes_preferences-Traced a.tenant e r.user d) λ wanted d1.
          Traced-then d1 _ _ (deliver_if-Traced wanted r channels d1 short.0)
            λ u d2. deliver_all-Traced channels recipients d2 short.1

    announce_on-Traced :
        (recipients : List Recipient) (channels : List Channel) (d : Progress)
        → HaveShortTargets recipients
        → Traced d (announce_on host now a e key recipients (ok channels) d)
    announce_on-Traced recipients channels d short = elim (Bool-cases (is_nil channels)) [
      | inl nothing ↦ rw nothing (fail_log-Traced _ _ _ _ _ _ d (omega arith))
      | inr some_channels ↦ rw some_channels (deliver_all-Traced channels recipients d short)
    ]

    announce-Traced :
        (channels : List Channel) (d : Progress)
        → target_channels e a.channels ≡ ok channels
        → ResolvesShort (resolve_recipients host a e d)
        → Traced d (announce host now a e key d)
    unfolding announce
    announce-Traced channels d h short =
        Traced-then_short d _ _ (resolve_recipients-Traced a e d) short λ recipients d1 targets.
          elim (Bool-cases (is_nil recipients)) [
            | inl nobody ↦ rw nobody (omega arith)
            | inr somebody ↦ rw (somebody, h) (announce_on-Traced recipients channels d1 targets)
          ]

module _ (host : Host) (C : Cache String) where
  -- An emission that returned, with what its report counts.
  abbrev pub Answers {ℓ} : {S : Type ℓ} → Outbox → Result Fault EmitResult × Outbox × S → Type 0
  Answers outbox (ok result, outbox', marks) =
      (length outbox'.logs ≡ length outbox.logs + result.logs_created + result.logs_failed)
      × (length result.failure_reasons ≡ result.logs_failed)
  Answers outbox (err fault, outbox', marks) = ⊥

  settle-Answers :
      (now : ℕ) (key : String) (outbox : Outbox) (marks : C.Store)
      (r : Result Fault (Unit {0}) × Progress)
      → Traced (record { outbox = outbox; result = no_result }) r
      → Answers outbox (settle host C now key r marks)
  settle-Answers now key outbox marks (ok u, d) h = omega arith
  settle-Answers now key outbox marks (err fault, d) h = h

  -- An emission of a company, of a known event with a valid context, for channels that exist, with its
  -- deliveries deferred, to recipients with targets of at most 100 characters, returns a report,
  -- whatever the templates, the resolvers and the broker do: the rows it added to the journal are those that the report counts as created or
  -- failed, and each failure has its reason there.
  pub emit-Answers :
      (now tenant : ℕ) (events : List NotifEvent) (a : Emission) (e : NotifEvent)
      (channels : List Channel) (outbox : Outbox) (marks : C.Store)
      → get_event a.event_code events ≡ some e
      → validate_context host.is_uuid e a.context ≡ none
      → a.tenant ≡ some tenant
      → target_channels e a.channels ≡ ok channels
      → a.deliver_now ≡ false
      → ResolvesShort (resolve_recipients host a e (record { outbox = outbox; result = no_result }))
      → Answers outbox (emit host C now events a outbox marks)
  unfolding emit
  emit-Answers now tenant events a e channels outbox marks known valid of declared deferred short =
      rw (known, valid)
        (elim (Bool-cases (already_emitted host C now (key_of host C a) marks)) [
          | inl emitted ↦ rw emitted (omega arith)
          | inr new ↦ rw new (
              settle-Answers now (key_of host C a) outbox marks _ (
                announce-Traced host now a e (key_of host C a) tenant of deferred channels
                  (record { outbox = outbox; result = no_result }) declared short))
        ])
