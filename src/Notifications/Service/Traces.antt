-- ===== src/Notifications/Service/Traces.antt =====
-- The rows that the deliveries to a recipient leave.
use toupac.Prelude.{
  ℕ, ◌+◌, ◌≤◌, ◌≡◌, refl, inl, inr, String, true, false, not, Option, some, none, List, [], ◌∷◌,
  length, length-append, first-any, is_some, Bool-cases, &&_both, arith,
}
use toupac.Prelude.Text.{is_empty, char_count}
use toupac.Prelude.Results.{Result, ok, err}
use toupac.Notifications.Models.{
  Notification, Channel, push, in_app, email, sms, whatsapp, Context, User, Recipient, Template,
}
use toupac.Notifications.Catalog.{NotifEvent}
use toupac.Notifications.Outbox.{Host, Fault}
use toupac.Notifications.Service.Desk.{Progress, M, continue, fail_log, exceeds_column}
use toupac.Notifications.Service.Delivery.{
  existing_item, item_clash, is_same_item, create_notification, enqueue, item_for, log_message,
  deliver_rendered, deliver_channel, deliver_to_recipient, find_template,
}

-- From one state to the other, `k` rows were added to the journal, each counted once.
pub record Adds (k : ℕ) (d d' : Progress) : Type 0 where
  pub rows : length d'.outbox.logs ≡ length d.outbox.logs + k
  pub counted :
      d'.result.logs_created + d'.result.logs_failed
      ≡ d.result.logs_created + d.result.logs_failed + k
  pub reasons :
      length d'.result.failure_reasons + d.result.logs_failed
      ≡ length d.result.failure_reasons + d'.result.logs_failed

-- A step that returns, and adds `k` rows.
abbrev pub Returns {ℓ} : {A : Type ℓ} → ℕ → Progress → Result Fault A × Progress → Type 0
Returns k d (ok a, d') = Adds k d d'
Returns k d (err fault, d') = ⊥

Adds-refl : (d : Progress) → Adds 0 d d
Adds-refl d = omega arith

Adds-trans : (j k : ℕ) (d d' d'' : Progress) → Adds j d d' → Adds k d' d'' → Adds (j + k) d d''
Adds-trans j k d d' d'' h h' = omega arith

Returns-after :
    {B : Type 0} (j k : ℕ) (d d' : Progress) (r : Result Fault B × Progress)
    → Adds j d d'
    → Returns k d' r
    → Returns (j + k) d r
Returns-after j k d d' (ok b, d'') h h' = Adds-trans j k d d' d'' h h'
Returns-after j k d d' (err fault, d'') h h' = h'

Returns-eq :
    {B : Type 0} {j k : ℕ} (d : Progress) (r : Result Fault B × Progress)
    → j ≡ k
    → Returns j d r
    → Returns k d r
Returns-eq d (ok b, d') e h = omega arith
Returns-eq d (err fault, d') e h = h

Returns-then :
    {A B : Type 0} (j k : ℕ) (d : Progress) (r : Result Fault A × Progress) (f : A → M B)
    → Returns j d r
    → ((a : A) (d' : Progress) → Returns k d' (f a d'))
    → Returns (j + k) d (continue r f)
Returns-then j k d (err fault, d') f h g = absurd h
Returns-then j k d (ok a, d') f h g = Returns-after j k d d' (f a d') h (g a d')

fits_column : (recipient : String) → char_count recipient ≤ 100 → exceeds_column recipient ≡ false
fits_column recipient h = ground arith

pub fail_log-Returns :
    (tenant user : Option ℕ) (channel recipient event_code reason : String) (d : Progress)
    → char_count recipient ≤ 100
    → Returns 1 d (fail_log tenant user channel recipient event_code reason d)
unfolding fail_log
fail_log-Returns tenant user channel recipient event_code reason d short =
    rw (fits_column recipient short) (record {
      rows = length-append d.outbox.logs _;
      counted = omega arith;
      reasons = omega (arith, length-append d.result.failure_reasons (reason ∷ []));
    })

existing_item-Returns :
    (o : Option Notification) (d : Progress) → is_some o ≡ true → Returns 0 d (existing_item o d)
existing_item-Returns none d h = cc
existing_item-Returns (some n) d h = Adds-refl d

module _ (tenant : ℕ) (e : NotifEvent) (r : Recipient) where
  create_notification-Returns :
      (u : User) (texts : String × String × String) (key : String) (d : Progress)
      → Returns 0 d (create_notification (some tenant) e r u texts key d)
  unfolding create_notification
  create_notification-Returns u texts key d =
      elim (Bool-cases (item_clash tenant u.id key d.outbox.notifications)) [
        | inl clash ↦ rw clash (
            existing_item-Returns _ d (
              first-any (λ n. n.id) (is_same_item tenant u.id key) d.outbox.notifications
                (&&_both (not (is_empty key)) _ clash).1))
        | inr free ↦ rw free (omega arith)
      ]

  log_message-Returns :
      (channel : Channel) (body : String) (item : Option ℕ) (d : Progress)
      → char_count r.target ≤ 100
      → Returns 1 d (log_message (some tenant) e r channel body item d)
  unfolding log_message
  log_message-Returns channel body item d short =
      rw (fits_column r.target short)
        (record { rows = length-append d.outbox.logs _; counted = omega arith; reasons = refl })

  item_for-Returns :
      (u : Option User) (channel : Channel) (texts : String × String × String) (key : String)
      (item : Option ℕ) (d : Progress)
      → Returns 0 d (item_for (some tenant) e r u channel texts key item d)
  item_for-Returns (some u) in_app texts key item d =
      Returns-then 0 0 d (create_notification (some tenant) e r u texts key d) _
        (create_notification-Returns u texts key d) (λ made d'. omega arith)
  item_for-Returns (some u) push texts key item d = Adds-refl d
  item_for-Returns (some u) email texts key item d = Adds-refl d
  item_for-Returns (some u) sms texts key item d = Adds-refl d
  item_for-Returns (some u) whatsapp texts key item d = Adds-refl d
  item_for-Returns none channel texts key item d = Adds-refl d

  module _ (host : Host) (now : ℕ) (context : Context) (language key : String)
      (short : char_count r.target ≤ 100) where
    enqueue-Returns : (i : ℕ) (d : Progress) → Returns 0 d (enqueue host now false i d)
    unfolding enqueue
    enqueue-Returns i d = elim (Bool-cases (host.accepts i)) [
      | inl taken ↦ rw taken (omega arith)
      | inr lost ↦ rw lost (Adds-refl d)
    ]

    deliver_rendered-Returns :
        (channel : Channel) (item : Option ℕ) (t : Result String (String × String × String))
        (d : Progress)
        → Returns 1 d (
            deliver_rendered host now (some tenant) context language false e r key channel item t d)
    deliver_rendered-Returns channel item (err exc) d =
        Returns-then 1 0 d _ _ (fail_log-Returns _ _ _ _ _ _ d short) (λ u d'. Adds-refl d')
    deliver_rendered-Returns channel item (ok texts) d =
        Returns-then 0 1 d _ _ (item_for-Returns r.user channel texts key item d) λ made d1.
          Returns-then 1 0 d1 _ _ (log_message-Returns channel texts.1 made d1 short)
            λ i d2. Returns-then 0 0 d2 _ _ (enqueue-Returns i d2) (λ u d3. Adds-refl d3)

    deliver_channel-Returns :
        (channel : Channel) (item : Option ℕ) (t : Option Template) (d : Progress)
        → Returns 1 d
            (deliver_channel host now (some tenant) context language false e r key channel item t d)
    unfolding deliver_channel
    deliver_channel-Returns channel item none d =
        Returns-then 1 0 d _ _ (fail_log-Returns _ _ _ _ _ _ d short) (λ u d'. Adds-refl d')
    deliver_channel-Returns channel item (some template) d =
        deliver_rendered-Returns channel item _ d

    pub deliver_to_recipient-traces :
        (item : Option ℕ) (channels : List Channel) (d : Progress)
        → Returns (length channels) d (
            deliver_to_recipient host now
              (some tenant)
              context
              language
              false
              e
              r
              key
              item
              channels
              d)
    unfolding deliver_to_recipient
    deliver_to_recipient-traces item [] d = Adds-refl d
    deliver_to_recipient-traces item (channel ∷ channels) d =
        let template = find_template (some tenant) e.code channel language d.outbox.templates in
        Returns-eq d _ (omega arith) (
          Returns-then 1 (length channels) d _ _ (deliver_channel-Returns channel item template d)
            (λ made d'. deliver_to_recipient-traces made channels d'))
