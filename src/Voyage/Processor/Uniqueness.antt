-- ===== src/Voyage/Processor/Uniqueness.antt =====
-- The table of events across the processing of one event: all or nothing, one row per identifier.
use toupac.Prelude.{
  ℕ, ◌≡◌, refl, ◌∙◌, ap, ap₂, Bool, true, false, not, ◌&&◌, Option, none, some, ◌⊎◌, inl, inr,
  arith, ==_sym, any, any-append, List, ◌++◌, ◌∷◌, [],
}
use toupac.Json.{Json, Fields, obj, get}
use toupac.Voyage.Models.{ControlSession, ControlEvent}
use toupac.Voyage.Host.{Result, ok, err}
use toupac.Voyage.Db.{Db, is_event}
use toupac.Voyage.Tx.{State, Env, pure, fail, ◌>>=◌}
use toupac.Voyage.Tx.Moves.{Moves, IsPreorder, moves_rules}
use toupac.Voyage.Events.{Report}
use toupac.Voyage.Drafts.{Draft, Stop, refused, escaped}
use toupac.Voyage.Processor.{
  settled, checked, known_or_new, process_identified, identified, process_single_event, process_all,
}
use toupac.Voyage.Processor.Archive.{Archived}
use toupac.Voyage.Processor.Outcome.{interleaved, Settled, process_draft-Settled}

-- No two rows of a tenant have the same client's identifier: `unique_control_event_client_uuid`.
abbrev pub client_uuids_unique : List ControlEvent → Bool
client_uuids_unique [] = true
client_uuids_unique (e ∷ es) =
    not (any (is_event e.tenant e.client_uuid) es) && client_uuids_unique es

is_event-sym :
    (e f : ControlEvent) → is_event e.tenant e.client_uuid f ≡ is_event f.tenant f.client_uuid e
is_event-sym e f = ap₂ ◌&&◌ (==_sym f.tenant e.tenant) (==_sym f.client_uuid e.client_uuid)

client_uuids_unique-append :
    (es : List ControlEvent) (row : ControlEvent)
    → client_uuids_unique es ≡ true
    → any (is_event row.tenant row.client_uuid) es ≡ false
    → client_uuids_unique (es ++ row ∷ []) ≡ true
client_uuids_unique-append [] row h k = refl
client_uuids_unique-append (e ∷ es) row h k = ground (
  arith,
  client_uuids_unique-append es row,
  is_event-sym e row,
  any-append (is_event e.tenant e.client_uuid) es (row ∷ []),
)

module _ (env : Env) (tenant : ℕ) (session : ControlSession) where
  -- What the processing of one event may leave: the database as it was; as other transactions
  -- left it meanwhile; or with the event archived on top of that, by a transaction that committed.
  pub AllOrNothing : State → State → Type 0
  AllOrNothing s t =
      (t.db ≡ s.db)
      ⊎ (t.db ≡ (interleaved env s).db)
      ⊎ ((u : ℕ) × (draft : Draft) × (report : Report) × Archived env tenant session u draft
            (interleaved env s) report t)

  Settled-AllOrNothing :
      (u : ℕ) (draft : Draft) (s t : State)
      → Settled env tenant session u draft s t
      → AllOrNothing s t
  unfolding AllOrNothing
  Settled-AllOrNothing u draft s t (inl h) = inr (inl h)
  Settled-AllOrNothing u draft s t (inr (report, a)) = inr (inr (u, draft, report, a))

  checked-AllOrNothing :
      (u : ℕ) (r : Result Stop Draft) (s : State)
      → AllOrNothing s (checked env tenant session u r s).1
  unfolding checked AllOrNothing pure fail
  checked-AllOrNothing u (ok draft) s =
      Settled-AllOrNothing u draft s _ (process_draft-Settled env tenant session u draft s)
  checked-AllOrNothing u (err (refused code message)) s = inl refl
  checked-AllOrNothing u (err (escaped message)) s = inl refl

  known_or_new-AllOrNothing :
      (u : ℕ) (event : Fields) (o : Option ControlEvent) (s : State)
      → AllOrNothing s (known_or_new env tenant session u event o s).1
  unfolding known_or_new AllOrNothing pure
  known_or_new-AllOrNothing u event none s = checked-AllOrNothing u _ s
  known_or_new-AllOrNothing u event (some e) s = inl refl

  identified-AllOrNothing :
      (v : Json) (o : Option ℕ) (event : Fields) (s : State)
      → AllOrNothing s (identified env tenant session v o event s).1
  unfolding identified process_identified ◌>>=◌ AllOrNothing
  identified-AllOrNothing v none event s = inl refl
  identified-AllOrNothing v (some u) event s = known_or_new-AllOrNothing u event _ s

  -- Whatever is sent, and however its processing ends: the database is as it was, or as other
  -- transactions left it meanwhile, or a transaction on top of those has committed that added one
  -- event behind the events that were there, new by both its identifiers and settled.
  pub process_single_event-AllOrNothing :
      (v : Json) (s : State) → AllOrNothing s (process_single_event env tenant session v s).1
  unfolding process_single_event AllOrNothing pure
  process_single_event-AllOrNothing (obj event) s =
      identified-AllOrNothing (get event "client_uuid") _ event s
  process_single_event-AllOrNothing _ s = inl refl

  -- An archived event keeps the identifiers unique.
  Archived-unique :
      (u : ℕ) (draft : Draft) (s : State) (report : Report) (t : State)
      → Archived env tenant session u draft s report t
      → client_uuids_unique s.db.control_events ≡ true
      → client_uuids_unique t.db.control_events ≡ true
  Archived-unique u draft s report t a h =
      ap client_uuids_unique a.events
      ∙ client_uuids_unique-append s.db.control_events
          (settled env tenant session report a.at a.row) h
          (ap₂ (λ x y. any (is_event x y) s.db.control_events) a.its_tenant a.its_uuid ∙ a.new_uuid)

  kept :
      (s t : State)
      → AllOrNothing s t
      → ((n : ℕ) (d : Db)
          → client_uuids_unique d.control_events ≡ true
          → client_uuids_unique (env.others n d).control_events ≡ true)
      → client_uuids_unique s.db.control_events ≡ true
      → client_uuids_unique t.db.control_events ≡ true
  unfolding AllOrNothing
  kept s t (inl p) others h = ap (λ d. client_uuids_unique d.control_events) p ∙ h
  kept s t (inr (inl p)) others h =
      ap (λ d. client_uuids_unique d.control_events) p ∙ others s.samples s.db h
  kept s t (inr (inr (u, draft, report, a))) others h =
      Archived-unique u draft (interleaved env s) report t a (others s.samples s.db h)

  process_single_event_unique :
      (v : Json) (s : State)
      → ((n : ℕ) (d : Db)
          → client_uuids_unique d.control_events ≡ true
          → client_uuids_unique (env.others n d).control_events ≡ true)
      → client_uuids_unique s.db.control_events ≡ true
      → client_uuids_unique (process_single_event env tenant session v s).1.db.control_events ≡ true
  process_single_event_unique v s others h =
      kept s _ (process_single_event-AllOrNothing v s) others h

  -- the identifiers are unique afterwards if they were before
  abbrev KeepsUnique : Db → Db → Type 0
  KeepsUnique d d' =
      client_uuids_unique d.control_events ≡ true → client_uuids_unique d'.control_events ≡ true

  KeepsUnique-order : IsPreorder KeepsUnique
  KeepsUnique-order = record { reflexive = λ d h. h; transitive = λ a b c p q h. q (p h) }

  all-KeepsUnique :
      (events : List Json)
      → ((v : Json) → Moves KeepsUnique (process_single_event env tenant session v))
      → Moves KeepsUnique (process_all env tenant session events)
  unfolding process_all
  all-KeepsUnique [] each = search (moves_rules, KeepsUnique-order)
  all-KeepsUnique (v ∷ vs) each =
      search (moves_rules, KeepsUnique-order, each v, all-KeepsUnique vs each)

  -- While other transactions keep the clients' identifiers unique for each tenant, so does the
  -- processing of any list of events, whatever is sent and however it ends.
  pub process_all_unique :
      (events : List Json) (s : State)
      → ((n : ℕ) (d : Db)
          → client_uuids_unique d.control_events ≡ true
          → client_uuids_unique (env.others n d).control_events ≡ true)
      → client_uuids_unique s.db.control_events ≡ true
      → client_uuids_unique (process_all env tenant session events s).1.db.control_events ≡ true
  process_all_unique events s others h =
      (all-KeepsUnique events
          (λ v. record { at = λ u k. process_single_event_unique v u others k })).at
        s h
