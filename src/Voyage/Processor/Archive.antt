-- ===== src/Voyage/Processor/Archive.antt =====
-- What the outer transaction of an event leaves in the table of events.
use toupac.Prelude.{
  ℕ, ◌≤◌, ◌≡◌, refl, sym, ◌∙◌, ap, ap₂, false, [], ◌∷◌, ◌++◌, any, update_where, arith, ◌==◌,
  ==_refl, any_or_false, update_where_last,
}
use mathlib.Core.Path.{subst₂}
use toupac.Prelude.Text.{char_count, char_count-slice_to-le}
use toupac.Voyage.Models.{ControlSession, ControlEvent}
use toupac.Voyage.Host.{ok}
use toupac.Voyage.Db.{Db, is_event}
use toupac.Voyage.Tx.{State, Env, new_id, attempt, savepoint, ◌>>=◌}
use toupac.Voyage.Tx.Moves.{Moves, IsPreorder, moves_rules}
use toupac.Voyage.Tx.Inversion.{bind-eq-ok, lift-eq-ok, new_id-eq-ok, pure-eq-ok, nullable-eq-ok}
use toupac.Voyage.Events.{Event, Report}
use toupac.Voyage.Drafts.{Draft}
use toupac.Voyage.Handlers.Frame.{Business}
use toupac.Voyage.Processor.{
  pending_event, event_clash, insert_event, create_event, dispatch, report_of, settled,
  settle_event, archive,
}
use toupac.Voyage.Processor.Frame.{dispatch-Moves}

-- Two databases with the same tables where no handler writes.
abbrev Protected : Db → Db → Type 0
Protected d d' =
    (d'.control_events ≡ d.control_events)
    × (d'.route_stops ≡ d.route_stops)
    × (d'.controllers ≡ d.controllers)

Protected-order : IsPreorder Protected
Protected-order = record {
  reflexive = λ d. (refl, refl, refl);
  transitive = λ a b c p q. (q.0 ∙ p.0, q.1 ∙ p.1, q.2 ∙ p.2);
}

Protected-business : Business Protected
Protected-business = record {
  order = Protected-order;
  trips = λ d xs. (refl, refl, refl);
  trip_stops = λ d xs. (refl, refl, refl);
  passengers = λ d xs. (refl, refl, refl);
  reservations = λ d xs unique. (refl, refl, refl);
  cascade = λ d trip at. (refl, refl, refl);
  anomalies = λ d xs. (refl, refl, refl);
  incidents = λ d xs. (refl, refl, refl);
  cash_entries = λ d xs. (refl, refl, refl);
  parcels = λ d xs. (refl, refl, refl);
}

module _ (env : Env) (tenant : ℕ) (session : ControlSession) (client_uuid : ℕ) (draft : Draft) where
  -- The event's row, new to its table before its handler has run.
  pub record Created (s : State) (event : Event) (t : State) : Type 0 where
    pub row : ControlEvent
    pub same_id : event.id ≡ row.id
    pub its_tenant : row.tenant ≡ tenant
    pub its_uuid : row.client_uuid ≡ client_uuid
    pub is_new : any (event_clash env tenant session row) s.db.control_events ≡ false
    pub events : t.db.control_events ≡ s.db.control_events ++ row ∷ []

  insert_event-eq-ok :
      (e : ControlEvent) (s : State) {x : Unit {0}} {t : State}
      → insert_event env tenant session e s ≡ (ok x, t)
      → (any (event_clash env tenant session e) s.db.control_events ≡ false)
        × (t.db.control_events ≡ s.db.control_events ++ e ∷ [])
  unfolding insert_event ◌>>=◌
  insert_event-eq-ok e s h = ground arith

  -- what the insertion found and left, carried back to the state before the row was made
  created :
      (row : ControlEvent) (s s4 s5 : State)
      → s4.db ≡ s.db
      → (any (event_clash env tenant session row) s4.db.control_events ≡ false)
        × (s5.db.control_events ≡ s4.db.control_events ++ row ∷ [])
      → {event : Event} {t : State} → event.id ≡ row.id
      → row.tenant ≡ tenant
      → row.client_uuid ≡ client_uuid
      → t ≡ s5
      → Created s event t
  created row s s4 s5 same (new, events) same_id its_tenant its_uuid q = record {
    row = row;
    same_id = same_id;
    its_tenant = its_tenant;
    its_uuid = its_uuid;
    is_new = ap (λ d. any (event_clash env tenant session row) d.control_events) (sym same) ∙ new;
    events = ap (λ u. u.db.control_events) q ∙ events ∙ ap (λ d. d.control_events ++ row ∷ []) same;
  }

  create_event-eq-ok :
      (s : State) {event : Event} {t : State}
      → create_event env tenant session client_uuid draft s ≡ (ok event, t)
      → Created s event t
  unfolding create_event
  create_event-eq-ok s h =
      let (event_type, s1, e1, h1) = bind-eq-ok _ _ s h in
      let (target_type, s2, e2, h2) = bind-eq-ok _ _ s1 h1 in
      let (accuracy, s3, e3, h3) = bind-eq-ok _ _ s2 h2 in
      let (i, s4, e4, h4) = bind-eq-ok _ _ s3 h3 in
      let (x, s5, e5, h5) = bind-eq-ok _ _ s4 h4 in
      created (pending_event env tenant session client_uuid draft event_type target_type accuracy i)
        s s4 s5
        (new_id-eq-ok env s3 e4
          ∙ ap (λ u. u.db)
              (nullable-eq-ok _ _ s2 e3 ∙ (lift-eq-ok _ s1 e2).1 ∙ (lift-eq-ok _ s e1).1))
        (insert_event-eq-ok _ s4 e5) (ap (λ e. e.id) (pure-eq-ok _ s5 h5).0) refl refl
        (pure-eq-ok _ s5 h5).1

  settle_event-eq-ok :
      (i : ℕ) (report : Report) (s : State) {x : Unit {0}} {t : State}
      → settle_event env tenant session i report s ≡ (ok x, t)
      → t.db.control_events
        ≡ update_where
            (λ e. e.id == i)
            (settled env tenant session report (env.clock s.samples))
            s.db.control_events
  unfolding settle_event ◌>>=◌
  settle_event-eq-ok i report s h = ground arith

  dispatch-attempt-Moves :
      (event : Event) → Moves Protected (attempt (savepoint (dispatch env tenant session event)))
  dispatch-attempt-Moves event =
      search (moves_rules, Protected-order, dispatch-Moves Protected-business env tenant session)

  -- A transaction that has committed added one row, the last, settled with its report; it was new
  -- by its identifier and by its client's identifier, and no other row is changed.
  pub record Archived (s : State) (report : Report) (t : State) : Type 0 where
    pub row : ControlEvent
    pub at : ℕ
    pub its_tenant : row.tenant ≡ tenant
    pub its_uuid : row.client_uuid ≡ client_uuid
    pub new_id : any (λ e. e.id == row.id) s.db.control_events ≡ false
    pub new_uuid : any (is_event tenant client_uuid) s.db.control_events ≡ false
    pub events :
        t.db.control_events ≡ s.db.control_events ++ settled env tenant session report at row ∷ []

  archived :
      (s s1 s2 t : State) (event : Event) (report : Report) (at : ℕ)
      → Created s event s1
      → s2.db.control_events ≡ s1.db.control_events
      → t.db.control_events
        ≡ update_where
            (λ e. e.id == event.id)
            (settled env tenant session report at)
            s2.db.control_events
      → Archived s report t
  archived s s1 s2 t event report at c same last =
      let (new_id, new_uuid) =
        any_or_false (λ e. e.id == c.row.id) (is_event c.row.tenant c.row.client_uuid)
          s.db.control_events c.is_new in
      record {
        row = c.row;
        at = at;
        its_tenant = c.its_tenant;
        its_uuid = c.its_uuid;
        new_id = new_id;
        new_uuid = rw (sym c.its_tenant, sym c.its_uuid) new_uuid;
        events =
            last
            ∙ ap₂ (λ i es. update_where (λ e. e.id == i) (settled env tenant session report at) es)
                c.same_id (same ∙ c.events)
            ∙ update_where_last (λ e. e.id == c.row.id) (settled env tenant session report at)
                s.db.control_events c.row new_id (==_refl c.row.id);
      }

  pub archive-eq-ok :
      (s : State) {report : Report} {t : State}
      → archive env tenant session client_uuid draft s ≡ (ok report, t)
      → Archived s report t
  unfolding archive
  archive-eq-ok s {report} h =
      let (event, s1, e1, h1) = bind-eq-ok _ _ s h in
      let (outcome, s2, e2, h2) = bind-eq-ok _ _ s1 h1 in
      let (x, s3, e3, h3) = bind-eq-ok _ _ s2 h2 in
      let (same_report, same_state) = pure-eq-ok _ s3 h3 in
      let a : Archived s (report_of env tenant session outcome) s3 =
        archived s s1 s2 s3 event (report_of env tenant session outcome) (env.clock s2.samples)
          (create_event-eq-ok s e1)
          (ap (λ p. p.1.db.control_events) (sym e2) ∙ ((dispatch-attempt-Moves event).at s1).0)
          (settle_event-eq-ok event.id (report_of env tenant session outcome) s2 e3) in
      subst₂ (Archived s) (sym same_report) (sym same_state) a

-- The row of an event as it is settled fits its columns, whatever its handler reports.
pub settled-fits :
    (env : Env) (tenant : ℕ) (session : ControlSession) (report : Report) (at : ℕ)
    (row : ControlEvent)
    → (char_count (settled env tenant session report at row).rejection_reason ≤ 200)
      × (char_count (settled env tenant session report at row).rejection_code ≤ 50)
settled-fits env tenant session report at row =
    (char_count-slice_to-le 200 _, char_count-slice_to-le 50 _)

-- Whatever a handler does, and whether it returns or raises, the table of events, the stops of the
-- routes and the controllers stay as they were.
pub dispatch-protects :
    (env : Env) (tenant : ℕ) (session : ControlSession) (event : Event) (s : State)
    → ((dispatch env tenant session event s).1.db.control_events ≡ s.db.control_events)
      × ((dispatch env tenant session event s).1.db.route_stops ≡ s.db.route_stops)
      × ((dispatch env tenant session event s).1.db.controllers ≡ s.db.controllers)
dispatch-protects env tenant session event s =
    (dispatch-Moves Protected-business env tenant session event).at s
