-- ===== src/Voyage/Handlers/Transitions/Records.antt =====
-- What an accepted transition has found in the table of trips, and what it leaves there.
use toupac.Prelude.{
  ℕ, ◌≡◌, refl, sym, ◌∙◌, ap, Bool, Bool-cases, true, false, ◌&&◌, &&_both, inl, inr, Option, none,
  some, ◌==◌, ==_iff, not-false, first, first-some, first-update_where, update_where, arith,
  if◌then◌else◌,
}
use mathlib.Core.Option
use toupac.Json.{Json, Fields, obj, get, truthy}
use toupac.Voyage.Models.{Trip, TripStatus, ControlSession, in_transit, completed, trip_status_eq}
use toupac.Voyage.Host.{ok}
use toupac.Voyage.Db.{trip_by_pk, find_trip}
use toupac.Voyage.Tx.{fail, State, Env, ◌>>=◌}
use toupac.Voyage.Tx.Inversion.{
  bind-eq-ok, pure-eq-ok, lift-eq-ok, gets-eq-ok, required-eq-ok, reject_if-eq-ok, fields_of-eq-ok,
}
use toupac.Voyage.Events.{Event, Report}
use toupac.Voyage.Session.{named_trip, trip_or_session, remember_trip, session_trip}
use toupac.Voyage.Signals.{save_over, save_trip, cascade_reservations, is_no_ending}
use toupac.Voyage.Handlers.Transitions.{
  is_allowed, status_named, first_time, written, moved, moved_columns, move_trip,
  handle_activity_transition,
}

written-first_time :
    (reached : Bool) (o : Option ℕ) (at : ℕ) → written reached o at o ≡ first_time reached o at
written-first_time true none at = refl
written-first_time true (some t) at = refl
written-first_time false none at = refl
written-first_time false (some t) at = refl

-- The columns written to the row that was loaded make it the instance in memory.
pub moved_columns-moved :
    (to : TripStatus) (at : ℕ) (trip : Trip) → moved_columns to at trip trip ≡ moved to at trip
moved_columns-moved to at trip =
    rw
      (
        written-first_time (trip_status_eq to in_transit) trip.actual_departure_at at,
        written-first_time (trip_status_eq to completed) trip.actual_arrival_at at,
      )
      refl

obj-injective : (fs gs : Fields) → obj fs ≡ obj gs → fs ≡ gs
obj-injective fs gs h = cc

module _ (env : Env) (tenant : ℕ) (session : ControlSession) where
  named_trip-eq-ok :
      (v : Json) (s : State) {trip : Trip} {t : State}
      → named_trip env tenant v s ≡ (ok trip, t)
      → (find_trip tenant trip.id s.db ≡ some trip) × (t ≡ s)
  unfolding named_trip
  named_trip-eq-ok v s {trip} h =
      let (i, s1, e1, h1) = bind-eq-ok _ _ s h in
      let (found, s2, e2, h2) = bind-eq-ok _ _ s1 h1 in
      let (_, same1) = lift-eq-ok _ s e1 in
      let (looked, same2) = gets-eq-ok _ s1 e2 in
      let (is_found, same) = required-eq-ok found _ _ s2 h2 in
      let there : find_trip tenant i s.db ≡ some trip =
        ap (λ u. find_trip tenant i u.db) (sym same1) ∙ sym looked ∙ is_found in
      let selected =
        &&_both (trip.tenant == tenant) (trip.id == i)
          (first-some (λ x. x.id) (λ x. x.tenant == tenant && x.id == i) s.db.trips trip there) in
      (
        ap (λ j. find_trip tenant j s.db) ((==_iff trip.id i).0 selected.1) ∙ there,
        same ∙ same2 ∙ same1,
      )

  trip_or_session-eq-ok :
      (v : Json) (s : State) {trip : Trip} {t : State}
      → truthy v ≡ true
      → trip_or_session env tenant session v s ≡ (ok trip, t)
      → (find_trip tenant trip.id s.db ≡ some trip) × (t ≡ s)
  unfolding trip_or_session
  trip_or_session-eq-ok v s named h = named_trip-eq-ok v s (
      sym (ap (λ b. (if b then named_trip env tenant v else session_trip env session) s) named) ∙ h)

  cascade-trips :
      (trip : Trip) (o : TripStatus) (s : State)
      → (cascade_reservations env trip o s).1.db.trips ≡ s.db.trips
  unfolding cascade_reservations ◌>>=◌
  cascade-trips trip o s = elim (Bool-cases (is_no_ending o trip.status)) [
    | inl e ↦ rw e refl
    | inr e ↦ rw e refl
  ]

  save_over-trips :
      (trip : Trip) (columns : Trip → Trip) (o : Option Trip) (s : State) {x : Unit {0}} {t : State}
      → save_over env trip columns o s ≡ (ok x, t)
      → t.db.trips ≡ update_where (λ x. x.id == trip.id) columns s.db.trips
  unfolding save_over fail ◌>>=◌
  save_over-trips trip columns none s h = cc
  save_over-trips trip columns (some row) s h =
      ap (λ p. p.1.db.trips) (sym h) ∙ cascade-trips trip row.status _

  -- A save that returns writes its columns to the row of the instance, and no other trip.
  pub save_trip-trips :
      (trip : Trip) (columns : Trip → Trip) (s : State) {x : Unit {0}} {t : State}
      → save_trip env trip columns s ≡ (ok x, t)
      → t.db.trips ≡ update_where (λ x. x.id == trip.id) columns s.db.trips
  unfolding save_trip ◌>>=◌
  save_trip-trips trip columns s h = save_over-trips trip columns (trip_by_pk trip.id s.db) s h

  save_trip-found :
      (trip : Trip) (to : TripStatus) (at : ℕ) (s : State) {x : Unit {0}} {t : State}
      → find_trip tenant trip.id s.db ≡ some trip
      → save_trip env (moved to at trip) (moved_columns to at trip) s ≡ (ok x, t)
      → find_trip tenant trip.id t.db ≡ some (moved to at trip)
  save_trip-found trip to at s found h =
      ap (first (λ x. x.id) (λ x. x.tenant == tenant && x.id == trip.id))
        (save_trip-trips (moved to at trip) (moved_columns to at trip) s h)
      ∙ first-update_where (λ x. x.id) (λ x. x.tenant == tenant && x.id == trip.id)
          (λ x. x.id == trip.id) (moved_columns to at trip) s.db.trips (λ x. refl) (λ x. refl)
          (λ x p. (&&_both (x.tenant == tenant) (x.id == trip.id) p).1)
      ∙ ap (Option.map (moved_columns to at trip)) found
      ∙ ap some (moved_columns-moved to at trip)

  remember_trip-db :
      (b : Bool) (trip : Trip) (s : State) {x : Unit {0}} {t : State}
      → remember_trip b trip s ≡ (ok x, t)
      → t.db ≡ s.db
  unfolding remember_trip
  remember_trip-db true trip s h = ground arith
  remember_trip-db false trip s h = ground arith

  move_trip-eq-ok :
      (event : Event) (from_session : Bool) (trip : Trip) (to : TripStatus) (s : State)
      {report : Report} {t : State}
      → find_trip tenant trip.id s.db ≡ some trip
      → move_trip env tenant session event from_session trip to s ≡ (ok report, t)
      → find_trip tenant trip.id t.db ≡ some (moved to event.created_at_local trip)
  unfolding move_trip
  move_trip-eq-ok event from_session trip to s found h =
      let (x, s1, e1, h1) = bind-eq-ok _ _ s h in
      let (y, s2, e2, h2) = bind-eq-ok _ _ s1 h1 in
      let (_, same) = pure-eq-ok _ s2 h2 in
      ap (λ u. find_trip tenant trip.id u.db) same
      ∙ save_trip-found trip to event.created_at_local s1
          (ap (find_trip tenant trip.id) (remember_trip-db from_session _ s e1) ∙ found) e2

  -- A transition that names its trip and returns has found the trip's row under the tenant; it is
  -- the session's trip; the graph allows the step from the row's status to the one asked for; and
  -- the same query now finds that row moved along.
  pub handle_activity_transition-follows :
      (event : Event) (payload : Fields) (s : State) (report : Report) (t : State)
      → event.payload ≡ obj payload
      → truthy (get payload "trip_id") ≡ true
      → handle_activity_transition env tenant session event s ≡ (ok report, t)
      → (trip : Trip) × (to : TripStatus) × (find_trip tenant trip.id s.db ≡ some trip)
        × (trip.id ≡ session.trip)
        × (status_named (get payload "to_status") ≡ some to)
        × (is_allowed trip.status to ≡ true)
        × (find_trip tenant trip.id t.db ≡ some (moved to event.created_at_local trip))
  unfolding handle_activity_transition
  handle_activity_transition-follows event payload s report t its_payload named h =
      let (fs, s1, e1, h1) = bind-eq-ok _ _ s h in
      let (x, s2, e2, h2) = bind-eq-ok _ _ s1 h1 in
      let (to, s3, e3, h3) = bind-eq-ok _ _ s2 h2 in
      let (trip, s4, e4, h4) = bind-eq-ok _ _ s3 h3 in
      let (y, s5, e5, h5) = bind-eq-ok _ _ s4 h4 in
      let (z, s6, e6, h6) = bind-eq-ok _ _ s5 h5 in
      let (is_obj, same1) = fields_of-eq-ok env event.payload s e1 in
      let (_, same2) = reject_if-eq-ok _ _ _ s1 e2 in
      let (asked, same3) = required-eq-ok _ _ _ s2 e3 in
      let same_fields : fs ≡ payload = obj-injective fs payload (sym is_obj ∙ its_payload) in
      let (found, same4) =
        trip_or_session-eq-ok (get fs "trip_id") s3
          (ap (λ p. truthy (get p "trip_id")) same_fields ∙ named) e4 in
      let (own, same5) = reject_if-eq-ok _ _ _ s4 e5 in
      let (allowed, same6) = reject_if-eq-ok _ _ _ s5 e6 in
      let at_first : find_trip tenant trip.id s.db ≡ some trip =
        ap (λ u. find_trip tenant trip.id u.db) (sym (same3 ∙ same2 ∙ same1)) ∙ found in
      let at_last : find_trip tenant trip.id s6.db ≡ some trip =
        ap (λ u. find_trip tenant trip.id u.db) (same6 ∙ same5 ∙ same4) ∙ found in
      (
        trip,
        to,
        at_first,
        (==_iff trip.id session.trip).0 (not-false _ own),
        sym (ap (λ p. status_named (get p "to_status")) same_fields) ∙ asked,
        not-false _ allowed,
        move_trip-eq-ok event _ trip to s6 at_last h6,
      )
