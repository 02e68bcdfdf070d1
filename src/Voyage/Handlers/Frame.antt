-- ===== src/Voyage/Handlers/Frame.antt =====
-- What the handlers may write: a relation that holds along a write of each business table holds
-- along every handler.
pub mod Each
pub mod Sale
use toupac.Prelude.{
  ℕ, String, ◌≡◌, Bool, Bool-cases, inl, inr, true, false, Option, none, some, List,
}
use toupac.Voyage.Models.{
  Trip, TripStop, Passenger, Reservation, Anomaly, Incident, CashEntry, Parcel, ControlSession,
}
use toupac.Voyage.Db.{Db, trip_by_pk, seats_unique}
use toupac.Voyage.Tx.{State, Env, ◌>>=◌}
use toupac.Json.{Json}
use toupac.Voyage.Tx.Moves.{Moves, IsPreorder, moves_rules}
use toupac.Voyage.Events.{Event, Ref, raw, key, ref_key, related}
use toupac.Voyage.Anomalies.{
  create_anomaly, duplicate_scan_of, raise_duplicate_scan, seat_conflict_of, detect_duplicate_scan,
  detect_seat_conflict,
}
use toupac.Voyage.Signals.{
  write_reservations, cascade_reservations, cascade_rows, save_over, save_trip,
}
use toupac.Voyage.Session.{
  load_trip, cached_trip, session_trip, remember_trip, named_trip, trip_or_session,
}

-- `R` holds along a write of any table but those of events, stops of a route and controllers; along
-- a write of reservations where they keep the constraint on seats, or end with their trip.
pub record Business (R : Db → Db → Type 0) : Type 0 where
  pub order : IsPreorder R
  pub trips : (d : Db) (xs : List Trip) → R d (record d { trips = xs })
  pub trip_stops : (d : Db) (xs : List TripStop) → R d (record d { trip_stops = xs })
  pub passengers : (d : Db) (xs : List Passenger) → R d (record d { passengers = xs })
  pub reservations :
      (d : Db) (xs : List Reservation)
      → seats_unique xs ≡ true
      → R d (record d { reservations = xs })
  pub cascade :
      (d : Db) (trip at : ℕ) → R d (record d { reservations = cascade_rows trip at d.reservations })
  pub anomalies : (d : Db) (xs : List Anomaly) → R d (record d { anomalies = xs })
  pub incidents : (d : Db) (xs : List Incident) → R d (record d { incidents = xs })
  pub cash_entries : (d : Db) (xs : List CashEntry) → R d (record d { cash_entries = xs })
  pub parcels : (d : Db) (xs : List Parcel) → R d (record d { parcels = xs })

module _ {R : Db → Db → Type 0} (b : Business R) (env : Env) where
  pub create_anomaly-Moves : (row : ℕ → Anomaly) → Moves R (create_anomaly env row)
  unfolding create_anomaly
  create_anomaly-Moves row = search (moves_rules, b.order, b.anomalies) depth 14

  pub ref_key-Moves : (r : Ref) → Moves R (ref_key env r)
  unfolding ref_key
  ref_key-Moves (raw v) = search (moves_rules, b.order)
  ref_key-Moves (key i) = search (moves_rules, b.order)

  pub related-Moves {ℓ} : {A : Type ℓ} (o : Option A) → Moves R (related env o)
  unfolding related
  related-Moves none = search (moves_rules, b.order)
  related-Moves (some a) = search (moves_rules, b.order)

  pub write_reservations-Moves :
      (f : List Reservation → List Reservation) → Moves R (write_reservations env f)
  unfolding write_reservations ◌>>=◌
  write_reservations-Moves f = record {
    at = λ s. elim (Bool-cases (seats_unique (f s.db.reservations))) [
      | inl e ↦ rw e (b.reservations s.db (f s.db.reservations) e)
      | inr e ↦ rw e (b.order.reflexive s.db)
    ];
  }

  save_over-Moves :
      (trip : Trip) (columns : Trip → Trip) (o : Option Trip)
      → Moves R (save_over env trip columns o)
  unfolding save_over cascade_reservations
  save_over-Moves trip columns none = search (moves_rules, b.order) depth 6
  save_over-Moves trip columns (some row) =
      search (moves_rules, b.order, b.trips, b.cascade) depth 14

  pub save_trip-Moves : (trip : Trip) (columns : Trip → Trip) → Moves R (save_trip env trip columns)
  unfolding save_trip
  save_trip-Moves trip columns = search (moves_rules, b.order, save_over-Moves) depth 10

  load_trip-moves : (o : Option Trip) (s : State) → R s.db (load_trip env o s).1.db
  unfolding load_trip
  load_trip-moves none s = b.order.reflexive s.db
  load_trip-moves (some trip) s = b.order.reflexive s.db

  cached_trip-moves :
      (session : ControlSession) (o : Option Trip) (s : State)
      → R s.db (cached_trip env session o s).1.db
  unfolding cached_trip
  cached_trip-moves session none s = load_trip-moves (trip_by_pk session.trip s.db) s
  cached_trip-moves session (some trip) s = b.order.reflexive s.db

  pub session_trip-Moves : (session : ControlSession) → Moves R (session_trip env session)
  unfolding session_trip
  session_trip-Moves session = record { at = λ s. cached_trip-moves session s.session_trip s }

  pub remember_trip-Moves : (c : Bool) (trip : Trip) → Moves R (remember_trip c trip)
  unfolding remember_trip
  remember_trip-Moves true trip = record { at = λ s. b.order.reflexive s.db }
  remember_trip-Moves false trip = record { at = λ s. b.order.reflexive s.db }

  named_trip-Moves : (tenant : ℕ) (v : Json) → Moves R (named_trip env tenant v)
  unfolding named_trip
  named_trip-Moves tenant v = search (moves_rules, b.order) depth 14

  pub trip_or_session-Moves :
      (tenant : ℕ) (session : ControlSession) (v : Json)
      → Moves R (trip_or_session env tenant session v)
  unfolding trip_or_session
  trip_or_session-Moves tenant session v =
      search (moves_rules, b.order, named_trip-Moves, session_trip-Moves)

  module _ (tenant : ℕ) (session : ControlSession) (event : Event) where
    duplicate_scan_of-Moves :
        (o : Option Reservation) → Moves R (duplicate_scan_of env tenant session event o)
    unfolding duplicate_scan_of raise_duplicate_scan
    duplicate_scan_of-Moves none = search (moves_rules, b.order)
    duplicate_scan_of-Moves (some r) = search (moves_rules, b.order, create_anomaly-Moves) depth 14

    pub detect_duplicate_scan-Moves :
        (i : ℕ) → Moves R (detect_duplicate_scan env tenant session event i)
    unfolding detect_duplicate_scan
    detect_duplicate_scan-Moves i = search (moves_rules, b.order, duplicate_scan_of-Moves)

    module _ (trip : Trip) (seat : String) (i : ℕ) where
      seat_conflict_of-Moves :
          (o : Option Reservation)
          → Moves R (seat_conflict_of env tenant session event trip seat i o)
      unfolding seat_conflict_of
      seat_conflict_of-Moves none = search (moves_rules, b.order)
      seat_conflict_of-Moves (some r) = search (moves_rules, b.order, create_anomaly-Moves)

      pub detect_seat_conflict-Moves :
          Moves R (detect_seat_conflict env tenant session event trip seat i)
      unfolding detect_seat_conflict
      detect_seat_conflict-Moves = search (moves_rules, b.order, seat_conflict_of-Moves)
