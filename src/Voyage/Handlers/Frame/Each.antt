-- ===== src/Voyage/Handlers/Frame/Each.antt =====
-- A relation that holds along the business writes holds along each handler.
use toupac.Prelude.{ℕ, Bool, Option, none, some}
use toupac.Json.{Json, Fields, str}
use toupac.Voyage.Models.{Trip, TripStatus, Reservation, Anomaly, ControlSession}
use toupac.Voyage.Db.{Db}
use toupac.Voyage.Tx.{Env}
use toupac.Voyage.Tx.Moves.{Moves, moves_rules}
use toupac.Voyage.Events.{Event}
use toupac.Voyage.Handlers.Boarding.{
  slice_value, save_reservation, book_seat, load_reservation, boarded_by_of, begin_boarding,
  conflict_unless, board, handle_board, handle_refuse, handle_special_case,
}
use toupac.Voyage.Handlers.Transitions.{move_trip, handle_activity_transition}
use toupac.Voyage.Handlers.Stops.{resolve_stop, save_stop, handle_stop_arrive, handle_stop_depart}
use toupac.Voyage.Handlers.Parcels.{
  load_parcel, save_parcel, handle_parcel_verify, handle_parcel_refuse,
}
use toupac.Voyage.Handlers.Incidents.{create_incident, handle_incident_create}
use toupac.Voyage.Handlers.Resolutions.{handle_anomaly_create, handle_anomaly_resolve}
use toupac.Voyage.Handlers.Frame.{
  Business, create_anomaly-Moves, ref_key-Moves, related-Moves, write_reservations-Moves,
  save_trip-Moves, session_trip-Moves, remember_trip-Moves, trip_or_session-Moves,
  detect_duplicate_scan-Moves, detect_seat_conflict-Moves,
}

module _ {R : Db → Db → Type 0} (b : Business R) (env : Env) (tenant : ℕ)
    (session : ControlSession) where
  slice_value-Moves : (n : ℕ) (v : Json) → Moves R (slice_value env n v)
  unfolding slice_value
  slice_value-Moves n (str s) = search (moves_rules, b.order)
  slice_value-Moves n _ = search (moves_rules, b.order)

  pub save_reservation-Moves :
      (i : ℕ) (columns : Reservation → Reservation) → Moves R (save_reservation env i columns)
  unfolding save_reservation
  save_reservation-Moves i columns = search (write_reservations-Moves b env)

  pub book_seat-Moves : (i : ℕ) → Moves R (book_seat i)
  unfolding book_seat
  book_seat-Moves i = search (moves_rules, b.order, b.trips)

  load_reservation-Moves : (event : Event) → Moves R (load_reservation env tenant session event)
  unfolding load_reservation
  load_reservation-Moves event = search (moves_rules, b.order, ref_key-Moves b env) depth 16

  boarded_by_of-Moves :
      (r : Reservation) (v : Json) → Moves R (boarded_by_of env tenant session r v)
  unfolding boarded_by_of
  boarded_by_of-Moves r v = search (moves_rules, b.order) depth 10

  begin_boarding-Moves : (trip : Trip) → Moves R (begin_boarding env tenant session trip)
  unfolding begin_boarding
  begin_boarding-Moves trip = search (moves_rules, b.order, save_trip-Moves b env) depth 10

  conflict_unless-Moves :
      (event : Event) (r : Reservation) (trip : Trip) (o : Option Anomaly)
      → Moves R (conflict_unless env tenant session event r trip o)
  unfolding conflict_unless
  conflict_unless-Moves event r trip none =
      detect_seat_conflict-Moves b env tenant session event trip r.seat_label r.id
  conflict_unless-Moves event r trip (some a) = search (moves_rules, b.order)

  board-Moves :
      (event : Event) (r : Reservation) (trip : Trip) (fs : Fields) (o : Option Anomaly)
      → Moves R (board env tenant session event r trip fs o)
  unfolding board
  board-Moves event r trip fs o =
      search
        (
          moves_rules, b.order, boarded_by_of-Moves, begin_boarding-Moves, conflict_unless-Moves,
          save_reservation-Moves, book_seat-Moves,
        )
        depth 20

  pub handle_board-Moves : (event : Event) → Moves R (handle_board env tenant session event)
  unfolding handle_board
  handle_board-Moves event =
      search
        (
          moves_rules,
          b.order,
          load_reservation-Moves,
          related-Moves {0} b env,
          board-Moves,
          detect_duplicate_scan-Moves b env tenant session event,
        )
        depth 20

  pub handle_refuse-Moves : (event : Event) → Moves R (handle_refuse env tenant session event)
  unfolding handle_refuse
  handle_refuse-Moves event =
      search
        (
          moves_rules,
          b.order,
          load_reservation-Moves,
          slice_value-Moves,
          save_reservation-Moves,
          create_anomaly-Moves b env,
        )
        depth 20

  pub handle_special_case-Moves :
      (event : Event) → Moves R (handle_special_case env tenant session event)
  unfolding handle_special_case
  handle_special_case-Moves event =
      search
        (moves_rules, b.order, load_reservation-Moves, slice_value-Moves, save_reservation-Moves)
        depth 20

  move_trip-Moves :
      (event : Event) (c : Bool) (trip : Trip) (to : TripStatus)
      → Moves R (move_trip env tenant session event c trip to)
  unfolding move_trip
  move_trip-Moves event c trip to =
      search (moves_rules, b.order, remember_trip-Moves b env, save_trip-Moves b env) depth 12

  pub handle_activity_transition-Moves :
      (event : Event) → Moves R (handle_activity_transition env tenant session event)
  unfolding handle_activity_transition
  handle_activity_transition-Moves event =
      search (moves_rules, b.order, move_trip-Moves, trip_or_session-Moves b env) depth 20

  resolve_stop-Moves : (event : Event) → Moves R (resolve_stop env tenant session event)
  unfolding resolve_stop
  resolve_stop-Moves event = search (moves_rules, b.order, session_trip-Moves b env) depth 20

  pub handle_stop_arrive-Moves :
      (event : Event) → Moves R (handle_stop_arrive env tenant session event)
  unfolding handle_stop_arrive save_stop
  handle_stop_arrive-Moves event =
      search (moves_rules, b.order, b.trip_stops, resolve_stop-Moves) depth 14

  pub handle_stop_depart-Moves :
      (event : Event) → Moves R (handle_stop_depart env tenant session event)
  unfolding handle_stop_depart save_stop
  handle_stop_depart-Moves event =
      search (moves_rules, b.order, b.trip_stops, resolve_stop-Moves) depth 14

  load_parcel-Moves : (event : Event) → Moves R (load_parcel env tenant session event)
  unfolding load_parcel
  load_parcel-Moves event = search (moves_rules, b.order, ref_key-Moves b env) depth 16

  pub handle_parcel_verify-Moves :
      (event : Event) → Moves R (handle_parcel_verify env tenant session event)
  unfolding handle_parcel_verify save_parcel
  handle_parcel_verify-Moves event =
      search (moves_rules, b.order, b.parcels, load_parcel-Moves) depth 16

  pub handle_parcel_refuse-Moves :
      (event : Event) → Moves R (handle_parcel_refuse env tenant session event)
  unfolding handle_parcel_refuse
  handle_parcel_refuse-Moves event =
      search (moves_rules, b.order, load_parcel-Moves, create_anomaly-Moves b env) depth 16

  pub handle_incident_create-Moves :
      (event : Event) → Moves R (handle_incident_create env tenant session event)
  unfolding handle_incident_create create_incident
  handle_incident_create-Moves event =
      search (moves_rules, b.order, b.incidents, slice_value-Moves, trip_or_session-Moves b env)
        depth 30

  pub handle_anomaly_create-Moves :
      (event : Event) → Moves R (handle_anomaly_create env tenant session event)
  unfolding handle_anomaly_create
  handle_anomaly_create-Moves event =
      search (moves_rules, b.order, slice_value-Moves, create_anomaly-Moves b env) depth 30

  pub handle_anomaly_resolve-Moves :
      (event : Event) → Moves R (handle_anomaly_resolve env tenant session event)
  unfolding handle_anomaly_resolve
  handle_anomaly_resolve-Moves event =
      search (moves_rules, b.order, b.anomalies, ref_key-Moves b env) depth 24
