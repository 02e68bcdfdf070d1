-- ===== src/Voyage/Tests/Trips.antt =====
-- The life of a trip, its reservations and its stops, on the small company of the tests.
use toupac.Prelude.{
  ◌≡◌, refl, true, false, none, some, List, [], ◌∷◌, any, map, length, if◌then◌else◌, ◌==◌, ◌&&◌,
  not,
}
use toupac.Json.{get}
use toupac.Voyage.Models.{
  Trip, TripStatus, preparing, boarding, in_transit, completed, Reservation, booked, checked_in,
  no_show, trip_status_of,
}
use toupac.Voyage.Host.{ok}
use toupac.Voyage.Db.{find_trip}
use toupac.Voyage.Tx.{State, ◌>>=◌}
use toupac.Voyage.Events.{Report, accept}
use toupac.Voyage.Session.{trip_or_session, named_trip, remember_trip}
use toupac.Voyage.Signals.{cascade_rows, save_trip, save_over, cascade_reservations}
use toupac.Voyage.Signals.Cascade.{
  ended, is_over, is_waiting, cascade_rows-map, save_trip-reservations, save_trip-none_waiting,
}
use toupac.Voyage.Handlers.Transitions.{
  is_allowed, status_named, moved, move_trip, handle_activity_transition,
}
use toupac.Voyage.Handlers.Transitions.Graph.{Life, begun, then_to, trip_is_timed, Life-is_timed}
use toupac.Voyage.Handlers.Transitions.Records.{handle_activity_transition-follows}
use toupac.Voyage.TripStops.{
  materialize_trip_stops, create_stops, planned_stops, stops_of_route, synchronised,
}
use toupac.Voyage.TripStops.Once.{has_stops, materialize_trip_stops-once, synchronised-mirrors}
use toupac.Voyage.Tests.World.{
  env, start, session, trip, reservation, route_stop, moving, transition_payload,
}

abbrev done : Trip
done = record trip { status = completed }

abbrev rows : List Reservation
rows = reservation 1 "A1" booked ∷ reservation 2 "A2" checked_in ∷ reservation 3 "A3" no_show ∷ []

cascade_rows-map_example : cascade_rows 1 77 rows ≡ map (ended 1 77) rows
cascade_rows-map_example = cascade_rows-map 1 77 rows

save_trip-reservations_example :
    (save_trip env done (λ t. record t { status = completed }) start).1.db.reservations ≡ (
      if is_over completed && not (is_over trip.status)
      then map (ended 1 1000) start.db.reservations
      else start.db.reservations)
save_trip-reservations_example =
    save_trip-reservations env done (λ t. record t { status = completed }) trip start refl

save_trip-none_waiting_example :
    any
      (is_waiting 1)
      (save_trip env done (λ t. record t { status = completed }) start).1.db.reservations
    ≡ false
save_trip-none_waiting_example =
    save_trip-none_waiting env done (λ t. record t { status = completed }) trip start refl refl refl

abbrev under_way : Life trip (moved in_transit 30 (moved boarding 20 (moved preparing 10 trip)))
under_way = then_to in_transit 30 (then_to boarding 20 (then_to preparing 10 begun refl) refl) refl

Life-is_timed_example :
    trip_is_timed (moved in_transit 30 (moved boarding 20 (moved preparing 10 trip))) ≡ true
Life-is_timed_example =
    Life-is_timed trip (moved in_transit 30 (moved boarding 20 (moved preparing 10 trip))) under_way
      refl

abbrev prepared : Report
prepared = accept none (("trip_id", "1") ∷ ("trip_status", "preparing") ∷ [])

abbrev after : State
after = (handle_activity_transition env 1 session moving start).1

handle_activity_transition-follows_example :
    (t : Trip) × (to : TripStatus) × (find_trip 1 t.id start.db ≡ some t)
    × (t.id ≡ 1)
    × (status_named (get (transition_payload "preparing") "to_status") ≡ some to)
    × (is_allowed t.status to ≡ true)
    × (find_trip 1 t.id after.db ≡ some (moved to 100 t))
unfolding handle_activity_transition trip_status_of trip_or_session named_trip move_trip
    remember_trip save_trip save_over cascade_reservations ◌>>=◌
handle_activity_transition-follows_example =
    handle_activity_transition-follows env 1 session moving (transition_payload "preparing") start
      prepared after refl refl refl

abbrev with_stops : State
with_stops = (materialize_trip_stops env trip start).1

materialize_trip_stops-once_example :
    (2 ≡ (
      if has_stops trip start.db.trip_stops
      then 0
      else length (stops_of_route 1 start.db.route_stops)))
    × (materialize_trip_stops env trip with_stops ≡ (ok 0, with_stops))
unfolding materialize_trip_stops create_stops planned_stops ◌>>=◌
materialize_trip_stops-once_example = materialize_trip_stops-once env trip start 2 with_stops refl

synchronised-mirrors_example :
    ((synchronised (route_stop 1 2)).offset_minutes
      ≡ (synchronised (route_stop 1 2)).departure_offset_minutes)
    × ((synchronised (route_stop 1 2)).departure_offset_minutes ≡ (
        if (route_stop 1 2).departure_offset_minutes == 0
        then (route_stop 1 2).offset_minutes
        else (route_stop 1 2).departure_offset_minutes))
    × (synchronised (synchronised (route_stop 1 2)) ≡ synchronised (route_stop 1 2))
synchronised-mirrors_example = synchronised-mirrors (route_stop 1 2)
