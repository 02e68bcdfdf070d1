-- ===== src/Voyage/Tests/Stops.antt =====
-- Arrivals and departures, on the small company of the tests.
use toupac.Prelude.{◌≡◌, refl, none, some, [], ◌∷◌, or_else}
use toupac.Prelude.Int.{pos}
use toupac.Json.{obj, str, field, end}
use toupac.Voyage.Models.{Trip, TripStop, StopStatus}
use toupac.Voyage.Host.{ok}
use toupac.Voyage.Tx.{State, ◌>>=◌}
use toupac.Voyage.Events.{Event, Report, accept}
use toupac.Voyage.Session.{load_trip, cached_trip, session_trip}
use toupac.Voyage.Handlers.Stops.{resolve_stop, save_stop, handle_stop_arrive}
use toupac.Voyage.Handlers.Stops.Marks.{find_stop, handle_stop_arrive-marks}
use toupac.Voyage.Tests.World.{env, db, start, session, moving}

abbrev kaolack : TripStop
kaolack = record {
  id = 7;
  tenant = 1;
  trip = 1;
  route_stop = 1;
  place = 1;
  stop_order = pos 2;
  eta = some 90;
  ata = none;
  atd = none;
  status = StopStatus.pending;
}

abbrev on_the_road : State
on_the_road = record start { db = record db { trip_stops = kaolack ∷ [] } }

abbrev at_kaolack : Event
at_kaolack = record moving { payload = obj (field "stop_id" (str "7") end) }

abbrev arrived : Report
arrived = accept none (("stop_id", "7") ∷ ("stop_status", "arrived") ∷ [])

abbrev departed : Report
departed = accept none (("stop_id", "7") ∷ ("stop_status", "departed") ∷ [])

handle_stop_arrive-marks_example :
    (trip : Trip) × (loaded : State) × (stop : TripStop) × (session_trip env session on_the_road
      ≡ (ok trip, loaded))
    × (find_stop trip.id stop.id on_the_road.db ≡ some stop)
    × (find_stop trip.id stop.id (handle_stop_arrive env 1 session at_kaolack on_the_road).1.db
        ≡ some (record stop { ata = or_else stop.ata (some 100); status = StopStatus.arrived }))
unfolding handle_stop_arrive resolve_stop save_stop session_trip cached_trip load_trip ◌>>=◌
handle_stop_arrive-marks_example =
    handle_stop_arrive-marks env 1 session at_kaolack on_the_road arrived
      (handle_stop_arrive env 1 session at_kaolack on_the_road).1 refl
