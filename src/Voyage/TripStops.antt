-- ===== src/Voyage/TripStops.antt =====
-- voyage/services/trip_stops.py: the stops of a trip, made from those of its route; and the save of
-- a route's stop (voyage/models.py, RouteStop).
pub mod Once
use toupac.Prelude.{
  ℕ, zero, suc, ◌+◌, ◌-◌, ◌*◌, ◌&&◌, ◌||◌, Bool, true, false, not, none, some, List, [], ◌∷◌, ◌++◌,
  any, select, length, ◌==◌, if◌then◌else◌,
}
use toupac.Prelude.Int.{ℤ, pos, negsuc}
use toupac.Prelude.Sort.{sort_by}
use toupac.Voyage.Models.{Trip, TripStop, RouteStop, StopStatus}
use toupac.Voyage.Host.{integrity}
use toupac.Voyage.Tx.{Env, Tx, pure, gets, fault_if, modify, new_id, ◌>>=◌, ◌>>◌}

-- the rank of a column of 16 bits among the numbers
abbrev order_key : ℤ → ℕ
order_key (pos n) = 32_768 + n
order_key (negsuc n) = 32_767 - n

abbrev pub microseconds_per_minute : ℕ
microseconds_per_minute = 60_000_000

-- the stop of a trip at a stop of its route
abbrev pub stop_at : Trip → RouteStop → ℕ → TripStop
stop_at trip rs i = record {
  id = i;
  tenant = trip.tenant;
  trip = trip.id;
  route_stop = rs.id;
  place = rs.place;
  stop_order = rs.stop_order;
  eta = some (trip.scheduled_at + rs.arrival_offset_minutes * microseconds_per_minute);
  ata = none;
  atd = none;
  status = StopStatus.pending;
}

-- the rows for `bulk_create`, each with a new key
unfoldable pub planned_stops : Env → Trip → List RouteStop → Tx (List TripStop)
planned_stops env trip [] = pure []
planned_stops env trip (rs ∷ rest) = do
  i ← new_id env
  stops ← planned_stops env trip rest
  pure (stop_at trip rs i ∷ stops)

-- whether a key is there already, or twice among the new rows
abbrev pub keys_clash : List TripStop → List TripStop → Bool
keys_clash [] old = false
keys_clash (p ∷ ps) old = any (λ q. q.id == p.id) (ps ++ old) || keys_clash ps old

unfoldable pub create_stops : Env → Trip → List RouteStop → Tx ℕ
create_stops env trip [] = pure 0
create_stops env trip (rs ∷ rest) = do
  stops ← planned_stops env trip (rs ∷ rest)
  taken ← gets (λ s. keys_clash stops s.db.trip_stops)
  fault_if taken (integrity env.duplicate_key)
  modify (λ db. record db { trip_stops = db.trip_stops ++ stops })
  pure (length (rs ∷ rest))

-- `trip.route.stops.order_by("stop_order")`
abbrev pub stops_of_route : ℕ → List RouteStop → List RouteStop
stops_of_route route rows =
    sort_by (λ p. order_key p.stop_order) (select (λ p. p.route == route) rows)

-- materialize_trip_stops
unfoldable pub materialize_trip_stops : Env → Trip → Tx ℕ
materialize_trip_stops env trip = do
  there ← gets (λ s. any (λ p. p.trip == trip.id) s.db.trip_stops)
  route_stops ← gets (λ s. stops_of_route trip.route s.db.route_stops)
  if there then pure 0 else create_stops env trip route_stops

-- the offsets that `RouteStop.save` writes
unfoldable pub synchronised : RouteStop → RouteStop
synchronised p =
    if p.departure_offset_minutes == 0 && not (p.offset_minutes == 0)
    then record p {
      departure_offset_minutes = p.offset_minutes;
      arrival_offset_minutes =
          if p.arrival_offset_minutes == 0 then p.offset_minutes else p.arrival_offset_minutes;
    }
    else record p { offset_minutes = p.departure_offset_minutes }
