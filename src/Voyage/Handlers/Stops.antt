-- ===== src/Voyage/Handlers/Stops.antt =====
-- voyage/services/handlers/stops.py: arrival at a stop and departure from it.
pub mod Marks
use toupac.Prelude.{ℕ, ◌&&◌, Option, none, some, [], ◌∷◌, first, update_where, ◌==◌}
use toupac.Prelude.Text.{concat}
use toupac.Json.{get, present}
use toupac.Voyage.Codes.{missing_stop_id, stop_not_found}
use toupac.Voyage.Models.{TripStop, StopStatus, ControlSession}
use toupac.Voyage.Tx.{Env, Tx, pure, gets, lift, required, modify, fields_of, ◌>>=◌, ◌>>◌}
use toupac.Voyage.Events.{Event, Report, accept}
use toupac.Voyage.Session.{session_trip}

-- the first of two instants to be written stays
abbrev pub first_mark : Option ℕ → ℕ → Option ℕ
first_mark (some t) at = some t
first_mark none at = some at

-- `_apply_timestamp(stop, "ata", ARRIVED, when)`, on the row
abbrev pub mark_arrival : ℕ → TripStop → TripStop
mark_arrival at stop = record stop { ata = first_mark stop.ata at; status = StopStatus.arrived }

-- `_apply_timestamp(stop, "atd", DEPARTED, when)`
abbrev pub mark_departure : ℕ → TripStop → TripStop
mark_departure at stop = record stop { atd = first_mark stop.atd at; status = StopStatus.departed }

module _ (env : Env) (tenant : ℕ) (session : ControlSession) where
  -- _resolve_stop
  unfoldable pub resolve_stop : Event → Tx TripStop
  resolve_stop event = do
    payload ← fields_of env event.payload
    stop_id ←
        required (present (get payload "stop_id")) missing_stop_id
          "stop_id manquant dans le payload."
    trip ← session_trip env session
    i ← lift (env.uuid_field stop_id)
    found ← gets (λ s. first (λ p. p.id) (λ p. p.id == i && p.trip == trip.id) s.db.trip_stops)
    required found stop_not_found (
        concat (
          "TripStop "
          ∷ env.text stop_id
          ∷ " inconnu du voyage "
          ∷ env.show_uuid session.trip
          ∷ "."
          ∷ []))

  unfoldable pub save_stop : ℕ → (TripStop → TripStop) → Tx (Unit {0})
  save_stop i columns =
      modify (λ db. record db { trip_stops = update_where (λ p. p.id == i) columns db.trip_stops })

  unfoldable pub handle_stop_arrive : Event → Tx Report
  handle_stop_arrive event = do
    stop ← resolve_stop event
    save_stop stop.id (mark_arrival event.created_at_local)
    pure (accept none (("stop_id", env.show_uuid stop.id) ∷ ("stop_status", "arrived") ∷ []))

  unfoldable pub handle_stop_depart : Event → Tx Report
  handle_stop_depart event = do
    stop ← resolve_stop event
    save_stop stop.id (mark_departure event.created_at_local)
    pure (accept none (("stop_id", env.show_uuid stop.id) ∷ ("stop_status", "departed") ∷ []))
