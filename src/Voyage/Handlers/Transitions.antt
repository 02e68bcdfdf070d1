-- ===== src/Voyage/Handlers/Transitions.antt =====
-- voyage/services/handlers/transitions.py: the transition of a trip's status.
pub mod Graph
pub mod Records
use toupac.Prelude.{ℕ, Bool, true, false, not, Option, none, some, [], ◌∷◌, ◌==◌}
use toupac.Prelude.Text.{concat}
use toupac.Json.{Json, str, get, truthy}
use toupac.Voyage.Codes.{
  missing_to_status, invalid_trip_status, trip_not_in_session, transition_not_allowed,
}
use toupac.Voyage.Models.{
  Trip, TripStatus, scheduled, preparing, boarding, in_transit, at_stop, arriving, completed,
  trip_status_eq, trip_status_text, trip_status_of, ControlSession,
}
use toupac.Voyage.Tx.{Env, Tx, pure, required, reject_if, fields_of, ◌>>=◌, ◌>>◌}
use toupac.Voyage.Events.{Event, Report, accept}
use toupac.Voyage.Session.{remember_trip, trip_or_session}
use toupac.Voyage.Signals.{save_trip}

-- ALLOWED_TRANSITIONS
abbrev pub is_allowed : TripStatus → TripStatus → Bool
is_allowed scheduled preparing = true
is_allowed scheduled TripStatus.cancelled = true
is_allowed preparing boarding = true
is_allowed preparing TripStatus.cancelled = true
is_allowed boarding in_transit = true
is_allowed boarding TripStatus.cancelled = true
is_allowed in_transit at_stop = true
is_allowed in_transit TripStatus.cancelled = true
is_allowed at_stop in_transit = true
is_allowed at_stop arriving = true
is_allowed at_stop TripStatus.cancelled = true
is_allowed arriving completed = true
is_allowed arriving TripStatus.cancelled = true
is_allowed _ _ = false

-- the member of `Trip.Status.values` that a raw value is
abbrev pub status_named : Json → Option TripStatus
status_named (str s) = trip_status_of s
status_named _ = none

-- an instant written once, when the status is reached and none is set
abbrev pub first_time : Bool → Option ℕ → ℕ → Option ℕ
first_time reached (some t) at = some t
first_time true none at = some at
first_time false none at = none

-- the instance after the assignments
abbrev pub moved : TripStatus → ℕ → Trip → Trip
moved to at trip = record trip {
  status = to;
  actual_departure_at = first_time (trip_status_eq to in_transit) trip.actual_departure_at at;
  actual_arrival_at = first_time (trip_status_eq to completed) trip.actual_arrival_at at;
}

-- the columns of `update_fields`: an instant is written to the row where the instance got it now
abbrev written : Bool → Option ℕ → ℕ → Option ℕ → Option ℕ
written true none at column = some at
written _ _ at column = column

abbrev pub moved_columns : TripStatus → ℕ → Trip → Trip → Trip
moved_columns to at trip row = record row {
  status = to;
  actual_departure_at =
      written (trip_status_eq to in_transit) trip.actual_departure_at at row.actual_departure_at;
  actual_arrival_at =
      written (trip_status_eq to completed) trip.actual_arrival_at at row.actual_arrival_at;
}

module _ (env : Env) (tenant : ℕ) (session : ControlSession) where
  unfoldable pub move_trip : Event → Bool → Trip → TripStatus → Tx Report
  move_trip event from_session trip to = do
    remember_trip from_session (moved to event.created_at_local trip)
    save_trip env (moved to event.created_at_local trip)
        (moved_columns to event.created_at_local trip)
    pure (
        accept none
          (("trip_id", env.show_uuid trip.id) ∷ ("trip_status", trip_status_text to) ∷ []))

  unfoldable pub handle_activity_transition : Event → Tx Report
  handle_activity_transition event = do
    payload ← fields_of env event.payload
    let to_status = get payload "to_status"
    let trip_id = get payload "trip_id"
    reject_if (not (truthy to_status)) missing_to_status "to_status manquant dans le payload."
    to ←
        required (status_named to_status) invalid_trip_status
          (concat ("Statut inconnu : " ∷ env.text to_status ∷ []))
    trip ← trip_or_session env tenant session trip_id
    reject_if (not (trip.id == session.trip)) trip_not_in_session (
        concat (
          "Le trip cible ("
          ∷ env.show_uuid trip.id
          ∷ ") ne correspond pas au trip de la session ("
          ∷ env.show_uuid session.trip
          ∷ ")."
          ∷ []))
    reject_if (not (is_allowed trip.status to)) transition_not_allowed (
        concat (
          "Transition interdite : "
          ∷ trip_status_text trip.status
          ∷ " → "
          ∷ trip_status_text to
          ∷ []))
    move_trip event (not (truthy trip_id)) trip to
