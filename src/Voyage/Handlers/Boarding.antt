-- ===== src/Voyage/Handlers/Boarding.antt =====
-- voyage/services/handlers/boarding.py: board, refuse, special case.
use toupac.Prelude.{
  ℕ, ◌+◌, String, Bool, true, false, not, Option, none, some, [], ◌∷◌, update_where, ◌==◌,
  if◌then◌else◌,
}
use toupac.Prelude.Text.{concat, slice_to}
use toupac.Json.{Json, Fields, str, arr, get, get_default, truthy, or_value, take_items}
use toupac.Voyage.Codes.{missing_reservation_id, reservation_not_found, reservation_not_boardable}
use toupac.Voyage.Models.{
  Trip, preparing, TripStatus, trip_status_eq, trip_status_text, Reservation, ReservationStatus,
  reservation_status_text, Anomaly, ControlSession,
}
use toupac.Voyage.Host.{other}
use toupac.Voyage.Db.{find_reservation, trip_by_pk}
use toupac.Voyage.Tx.{
  Env, Tx, pure, fail, fault, gets, lift, required, modify, fields_of, ◌>>=◌, ◌>>◌,
}
use toupac.Voyage.Events.{
  Event, Report, accept, refuse, serialize_anomaly, serialize_option, ref_or_target, ref_text,
  ref_key, related,
}
use toupac.Voyage.Anomalies.{
  create_anomaly, auto_anomaly, detect_duplicate_scan, detect_seat_conflict,
}
use toupac.Voyage.Signals.{write_reservations, save_trip}

-- `value[:n]` of a raw value
unfoldable pub slice_value : Env → ℕ → Json → Tx Json
slice_value env n (str s) = pure (str (slice_to n s))
slice_value env n (arr xs) = pure (arr (take_items n xs))
slice_value env n v = fail (fault (other (env.type_error v)))

-- the row of a reservation written anew
unfoldable pub save_reservation : Env → ℕ → (Reservation → Reservation) → Tx (Unit {0})
save_reservation env i columns = write_reservations env (update_where (λ r. r.id == i) columns)

-- `Trip.objects.filter(pk=i).update(booked_seats=F("booked_seats") + 1)`
unfoldable pub book_seat : ℕ → Tx (Unit {0})
book_seat i = modify (λ db. record db {
  trips =
      update_where (λ t. t.id == i) (λ t. record t { booked_seats = t.booked_seats + 1 }) db.trips;
})

-- Reservation.Status.BOOKED or CHECKED_IN
abbrev pub is_boardable : ReservationStatus → Bool
is_boardable ReservationStatus.booked = true
is_boardable ReservationStatus.checked_in = true
is_boardable _ = false

module _ (env : Env) (tenant : ℕ) (session : ControlSession) where
  -- _load_reservation
  unfoldable pub load_reservation : Event → Tx Reservation
  load_reservation event = do
    payload ← fields_of env event.payload
    ref ←
        required (ref_or_target (get payload "reservation_id") event.target_id)
          missing_reservation_id "reservation_id manquant dans le payload."
    i ← ref_key env ref
    found ← gets (λ s. find_reservation tenant i s.db)
    required found reservation_not_found
        (concat ("Réservation " ∷ ref_text env.host ref ∷ " introuvable." ∷ []))

  -- `reservation.boarded_by_id`, kept where the payload names no controller
  unfoldable pub boarded_by_of : Reservation → Json → Tx (Option ℕ)
  boarded_by_of r controller_id =
      if truthy controller_id
      then (do i ← lift (env.uuid_field controller_id); pure (some i))
      else pure r.boarded_by

  -- the trip of a boarded reservation begins its boarding, in the row and on the instance
  unfoldable pub begin_boarding : Trip → Tx Trip
  begin_boarding trip =
      if trip_status_eq trip.status preparing
      then (do
        save_trip env (record trip { status = TripStatus.boarding })
            (λ t. record t { status = TripStatus.boarding })
        pure (record trip { status = TripStatus.boarding }))
      else pure trip

  unfoldable pub conflict_unless : Event → Reservation → Trip → Option Anomaly → Tx (Option Anomaly)
  conflict_unless event r trip (some a) = pure (some a)
  conflict_unless event r trip none =
      detect_seat_conflict env tenant session event trip r.seat_label r.id

  -- the columns of `handle_board`
  abbrev pub boarded_columns : Event → Option ℕ → String → Reservation → Reservation
  boarded_columns event boarded_by method r = record r {
    status = ReservationStatus.boarded;
    boarded_at = some event.created_at_local;
    boarding_method = method;
    boarded_by = boarded_by;
  }

  unfoldable pub board : Event → Reservation → Trip → Fields → Option Anomaly → Tx Report
  board event r trip payload duplicate = do
    boarded_by ← boarded_by_of r (get payload "boarded_by_controller_id")
    method ← lift (env.char_field 30 (get_default payload "boarding_method" (str "qr_scan")))
    save_reservation env r.id (boarded_columns event boarded_by method)
    book_seat trip.id
    trip' ← begin_boarding trip
    anomaly ← conflict_unless event r trip' duplicate
    pure (
        accept (serialize_option env.host anomaly) (
          ("reservation_id", env.show_uuid r.id)
          ∷ ("reservation_status", "boarded")
          ∷ ("trip_status", trip_status_text trip'.status)
          ∷ []))

  unfoldable pub refuse_board : Reservation → Option Anomaly → Report
  refuse_board r anomaly =
      refuse reservation_not_boardable
        (concat ("Embarquement impossible : statut=" ∷ reservation_status_text r.status ∷ []))
        (serialize_option env.host anomaly)

  unfoldable pub handle_board : Event → Tx Report
  handle_board event = do
    r ← load_reservation event
    found ← gets (λ s. trip_by_pk r.trip s.db)
    trip ← related env found
    duplicate ← detect_duplicate_scan env tenant session event r.id
    payload ← fields_of env event.payload
    if not (is_boardable r.status)
        then pure (refuse_board r duplicate)
        else board event r trip payload duplicate

  unfoldable pub handle_refuse : Event → Tx Report
  handle_refuse event = do
    r ← load_reservation event
    payload ← fields_of env event.payload
    let reason = get_default payload "reason" (str "")
    short ← slice_value env 200 reason
    refusal_reason ← lift (env.char_field 200 short)
    save_reservation env r.id
        (λ q. record q { status = ReservationStatus.refused; refusal_reason = refusal_reason })
    a ← create_anomaly env (
        auto_anomaly tenant session event "other" "moderate" "Refus embarquement"
          (concat (
            "Embarquement refusé pour la réservation "
            ∷ env.show_uuid r.id
            ∷ " (siège "
            ∷ r.seat_label
            ∷ "). Motif : "
            ∷ env.text (or_value reason (str "non précisé"))
            ∷ "."
            ∷ []))
          "reservation" r.id)
    pure (
        accept (some (serialize_anomaly env.host a))
          (("reservation_id", env.show_uuid r.id) ∷ ("reservation_status", "refused") ∷ []))

  unfoldable pub handle_special_case : Event → Tx Report
  handle_special_case event = do
    r ← load_reservation event
    payload ← fields_of env event.payload
    short ← slice_value env 200 (get_default payload "reason" (str ""))
    special_case_reason ← lift (env.char_field 200 short)
    save_reservation env r.id (λ q. record q {
      status = ReservationStatus.boarded;
      boarded_at = some event.created_at_local;
      boarding_method = "manual";
      special_case_reason = special_case_reason;
    })
    pure (
        accept none
          (("reservation_id", env.show_uuid r.id) ∷ ("reservation_status", "boarded") ∷ []))
