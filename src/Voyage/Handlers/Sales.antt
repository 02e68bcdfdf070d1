-- ===== src/Voyage/Handlers/Sales.antt =====
-- voyage/services/handlers/sales.py: a ticket sold on board.
pub mod Taken
use toupac.Prelude.{
  ℕ, String, Bool, not, ◌&&◌, ◌||◌, Option, none, some, [], ◌∷◌, ◌++◌, any, first, is_some, ◌==◌,
  if◌then◌else◌, str_eq,
}
use toupac.Prelude.Int.{ℤ}
use toupac.Prelude.Text.{concat, slice_to, is_empty}
use toupac.Json.{Json, Fields, end, str, obj, get, truthy, or_value}
use toupac.Voyage.Codes.{
  missing_seat_label, missing_amount, missing_passenger_data, seat_already_taken,
}
use toupac.Voyage.Models.{
  Trip, trip_status_text, RouteStop, Passenger, Reservation, ReservationStatus, is_void, CashEntry,
  ControlSession,
}
use toupac.Voyage.Host.{integrity}
use toupac.Voyage.Tx.{
  Env, Tx, pure, gets, lift, reject_if, fault_if, modify, new_id, fields_of, ◌>>=◌, ◌>>◌,
}
use toupac.Voyage.Events.{Event, Report, accept, refuse, serialize_anomaly}
use toupac.Voyage.Anomalies.{create_anomaly, auto_anomaly}
use toupac.Voyage.Session.{trip_or_session}
use toupac.Voyage.Signals.{write_reservations}
use toupac.Voyage.Tickets.{sign_ticket_jwt}
use toupac.Voyage.Handlers.SaleChecks.{
  stripped, payment_method_of, default_payment_method, is_null, reject_unknown_seat, resolve_stops,
}
use toupac.Voyage.Handlers.Boarding.{save_reservation, book_seat}

abbrev passenger_row : ℕ → String → String → String → ℕ → Passenger
passenger_row tenant first_name last_name phone i = record {
  id = i;
  tenant = tenant;
  first_name = first_name;
  last_name = last_name;
  phone = phone;
  deleted_at = none;
}

module _ (env : Env) (tenant : ℕ) (session : ControlSession) where
  -- an active reservation on the seat
  abbrev pub holds_seat : Trip → String → Reservation → Bool
  holds_seat trip seat r =
      r.tenant == tenant && r.trip == trip.id && str_eq r.seat_label seat && not (is_void r.status)

  -- the refusal of _seat_conflict_verdict, with the anomaly that it writes
  unfoldable pub refuse_taken_seat : Event → Trip → Json → Tx Report
  refuse_taken_seat event trip seat_label = do
    a ← create_anomaly env (
        auto_anomaly tenant session event "seat_conflict" "moderate"
          (slice_to 200
            (concat ("Siège " ∷ env.text seat_label ∷ " déjà attribué — " ∷ trip.internal_id ∷ [])))
          (concat (
            "Vente à bord refusée : le siège "
            ∷ env.text seat_label
            ∷ " du voyage "
            ∷ trip.internal_id
            ∷ " porte déjà une réservation active."
            ∷ []))
          "trip" trip.id)
    pure (
        refuse seat_already_taken
          (concat ("Siège " ∷ env.text seat_label ∷ " déjà occupé sur ce voyage." ∷ []))
          (some (serialize_anomaly env.host a)))

  -- the passenger known by a phone
  abbrev is_phone_of : String → Passenger → Bool
  is_phone_of phone p = p.tenant == tenant && str_eq p.phone phone && not (is_some p.deleted_at)

  unfoldable pub create_passenger : String → String → String → Tx Passenger
  create_passenger first_name last_name phone = do
    first_name' ← lift (env.char_field 100 (str first_name))
    last_name' ← lift (env.char_field 100 (str last_name))
    phone' ← lift (env.char_field 20 (str phone))
    i ← new_id env
    taken ← gets (λ s. any (λ p. p.id == i) s.db.passengers)
    fault_if taken (integrity env.duplicate_key)
    let p = passenger_row tenant first_name' last_name' phone' i
    modify (λ db. record db { passengers = db.passengers ++ p ∷ [] })
    pure p

  unfoldable pub found_or_created : String → String → String → Option Passenger → Tx Passenger
  found_or_created first_name last_name phone (some p) = pure p
  found_or_created first_name last_name phone none = create_passenger first_name last_name phone

  -- the passenger's record, found by phone or created
  unfoldable pub passenger_for : String → String → String → Tx Passenger
  passenger_for first_name last_name phone = do
    known ← gets (λ s.
        if is_empty phone then none else first (λ p. p.id) (is_phone_of phone) s.db.passengers)
    found_or_created first_name last_name phone known

  -- `Reservation.objects.create(...)`
  unfoldable pub create_reservation : (ℕ → Reservation) → Tx Reservation
  create_reservation row = do
    i ← new_id env
    taken ← gets (λ s. any (λ r. r.id == i) s.db.reservations)
    fault_if taken (integrity env.duplicate_key)
    write_reservations env (λ rows. rows ++ row i ∷ [])
    pure (row i)

  -- `CashEntry.objects.create(...)`
  unfoldable pub create_cash_entry : (ℕ → CashEntry) → Tx CashEntry
  create_cash_entry row = do
    i ← new_id env
    taken ← gets (λ s. any (λ c. c.id == i) s.db.cash_entries)
    fault_if taken (integrity env.duplicate_key)
    modify (λ db. record db { cash_entries = db.cash_entries ++ row i ∷ [] })
    pure (row i)

  -- the columns of a reservation sold on board
  abbrev pub onboard_reservation :
      Event → Trip → ℕ → String → RouteStop → RouteStop → ℤ → String → ℕ → Reservation
  onboard_reservation event trip passenger seat origin destination amount method i = record {
    id = i;
    tenant = tenant;
    trip = trip.id;
    passenger = passenger;
    seat_label = seat;
    origin_stop = some origin.id;
    destination_stop = some destination.id;
    status = ReservationStatus.boarded;
    amount_xof = amount;
    payment_method = method;
    qr_code_jwt = "";
    boarded_by = some session.controller;
    boarded_at = some event.created_at_local;
    boarding_method = "manual";
    special_case_reason = "";
    refusal_reason = "";
    sales_channel = "onboard";
  }

  abbrev pub onboard_cash : ℕ → ℤ → ℕ → CashEntry
  onboard_cash reservation amount i = record {
    id = i;
    tenant = tenant;
    session = session.id;
    reservation = reservation;
    amount_xof = amount;
    reason = "onboard_sale";
    collected_by = session.controller;
  }

  -- the writes of a sale whose checks have passed
  unfoldable pub sell :
      Event → Trip → Json → Json → String → Passenger → RouteStop × RouteStop → Tx Report
  sell event trip seat_label amount_xof payment_method passenger (origin, destination) = do
    seat ← lift (env.char_field 10 seat_label)
    amount ← lift (env.integer_field amount_xof)
    method ← lift (env.char_field 30 (str payment_method))
    r ←
        create_reservation
          (onboard_reservation event trip passenger.id seat origin destination amount method)
    jwt ← sign_ticket_jwt env r seat_label trip passenger
    save_reservation env r.id (λ q. record q { qr_code_jwt = jwt })
    c ← create_cash_entry (onboard_cash r.id amount)
    book_seat trip.id
    pure (
        accept none (
          ("passenger_id", env.show_uuid passenger.id)
          ∷ ("reservation_id", env.show_uuid r.id)
          ∷ ("cash_entry_id", env.show_uuid c.id)
          ∷ ("origin_stop_id", env.show_uuid origin.id)
          ∷ ("destination_stop_id", env.show_uuid destination.id)
          ∷ ("reservation_status", "boarded")
          ∷ ("trip_status", trip_status_text trip.status)
          ∷ ("qr_code_jwt", jwt)
          ∷ []))

  -- what follows the checks of the payload, the trip and the stops
  unfoldable pub sell_free_seat :
      Event → Trip → Fields → Fields → String → String → String → RouteStop × RouteStop → Tx Report
  sell_free_seat event trip payload passenger_data first_name last_name payment_method stops = do
    let seat_label = get payload "seat_label"
    taken ← gets (λ s. any (holds_seat trip (env.text seat_label)) s.db.reservations)
    if taken then refuse_taken_seat event trip seat_label else (do
      phone ← stripped env (get passenger_data "phone")
      passenger ← passenger_for first_name last_name phone
      sell event trip seat_label (get payload "amount_xof") payment_method passenger stops)

  unfoldable pub handle_onboard_sale : Event → Tx Report
  handle_onboard_sale event = do
    payload ← fields_of env event.payload
    reject_if (not (truthy (get payload "seat_label"))) missing_seat_label
        "seat_label manquant dans le payload."
    reject_if (is_null (get payload "amount_xof")) missing_amount
        "amount_xof manquant dans le payload."
    passenger_data ←
        fields_of env
          (or_value (get payload "passenger_data") (or_value (get payload "passenger") (obj end)))
    first_name ← stripped env (get passenger_data "first_name")
    last_name ← stripped env (get passenger_data "last_name")
    reject_if (is_empty first_name || is_empty last_name) missing_passenger_data
        "passenger_data incomplet : first_name et last_name sont requis."
    payment_method ←
        payment_method_of env (or_value (get payload "payment_method") (str default_payment_method))
    trip ← trip_or_session env tenant session (get payload "trip_id")
    reject_unknown_seat env tenant session trip (get payload "seat_label")
    stops ← resolve_stops env tenant session trip payload
    sell_free_seat event trip payload passenger_data first_name last_name payment_method stops
