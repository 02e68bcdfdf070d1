-- ===== src/Voyage/Handlers/Frame/Sale.antt =====
-- A relation that holds along the business writes holds along a sale on board.
use toupac.Prelude.{ℕ, String, Option, none, some}
use toupac.Json.{Json, Fields, str}
use toupac.Voyage.Models.{Trip, Passenger, RouteStop, Reservation, CashEntry, ControlSession}
use toupac.Voyage.Db.{Db}
use toupac.Voyage.Tx.{Env}
use toupac.Voyage.Tx.Moves.{Moves, moves_rules}
use toupac.Voyage.Events.{Event}
use toupac.Voyage.Tickets.{sign_ticket_jwt}
use toupac.Voyage.Handlers.SaleChecks.{
  strip_value, stripped, payment_method_of, reject_unknown_seat, resolve_stops,
}
use toupac.Voyage.Handlers.Sales.{
  refuse_taken_seat, create_passenger, found_or_created, passenger_for, create_reservation,
  create_cash_entry, sell, sell_free_seat, handle_onboard_sale,
}
use toupac.Voyage.Handlers.Frame.{
  Business, create_anomaly-Moves, write_reservations-Moves, trip_or_session-Moves,
}
use toupac.Voyage.Handlers.Frame.Each.{save_reservation-Moves, book_seat-Moves}

module _ {R : Db → Db → Type 0} (b : Business R) (env : Env) (tenant : ℕ)
    (session : ControlSession) where
  strip_value-Moves : (v : Json) → Moves R (strip_value env v)
  unfolding strip_value
  strip_value-Moves (str s) = search (moves_rules, b.order)
  strip_value-Moves _ = search (moves_rules, b.order)

  stripped-Moves : (v : Json) → Moves R (stripped env v)
  unfolding stripped
  stripped-Moves v = search (moves_rules, b.order, strip_value-Moves)

  payment_method_of-Moves : (v : Json) → Moves R (payment_method_of env v)
  unfolding payment_method_of
  payment_method_of-Moves (str s) = search (moves_rules, b.order)
  payment_method_of-Moves _ = search (moves_rules, b.order)

  reject_unknown_seat-Moves :
      (trip : Trip) (v : Json) → Moves R (reject_unknown_seat env tenant session trip v)
  unfolding reject_unknown_seat
  reject_unknown_seat-Moves trip v = search (moves_rules, b.order)

  resolve_stops-Moves :
      (trip : Trip) (fs : Fields) → Moves R (resolve_stops env tenant session trip fs)
  unfolding resolve_stops
  resolve_stops-Moves trip fs = search (moves_rules, b.order) depth 30

  refuse_taken_seat-Moves :
      (event : Event) (trip : Trip) (v : Json)
      → Moves R (refuse_taken_seat env tenant session event trip v)
  unfolding refuse_taken_seat
  refuse_taken_seat-Moves event trip v = search (moves_rules, b.order, create_anomaly-Moves b env)

  create_passenger-Moves : (x y z : String) → Moves R (create_passenger env tenant session x y z)
  unfolding create_passenger
  create_passenger-Moves x y z = search (moves_rules, b.order, b.passengers) depth 20

  found_or_created-Moves :
      (x y z : String) (o : Option Passenger)
      → Moves R (found_or_created env tenant session x y z o)
  unfolding found_or_created
  found_or_created-Moves x y z none = create_passenger-Moves x y z
  found_or_created-Moves x y z (some p) = search (moves_rules, b.order)

  passenger_for-Moves : (x y z : String) → Moves R (passenger_for env tenant session x y z)
  unfolding passenger_for
  passenger_for-Moves x y z = search (moves_rules, b.order, found_or_created-Moves)

  create_reservation-Moves :
      (row : ℕ → Reservation) → Moves R (create_reservation env tenant session row)
  unfolding create_reservation
  create_reservation-Moves row =
      search (moves_rules, b.order, write_reservations-Moves b env) depth 14

  create_cash_entry-Moves :
      (row : ℕ → CashEntry) → Moves R (create_cash_entry env tenant session row)
  unfolding create_cash_entry
  create_cash_entry-Moves row = search (moves_rules, b.order, b.cash_entries) depth 14

  sign_ticket_jwt-Moves :
      (r : Reservation) (v : Json) (trip : Trip) (p : Passenger)
      → Moves R (sign_ticket_jwt env r v trip p)
  unfolding sign_ticket_jwt
  sign_ticket_jwt-Moves r v trip p = search (moves_rules, b.order)

  sell-Moves :
      (event : Event) (trip : Trip) (v w : Json) (m : String) (p : Passenger)
      (stops : RouteStop × RouteStop)
      → Moves R (sell env tenant session event trip v w m p stops)
  unfolding sell
  sell-Moves event trip v w m p (origin, destination) =
      search
        (
          moves_rules,
          b.order,
          create_reservation-Moves,
          sign_ticket_jwt-Moves,
          create_cash_entry-Moves,
          save_reservation-Moves b env tenant session,
          book_seat-Moves b env tenant session,
        )
        depth 24

  sell_free_seat-Moves :
      (event : Event) (trip : Trip) (fs gs : Fields) (x y m : String)
      (stops : RouteStop × RouteStop)
      → Moves R (sell_free_seat env tenant session event trip fs gs x y m stops)
  unfolding sell_free_seat
  sell_free_seat-Moves event trip fs gs x y m stops =
      search
        (
          moves_rules, b.order, refuse_taken_seat-Moves, stripped-Moves, passenger_for-Moves,
          sell-Moves,
        )
        depth 16

  pub handle_onboard_sale-Moves :
      (event : Event) → Moves R (handle_onboard_sale env tenant session event)
  unfolding handle_onboard_sale
  handle_onboard_sale-Moves event =
      search
        (
          moves_rules,
          b.order,
          stripped-Moves,
          payment_method_of-Moves,
          reject_unknown_seat-Moves,
          resolve_stops-Moves,
          sell_free_seat-Moves,
          trip_or_session-Moves b env,
        )
        depth 36
