-- ===== src/Voyage/Signals.antt =====
-- voyage/signals.py and the writes that it watches: `Trip.save`, with the cascade on the
-- reservations of a trip that ends, and the writes of reservations under the seat constraint.
pub mod Cascade
use toupac.Prelude.{
  ℕ, Bool, true, false, not, ◌&&◌, ◌||◌, Option, none, some, List, update_where, ◌==◌,
  if◌then◌else◌,
}
use toupac.Voyage.Models.{
  Trip, TripStatus, completed, trip_status_eq, Reservation, ReservationStatus, booked, checked_in,
  boarded, no_show, reservation_status_eq,
}
use toupac.Voyage.Host.{integrity, other}
use toupac.Voyage.Db.{Db, trip_by_pk, seats_unique}
use toupac.Voyage.Tx.{
  Env, Tx, pure, fail, fault, gets, fault_if, modify, savepoint, now, ◌>>=◌, ◌>>◌,
}

-- a write of the reservation table, under `unique_active_seat_per_trip`
unfoldable pub write_reservations : Env → (List Reservation → List Reservation) → Tx (Unit {0})
write_reservations env f = do
  unique ← gets (λ s. seats_unique (f s.db.reservations))
  fault_if (not unique) (integrity env.duplicate_key)
  modify (λ db. record db { reservations = f db.reservations })

-- _TRIP_TERMINAL_STATUSES
abbrev pub is_terminal : TripStatus → Bool
is_terminal completed = true
is_terminal TripStatus.cancelled = true
is_terminal _ = false

-- whether the save is no first passage to a terminal status; a save with `update_fields` never
-- creates, so that the guard on `created` never holds
abbrev pub is_no_ending : TripStatus → TripStatus → Bool
is_no_ending original status =
    trip_status_eq original status || not (is_terminal status) || is_terminal original

abbrev is_at : ℕ → ReservationStatus → Reservation → Bool
is_at trip status r = r.trip == trip && reservation_status_eq r.status status

-- _RESERVATION_AUTO_TRANSITIONS, the two updates in their order; only `boarded_at` has a column
abbrev pub cascade_rows : ℕ → ℕ → List Reservation → List Reservation
cascade_rows trip at rows =
    update_where (is_at trip checked_in) (λ r. record r { status = boarded; boarded_at = some at })
      (update_where (is_at trip booked) (λ r. record r { status = no_show }) rows)

-- cascade_reservations_on_trip_terminal
unfoldable pub cascade_reservations : Env → Trip → TripStatus → Tx (Unit {0})
cascade_reservations env trip original = if is_no_ending original trip.status then pure tt else do
  at ← now env
  savepoint (modify (λ db. record db { reservations = cascade_rows trip.id at db.reservations }))

-- the row as it is before the save: Django raises `DatabaseError` where `update_fields` affects none
unfoldable pub save_over : Env → Trip → (Trip → Trip) → Option Trip → Tx (Unit {0})
save_over env trip columns none = fail (fault (other env.no_row_affected))
save_over env trip columns (some row) = do
  modify (λ db. record db { trips = update_where (λ t. t.id == trip.id) columns db.trips })
  cascade_reservations env trip row.status

-- `trip.save(update_fields=[...])`: `columns` writes the named columns of the instance to its row,
-- which capture_original_trip_status has read
unfoldable pub save_trip : Env → Trip → (Trip → Trip) → Tx (Unit {0})
unfolding save_over
save_trip env trip columns = do
  row ← gets (λ s. trip_by_pk trip.id s.db)
  save_over env trip columns row
