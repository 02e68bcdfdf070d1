-- ===== src/Voyage/Db.antt =====
-- The database: a table for each model, the queries that the code makes, and the constraints that
-- PostgreSQL enforces (voyage/models.py, the `Meta.constraints` of Reservation and ControlEvent).
use toupac.Prelude.{
  ℕ, Bool, true, not, ◌&&◌, Option, none, some, List, [], ◌∷◌, any, all, first, ◌==◌, str_eq,
}
use toupac.Voyage.Models.{
  Trip, TripStop, RouteStop, Passenger, Reservation, ControlEvent, Anomaly, Incident, CashEntry,
  Parcel, is_void,
}

pub record Db : Type 0 where
  pub trips : List Trip
  pub trip_stops : List TripStop
  pub route_stops : List RouteStop
  pub passengers : List Passenger
  pub reservations : List Reservation
  pub control_events : List ControlEvent
  pub anomalies : List Anomaly
  pub incidents : List Incident
  pub cash_entries : List CashEntry
  pub parcels : List Parcel
  -- the primary keys of the controllers
  pub controllers : List ℕ

-- `Model.objects.filter(tenant=tenant, id=id).first()`
abbrev pub find_trip : ℕ → ℕ → Db → Option Trip
find_trip tenant i db = first (λ t. t.id) (λ t. t.tenant == tenant && t.id == i) db.trips

-- `Trip.objects.get(pk=id)`
abbrev pub trip_by_pk : ℕ → Db → Option Trip
trip_by_pk i db = first (λ t. t.id) (λ t. t.id == i) db.trips

abbrev pub find_reservation : ℕ → ℕ → Db → Option Reservation
find_reservation tenant i db =
    first (λ r. r.id) (λ r. r.tenant == tenant && r.id == i) db.reservations

abbrev pub find_anomaly : ℕ → ℕ → Db → Option Anomaly
find_anomaly tenant i db = first (λ a. a.id) (λ a. a.tenant == tenant && a.id == i) db.anomalies

abbrev pub find_parcel : ℕ → ℕ → Db → Option Parcel
find_parcel tenant i db = first (λ p. p.id) (λ p. p.tenant == tenant && p.id == i) db.parcels

abbrev pub passenger_by_pk : ℕ → Db → Option Passenger
passenger_by_pk i db = first (λ p. p.id) (λ p. p.id == i) db.passengers

-- the event of a tenant with a client's identifier
abbrev pub is_event : ℕ → ℕ → ControlEvent → Bool
is_event tenant uuid e = e.tenant == tenant && e.client_uuid == uuid

abbrev pub find_event : ℕ → ℕ → Db → Option ControlEvent
find_event tenant uuid db = first (λ e. e.id) (is_event tenant uuid) db.control_events

-- Two rows that the constraint `unique_active_seat_per_trip` does not allow together.
abbrev pub seat_clash : Reservation → Reservation → Bool
seat_clash r q =
    not (is_void r.status)
    && not (is_void q.status)
    && r.trip == q.trip
    && str_eq r.seat_label q.seat_label

-- `unique_active_seat_per_trip`, over the whole table
abbrev pub seats_unique : List Reservation → Bool
seats_unique [] = true
seats_unique (r ∷ rs) = not (any (seat_clash r) rs) && seats_unique rs

abbrev is_known : List ℕ → Option ℕ → Bool
is_known ids none = true
is_known ids (some i) = any (λ j. j == i) ids

-- The one reference that a payload can forge, `Reservation.boarded_by`. PostgreSQL checks a
-- reference when the transaction commits (Django declares it DEFERRABLE INITIALLY DEFERRED).
abbrev pub references_hold : Db → Bool
references_hold db = all (λ r. is_known db.controllers r.boarded_by) db.reservations
