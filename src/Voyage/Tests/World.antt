-- ===== src/Voyage/Tests/World.antt =====
-- A small company for the tests: a host with readable identifiers, one trip with two reservations,
-- and a session of control.
use toupac.Prelude.{ℕ, ◌+◌, String, true, Option, none, some, [], ◌∷◌, if◌then◌else◌, str_eq, ◌==◌}
use toupac.Prelude.Int.{ℤ, pos}
use toupac.Json.{Json, Fields, str, obj, end, field, int}
use toupac.Voyage.Models.{
  Trip, scheduled, Reservation, ReservationStatus, booked, checked_in, ControlSession, RouteStop,
  ControlEvent, EventStatus,
}
use toupac.Voyage.Host.{Host, Result, ok, err, Fault, other, Stamp, aware}
use toupac.Voyage.Db.{Db}
use toupac.Voyage.Events.{Event}
use toupac.Voyage.Tx.{State, Env}

abbrev text_of : Json → String
text_of (str s) = s
text_of _ = "?"

abbrev number_of : String → Option ℕ
number_of s =
    if str_eq s "1"
    then some 1
    else if str_eq s "2"
    then some 2
    else if str_eq s "7"
    then some 7
    else none

abbrev shown : ℕ → String
shown n = if n == 1 then "1" else if n == 2 then "2" else if n == 7 then "7" else "new"

abbrev uuid_or_fault : Option ℕ → Result Fault ℕ
uuid_or_fault (some n) = ok n
uuid_or_fault none = err (other "invalid uuid")

abbrev pub instant : String → Result String (Option Stamp)
instant s =
    if str_eq s "t1"
    then ok (some (aware 100))
    else if str_eq s "t2"
    then ok (some (aware 200))
    else if str_eq s "2026-02-30T00:00:00Z"
    then err "day is out of range for month"
    else ok none

abbrev integer_of : Json → Result Fault ℤ
integer_of (int n) = ok n
integer_of v = err (other "invalid integer")

abbrev pub host : Host
host = record {
  text = text_of;
  show_uuid = shown;
  parse_uuid = number_of;
  chr = λ n. some (if n == 65 then "A" else "B");
  float = λ v. ok 0;
  parse_datetime = instant;
  make_aware = λ n. n;
  attribute_error = λ v. "no attribute";
  type_error = λ v. "wrong type";
  uuid_field = λ v. uuid_or_fault (number_of (text_of v));
  char_field = λ n v. ok (text_of v);
  text_field = λ v. ok (text_of v);
  json_field = λ v. ok v;
  integer_field = integer_of;
  float_field = λ v. ok 0;
  duplicate_key = "duplicate key";
  missing_reference = "missing reference";
  no_row_affected = "Save with update_fields did not affect any rows.";
  sign = λ claims. ok "jwt";
  uuid4 = λ n. 100 + n;
  clock = λ n. 1000 + n;
}

abbrev pub env : Env
env = record { host = host; others = λ n d. d }

abbrev pub trip : Trip
trip = record {
  id = 1;
  tenant = 1;
  route = 1;
  seat_map = none;
  internal_id = "DKR-BKO-1";
  scheduled_at = 5_000;
  actual_departure_at = none;
  actual_arrival_at = none;
  status = scheduled;
  total_seats = 50;
  booked_seats = 2;
}

abbrev pub reservation : ℕ → String → ReservationStatus → Reservation
reservation i seat status = record {
  id = i;
  tenant = 1;
  trip = 1;
  passenger = 1;
  seat_label = seat;
  origin_stop = none;
  destination_stop = none;
  status = status;
  amount_xof = pos 15_000;
  payment_method = "cash";
  qr_code_jwt = "";
  boarded_by = none;
  boarded_at = none;
  boarding_method = "";
  special_case_reason = "";
  refusal_reason = "";
  sales_channel = "agency";
}

abbrev pub route_stop : ℕ → ℕ → RouteStop
route_stop i order = record {
  id = i;
  tenant = 1;
  route = 1;
  place = i;
  place_name = "Kaolack";
  stop_order = pos order;
  arrival_offset_minutes = 60;
  departure_offset_minutes = 75;
  offset_minutes = 0;
  is_boarding = true;
  is_alighting = true;
}

abbrev pub db : Db
db = record {
  trips = trip ∷ [];
  trip_stops = [];
  route_stops = route_stop 1 2 ∷ route_stop 2 1 ∷ [];
  passengers = [];
  reservations = reservation 1 "A1" booked ∷ reservation 2 "A2" checked_in ∷ [];
  control_events = [];
  anomalies = [];
  incidents = [];
  cash_entries = [];
  parcels = [];
  controllers = 1 ∷ [];
}

abbrev pub start : State
start = record { db = db; samples = 0; session_trip = none }

abbrev pub session : ControlSession
session = record { id = 1; tenant = 1; trip = 1; controller = 1; controller_user = 1 }

-- a transition of the trip that names it
abbrev pub transition_payload : String → Fields
transition_payload to = field "to_status" (str to) (field "trip_id" (str "1") end)

abbrev pub transition : String → String → String → Fields
transition uuid at to = field "client_uuid" (str uuid) (
    field "event_type" (str "activity_transition")
      (field "created_at_local" (str at) (field "payload" (obj (transition_payload to)) end)))

-- the instance that the handler of a transition sees
abbrev pub moving : Event
moving = record {
  id = 9;
  client_uuid = 7;
  event_type = str "activity_transition";
  target_id = none;
  payload = obj (transition_payload "preparing");
  gps_location = none;
  created_at_local = 100;
}

abbrev pub row : ControlEvent
row = record {
  id = 9;
  tenant = 1;
  session = 1;
  client_uuid = 7;
  event_type = "stop_arrive";
  target_type = "";
  target_id = none;
  payload = obj end;
  status = EventStatus.pending;
  rejection_reason = "";
  rejection_code = "";
  gps_location = none;
  gps_accuracy_m = none;
  created_at_local = 100;
  processed_at = none;
}
