-- ===== src/Voyage/Models.antt =====
-- voyage/models.py and colis/models.py: the rows that offline control events read and write. The
-- columns `created_at` and `updated_at`, and those that no modelled operation touches, are left out.
use toupac.Prelude.{ℕ, String, Bool, true, false, Option, none, some, ◌==◌, if◌then◌else◌, str_eq}
use toupac.Prelude.Int.{ℤ}
use toupac.Json.{Json}

-- Trip.Status
pub data TripStatus : Type 0 where
  scheduled preparing boarding in_transit at_stop arriving completed cancelled : TripStatus

abbrev pub trip_status_text : TripStatus → String
trip_status_text scheduled = "scheduled"
trip_status_text preparing = "preparing"
trip_status_text boarding = "boarding"
trip_status_text in_transit = "in_transit"
trip_status_text at_stop = "at_stop"
trip_status_text arriving = "arriving"
trip_status_text completed = "completed"
trip_status_text cancelled = "cancelled"

-- the member of `Trip.Status.values` that a text is
unfoldable pub trip_status_of : String → Option TripStatus
trip_status_of s =
    if str_eq s "scheduled"
    then some scheduled
    else if str_eq s "preparing"
    then some preparing
    else if str_eq s "boarding"
    then some boarding
    else if str_eq s "in_transit"
    then some in_transit
    else if str_eq s "at_stop"
    then some at_stop
    else if str_eq s "arriving"
    then some arriving
    else if str_eq s "completed"
    then some completed
    else if str_eq s "cancelled"
    then some cancelled
    else none

abbrev trip_status_rank : TripStatus → ℕ
trip_status_rank scheduled = 0
trip_status_rank preparing = 1
trip_status_rank boarding = 2
trip_status_rank in_transit = 3
trip_status_rank at_stop = 4
trip_status_rank arriving = 5
trip_status_rank completed = 6
trip_status_rank cancelled = 7

abbrev pub trip_status_eq : TripStatus → TripStatus → Bool
trip_status_eq a b = trip_status_rank a == trip_status_rank b

-- TripStop.Status
pub data StopStatus : Type 0 where
  pending arrived departed skipped : StopStatus

abbrev pub stop_status_text : StopStatus → String
stop_status_text pending = "pending"
stop_status_text arrived = "arrived"
stop_status_text departed = "departed"
stop_status_text skipped = "skipped"

-- Reservation.Status
pub data ReservationStatus : Type 0 where
  booked checked_in boarded no_show refused cancelled : ReservationStatus

abbrev pub reservation_status_text : ReservationStatus → String
reservation_status_text booked = "booked"
reservation_status_text checked_in = "checked_in"
reservation_status_text boarded = "boarded"
reservation_status_text no_show = "no_show"
reservation_status_text refused = "refused"
reservation_status_text cancelled = "cancelled"

abbrev reservation_status_rank : ReservationStatus → ℕ
reservation_status_rank booked = 0
reservation_status_rank checked_in = 1
reservation_status_rank boarded = 2
reservation_status_rank no_show = 3
reservation_status_rank refused = 4
reservation_status_rank cancelled = 5

abbrev pub reservation_status_eq : ReservationStatus → ReservationStatus → Bool
reservation_status_eq a b = reservation_status_rank a == reservation_status_rank b

-- `status__in=["cancelled", "refused"]`
abbrev pub is_void : ReservationStatus → Bool
is_void refused = true
is_void cancelled = true
is_void _ = false

-- ControlEvent.Status
pub data EventStatus : Type 0 where
  pending processed rejected : EventStatus

abbrev pub is_rejected : EventStatus → Bool
is_rejected rejected = true
is_rejected _ = false

-- Anomaly.Status
pub data AnomalyStatus : Type 0 where
  to_treat in_progress resolved ignored : AnomalyStatus

-- Parcel.Status
pub data ParcelStatus : Type 0 where
  created picked_up in_transit at_hub out_for_delivery delivered returned : ParcelStatus

abbrev pub parcel_status_text : ParcelStatus → String
parcel_status_text created = "created"
parcel_status_text picked_up = "picked_up"
parcel_status_text in_transit = "in_transit"
parcel_status_text at_hub = "at_hub"
parcel_status_text out_for_delivery = "out_for_delivery"
parcel_status_text delivered = "delivered"
parcel_status_text returned = "returned"

-- Point(lng, lat, srid=4326): the bit patterns of two floats
pub record Point : Type 0 where
  pub lng : ℕ
  pub lat : ℕ

pub record RouteStop : Type 0 where
  pub id : ℕ
  pub tenant : ℕ
  pub route : ℕ
  pub place : ℕ
  pub place_name : String
  pub stop_order : ℤ
  pub arrival_offset_minutes : ℕ
  pub departure_offset_minutes : ℕ
  pub offset_minutes : ℕ
  pub is_boarding : Bool
  pub is_alighting : Bool

pub record SeatMap : Type 0 where
  pub id : ℕ
  pub layout : Json

pub record Trip : Type 0 where
  pub id : ℕ
  pub tenant : ℕ
  pub route : ℕ
  pub seat_map : Option SeatMap
  pub internal_id : String
  pub scheduled_at : ℕ
  pub actual_departure_at : Option ℕ
  pub actual_arrival_at : Option ℕ
  pub status : TripStatus
  pub total_seats : ℕ
  pub booked_seats : ℕ

pub record TripStop : Type 0 where
  pub id : ℕ
  pub tenant : ℕ
  pub trip : ℕ
  pub route_stop : ℕ
  pub place : ℕ
  pub stop_order : ℤ
  pub eta : Option ℕ
  pub ata : Option ℕ
  pub atd : Option ℕ
  pub status : StopStatus

pub record Passenger : Type 0 where
  pub id : ℕ
  pub tenant : ℕ
  pub first_name : String
  pub last_name : String
  pub phone : String
  pub deleted_at : Option ℕ

pub record Reservation : Type 0 where
  pub id : ℕ
  pub tenant : ℕ
  pub trip : ℕ
  pub passenger : ℕ
  pub seat_label : String
  pub origin_stop : Option ℕ
  pub destination_stop : Option ℕ
  pub status : ReservationStatus
  pub amount_xof : ℤ
  pub payment_method : String
  pub qr_code_jwt : String
  pub boarded_by : Option ℕ
  pub boarded_at : Option ℕ
  pub boarding_method : String
  pub special_case_reason : String
  pub refusal_reason : String
  pub sales_channel : String

-- the session with its controller and that controller's user
pub record ControlSession : Type 0 where
  pub id : ℕ
  pub tenant : ℕ
  pub trip : ℕ
  pub controller : ℕ
  pub controller_user : ℕ

pub record ControlEvent : Type 0 where
  pub id : ℕ
  pub tenant : ℕ
  pub session : ℕ
  pub client_uuid : ℕ
  pub event_type : String
  pub target_type : String
  pub target_id : Option ℕ
  pub payload : Json
  pub status : EventStatus
  pub rejection_reason : String
  pub rejection_code : String
  pub gps_location : Option Point
  pub gps_accuracy_m : Option ℕ
  pub created_at_local : ℕ
  pub processed_at : Option ℕ

pub record Anomaly : Type 0 where
  pub id : ℕ
  pub tenant : ℕ
  pub session : ℕ
  pub event : ℕ
  pub type : String
  pub severity : String
  pub status : AnomalyStatus
  pub title : String
  pub description : String
  pub target_type : String
  pub target_id : Option ℕ
  pub evidence_urls : Json
  pub resolved_at : Option ℕ
  pub resolution_notes : String
  pub resolved_by : Option ℕ

pub record Incident : Type 0 where
  pub id : ℕ
  pub tenant : ℕ
  pub session : ℕ
  pub trip : ℕ
  pub reporter : ℕ
  pub type : String
  pub severity : String
  pub title : String
  pub description : String
  pub photos_urls : Json
  pub gps_location : Option Point
  pub gps_address : String

pub record CashEntry : Type 0 where
  pub id : ℕ
  pub tenant : ℕ
  pub session : ℕ
  pub reservation : ℕ
  pub amount_xof : ℤ
  pub reason : String
  pub collected_by : ℕ

pub record Parcel : Type 0 where
  pub id : ℕ
  pub tenant : ℕ
  pub tracking_number : String
  pub status : ParcelStatus
