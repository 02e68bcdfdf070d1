-- ===== src/Voyage/Codes.antt =====
-- voyage/services/exceptions.py: the stable motives of a refused event.
use toupac.Prelude.{String}

pub data RejectionCode : Type 0 where
  malformed_event : RejectionCode
  invalid_client_uuid : RejectionCode
  missing_event_type : RejectionCode
  invalid_created_at : RejectionCode
  invalid_gps : RejectionCode
  invalid_target_id : RejectionCode
  unknown_event_type : RejectionCode
  internal_error : RejectionCode
  unprocessable_event : RejectionCode
  missing_reservation_id : RejectionCode
  reservation_not_found : RejectionCode
  reservation_not_boardable : RejectionCode
  missing_seat_label : RejectionCode
  missing_amount : RejectionCode
  missing_passenger_data : RejectionCode
  invalid_seat_label : RejectionCode
  seat_already_taken : RejectionCode
  invalid_payment_method : RejectionCode
  missing_origin_stop : RejectionCode
  missing_destination_stop : RejectionCode
  invalid_origin_stop : RejectionCode
  invalid_destination_stop : RejectionCode
  invalid_stop_order : RejectionCode
  boarding_not_allowed_at_stop : RejectionCode
  alighting_not_allowed_at_stop : RejectionCode
  missing_anomaly_id : RejectionCode
  anomaly_not_found : RejectionCode
  missing_parcel_id : RejectionCode
  parcel_not_found : RejectionCode
  missing_stop_id : RejectionCode
  stop_not_found : RejectionCode
  missing_to_status : RejectionCode
  invalid_trip_status : RejectionCode
  transition_not_allowed : RejectionCode
  trip_not_in_session : RejectionCode
  trip_not_found : RejectionCode
  missing_title : RejectionCode

-- `str(code)`
abbrev pub code_text : RejectionCode → String
code_text malformed_event = "MALFORMED_EVENT"
code_text invalid_client_uuid = "INVALID_CLIENT_UUID"
code_text missing_event_type = "MISSING_EVENT_TYPE"
code_text invalid_created_at = "INVALID_CREATED_AT"
code_text invalid_gps = "INVALID_GPS"
code_text invalid_target_id = "INVALID_TARGET_ID"
code_text unknown_event_type = "UNKNOWN_EVENT_TYPE"
code_text internal_error = "INTERNAL_ERROR"
code_text unprocessable_event = "UNPROCESSABLE_EVENT"
code_text missing_reservation_id = "MISSING_RESERVATION_ID"
code_text reservation_not_found = "RESERVATION_NOT_FOUND"
code_text reservation_not_boardable = "RESERVATION_NOT_BOARDABLE"
code_text missing_seat_label = "MISSING_SEAT_LABEL"
code_text missing_amount = "MISSING_AMOUNT"
code_text missing_passenger_data = "MISSING_PASSENGER_DATA"
code_text invalid_seat_label = "INVALID_SEAT_LABEL"
code_text seat_already_taken = "SEAT_ALREADY_TAKEN"
code_text invalid_payment_method = "INVALID_PAYMENT_METHOD"
code_text missing_origin_stop = "MISSING_ORIGIN_STOP"
code_text missing_destination_stop = "MISSING_DESTINATION_STOP"
code_text invalid_origin_stop = "INVALID_ORIGIN_STOP"
code_text invalid_destination_stop = "INVALID_DESTINATION_STOP"
code_text invalid_stop_order = "INVALID_STOP_ORDER"
code_text boarding_not_allowed_at_stop = "BOARDING_NOT_ALLOWED_AT_STOP"
code_text alighting_not_allowed_at_stop = "ALIGHTING_NOT_ALLOWED_AT_STOP"
code_text missing_anomaly_id = "MISSING_ANOMALY_ID"
code_text anomaly_not_found = "ANOMALY_NOT_FOUND"
code_text missing_parcel_id = "MISSING_PARCEL_ID"
code_text parcel_not_found = "PARCEL_NOT_FOUND"
code_text missing_stop_id = "MISSING_STOP_ID"
code_text stop_not_found = "STOP_NOT_FOUND"
code_text missing_to_status = "MISSING_TO_STATUS"
code_text invalid_trip_status = "INVALID_TRIP_STATUS"
code_text transition_not_allowed = "TRANSITION_NOT_ALLOWED"
code_text trip_not_in_session = "TRIP_NOT_IN_SESSION"
code_text trip_not_found = "TRIP_NOT_FOUND"
code_text missing_title = "MISSING_TITLE"
