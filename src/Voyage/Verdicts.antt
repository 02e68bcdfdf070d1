-- ===== src/Voyage/Verdicts.antt =====
-- voyage/services/event_processor.py: the verdict of an event, `_verdict`, `_duplicate_verdict` and
-- `_details_for`.
use toupac.Prelude.{String, Option, none, some, List, [], ◌∷◌, if◌then◌else◌, str_eq}
use toupac.Prelude.Text.{is_empty}
use toupac.Json.{Json, truthy}
use toupac.Voyage.Codes.{RejectionCode, code_text}
use toupac.Voyage.Host.{Host}
use toupac.Voyage.Models.{ControlEvent, EventStatus}
use toupac.Voyage.Events.{Report, AnomalyView}

pub data VerdictStatus : Type 0 where
  accepted rejected duplicate : VerdictStatus

-- `original_status` of a duplicate
pub data OriginalStatus : Type 0 where
  accepted rejected pending : OriginalStatus

-- `none` and an empty list stand for a key that the verdict does not have.
pub record Verdict : Type 0 where
  pub client_uuid : Option String
  pub status : VerdictStatus
  pub anomaly : Option AnomalyView
  pub original_status : Option OriginalStatus
  pub rejection_reason : Option String
  pub rejection_code : Option String
  pub details : List (String × String)

-- `if text:`
abbrev non_empty : Option String → Option String
non_empty none = none
non_empty (some s) = if is_empty s then none else some s

abbrev code_of : Option RejectionCode → Option String
code_of none = none
code_of (some code) = some (code_text code)

-- a verdict of the batch layer on an event that no handler sees
abbrev pub refused_verdict : Option String → RejectionCode → String → Verdict
refused_verdict client_uuid code reason = record {
  client_uuid = client_uuid;
  status = VerdictStatus.rejected;
  anomaly = none;
  original_status = none;
  rejection_reason = non_empty (some reason);
  rejection_code = some (code_text code);
  details = [];
}

-- `str(client_uuid) if client_uuid else None` of a raw value
abbrev pub raw_uuid_text : Host → Json → Option String
raw_uuid_text host v = if truthy v then some (host.text v) else none

abbrev pub bare_duplicate : String → Option OriginalStatus → Verdict
bare_duplicate client_uuid original = record {
  client_uuid = some client_uuid;
  status = duplicate;
  anomaly = none;
  original_status = original;
  rejection_reason = none;
  rejection_code = none;
  details = [];
}

abbrev pub duplicate_of : String → EventStatus → String → String → Verdict
duplicate_of client_uuid EventStatus.processed reason code =
    bare_duplicate client_uuid (some OriginalStatus.accepted)
duplicate_of client_uuid EventStatus.rejected reason code =
    record (bare_duplicate client_uuid (some OriginalStatus.rejected)) {
      rejection_reason = non_empty (some reason);
      rejection_code = non_empty (some code);
    }
duplicate_of client_uuid EventStatus.pending reason code =
    bare_duplicate client_uuid (some OriginalStatus.pending)

-- _duplicate_verdict
unfoldable pub duplicate_verdict : String → ControlEvent → Verdict
duplicate_verdict client_uuid e =
    duplicate_of client_uuid e.status e.rejection_reason e.rejection_code

-- VERDICT_DETAIL_KEYS, of the texts that are event types
abbrev pub detail_keys : String → List String
detail_keys t =
    if str_eq t "reservation_board"
    then "reservation_id" ∷ "reservation_status" ∷ "trip_status" ∷ []
    else if str_eq t "reservation_refuse"
    then "reservation_id" ∷ "reservation_status" ∷ []
    else if str_eq t "reservation_special_case"
    then "reservation_id" ∷ "reservation_status" ∷ []
    else if str_eq t "onboard_sale"
    then "reservation_id" ∷ "passenger_id" ∷ "cash_entry_id" ∷ "origin_stop_id"
      ∷ "destination_stop_id" ∷ "reservation_status" ∷ "trip_status" ∷ "qr_code_jwt" ∷ []
    else if str_eq t "incident_create"
    then "incident_id" ∷ []
    else if str_eq t "activity_transition"
    then "trip_id" ∷ "trip_status" ∷ []
    else if str_eq t "parcel_verify"
    then "parcel_id" ∷ "parcel_status" ∷ []
    else if str_eq t "parcel_refuse"
    then "parcel_id" ∷ []
    else if str_eq t "stop_arrive"
    then "stop_id" ∷ "stop_status" ∷ []
    else if str_eq t "stop_depart"
    then "stop_id" ∷ "stop_status" ∷ []
    else []

unfoldable pub extra : String → List (String × String) → Option String
extra k [] = none
extra k ((j, v) ∷ rest) = if str_eq j k then some v else extra k rest

abbrev pub with_extra : String → Option String → List (String × String) → List (String × String)
with_extra k none rest = rest
with_extra k (some v) rest = (k, v) ∷ rest

-- the comprehension of _details_for
unfoldable pub details_among : List String → List (String × String) → List (String × String)
unfolding extra
details_among [] extras = []
details_among (k ∷ ks) extras = with_extra k (extra k extras) (details_among ks extras)

-- the verdict of an event that a handler has seen
unfoldable pub report_verdict : String → List String → Report → Verdict
report_verdict client_uuid keys report = record {
  client_uuid = some client_uuid;
  status = if report.accepted then VerdictStatus.accepted else VerdictStatus.rejected;
  anomaly = report.anomaly;
  original_status = none;
  rejection_reason = non_empty report.rejection_reason;
  rejection_code = code_of report.rejection_code;
  details = details_among keys report.extras;
}
