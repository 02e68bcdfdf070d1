-- ===== src/Voyage/Drafts.antt =====
-- voyage/services/event_processor.py: the fields of a raw event, checked in the code's order before
-- anything is written (`_parse_datetime`, `_parse_point`, `_parse_uuid`, `_sort_key`).
use toupac.Prelude.{ℕ, String, Option, none, some, if◌then◌else◌, get_or_default}
use toupac.Prelude.Text.{is_empty}
use toupac.Json.{Json, Fields, end, null, str, obj, get, or_value, truthy}
use toupac.Voyage.Codes.{
  RejectionCode, missing_event_type, invalid_created_at, invalid_gps, invalid_target_id,
}
use toupac.Voyage.Host.{
  Host, FloatError, no_number, too_large, Stamp, naive, aware, Result, ok, err,
}
use toupac.Voyage.Models.{Point}

-- A verdict of the batch layer, or an exception that nothing on the way catches.
pub data Stop : Type 0 where
  refused : RejectionCode → String → Stop
  escaped : String → Stop

infixl 5 ◌>>=◌
abbrev ◌>>=◌ {ℓ κ} : {A : Type ℓ} {B : Type κ} → Result Stop A → (A → Result Stop B) → Result Stop B
ok a >>= f = f a
err e >>= f = err e

abbrev needed {ℓ} : {A : Type ℓ} → Option A → RejectionCode → String → Result Stop A
needed (some a) code message = ok a
needed none code message = err (refused code message)

-- `timezone.make_aware` where the instant is naive
abbrev pub instant_of : Host → Option Stamp → Option ℕ
instant_of host none = none
instant_of host (some (naive t)) = some (host.make_aware t)
instant_of host (some (aware t)) = some t

abbrev pub parsed_instant : Host → Result String (Option Stamp) → Result String (Option ℕ)
parsed_instant host (ok stamp) = ok (instant_of host stamp)
parsed_instant host (err e) = err e

-- `_parse_datetime`; a value that is no text is no `datetime` either
unfoldable pub parse_instant : Host → Json → Result String (Option ℕ)
parse_instant host (str s) =
    if is_empty s then ok none else parsed_instant host (host.parse_datetime s)
parse_instant host v = ok none

-- `datetime.max` in UTC
abbrev pub far_future : ℕ
far_future = 315_537_897_599_999_999

abbrev key_of : Result String (Option ℕ) → Result String ℕ
key_of (ok at) = ok (get_or_default at far_future)
key_of (err e) = err e

-- `_sort_key`
unfoldable pub sort_key : Host → Json → Result String ℕ
sort_key host (obj event) = key_of (parse_instant host (get event "created_at_local"))
sort_key host v = ok far_future

-- `except (TypeError, ValueError, KeyError)`, which lets an overflow through
abbrev unreadable : FloatError → Stop
unreadable no_number = refused invalid_gps "gps_location invalide."
unreadable (too_large e) = escaped e

abbrev point_of : Result FloatError ℕ → Result FloatError ℕ → Result Stop (Option Point)
point_of (ok lng) (ok lat) = ok (some (record { lng = lng; lat = lat }))
point_of (ok lng) (err e) = err (unreadable e)
point_of (err e) lat = err (unreadable e)

abbrev point_at : Host → Json → Result Stop (Option Point)
point_at host (obj gps) = point_of (coordinate "lng") (coordinate "lat")
  where
    -- `float(gps[key])`; a missing key raises `KeyError`, as `float(None)` raises `TypeError`
    coordinate : String → Result FloatError ℕ
    coordinate key = elim (get gps key) [ null ↦ err no_number | _ ↦ host.float (get gps key) ]
point_at host v = err (refused invalid_gps "gps_location invalide.")

-- `_parse_point`, with the handler around its call
unfoldable pub parse_point : Host → Json → Result Stop (Option Point)
parse_point host v = if truthy v then point_at host v else ok none

abbrev some_uuid : Option ℕ → Result Stop (Option ℕ)
some_uuid (some i) = ok (some i)
some_uuid none = err (refused invalid_target_id "target_id invalide.")

-- `_parse_uuid`, its exception caught
unfoldable pub parse_target : Host → Json → Result Stop (Option ℕ)
parse_target host null = ok none
parse_target host (str s) = if is_empty s then ok none else some_uuid (host.parse_uuid s)
parse_target host v = some_uuid (host.parse_uuid (host.text v))

-- an event whose fields have passed
pub record Draft : Type 0 where
  pub event_type : Json
  pub created_at_local : ℕ
  pub gps_location : Option Point
  pub target_id : Option ℕ
  pub target_type : Json
  pub payload : Json
  pub gps_accuracy_m : Json

abbrev instant_or_stop : Result String (Option ℕ) → Result Stop ℕ
instant_or_stop (ok at) = needed at invalid_created_at "created_at_local manquant ou invalide."
instant_or_stop (err e) = err (escaped e)

abbrev type_or_stop : Json → Result Stop Json
type_or_stop v = if truthy v then ok v else err (refused missing_event_type "event_type manquant.")

-- the guards of `_process_single_event` behind the idempotence check
unfoldable pub check_event : Host → Fields → Result Stop Draft
check_event host event = do
  event_type ← type_or_stop (get event "event_type")
  created_at_local ← instant_or_stop (parse_instant host (get event "created_at_local"))
  gps_location ← parse_point host (get event "gps_location")
  target_id ← parse_target host (get event "target_id")
  ok (record {
    event_type = event_type;
    created_at_local = created_at_local;
    gps_location = gps_location;
    target_id = target_id;
    target_type = or_value (get event "target_type") (str "");
    payload = or_value (get event "payload") (obj end);
    gps_accuracy_m = get event "gps_accuracy_m";
  })
