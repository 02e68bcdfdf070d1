-- ===== src/Voyage/Events.antt =====
-- What a handler is given and what it returns (voyage/services/event_processor.py, handlers/).
use toupac.Prelude.{ℕ, String, Bool, true, false, Option, none, some, List, []}
use toupac.Json.{Json, truthy, str}
use toupac.Voyage.Codes.{RejectionCode}
use toupac.Voyage.Models.{Point, Anomaly}
use toupac.Voyage.Host.{Host, integrity}
use toupac.Voyage.Tx.{Env, Tx, pure, fail, lift, fault}

-- the instance of ControlEvent that its handler sees
pub record Event : Type 0 where
  pub id : ℕ
  pub client_uuid : ℕ
  pub event_type : Json
  pub target_id : Option ℕ
  pub payload : Json
  pub gps_location : Option Point
  pub created_at_local : ℕ

-- the compact form of an anomaly in a verdict
pub record AnomalyView : Type 0 where
  pub id : String
  pub type : Json
  pub severity : Json
  pub title : Json
  pub description : Json

-- The dictionary that a handler returns. `extras` are its keys beside the four that are fields.
pub record Report : Type 0 where
  pub accepted : Bool
  pub rejection_reason : Option String
  pub rejection_code : Option RejectionCode
  pub anomaly : Option AnomalyView
  pub extras : List (String × String)

abbrev pub accept : Option AnomalyView → List (String × String) → Report
accept anomaly extras = record {
  accepted = true;
  rejection_reason = none;
  rejection_code = none;
  anomaly = anomaly;
  extras = extras;
}

-- a refusal that keeps what the handler wrote
abbrev pub refuse : RejectionCode → String → Option AnomalyView → Report
refuse code reason anomaly = record {
  accepted = false;
  rejection_reason = some reason;
  rejection_code = some code;
  anomaly = anomaly;
  extras = [];
}

-- `serialize_anomaly` of a stored anomaly
abbrev pub serialize_anomaly : Host → Anomaly → AnomalyView
serialize_anomaly host a = record {
  id = host.show_uuid a.id;
  type = str a.type;
  severity = str a.severity;
  title = str a.title;
  description = str a.description;
}

abbrev pub serialize_option : Host → Option Anomaly → Option AnomalyView
serialize_option host none = none
serialize_option host (some a) = some (serialize_anomaly host a)

-- `payload.get(key) or event.target_id`: a raw value, or the event's own target
pub data Ref : Type 0 where
  raw : Json → Ref
  key : ℕ → Ref

abbrev target_ref : Option ℕ → Option Ref
target_ref none = none
target_ref (some i) = some (key i)

abbrev pub ref_or_target : Json → Option ℕ → Option Ref
ref_or_target v target = elim (truthy v) [ true ↦ some (raw v) | false ↦ target_ref target ]

abbrev pub ref_text : Host → Ref → String
ref_text host (raw v) = host.text v
ref_text host (key i) = host.show_uuid i

unfoldable pub ref_key : Env → Ref → Tx ℕ
ref_key env (raw v) = lift (env.uuid_field v)
ref_key env (key i) = pure i

-- a row that a foreign key guarantees
unfoldable pub related {ℓ} : {A : Type ℓ} → Env → Option A → Tx A
related env (some a) = pure a
related env none = fail (fault (integrity env.missing_reference))
