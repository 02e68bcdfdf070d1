-- ===== src/Voyage/Processor.antt =====
-- voyage/services/event_processor.py: BatchEventProcessor.
pub mod Frame
pub mod Archive
pub mod Outcome
pub mod Replay
pub mod Uniqueness
pub mod Moves
pub mod Seats
use toupac.Prelude.{
  ℕ, String, Bool, ◌||◌, Option, none, some, List, [], ◌∷◌, ◌++◌, any, update_where, ◌==◌,
  if◌then◌else◌, get_or_default, str_eq,
}
use toupac.Prelude.Text.{concat, slice_to}
use toupac.Json.{Json, Fields, obj, str, get, is_unhashable}
use toupac.Voyage.Codes.{
  RejectionCode, malformed_event, invalid_client_uuid, unknown_event_type, internal_error,
  unprocessable_event, code_text,
}
use toupac.Voyage.Models.{ControlEvent, EventStatus, ControlSession}
use toupac.Voyage.Host.{Result, ok, err, Fault, integrity, other}
use toupac.Voyage.Db.{find_event, is_event}
use toupac.Voyage.Tx.{
  Env, Failure, rejection, fault, Tx, pure, fail, gets, lift, reject, fault_if, modify, now, new_id,
  nullable, attempt, savepoint, transaction, interleave, ◌>>=◌, ◌>>◌,
}
use toupac.Voyage.Events.{Event, Report, refuse}
use toupac.Voyage.Drafts.{Draft, Stop, refused, escaped, check_event}
use toupac.Voyage.Verdicts.{
  Verdict, refused_verdict, raw_uuid_text, bare_duplicate, duplicate_verdict, detail_keys,
  report_verdict,
}
use toupac.Voyage.Handlers.Boarding.{handle_board, handle_refuse, handle_special_case}
use toupac.Voyage.Handlers.Transitions.{handle_activity_transition}
use toupac.Voyage.Handlers.Stops.{handle_stop_arrive, handle_stop_depart}
use toupac.Voyage.Handlers.Parcels.{handle_parcel_verify, handle_parcel_refuse}
use toupac.Voyage.Handlers.Incidents.{handle_incident_create}
use toupac.Voyage.Handlers.Resolutions.{handle_anomaly_create, handle_anomaly_resolve}
use toupac.Voyage.Handlers.Sales.{handle_onboard_sale}

module _ (env : Env) (tenant : ℕ) (session : ControlSession) where
  -- EVENT_HANDLERS
  unfoldable pub handler_of : String → Option (Event → Tx Report)
  handler_of t =
      if str_eq t "reservation_board"
      then some (handle_board env tenant session)
      else if str_eq t "reservation_refuse"
      then some (handle_refuse env tenant session)
      else if str_eq t "reservation_special_case"
      then some (handle_special_case env tenant session)
      else if str_eq t "onboard_sale"
      then some (handle_onboard_sale env tenant session)
      else if str_eq t "anomaly_create"
      then some (handle_anomaly_create env tenant session)
      else if str_eq t "anomaly_resolve"
      then some (handle_anomaly_resolve env tenant session)
      else if str_eq t "incident_create"
      then some (handle_incident_create env tenant session)
      else if str_eq t "activity_transition"
      then some (handle_activity_transition env tenant session)
      else if str_eq t "parcel_verify"
      then some (handle_parcel_verify env tenant session)
      else if str_eq t "parcel_refuse"
      then some (handle_parcel_refuse env tenant session)
      else if str_eq t "stop_arrive"
      then some (handle_stop_arrive env tenant session)
      else if str_eq t "stop_depart"
      then some (handle_stop_depart env tenant session)
      else none

  unfoldable pub unknown_type : Json → Tx Report
  unknown_type v = reject unknown_event_type (concat ("Type d'event inconnu : " ∷ env.text v ∷ []))

  run_handler : Option (Event → Tx Report) → Event → Tx Report
  run_handler none event = unknown_type event.event_type
  run_handler (some handler) event = handler event

  dispatch_type : Json → Event → Tx Report
  dispatch_type (str t) event = run_handler (handler_of t) event
  dispatch_type v event =
      if is_unhashable v then fail (fault (other (env.type_error v))) else unknown_type v

  -- _dispatch
  unfoldable pub dispatch : Event → Tx Report
  unfolding dispatch_type run_handler
  dispatch event = dispatch_type event.event_type event

  -- the row of a new event, still pending
  abbrev pub pending_event : ℕ → Draft → String → String → Option ℕ → ℕ → ControlEvent
  pending_event client_uuid draft event_type target_type accuracy i = record {
    id = i;
    tenant = tenant;
    session = session.id;
    client_uuid = client_uuid;
    event_type = event_type;
    target_type = target_type;
    target_id = draft.target_id;
    payload = draft.payload;
    status = EventStatus.pending;
    rejection_reason = "";
    rejection_code = "";
    gps_location = draft.gps_location;
    gps_accuracy_m = accuracy;
    created_at_local = draft.created_at_local;
    processed_at = none;
  }

  -- a row that `unique_control_event_client_uuid` or the primary key does not allow beside `e`
  abbrev pub event_clash : ControlEvent → ControlEvent → Bool
  event_clash e old = old.id == e.id || is_event e.tenant e.client_uuid old

  -- `ControlEvent.objects.create(...)`
  unfoldable pub insert_event : ControlEvent → Tx (Unit {0})
  insert_event e = do
    taken ← gets (λ s. any (event_clash e) s.db.control_events)
    fault_if taken (integrity env.duplicate_key)
    modify (λ db. record db { control_events = db.control_events ++ e ∷ [] })

  abbrev event_of : ℕ → ℕ → Draft → Event
  event_of i client_uuid draft = record {
    id = i;
    client_uuid = client_uuid;
    event_type = draft.event_type;
    target_id = draft.target_id;
    payload = draft.payload;
    gps_location = draft.gps_location;
    created_at_local = draft.created_at_local;
  }

  unfoldable pub create_event : ℕ → Draft → Tx Event
  create_event client_uuid draft = do
    event_type ← lift (env.char_field 30 draft.event_type)
    target_type ← lift (env.char_field 30 draft.target_type)
    accuracy ← nullable env.float_field draft.gps_accuracy_m
    i ← new_id env
    insert_event (pending_event client_uuid draft event_type target_type accuracy i)
    pure (event_of i client_uuid draft)

  abbrev fault_text : Fault → String
  fault_text (integrity message) = message
  fault_text (other message) = message

  -- the result of a handler, an exception made a refusal
  abbrev pub report_of : Result Failure Report → Report
  report_of (ok report) = report
  report_of (err (rejection code message)) = refuse code message none
  report_of (err (fault e)) =
      refuse internal_error (concat ("Erreur interne : " ∷ fault_text e ∷ [])) none

  abbrev code_or_empty : Option RejectionCode → String
  code_or_empty none = ""
  code_or_empty (some code) = code_text code

  -- the columns of `event.save` after its handler
  abbrev pub settled : Report → ℕ → ControlEvent → ControlEvent
  settled report at e = record e {
    status = if report.accepted then EventStatus.processed else EventStatus.rejected;
    rejection_reason = slice_to 200 (get_or_default report.rejection_reason "");
    rejection_code = slice_to 50 (code_or_empty report.rejection_code);
    processed_at = some at;
  }

  unfoldable pub settle_event : ℕ → Report → Tx (Unit {0})
  settle_event i report = do
    at ← now env
    modify (λ db. record db {
      control_events = update_where (λ e. e.id == i) (settled report at) db.control_events;
    })

  -- the body of the outer transaction
  unfoldable pub archive : ℕ → Draft → Tx Report
  archive client_uuid draft = do
    event ← create_event client_uuid draft
    outcome ← attempt (savepoint (dispatch event))
    settle_event event.id (report_of outcome)
    pure (report_of outcome)

  -- `VERDICT_DETAIL_KEYS.get(event_type, ())`
  details_of : Json → Tx (List String)
  details_of (str t) = pure (detail_keys t)
  details_of v = if is_unhashable v then fail (fault (other (env.type_error v))) else pure []

  duplicate_or_bare : String → Option ControlEvent → Verdict
  duplicate_or_bare client_uuid (some e) = duplicate_verdict client_uuid e
  duplicate_or_bare client_uuid none = bare_duplicate client_uuid none

  unprocessable : String → String → Verdict
  unprocessable client_uuid message =
      refused_verdict (some client_uuid) unprocessable_event
        (concat ("Event inexploitable : " ∷ message ∷ []))

  abbrev failure_text : Failure → String
  failure_text (rejection code message) = message
  failure_text (fault e) = fault_text e

  -- the verdict after the outer transaction, or its handlers of exceptions
  unfoldable pub conclude : ℕ → Draft → Result Failure Report → Tx Verdict
  unfolding details_of duplicate_or_bare unprocessable
  conclude client_uuid draft (ok report) = do
    keys ← details_of draft.event_type
    pure (report_verdict (env.show_uuid client_uuid) keys report)
  conclude client_uuid draft (err (fault (integrity message))) = do
    racing ← gets (λ s. find_event tenant client_uuid s.db)
    pure (duplicate_or_bare (env.show_uuid client_uuid) racing)
  conclude client_uuid draft (err e) =
      pure (unprocessable (env.show_uuid client_uuid) (failure_text e))

  -- an event whose fields have passed, other transactions running in between
  unfoldable pub process_draft : ℕ → Draft → Tx Verdict
  process_draft client_uuid draft = do
    interleave env
    outcome ← attempt (transaction env (archive client_uuid draft))
    conclude client_uuid draft outcome

  checked : ℕ → Result Stop Draft → Tx Verdict
  checked client_uuid (ok draft) = process_draft client_uuid draft
  checked client_uuid (err (refused code message)) =
      pure (refused_verdict (some (env.show_uuid client_uuid)) code message)
  checked client_uuid (err (escaped message)) = fail (fault (other message))

  known_or_new : ℕ → Fields → Option ControlEvent → Tx Verdict
  known_or_new client_uuid event (some e) = pure (duplicate_verdict (env.show_uuid client_uuid) e)
  known_or_new client_uuid event none = checked client_uuid (check_event env.host event)

  -- an event with a client's identifier
  unfoldable pub process_identified : ℕ → Fields → Tx Verdict
  unfolding known_or_new checked
  process_identified client_uuid event = do
    existing ← gets (λ s. find_event tenant client_uuid s.db)
    known_or_new client_uuid event existing

  identified : Json → Option ℕ → Fields → Tx Verdict
  identified raw (some client_uuid) event = process_identified client_uuid event
  identified raw none event = pure (
      refused_verdict (raw_uuid_text env.host raw) invalid_client_uuid
        "client_uuid manquant ou invalide.")

  -- _process_single_event
  unfoldable pub process_single_event : Json → Tx Verdict
  unfolding identified
  process_single_event (obj event) =
      identified (get event "client_uuid") (env.parse_uuid (env.text (get event "client_uuid")))
        event
  process_single_event v =
      pure (refused_verdict none malformed_event "Event mal formé (objet attendu).")

  unfoldable pub process_all : List Json → Tx (List Verdict)
  process_all [] = pure []
  process_all (event ∷ events) = do
    verdict ← process_single_event event
    verdicts ← process_all events
    pure (verdict ∷ verdicts)
