-- ===== src/Voyage/Tests/Processing.antt =====
-- The processing of events, on the small company of the tests.
use toupac.Prelude.{String, ◌≤◌, ◌++◌, ◌≡◌, refl, true, none, some, List, [], ◌∷◌}
use toupac.Json.{Json, obj, str}
use toupac.Voyage.Host.{Result, ok, err, other}
use toupac.Voyage.Tx.{State, Failure, fault, ◌>>=◌}
use toupac.Voyage.Verdicts.{Verdict, VerdictStatus, OriginalStatus, bare_duplicate, refused_verdict}
use toupac.Prelude.Text.{slice_to, char_count}
use toupac.Voyage.Codes.{stop_not_found, invalid_client_uuid, malformed_event}
use toupac.Voyage.Db.{seats_unique}
use toupac.Voyage.Events.{Report, refuse}
use toupac.Voyage.Models.{trip_status_of}
use toupac.Voyage.Verdicts.{report_verdict, details_among, extra}
use toupac.Voyage.Drafts.{check_event, sort_key, parse_instant, parse_point, parse_target}
use toupac.Voyage.Session.{trip_or_session, named_trip, remember_trip}
use toupac.Voyage.Signals.{save_trip, save_over, cascade_reservations}
use toupac.Voyage.Handlers.Transitions.{move_trip, handle_activity_transition}
use toupac.Voyage.Processor.{
  process_single_event, process_identified, process_draft, conclude, archive, create_event,
  insert_event, settle_event, dispatch, handler_of, settled, process_all,
}
use toupac.Voyage.Batch.{keyed, ordered, process_batch}
use toupac.Voyage.Batch.Order.{IsOrdered, ordered-IsOrdered}
use toupac.Voyage.Batch.Escape.{unreadable_instant-escapes}
use toupac.Voyage.Processor.Replay.{accepted_then_duplicate}
use toupac.Voyage.Processor.Archive.{settled-fits, dispatch-protects}
use toupac.Voyage.Processor.Uniqueness.{
  AllOrNothing, client_uuids_unique, process_single_event-AllOrNothing, process_all_unique,
}
use toupac.Voyage.Processor.Seats.{process_all-seats_unique}
use toupac.Voyage.Tests.World.{env, host, start, session, transition, moving, row}

abbrev first_pass : Result Failure Verdict × State
first_pass = process_single_event env 1 session (obj (transition "7" "t1" "preparing")) start

abbrev prepared : Verdict
prepared = record {
  client_uuid = some "7";
  status = VerdictStatus.accepted;
  anomaly = none;
  original_status = none;
  rejection_reason = none;
  rejection_code = none;
  details = ("trip_id", "1") ∷ ("trip_status", "preparing") ∷ [];
}

accepted_then_duplicate_example :
    process_single_event env 1 session (obj (transition "7" "t2" "boarding")) first_pass.1
    ≡ (ok (bare_duplicate "7" (some OriginalStatus.accepted)), first_pass.1)
unfolding process_single_event process_identified ◌>>=◌ check_event parse_instant parse_point
    parse_target process_draft conclude archive create_event insert_event settle_event dispatch
    handler_of handle_activity_transition trip_status_of trip_or_session named_trip move_trip
    remember_trip save_trip save_over cascade_reservations extra details_among report_verdict
    slice_to
accepted_then_duplicate_example =
    accepted_then_duplicate env 1 session (transition "7" "t1" "preparing")
      (transition "7" "t2" "boarding") 7 start prepared first_pass.1 first_pass.1 refl refl refl
      refl refl

process_single_event-AllOrNothing_example :
    AllOrNothing env 1 session start
      (process_single_event env 1 session (obj (transition "7" "t1" "completed")) start).1
process_single_event-AllOrNothing_example =
    process_single_event-AllOrNothing env 1 session (obj (transition "7" "t1" "completed")) start

abbrev two_events : List Json
two_events = obj (transition "7" "t2" "boarding") ∷ obj (transition "2" "t1" "preparing") ∷ []

process_all_unique_example :
    client_uuids_unique (process_all env 1 session two_events start).1.db.control_events ≡ true
process_all_unique_example = process_all_unique env 1 session two_events start (λ n d h. h) refl

process_all-seats_unique_example :
    seats_unique (process_all env 1 session two_events start).1.db.reservations ≡ true
process_all-seats_unique_example =
    process_all-seats_unique env 1 session two_events start (λ n d h. h) refl

dispatch-protects_example :
    ((dispatch env 1 session moving start).1.db.control_events ≡ start.db.control_events)
    × ((dispatch env 1 session moving start).1.db.route_stops ≡ start.db.route_stops)
    × ((dispatch env 1 session moving start).1.db.controllers ≡ start.db.controllers)
dispatch-protects_example = dispatch-protects env 1 session moving start

abbrev long_refusal : Report
long_refusal = refuse stop_not_found "TripStop 9 inconnu du voyage 1." none

settled-fits_example :
    (char_count (settled env 1 session long_refusal 5 row).rejection_reason ≤ 200)
    × (char_count (settled env 1 session long_refusal 5 row).rejection_code ≤ 50)
settled-fits_example = settled-fits env 1 session long_refusal 5 row

ordered-IsOrdered_example :
    IsOrdered host two_events
      (obj (transition "2" "t1" "preparing") ∷ obj (transition "7" "t2" "boarding") ∷ [])
unfolding ordered keyed sort_key parse_instant
ordered-IsOrdered_example =
    ordered-IsOrdered host two_events
      (obj (transition "2" "t1" "preparing") ∷ obj (transition "7" "t2" "boarding") ∷ []) refl

abbrev with_noise : List Json
with_noise = str "noise" ∷ obj (transition "x" "t1" "preparing") ∷ []

abbrev verdicts : List Verdict
verdicts =
    refused_verdict (some "x") invalid_client_uuid "client_uuid manquant ou invalide."
    ∷ refused_verdict none malformed_event "Event mal formé (objet attendu)."
    ∷ []

abbrev undated : Json
undated = obj (transition "7" "2026-02-30T00:00:00Z" "preparing")

unreadable_instant-escapes_example :
    (m : String) × (process_batch env 1 session (two_events ++ undated ∷ []) start
      ≡ (err (fault (other m)), start))
unfolding sort_key parse_instant
unreadable_instant-escapes_example =
    unreadable_instant-escapes env 1 session two_events [] undated "day is out of range for month"
      start refl
