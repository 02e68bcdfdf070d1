-- ===== src/Voyage/Processor/Frame.antt =====
-- What the processing of an event may write besides the event itself.
use toupac.Prelude.{
  ℕ, String, Bool, true, false, Option, none, some, ◌≡◌, refl, ap, get_or_default, if◌then◌else◌,
}
use mathlib.Core.Path.{subst}
use toupac.Json.{Json, str}
use toupac.Voyage.Models.{ControlSession}
use toupac.Voyage.Db.{Db}
use toupac.Voyage.Tx.{Env, Tx}
use toupac.Voyage.Tx.Moves.{Moves, moves_rules}
use toupac.Voyage.Events.{Event, Report}
use toupac.Voyage.Handlers.Frame.{Business}
use toupac.Voyage.Handlers.Frame.Each.{
  handle_board-Moves, handle_refuse-Moves, handle_special_case-Moves,
  handle_activity_transition-Moves, handle_stop_arrive-Moves, handle_stop_depart-Moves,
  handle_parcel_verify-Moves, handle_parcel_refuse-Moves, handle_incident_create-Moves,
  handle_anomaly_create-Moves, handle_anomaly_resolve-Moves,
}
use toupac.Voyage.Handlers.Frame.Sale.{handle_onboard_sale-Moves}
use toupac.Voyage.Processor.{handler_of, unknown_type, run_handler, dispatch_type, dispatch}

module _ {R : Db → Db → Type 0} (b : Business R) (env : Env) (tenant : ℕ)
    (session : ControlSession) where
  -- every handler that a lookup can give moves along `R`
  record Along (o : Option (Event → Tx Report)) : Type 0 where
    each : (handler : Event → Tx Report) → o ≡ some handler → (e : Event) → Moves R (handler e)

  some-Along :
      (handler : Event → Tx Report) → ((e : Event) → Moves R (handler e)) → Along (some handler)
  some-Along handler h = record {
    each = λ g p e. subst (λ k. Moves R (k e)) (ap (λ o. get_or_default o handler) p) (h e);
  }

  none-Along : Along none
  none-Along = record { each = λ g p e. cc }

  if-Along :
      (c : Bool) (o p : Option (Event → Tx Report)) → Along o → Along p → Along (if c then o else p)
  if-Along true o p h k = h
  if-Along false o p h k = k

  handler_of-Along : (t : String) → Along (handler_of env tenant session t)
  unfolding handler_of
  handler_of-Along t =
      search
        (
          if-Along,
          some-Along,
          none-Along,
          handle_board-Moves b env tenant session,
          handle_refuse-Moves b env tenant session,
          handle_special_case-Moves b env tenant session,
          handle_onboard_sale-Moves b env tenant session,
          handle_anomaly_create-Moves b env tenant session,
          handle_anomaly_resolve-Moves b env tenant session,
          handle_incident_create-Moves b env tenant session,
          handle_activity_transition-Moves b env tenant session,
          handle_parcel_verify-Moves b env tenant session,
          handle_parcel_refuse-Moves b env tenant session,
          handle_stop_arrive-Moves b env tenant session,
          handle_stop_depart-Moves b env tenant session,
        )
        depth 30

  unknown_type-Moves : (v : Json) → Moves R (unknown_type env tenant session v)
  unfolding unknown_type
  unknown_type-Moves v = search (moves_rules, b.order)

  run_handler-Moves :
      (o : Option (Event → Tx Report)) (event : Event)
      → Along o
      → Moves R (run_handler env tenant session o event)
  unfolding run_handler
  run_handler-Moves none event h = unknown_type-Moves event.event_type
  run_handler-Moves (some handler) event h = h.each handler refl event

  dispatch_type-Moves :
      (v : Json) (event : Event) → Moves R (dispatch_type env tenant session v event)
  unfolding dispatch_type
  dispatch_type-Moves (str t) event = run_handler-Moves _ event (handler_of-Along t)
  dispatch_type-Moves _ event = search (moves_rules, b.order, unknown_type-Moves)

  -- A relation along the business writes holds along the handler of any event.
  pub dispatch-Moves : (event : Event) → Moves R (dispatch env tenant session event)
  unfolding dispatch
  dispatch-Moves event = dispatch_type-Moves event.event_type event
