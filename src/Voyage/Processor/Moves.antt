-- ===== src/Voyage/Processor/Moves.antt =====
-- What the processing of a batch may write: a relation along the writes of each table, and along
-- what other transactions commit, holds along the processing of any list of events.
use toupac.Prelude.{ℕ, Option, none, some, List, [], ◌∷◌}
use toupac.Json.{Json, Fields, obj, str, get}
use toupac.Voyage.Models.{ControlSession, ControlEvent}
use toupac.Voyage.Host.{Result, ok, err, integrity, other}
use toupac.Voyage.Db.{Db}
use toupac.Voyage.Tx.{Env, Failure, rejection, fault, interleave}
use toupac.Voyage.Tx.Moves.{Moves, Moves-interleave, moves_rules}
use toupac.Voyage.Events.{Report}
use toupac.Voyage.Drafts.{Draft, Stop, refused, escaped}
use toupac.Voyage.Handlers.Frame.{Business}
use toupac.Voyage.Processor.{
  insert_event, create_event, settle_event, archive, details_of, conclude, process_draft, checked,
  known_or_new, process_identified, identified, process_single_event, process_all,
}
use toupac.Voyage.Processor.Frame.{dispatch-Moves}

-- `R` holds along a write of any table that the processing writes, and between two statements.
pub record Everything (R : Db → Db → Type 0) (env : Env) : Type 0 where
  pub business : Business R
  pub events : (d : Db) (xs : List ControlEvent) → R d (record d { control_events = xs })
  pub others : (n : ℕ) (d : Db) → R d (env.others n d)

module _ {R : Db → Db → Type 0} (env : Env) (e : Everything R env) (tenant : ℕ)
    (session : ControlSession) where
  create_event-Moves : (u : ℕ) (draft : Draft) → Moves R (create_event env tenant session u draft)
  unfolding create_event insert_event
  create_event-Moves u draft = search (moves_rules, e.business.order, e.events) depth 20

  settle_event-Moves :
      (i : ℕ) (report : Report) → Moves R (settle_event env tenant session i report)
  unfolding settle_event
  settle_event-Moves i report = search (moves_rules, e.business.order, e.events) depth 14

  archive-Moves : (u : ℕ) (draft : Draft) → Moves R (archive env tenant session u draft)
  unfolding archive
  archive-Moves u draft =
      search
        (
          moves_rules,
          e.business.order,
          create_event-Moves,
          settle_event-Moves,
          dispatch-Moves e.business env tenant session,
        )
        depth 14

  details_of-Moves : (v : Json) → Moves R (details_of env tenant session v)
  unfolding details_of
  details_of-Moves (str t) = search (moves_rules, e.business.order)
  details_of-Moves _ = search (moves_rules, e.business.order)

  conclude-Moves :
      (u : ℕ) (draft : Draft) (r : Result Failure Report)
      → Moves R (conclude env tenant session u draft r)
  unfolding conclude
  conclude-Moves u draft (ok report) = search (moves_rules, e.business.order, details_of-Moves)
  conclude-Moves u draft (err (fault (integrity m))) = search (moves_rules, e.business.order)
  conclude-Moves u draft (err (fault (other m))) = search (moves_rules, e.business.order)
  conclude-Moves u draft (err (rejection c m)) = search (moves_rules, e.business.order)

  interleave-Moves : Moves R (interleave env)
  interleave-Moves = Moves-interleave e.business.order env e.others

  process_draft-Moves : (u : ℕ) (draft : Draft) → Moves R (process_draft env tenant session u draft)
  unfolding process_draft
  process_draft-Moves u draft =
      search (moves_rules, e.business.order, interleave-Moves, archive-Moves, conclude-Moves) depth
        14

  checked-Moves : (u : ℕ) (r : Result Stop Draft) → Moves R (checked env tenant session u r)
  unfolding checked
  checked-Moves u (ok draft) = process_draft-Moves u draft
  checked-Moves u (err (refused c m)) = search (moves_rules, e.business.order)
  checked-Moves u (err (escaped m)) = search (moves_rules, e.business.order)

  known_or_new-Moves :
      (u : ℕ) (event : Fields) (o : Option ControlEvent)
      → Moves R (known_or_new env tenant session u event o)
  unfolding known_or_new
  known_or_new-Moves u event none = checked-Moves u _
  known_or_new-Moves u event (some row) = search (moves_rules, e.business.order)

  identified-Moves :
      (v : Json) (o : Option ℕ) (event : Fields) → Moves R (identified env tenant session v o event)
  unfolding identified process_identified
  identified-Moves v none event = search (moves_rules, e.business.order)
  identified-Moves v (some u) event = search (moves_rules, e.business.order, known_or_new-Moves)

  pub process_single_event-Moves : (v : Json) → Moves R (process_single_event env tenant session v)
  unfolding process_single_event
  process_single_event-Moves (obj event) = identified-Moves (get event "client_uuid") _ event
  process_single_event-Moves _ = search (moves_rules, e.business.order)

  -- A relation along the writes holds along a whole list of events, whether it ends or an exception
  -- escapes on the way.
  pub process_all-Moves : (vs : List Json) → Moves R (process_all env tenant session vs)
  unfolding process_all
  process_all-Moves [] = search (moves_rules, e.business.order)
  process_all-Moves (v ∷ vs) =
      search (moves_rules, e.business.order, process_single_event-Moves v, process_all-Moves vs)
