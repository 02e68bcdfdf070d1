-- ===== src/Voyage/Batch.antt =====
-- voyage/services/event_processor.py: `process_batch`, in the order of emission.
pub mod Order
pub mod Escape
use toupac.Prelude.{ℕ, String, List, [], ◌∷◌, map}
use toupac.Prelude.Sort.{sort_by}
use toupac.Json.{Json}
use toupac.Voyage.Models.{ControlSession}
use toupac.Voyage.Host.{Host, Result, ok, err, Fault, other}
use toupac.Voyage.Drafts.{sort_key}
use toupac.Voyage.Tx.{Env, Tx, lift, ◌>>=◌}
use toupac.Voyage.Verdicts.{Verdict}
use toupac.Voyage.Processor.{process_all}

-- an event with its key
pub record Keyed : Type 0 where
  pub key : ℕ
  pub event : Json

abbrev keyed_with : Json → Result String ℕ → Result Fault (List Keyed) → Result Fault (List Keyed)
keyed_with event (err e) rest = err (other e)
keyed_with event (ok key) (err e) = err e
keyed_with event (ok key) (ok rest) = ok (record { key = key; event = event } ∷ rest)

-- the keys of all events, computed before any of them is processed
unfoldable pub keyed : Host → List Json → Result Fault (List Keyed)
keyed host [] = ok []
keyed host (event ∷ events) = keyed_with event (sort_key host event) (keyed host events)

abbrev in_order : Result Fault (List Keyed) → Result Fault (List Json)
in_order (ok rows) = ok (map (λ r. r.event) (sort_by (λ r. r.key) rows))
in_order (err e) = err e

-- `sorted(enumerate(events_data), key=...)`: by key, equal keys in the order of arrival
unfoldable pub ordered : Host → List Json → Result Fault (List Json)
ordered host events = in_order (keyed host events)

-- process_batch
unfoldable pub process_batch : Env → ℕ → ControlSession → List Json → Tx (List Verdict)
process_batch env tenant session events = do
  events' ← lift (ordered env.host events)
  process_all env tenant session events'
