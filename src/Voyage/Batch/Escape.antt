-- ===== src/Voyage/Batch/Escape.antt =====
-- The exceptions that no handler of `process_batch` catches.
use toupac.Prelude.{String, ℕ, ◌≡◌, refl, ap, List, [], ◌∷◌, ◌++◌}
use toupac.Json.{Json}
use toupac.Voyage.Models.{ControlSession}
use toupac.Voyage.Host.{Host, Result, ok, err, Fault, other}
use toupac.Voyage.Drafts.{sort_key}
use toupac.Voyage.Tx.{State, Env, fault, ◌>>=◌}
use toupac.Voyage.Batch.{Keyed, keyed_with, keyed, ordered, process_batch}

keyed_with-err :
    (event : Json) (key : Result String ℕ) (rest : Result Fault (List Keyed)) (m : String)
    → rest ≡ err (other m)
    → (m' : String) × (keyed_with event key rest ≡ err (other m'))
keyed_with-err event (err e) rest m h = (e, refl)
keyed_with-err event (ok k) (err e) m h = (m, ap (λ r. keyed_with event (ok k) r) h)
keyed_with-err event (ok k) (ok rows) m h = cc

keyed-err :
    (host : Host) (earlier later : List Json) (event : Json) (m : String)
    → sort_key host event ≡ err m
    → (m' : String) × (keyed host (earlier ++ event ∷ later) ≡ err (other m'))
unfolding keyed
keyed-err host [] later event m h = (m, ap (λ k. keyed_with event k (keyed host later)) h)
keyed-err host (e ∷ es) later event m h =
    let (m', p) = keyed-err host es later event m h in
    keyed_with-err e (sort_key host e) (keyed host (es ++ event ∷ later)) m' p

-- One event whose instant is well formed and does not exist, anywhere in a batch, ends the batch
-- with an exception before any event of it is processed: nothing is written.
pub unreadable_instant-escapes :
    (env : Env) (tenant : ℕ) (session : ControlSession) (earlier later : List Json) (event : Json)
    (m : String) (s : State)
    → sort_key env.host event ≡ err m
    → (m' : String) × (process_batch env tenant session (earlier ++ event ∷ later) s
        ≡ (err (fault (other m')), s))
unfolding process_batch ordered ◌>>=◌
unreadable_instant-escapes env tenant session earlier later event m s h =
    let (m', p) = keyed-err env.host earlier later event m h in (m', rw p refl)
