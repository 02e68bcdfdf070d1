-- ===== src/Voyage/Batch/Order.antt =====
-- The order of a batch, and one verdict for each of its events.
use toupac.Prelude.{ℕ, suc, ◌≡◌, refl, sym, ◌∙◌, ap, true, String, List, [], ◌∷◌, map, length, All}
use mathlib.Core.Path.{subst, subst₂}
use mathlib.Core.List.{Perm}
use mathlib.Core.List.Perm
use toupac.Prelude.Sort.{
  sort_by, is_sorted, sort_by-is_sorted, sort_by-Perm, All-sort_by, length-sort_by,
}
use toupac.Json.{Json}
use toupac.Voyage.Models.{ControlSession}
use toupac.Voyage.Host.{Host, Result, ok, err, Fault}
use toupac.Voyage.Drafts.{sort_key}
use toupac.Voyage.Tx.{State, Env}
use toupac.Voyage.Tx.Inversion.{bind-eq-ok, pure-eq-ok, lift-eq-ok}
use toupac.Voyage.Verdicts.{Verdict}
use toupac.Voyage.Processor.{process_all}
use toupac.Voyage.Batch.{Keyed, keyed_with, keyed, in_order, ordered, process_batch}

ok-injective : {A : Type 0} {x y : A} → ◌≡◌ {A = Result Fault A} (ok x) (ok y) → x ≡ y
ok-injective h = cc

-- the rows that a sort of the batch works on
record IsKeyed (host : Host) (events : List Json) (rows : List Keyed) : Type 0 where
  same_events : map (λ r. r.event) rows ≡ events
  its_key : All (λ r. sort_key host r.event ≡ ok r.key) rows

keyed_with-IsKeyed :
    (host : Host) (event : Json) (events : List Json) (key : Result String ℕ)
    (rest : Result Fault (List Keyed)) (rows : List Keyed)
    → sort_key host event ≡ key
    → ((more : List Keyed) → rest ≡ ok more → IsKeyed host events more)
    → keyed_with event key rest ≡ ok rows
    → IsKeyed host (event ∷ events) rows
keyed_with-IsKeyed host event events (err e) rest rows p ih h = cc
keyed_with-IsKeyed host event events (ok key) (err e) rows p ih h = cc
keyed_with-IsKeyed host event events (ok key) (ok more) rows p ih h =
    let k = ih more refl in
    subst (IsKeyed host (event ∷ events)) (ok-injective h)
      (record { same_events = ap (λ es. event ∷ es) k.same_events; its_key = (p, k.its_key) })

keyed-IsKeyed :
    (host : Host) (events : List Json) (rows : List Keyed)
    → keyed host events ≡ ok rows
    → IsKeyed host events rows
unfolding keyed
keyed-IsKeyed host [] rows h =
    subst (IsKeyed host []) (ok-injective h) (record { same_events = refl; its_key = tt })
keyed-IsKeyed host (event ∷ events) rows h =
    keyed_with-IsKeyed host event events (sort_key host event) (keyed host events) rows refl
      (keyed-IsKeyed host events) h

-- The events of a batch in the order in which they are processed, with their keys.
pub record IsOrdered (host : Host) (events events' : List Json) : Type 0 where
  pub rows : List Keyed
  pub its_events : map (λ r. r.event) rows ≡ events'
  pub its_keys : All (λ r. sort_key host r.event ≡ ok r.key) rows
  pub ascending : is_sorted (λ r. r.key) rows ≡ true
  pub same_batch : Perm events events'

in_order-IsOrdered :
    (host : Host) (events : List Json) (r : Result Fault (List Keyed)) (events' : List Json)
    → keyed host events ≡ r
    → in_order r ≡ ok events'
    → IsOrdered host events events'
in_order-IsOrdered host events (err e) events' k h = cc
in_order-IsOrdered host events (ok rows) events' k h =
    let found = keyed-IsKeyed host events rows k in
    record {
      rows = sort_by (λ r. r.key) rows;
      its_events = ok-injective h;
      its_keys = All-sort_by (λ r. r.key) _ rows found.its_key;
      ascending = sort_by-is_sorted (λ r. r.key) rows;
      same_batch =
          subst₂ Perm found.same_events (ok-injective h)
            (Perm.map (λ r. r.event) (sort_by-Perm (λ r. r.key) rows));
    }

-- A batch whose instants can all be read is processed in ascending order of its keys, no event is
-- lost and none is doubled.
pub ordered-IsOrdered :
    (host : Host) (events events' : List Json)
    → ordered host events ≡ ok events'
    → IsOrdered host events events'
unfolding ordered
ordered-IsOrdered host events events' h =
    in_order-IsOrdered host events (keyed host events) events' refl h

length-process_all :
    (env : Env) (tenant : ℕ) (session : ControlSession) (events : List Json) (s : State)
    {verdicts : List Verdict} {t : State}
    → process_all env tenant session events s ≡ (ok verdicts, t)
    → length verdicts ≡ length events
unfolding process_all
length-process_all env tenant session [] s h = ap length (pure-eq-ok _ s h).0
length-process_all env tenant session (event ∷ events) s h =
    let (verdict, s1, e1, h1) = bind-eq-ok _ _ s h in
    let (verdicts, s2, e2, h2) = bind-eq-ok _ _ s1 h1 in
    ap length (pure-eq-ok _ s2 h2).0 ∙ ap suc (length-process_all env tenant session events s1 e2)

length-map_event : (rows : List Keyed) → length (map (λ r. r.event) rows) ≡ length rows
length-map_event [] = refl
length-map_event (r ∷ rs) = ap suc (length-map_event rs)

length-in_order :
    (host : Host) (events : List Json) (r : Result Fault (List Keyed)) (events' : List Json)
    → keyed host events ≡ r
    → in_order r ≡ ok events'
    → length events' ≡ length events
length-in_order host events (err e) events' k h = cc
length-in_order host events (ok rows) events' k h =
    ap length (sym (ok-injective h))
    ∙ length-map_event (sort_by (λ r. r.key) rows)
    ∙ length-sort_by (λ r. r.key) rows
    ∙ sym (length-map_event rows)
    ∙ ap length (keyed-IsKeyed host events rows k).same_events

-- A batch that returns gives as many verdicts as it had events.
pub length-process_batch :
    (env : Env) (tenant : ℕ) (session : ControlSession) (events : List Json) (s : State)
    (verdicts : List Verdict) (t : State)
    → process_batch env tenant session events s ≡ (ok verdicts, t)
    → length verdicts ≡ length events
unfolding process_batch ordered
length-process_batch env tenant session events s verdicts t h =
    let (events', s1, e1, h1) = bind-eq-ok _ _ s h in
    length-process_all env tenant session events' s1 h1
    ∙ length-in_order env.host events (keyed env.host events) events' refl (lift-eq-ok _ s e1).0
