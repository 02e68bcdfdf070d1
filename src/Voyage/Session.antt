-- ===== src/Voyage/Session.antt =====
-- `session.trip`, which Django loads once and keeps on the session's instance, and the trip that a
-- payload names.
use toupac.Prelude.{ℕ, Bool, true, false, Option, none, some, if◌then◌else◌, [], ◌∷◌}
use toupac.Prelude.Text.{concat}
use toupac.Json.{Json, truthy}
use toupac.Voyage.Codes.{trip_not_found}
use toupac.Voyage.Models.{Trip, ControlSession}
use toupac.Voyage.Host.{Result, ok, err, integrity}
use toupac.Voyage.Db.{trip_by_pk, find_trip}
use toupac.Voyage.Tx.{Env, State, Failure, fault, Tx, gets, lift, required, ◌>>=◌}

unfoldable pub load_trip : Env → Option Trip → State → Result Failure Trip × State
load_trip env (some t) s = (ok t, record s { session_trip = some t })
load_trip env none s = (err (fault (integrity env.missing_reference)), s)

unfoldable pub cached_trip :
    Env → ControlSession → Option Trip → State → Result Failure Trip × State
cached_trip env session (some t) s = (ok t, s)
cached_trip env session none s = load_trip env (trip_by_pk session.trip s.db) s

-- `session.trip`
unfoldable pub session_trip : Env → ControlSession → Tx Trip
session_trip env session s = cached_trip env session s.session_trip s

-- an attribute of `session.trip` set in memory, which the session's instance shows from then on
unfoldable pub remember_trip : Bool → Trip → Tx (Unit {0})
remember_trip true t s = (ok tt, record s { session_trip = some t })
remember_trip false t s = (ok tt, s)

-- the trip of a tenant that a payload names, or the rejection
unfoldable pub named_trip : Env → ℕ → Json → Tx Trip
named_trip env tenant trip_id = do
  i ← lift (env.uuid_field trip_id)
  found ← gets (λ s. find_trip tenant i s.db)
  required found trip_not_found (concat ("Voyage " ∷ env.text trip_id ∷ " introuvable." ∷ []))

-- the same where the payload may leave the trip to the session
unfoldable pub trip_or_session : Env → ℕ → ControlSession → Json → Tx Trip
trip_or_session env tenant session trip_id =
    if truthy trip_id then named_trip env tenant trip_id else session_trip env session
