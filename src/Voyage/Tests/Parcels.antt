-- ===== src/Voyage/Tests/Parcels.antt =====
-- The verification of a parcel, on the small company of the tests.
use toupac.Prelude.{◌≡◌, refl, none, some, [], ◌∷◌}
use toupac.Json.{obj, str, field, end}
use toupac.Voyage.Models.{Parcel, ParcelStatus}
use toupac.Voyage.Db.{find_parcel}
use toupac.Voyage.Tx.{State, ◌>>=◌}
use toupac.Voyage.Events.{Event, Report, accept, ref_key}
use toupac.Voyage.Handlers.Parcels.{load_parcel, save_parcel, handle_parcel_verify}
use toupac.Voyage.Handlers.Parcels.Verified.{after_loading, handle_parcel_verify-moves}
use toupac.Voyage.Tests.World.{env, db, start, session, moving}

abbrev box : Parcel
box = record { id = 7; tenant = 1; tracking_number = "TP-7"; status = ParcelStatus.picked_up }

abbrev loading : State
loading = record start { db = record db { parcels = box ∷ [] } }

abbrev scanned : Event
scanned = record moving { payload = obj (field "parcel_id" (str "7") end) }

abbrev verified : Report
verified = accept none (("parcel_id", "7") ∷ ("parcel_status", "in_transit") ∷ [])

handle_parcel_verify-moves_example :
    (p : Parcel) × (find_parcel 1 p.id loading.db ≡ some p)
    × (find_parcel 1 p.id (handle_parcel_verify env 1 session scanned loading).1.db
        ≡ some (record p { status = after_loading p.status }))
unfolding handle_parcel_verify load_parcel save_parcel ref_key ◌>>=◌
handle_parcel_verify-moves_example =
    handle_parcel_verify-moves env 1 session scanned loading verified
      (handle_parcel_verify env 1 session scanned loading).1 refl
