-- ===== src/Voyage/Handlers/Parcels.antt =====
-- voyage/services/handlers/parcels.py: a parcel verified or refused at loading.
pub mod Verified
use toupac.Prelude.{ℕ, Bool, true, false, none, some, [], ◌∷◌, update_where, ◌==◌, if◌then◌else◌}
use toupac.Prelude.Text.{concat, slice_to}
use toupac.Json.{str, get, get_default, or_value}
use toupac.Voyage.Codes.{missing_parcel_id, parcel_not_found}
use toupac.Voyage.Models.{Parcel, ParcelStatus, parcel_status_text, ControlSession}
use toupac.Voyage.Db.{find_parcel}
use toupac.Voyage.Tx.{Env, Tx, pure, gets, lift, required, modify, fields_of, ◌>>=◌, ◌>>◌}
use toupac.Voyage.Events.{
  Event, Report, accept, serialize_anomaly, ref_or_target, ref_text, ref_key,
}
use toupac.Voyage.Anomalies.{create_anomaly, auto_anomaly}

-- Parcel.Status.CREATED or PICKED_UP
abbrev pub is_before_transit : ParcelStatus → Bool
is_before_transit ParcelStatus.created = true
is_before_transit ParcelStatus.picked_up = true
is_before_transit _ = false

-- the status of a parcel once it is verified
abbrev pub verified_status : ParcelStatus → ParcelStatus
verified_status status = if is_before_transit status then ParcelStatus.in_transit else status

module _ (env : Env) (tenant : ℕ) (session : ControlSession) where
  -- _load_parcel
  unfoldable pub load_parcel : Event → Tx Parcel
  load_parcel event = do
    payload ← fields_of env event.payload
    ref ←
        required (ref_or_target (get payload "parcel_id") event.target_id) missing_parcel_id
          "parcel_id manquant dans le payload."
    i ← ref_key env ref
    found ← gets (λ s. find_parcel tenant i s.db)
    required found parcel_not_found
        (concat ("Colis " ∷ ref_text env.host ref ∷ " introuvable." ∷ []))

  unfoldable pub save_parcel : ℕ → ParcelStatus → Tx (Unit {0})
  save_parcel i status = modify (λ db. record db {
    parcels = update_where (λ p. p.id == i) (λ p. record p { status = status }) db.parcels;
  })

  unfoldable pub handle_parcel_verify : Event → Tx Report
  handle_parcel_verify event = do
    p ← load_parcel event
    if is_before_transit p.status then save_parcel p.id ParcelStatus.in_transit else pure tt
    pure (
        accept none (
          ("parcel_id", env.show_uuid p.id)
          ∷ ("parcel_status", parcel_status_text (verified_status p.status))
          ∷ []))

  unfoldable pub handle_parcel_refuse : Event → Tx Report
  handle_parcel_refuse event = do
    p ← load_parcel event
    payload ← fields_of env event.payload
    let reason = or_value (get_default payload "reason" (str "")) (str "Non conforme")
    description ← lift (env.text_field reason)
    a ← create_anomaly env (
        auto_anomaly tenant session event "parcel_non_conform" "moderate"
          (slice_to 200 (concat ("Colis refusé : " ∷ p.tracking_number ∷ []))) description "parcel"
          p.id)
    let view = record (serialize_anomaly env.host a) { description = reason }
    pure (accept (some view) (("parcel_id", env.show_uuid p.id) ∷ []))
