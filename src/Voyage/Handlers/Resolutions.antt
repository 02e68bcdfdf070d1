-- ===== src/Voyage/Handlers/Resolutions.antt =====
-- voyage/services/handlers/anomalies.py: an anomaly reported by hand, and its resolution.
use toupac.Prelude.{ℕ, String, none, some, [], ◌∷◌, update_where, ◌==◌}
use toupac.Prelude.Text.{concat}
use toupac.Json.{nil, str, arr, get, get_default, present}
use toupac.Voyage.Codes.{missing_title, missing_anomaly_id, anomaly_not_found}
use toupac.Voyage.Models.{Anomaly, to_treat, resolved, ControlSession}
use toupac.Voyage.Db.{find_anomaly}
use toupac.Voyage.Tx.{
  Env, Tx, pure, gets, lift, required, modify, now, fields_of, nullable, ◌>>=◌, ◌>>◌,
}
use toupac.Voyage.Events.{
  Event, Report, accept, serialize_anomaly, ref_or_target, ref_text, ref_key,
}
use toupac.Voyage.Anomalies.{create_anomaly}
use toupac.Voyage.Handlers.Boarding.{slice_value}

module _ (env : Env) (tenant : ℕ) (session : ControlSession) where
  unfoldable pub handle_anomaly_create : Event → Tx Report
  handle_anomaly_create event = do
    payload ← fields_of env event.payload
    title ← required (present (get payload "title")) missing_title "title manquant dans le payload."
    let raw_type = get_default payload "type" (str "other")
    let raw_severity = get_default payload "severity" (str "low")
    let raw_description = get_default payload "description" (str "")
    short ← slice_value env 200 title
    type ← lift (env.char_field 30 raw_type)
    severity ← lift (env.char_field 20 raw_severity)
    title' ← lift (env.char_field 200 short)
    description ← lift (env.text_field raw_description)
    target_type ← lift (env.char_field 30 (get_default payload "target_type" (str "")))
    target_id ← nullable env.uuid_field (get payload "target_id")
    evidence_urls ← lift (env.json_field (get_default payload "evidence_urls" (arr nil)))
    a ← create_anomaly env (λ i. record {
      id = i;
      tenant = tenant;
      session = session.id;
      event = event.id;
      type = type;
      severity = severity;
      status = to_treat;
      title = title';
      description = description;
      target_type = target_type;
      target_id = target_id;
      evidence_urls = evidence_urls;
      resolved_at = none;
      resolution_notes = "";
      resolved_by = none;
    })
    -- the instance still holds the raw values
    let view = record (serialize_anomaly env.host a) {
      type = raw_type;
      severity = raw_severity;
      title = short;
      description = raw_description;
    }
    pure (accept (some view) [])

  abbrev pub resolved_columns : ℕ → String → Anomaly → Anomaly
  resolved_columns at notes a = record a {
    status = resolved;
    resolved_at = some at;
    resolution_notes = notes;
    resolved_by = some session.controller_user;
  }

  unfoldable pub handle_anomaly_resolve : Event → Tx Report
  handle_anomaly_resolve event = do
    payload ← fields_of env event.payload
    ref ←
        required (ref_or_target (get payload "anomaly_id") event.target_id) missing_anomaly_id
          "anomaly_id manquant dans le payload."
    i ← ref_key env ref
    found ← gets (λ s. find_anomaly tenant i s.db)
    a ←
        required found anomaly_not_found
          (concat ("Anomalie " ∷ ref_text env.host ref ∷ " introuvable." ∷ []))
    at ← now env
    notes ← lift (env.text_field (get_default payload "resolution_notes" (str "")))
    modify (λ db. record db {
      anomalies = update_where (λ x. x.id == a.id) (resolved_columns at notes) db.anomalies;
    })
    pure (accept (some (serialize_anomaly env.host a)) [])
