-- ===== src/Voyage/Handlers/Incidents.antt =====
-- voyage/services/handlers/incidents.py: an incident reported on board.
use toupac.Prelude.{ℕ, none, [], ◌∷◌, ◌++◌, any, ◌==◌}
use toupac.Json.{nil, str, arr, get, get_default, present}
use toupac.Voyage.Codes.{missing_title}
use toupac.Voyage.Models.{Incident, ControlSession}
use toupac.Voyage.Host.{integrity}
use toupac.Voyage.Tx.{
  Env, Tx, pure, gets, lift, required, fault_if, modify, new_id, fields_of, ◌>>=◌, ◌>>◌,
}
use toupac.Voyage.Events.{Event, Report, accept}
use toupac.Voyage.Session.{trip_or_session}
use toupac.Voyage.Handlers.Boarding.{slice_value}

-- `Incident.objects.create(...)`: the row with a new key
unfoldable pub create_incident : Env → (ℕ → Incident) → Tx Incident
create_incident env row = do
  i ← new_id env
  taken ← gets (λ s. any (λ x. x.id == i) s.db.incidents)
  fault_if taken (integrity env.duplicate_key)
  modify (λ db. record db { incidents = db.incidents ++ row i ∷ [] })
  pure (row i)

module _ (env : Env) (tenant : ℕ) (session : ControlSession) where
  unfoldable pub handle_incident_create : Event → Tx Report
  handle_incident_create event = do
    payload ← fields_of env event.payload
    title ← required (present (get payload "title")) missing_title "title manquant dans le payload."
    trip ← trip_or_session env tenant session (get payload "trip_id")
    short ← slice_value env 200 title
    type ← lift (env.char_field 30 (get_default payload "type" (str "other")))
    severity ← lift (env.char_field 20 (get_default payload "severity" (str "low")))
    title' ← lift (env.char_field 200 short)
    description ← lift (env.text_field (get_default payload "description" (str "")))
    photos ← lift (env.json_field (get_default payload "photos_urls" (arr nil)))
    address ← lift (env.char_field 500 (get_default payload "gps_address" (str "")))
    incident ← create_incident env (λ i. record {
      id = i;
      tenant = tenant;
      session = session.id;
      trip = trip.id;
      reporter = session.controller_user;
      type = type;
      severity = severity;
      title = title';
      description = description;
      photos_urls = photos;
      gps_location = event.gps_location;
      gps_address = address;
    })
    pure (accept none (("incident_id", env.show_uuid incident.id) ∷ []))
