-- ===== src/Voyage/Anomalies.antt =====
-- voyage/services/anomaly_detectors.py: the creation of an anomaly, and the two detectors.
use toupac.Prelude.{
  ℕ, String, Bool, false, not, ◌&&◌, ◌||◌, Option, none, some, [], ◌∷◌, ◌++◌, any, first, ◌==◌,
  if◌then◌else◌, str_eq,
}
use toupac.Prelude.Text.{concat}
use toupac.Json.{arr, nil, text_at}
use toupac.Voyage.Models.{
  Trip, Reservation, ReservationStatus, ControlEvent, Anomaly, to_treat, is_rejected,
  reservation_status_text, reservation_status_eq, ControlSession,
}
use toupac.Voyage.Host.{integrity}
use toupac.Voyage.Db.{find_reservation}
use toupac.Voyage.Events.{Event}
use toupac.Voyage.Tx.{Env, Tx, pure, gets, fault_if, modify, new_id, ◌>>=◌, ◌>>◌}

-- `Anomaly.objects.create(...)`: the row with a new key
unfoldable pub create_anomaly : Env → (ℕ → Anomaly) → Tx Anomaly
create_anomaly env row = do
  i ← new_id env
  taken ← gets (λ s. any (λ a. a.id == i) s.db.anomalies)
  fault_if taken (integrity env.duplicate_key)
  modify (λ db. record db { anomalies = db.anomalies ++ row i ∷ [] })
  pure (row i)

-- the columns of an anomaly that the code itself raises on an event
abbrev pub auto_anomaly :
    ℕ → ControlSession → Event → String → String → String → String → String → ℕ → ℕ → Anomaly
auto_anomaly tenant session event type severity title description target_type target i = record {
  id = i;
  tenant = tenant;
  session = session.id;
  event = event.id;
  type = type;
  severity = severity;
  status = to_treat;
  title = title;
  description = description;
  target_type = target_type;
  target_id = some target;
  evidence_urls = arr nil;
  resolved_at = none;
  resolution_notes = "";
  resolved_by = none;
}

abbrev targets : Option ℕ → ℕ → Bool
targets none i = false
targets (some j) i = j == i

abbrev payload_names : Option String → String → Bool
payload_names none s = false
payload_names (some t) s = str_eq t s

module _ (env : Env) (tenant : ℕ) (session : ControlSession) (event : Event) where
  -- an earlier scan of the reservation's ticket that was not rejected
  abbrev pub is_prior_scan : ℕ → ControlEvent → Bool
  is_prior_scan reservation_id e =
      (targets e.target_id reservation_id
        || payload_names (text_at "reservation_id" e.payload) (env.show_uuid reservation_id))
      && e.tenant == tenant
      && str_eq e.event_type "reservation_board"
      && not (is_rejected e.status)
      && not (e.id == event.id)

  abbrev pub duplicate_scan : Reservation → ℕ → Anomaly
  duplicate_scan r =
      auto_anomaly tenant session event "duplicate_scan" "moderate"
        (concat ("Scan en double — siège " ∷ r.seat_label ∷ []))
        (concat (
          "Le billet "
          ∷ env.show_uuid r.id
          ∷ " (passager "
          ∷ env.show_uuid r.passenger
          ∷ ", siège "
          ∷ r.seat_label
          ∷ ") a déjà été scanné. Statut courant : "
          ∷ reservation_status_text r.status
          ∷ "."
          ∷ []))
        "reservation" r.id

  unfoldable pub raise_duplicate_scan : Reservation → Tx (Option Anomaly)
  raise_duplicate_scan r = do a ← create_anomaly env (duplicate_scan r); pure (some a)

  unfoldable pub duplicate_scan_of : Option Reservation → Tx (Option Anomaly)
  duplicate_scan_of none = pure none
  duplicate_scan_of (some r) = do
    prior ← gets (λ s. any (is_prior_scan r.id) s.db.control_events)
    if not (reservation_status_eq r.status ReservationStatus.boarded) && not prior
        then pure none
        else raise_duplicate_scan r

  -- detect_duplicate_scan
  unfoldable pub detect_duplicate_scan : ℕ → Tx (Option Anomaly)
  detect_duplicate_scan reservation_id = do
    found ← gets (λ s. find_reservation tenant reservation_id s.db)
    duplicate_scan_of found

  -- another passenger who is on board on the same seat
  abbrev pub is_seat_rival : Trip → String → ℕ → Reservation → Bool
  is_seat_rival trip seat_label current r =
      r.tenant == tenant
      && r.trip == trip.id
      && str_eq r.seat_label seat_label
      && reservation_status_eq r.status ReservationStatus.boarded
      && not (r.id == current)

  abbrev pub seat_conflict : Trip → String → ℕ → Reservation → ℕ → Anomaly
  seat_conflict trip seat_label current rival =
      auto_anomaly tenant session event "seat_conflict" "critical"
        (concat ("Conflit de siège " ∷ seat_label ∷ " — " ∷ trip.internal_id ∷ []))
        (concat (
          "Le siège "
          ∷ seat_label
          ∷ " du voyage "
          ∷ trip.internal_id
          ∷ " est occupé par deux passagers embarqués : réservations "
          ∷ env.show_uuid rival.id
          ∷ " et "
          ∷ env.show_uuid current
          ∷ "."
          ∷ []))
        "reservation" current

  unfoldable pub seat_conflict_of : Trip → String → ℕ → Option Reservation → Tx (Option Anomaly)
  seat_conflict_of trip seat_label current none = pure none
  seat_conflict_of trip seat_label current (some rival) = do
    a ← create_anomaly env (seat_conflict trip seat_label current rival)
    pure (some a)

  -- detect_seat_conflict
  unfoldable pub detect_seat_conflict : Trip → String → ℕ → Tx (Option Anomaly)
  detect_seat_conflict trip seat_label current = do
    rival ← gets (λ s. first (λ r. r.id) (is_seat_rival trip seat_label current) s.db.reservations)
    seat_conflict_of trip seat_label current rival
