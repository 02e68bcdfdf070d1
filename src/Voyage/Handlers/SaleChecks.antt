-- ===== src/Voyage/Handlers/SaleChecks.antt =====
-- voyage/services/handlers/sales.py: what a sale on board checks.
use toupac.Prelude.{
  ℕ, String, Bool, true, false, not, ◌&&◌, ◌||◌, Option, List, [], ◌∷◌, any, first, select, ◌==◌,
  if◌then◌else◌, str_eq,
}
use toupac.Prelude.Int.{leb_ℤ}
use toupac.Prelude.Text.{concat, strip, is_among}
use toupac.Json.{Json, Fields, int, str, null, get, truthy, present, is_unhashable, json_eq}
use toupac.Voyage.Codes.{
  invalid_payment_method, missing_origin_stop, missing_destination_stop, invalid_origin_stop,
  invalid_destination_stop, invalid_stop_order, boarding_not_allowed_at_stop,
  alighting_not_allowed_at_stop, invalid_seat_label,
}
use toupac.Voyage.Models.{Trip, RouteStop, ControlSession}
use toupac.Voyage.Host.{Host, other}
use toupac.Voyage.Db.{Db}
use toupac.Voyage.Tx.{
  Env, Tx, pure, fail, reject, fault, gets, lift, required, reject_if, ◌>>=◌, ◌>>◌,
}
use toupac.Voyage.SeatLabels.{trip_seat_labels}

-- ALLOWED_PAYMENT_METHODS
abbrev pub allowed_payment_methods : List String
allowed_payment_methods =
    "cash" ∷ "wave" ∷ "orange_money" ∷ "free_money" ∷ "mtn_momo" ∷ "onboard_cash" ∷ []

-- DEFAULT_PAYMENT_METHOD
abbrev pub default_payment_method : String
default_payment_method = "onboard_cash"

-- `value.strip()`
unfoldable pub strip_value : Env → Json → Tx String
strip_value env (str s) = pure (strip s)
strip_value env v = fail (fault (other (env.attribute_error v)))

-- `(value or "").strip()`
unfoldable pub stripped : Env → Json → Tx String
stripped env v = if truthy v then strip_value env v else pure ""

-- the payment method of a payload, checked against the closed list
unfoldable pub payment_method_of : Env → Json → Tx String
payment_method_of env (str s) =
    if is_among s allowed_payment_methods
    then pure s
    else reject invalid_payment_method
        (concat ("Moyen de paiement non reconnu : " ∷ env.text (str s) ∷ "." ∷ []))
payment_method_of env v =
    if is_unhashable v
    then fail (fault (other (env.type_error v)))
    else reject invalid_payment_method
        (concat ("Moyen de paiement non reconnu : " ∷ env.text v ∷ "." ∷ []))

-- `labels and seat_label not in labels`
abbrev pub is_unknown_seat : Json → List Json → Bool
is_unknown_seat seat_label [] = false
is_unknown_seat seat_label (l ∷ ls) = not (any (json_eq seat_label) (l ∷ ls))

-- `stops_by_id.get(str(stop_id))`
abbrev stop_named : Host → String → List RouteStop → Option RouteStop
stop_named host name stops = first (λ p. p.id) (λ p. str_eq (host.show_uuid p.id) name) stops

-- `value is None`
abbrev pub is_null : Json → Bool
is_null null = true
is_null _ = false

module _ (env : Env) (tenant : ℕ) (session : ControlSession) where
  -- _reject_unknown_seat
  unfoldable pub reject_unknown_seat : Trip → Json → Tx (Unit {0})
  reject_unknown_seat trip seat_label = do
    labels ← lift (trip_seat_labels env.host trip)
    reject_if (is_unknown_seat seat_label labels) invalid_seat_label (
        concat (
          "Siège "
          ∷ env.text seat_label
          ∷ " absent du plan du voyage "
          ∷ trip.internal_id
          ∷ "."
          ∷ []))

  -- the stops of the trip's route with one of two keys
  abbrev pub route_stops_among : Trip → ℕ → ℕ → Db → List RouteStop
  route_stops_among trip i j db =
      select (λ p. p.tenant == tenant && p.route == trip.route && (p.id == i || p.id == j))
        db.route_stops

  -- _resolve_stops
  unfoldable pub resolve_stops : Trip → Fields → Tx (RouteStop × RouteStop)
  resolve_stops trip payload = do
    origin_id ←
        required (present (get payload "origin_stop")) missing_origin_stop
          "origin_stop manquant dans le payload."
    destination_id ←
        required (present (get payload "destination_stop")) missing_destination_stop
          "destination_stop manquant dans le payload."
    i ← lift (env.uuid_field origin_id)
    j ← lift (env.uuid_field destination_id)
    stops ← gets (λ s. route_stops_among trip i j s.db)
    origin ←
        required (stop_named env.host (env.text origin_id) stops) invalid_origin_stop
          (concat ("origin_stop " ∷ env.text origin_id ∷ " inconnu de la route de ce voyage." ∷ []))
    destination ←
        required (stop_named env.host (env.text destination_id) stops) invalid_destination_stop (
          concat (
            "destination_stop "
            ∷ env.text destination_id
            ∷ " inconnu de la route de ce voyage."
            ∷ []))
    reject_if (leb_ℤ destination.stop_order origin.stop_order) invalid_stop_order (
        concat (
          "Ordre des escales invalide : origin.stop_order="
          ∷ env.text (int origin.stop_order)
          ∷ " doit être strictement inférieur à destination.stop_order="
          ∷ env.text (int destination.stop_order)
          ∷ "."
          ∷ []))
    reject_if (not origin.is_boarding) boarding_not_allowed_at_stop
        (concat ("Embarquement non autorisé à l'escale " ∷ origin.place_name ∷ "." ∷ []))
    reject_if (not destination.is_alighting) alighting_not_allowed_at_stop
        (concat ("Débarquement non autorisé à l'escale " ∷ destination.place_name ∷ "." ∷ []))
    pure (origin, destination)
