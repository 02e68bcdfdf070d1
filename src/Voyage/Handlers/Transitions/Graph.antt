-- ===== src/Voyage/Handlers/Transitions/Graph.antt =====
-- voyage/services/handlers/transitions.py: the graph of a trip's life, ALLOWED_TRANSITIONS.
use toupac.Prelude.{ℕ, ◌≡◌, refl, Bool, true, ◌&&◌, Option, none, some, is_some}
use toupac.Voyage.Models.{
  Trip, TripStatus, scheduled, preparing, boarding, in_transit, at_stop, arriving, completed,
  trip_status_eq,
}
use toupac.Voyage.Handlers.Transitions.{is_allowed, first_time, moved}

-- A life of a trip: transitions that the graph allows, each at an instant.
pub data Life (trip : Trip) : Trip → Type 0 where
  begun : Life trip trip
  then_to :
      {now : Trip} (to : TripStatus) (at : ℕ)
      → Life trip now
      → is_allowed now.status to ≡ true
      → Life trip (moved to at now)

-- The instants that a status asks for are set: a departure from the first transit on, an arrival at
-- completion.
abbrev pub is_timed : TripStatus → Option ℕ → Option ℕ → Bool
is_timed in_transit departure arrival = is_some departure
is_timed at_stop departure arrival = is_some departure
is_timed arriving departure arrival = is_some departure
is_timed completed departure arrival = is_some departure && is_some arrival
is_timed _ departure arrival = true

abbrev pub trip_is_timed : Trip → Bool
trip_is_timed trip = is_timed trip.status trip.actual_departure_at trip.actual_arrival_at

module _ (at : ℕ) where
  allowed-is_timed :
      (from to : TripStatus) (departure arrival : Option ℕ)
      → is_allowed from to ≡ true
      → is_timed from departure arrival ≡ true
      → is_timed to
          (first_time (trip_status_eq to in_transit) departure at)
          (first_time (trip_status_eq to completed) arrival at)
        ≡ true
  allowed-is_timed from scheduled departure arrival h k = refl
  allowed-is_timed from preparing departure arrival h k = refl
  allowed-is_timed from boarding departure arrival h k = refl
  allowed-is_timed from TripStatus.cancelled departure arrival h k = refl
  allowed-is_timed from in_transit none arrival h k = refl
  allowed-is_timed from in_transit (some t) arrival h k = refl
  allowed-is_timed in_transit at_stop (some t) arrival h k = refl
  allowed-is_timed at_stop arriving (some t) arrival h k = refl
  allowed-is_timed arriving completed (some t) none h k = refl
  allowed-is_timed arriving completed (some t) (some t') h k = refl
  allowed-is_timed _ _ _ _ h k = cc

first_time-some :
    (reached : Bool) (o : Option ℕ) (t at : ℕ) → o ≡ some t → first_time reached o at ≡ some t
first_time-some reached none t at h = cc
first_time-some reached (some u) t at h = h

-- Along any life of a trip that begins with its instants set as its status asks, they are: no trip
-- under way without a departure, none completed without an arrival.
pub Life-is_timed :
    (trip now : Trip) → Life trip now → trip_is_timed trip ≡ true → trip_is_timed now ≡ true
Life-is_timed trip now begun h = h
Life-is_timed trip now (then_to {now = before} to at life allowed) h =
    allowed-is_timed at before.status to before.actual_departure_at before.actual_arrival_at allowed
      (Life-is_timed trip before life h)

-- The first departure and the first arrival that are recorded stay, whatever a life repeats.
pub Life-first_instants :
    (trip now : Trip) (departure arrival : ℕ)
    → Life trip now
    → trip.actual_departure_at ≡ some departure
    → trip.actual_arrival_at ≡ some arrival
    → (now.actual_departure_at ≡ some departure) × (now.actual_arrival_at ≡ some arrival)
Life-first_instants trip now departure arrival begun h k = (h, k)
Life-first_instants trip now departure arrival (then_to {now = before} to at life allowed) h k =
    let (h', k') = Life-first_instants trip before departure arrival life h k in
    (
      first_time-some _ before.actual_departure_at departure at h',
      first_time-some _ before.actual_arrival_at arrival at k',
    )
