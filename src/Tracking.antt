-- ===== src/Tracking.antt =====
-- tracking/services.py, GeofenceChecker: a vehicle's position against the fences of its company.
pub mod Crossings
pub mod Tests
use toupac.Prelude.{
  ℕ, ◌+◌, Bool, true, false, not, ◌&&◌, Option, some, none, List, [], ◌∷◌, ◌++◌, map, select, ltb,
  ◌==◌, is_some, if◌then◌else◌, String, get_or_default,
}

-- `Geofence`; its boundary is PostGIS's
pub record Geofence : Type 0 where
  pub id : ℕ
  pub tenant : ℕ
  pub is_active : Bool

-- `GeofenceEvent.EventType`; nothing creates `dwell`
pub data EventType : Type 0 where
  enter exit dwell : EventType

-- `GeofenceEvent`
pub record GeofenceEvent : Type 0 where
  pub tenant : ℕ
  pub geofence : ℕ
  pub vehicle : ℕ
  pub event_type : EventType
  pub event_at : ℕ

abbrev is_enter : EventType → Bool
is_enter enter = true
is_enter exit = false
is_enter dwell = false

abbrev later_of : GeofenceEvent → Option GeofenceEvent → GeofenceEvent
later_of e none = e
later_of e (some f) = if ltb f.event_at e.event_at then e else f

-- `.first()` in the order of the model, the latest event first
abbrev pub latest : List GeofenceEvent → Option GeofenceEvent
latest [] = none
latest (e ∷ es) = some (later_of e (latest es))

-- `last_event is not None and last_event.event_type == ENTER`
abbrev pub entered : Option GeofenceEvent → Bool
entered none = false
entered (some e) = is_enter e.event_type

module _ (tenant vehicle : ℕ) where
  -- the filter of `last_event`
  abbrev pub is_about : ℕ → GeofenceEvent → Bool
  is_about fence e = e.tenant == tenant && e.geofence == fence && e.vehicle == vehicle

  unfoldable pub was_inside : ℕ → List GeofenceEvent → Bool
  was_inside fence events = entered (latest (select (is_about fence) events))

  abbrev pub crossing : ℕ → ℕ → EventType → GeofenceEvent
  crossing now fence type = record {
    tenant = tenant;
    geofence = fence;
    vehicle = vehicle;
    event_type = type;
    event_at = now;
  }

  -- the body of the loop: the events that it creates
  abbrev pub crossings : ℕ → ℕ → Bool → Bool → List GeofenceEvent
  crossings now fence true false = crossing now fence enter ∷ []
  crossings now fence false true = crossing now fence exit ∷ []
  crossings now fence true true = []
  crossings now fence false false = []

-- `Geofence.objects.filter(tenant=tenant, is_active=True)`
abbrev pub active_fences : ℕ → List Geofence → List ℕ
active_fences tenant fences =
    map (λ f. f.id) (select (λ f. f.tenant == tenant && f.is_active) fences)

module _ {Point : Type 0} (contains : ℕ → Point → Bool) (tenant vehicle : ℕ) where
  unfoldable pub check_fences :
      ℕ → Point → List ℕ → List GeofenceEvent → List GeofenceEvent × List GeofenceEvent
  unfolding was_inside
  check_fences now point [] events = ([], events)
  check_fences now point (fence ∷ fences) events =
      let created =
        crossings tenant vehicle now fence (contains fence point)
          (was_inside tenant vehicle fence events) in
      let rest = check_fences now point fences (events ++ created) in (created ++ rest.0, rest.1)

  -- `check_position`: the events created, and the journal; the clock is read once
  unfoldable pub check_position :
      ℕ → Point → List Geofence → List GeofenceEvent → List GeofenceEvent × List GeofenceEvent
  unfolding check_fences
  check_position now point fences events =
      check_fences now point (active_fences tenant fences) events
