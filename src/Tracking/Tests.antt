-- ===== src/Tracking/Tests.antt =====
-- A line with two fences on it, and the theorem on their crossings applied to it.
use toupac.Prelude.{ℕ, ◌≡◌, refl, Bool, true, List, [], ◌∷◌, ltb, arith, ◌==◌, if◌then◌else◌}
use toupac.Tracking.{Geofence, GeofenceEvent, enter, exit, crossing, check_position}
use toupac.Tracking.Crossings.{Agrees, check_position-Agrees}

abbrev fences : List Geofence
fences =
    record { id = 1; tenant = 4; is_active = true }
    ∷ record { id = 2; tenant = 4; is_active = true }
    ∷ []

-- fence 1 is below 10, fence 2 below 20
abbrev holds : ℕ → ℕ → Bool
holds fence point = if fence == 1 then ltb point 10 else ltb point 20

abbrev journal : List GeofenceEvent
journal = crossing 4 8 100 1 enter ∷ crossing 4 8 100 2 enter ∷ []

leaves_the_first : (check_position holds 4 8 200 15 fences journal).0 ≡ crossing 4 8 200 1 exit ∷ []
unfolding check_position
leaves_the_first = refl

check_position-Agrees_example :
    let after = (check_position holds 4 8 200 15 fences journal).1 in
    Agrees holds 4 8 15 after (1 ∷ 2 ∷ [])
    × (check_position holds 4 8 300 15 fences after ≡ ([], after))
check_position-Agrees_example =
    check_position-Agrees holds 4 8 200 300 15 fences journal refl
      ((omega arith, tt), ((omega arith, tt), tt))
