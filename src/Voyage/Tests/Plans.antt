-- ===== src/Voyage/Tests/Plans.antt =====
-- Plans of seats on small examples.
use toupac.Prelude.{◌≤◌, ◌*◌, ◌≡◌, refl, true, List, [], ◌∷◌, length, take, all}
use toupac.Prelude.Int.{pos}
use toupac.Prelude.Text.{concat}
use toupac.Json.{Json, Items, str, int, arr, obj, nil, cons, end, field, truthy}
use toupac.Voyage.SeatLabels.{
  seat_labels, plan_labels, grid_labels, row_labels, derived_label, derived_row, derived_rows,
}
use toupac.Voyage.SeatLabels.Plans.{grid-seat_labels, seat_labels-cut, derived_rows-length}
use toupac.Voyage.Tests.World.{host}

-- the driver's cell, a seat, and an aisle
abbrev grid : Items
grid =
    cons
      (arr (
        cons (obj (field "type" (str "driver") (field "label" (str "DRV") end)))
          (cons (obj (field "label" (str "A1") end)) (cons (obj end) nil))))
      nil

grid-seat_labels_example : (length (str "A1" ∷ []) ≤ 50) × (all truthy (str "A1" ∷ []) ≡ true)
unfolding seat_labels plan_labels grid_labels row_labels
grid-seat_labels_example = grid-seat_labels host grid 49 (str "A1" ∷ []) refl

abbrev square : Json
square = obj (field "rows" (int (pos 2)) (field "cols" (int (pos 2)) end))

abbrev places : List Json
places = str "A?" ∷ str "B?" ∷ str "A?" ∷ str "B?" ∷ []

seat_labels-cut_example :
    ((str "A?" ∷ str "B?" ∷ str "A?" ∷ []) ≡ take 3 places)
    × (length (str "A?" ∷ str "B?" ∷ str "A?" ∷ []) ≤ 3)
unfolding seat_labels plan_labels derived_label derived_row derived_rows concat
seat_labels-cut_example =
    seat_labels-cut host square 2 places (str "A?" ∷ str "B?" ∷ str "A?" ∷ []) refl refl

derived_rows-length_example : length places ≡ 2 * 2
unfolding derived_label derived_row derived_rows concat
derived_rows-length_example = derived_rows-length host 2 1 2 places refl
