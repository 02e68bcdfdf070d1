-- ===== src/Voyage/SeatLabels.antt =====
-- voyage/services/seat_map.py: the labels of a seat plan, in its three formats.
pub mod Plans
use toupac.Prelude.{
  ℕ, zero, suc, ◌+◌, Bool, true, false, ◌||◌, none, some, List, [], ◌∷◌, ◌++◌, take, if◌then◌else◌,
}
use toupac.Prelude.Int.{pos, negsuc}
use toupac.Prelude.Text.{concat}
use toupac.Json.{
  Json, Fields, Items, bool, int, str, arr, obj, nil, cons, get, or_value, truthy, is_text,
}
use toupac.Voyage.Host.{Host, Result, ok, err, Fault, other}
use toupac.Voyage.Models.{Trip}

-- `if label: labels.append(label)`
abbrev pub push_label : Json → List Json → List Json
push_label label labels = if truthy label then label ∷ labels else labels

-- the driver's cell
abbrev pub is_driver : Fields → Bool
is_driver cell = is_text "driver" (get cell "type") || is_text "DRV" (get cell "label")

-- one cell of a row, in front of the labels of the cells behind it
abbrev pub cell_labels : Json → List Json → List Json
cell_labels (obj cell) rest = if is_driver cell then rest else push_label (get cell "label") rest
cell_labels _ rest = rest

unfoldable pub row_labels : Items → List Json
row_labels nil = []
row_labels (cons cell cells) = cell_labels cell (row_labels cells)

abbrev pub row_or_nothing : Json → List Json
row_or_nothing (arr cells) = row_labels cells
row_or_nothing _ = []

-- _labels_from_grid
unfoldable pub grid_labels : Items → List Json
grid_labels nil = []
grid_labels (cons row rows) = row_or_nothing row ++ grid_labels rows

-- `seat["label"]` of the explicit seats that have one
abbrev seat_label_of : Json → List Json → List Json
seat_label_of (obj seat) rest = push_label (get seat "label") rest
seat_label_of _ rest = rest

unfoldable pub explicit_labels : Items → List Json
explicit_labels nil = []
explicit_labels (cons seat seats) = seat_label_of seat (explicit_labels seats)

-- `n` of `range(1, n + 1)`: how many rounds, or the exception where `n` is no integer
abbrev pub rounds_of : Host → Json → Result Fault ℕ
rounds_of host (int (pos n)) = ok n
rounds_of host (int (negsuc n)) = ok 0
rounds_of host (bool true) = ok 1
rounds_of host (bool false) = ok 0
rounds_of host v = err (other (host.type_error v))

-- f"{chr(64 + col)}{row}"
unfoldable pub derived_label : Host → ℕ → ℕ → Result Fault Json
derived_label host row col = elim (host.chr (64 + col)) [
  | none ↦ err (other "chr() arg not in range(0x110000)")
  | some c ↦ ok (str (concat (c ∷ host.text (int (pos row)) ∷ [])))
]

-- one more value in front of those that follow, the first exception winning
abbrev pub both_labels : Result Fault Json → Result Fault (List Json) → Result Fault (List Json)
both_labels (err e) rest = err e
both_labels (ok label) (err e) = err e
both_labels (ok label) (ok labels) = ok (label ∷ labels)

abbrev pub both_rows :
    Result Fault (List Json) → Result Fault (List Json) → Result Fault (List Json)
both_rows (err e) rest = err e
both_rows (ok labels) (err e) = err e
both_rows (ok labels) (ok more) = ok (labels ++ more)

-- the columns that are left of one row, from `col` on
unfoldable pub derived_row : Host → ℕ → ℕ → ℕ → Result Fault (List Json)
derived_row host row col zero = ok []
derived_row host row col (suc left) =
    both_labels (derived_label host row col) (derived_row host row (col + 1) left)

abbrev row_of : Host → ℕ → Result Fault ℕ → Result Fault (List Json)
row_of host row (err e) = err e
row_of host row (ok cols) = derived_row host row 1 cols

-- the rows that are left, from `row` on; the number of columns is read in each
unfoldable pub derived_rows : Host → Result Fault ℕ → ℕ → ℕ → Result Fault (List Json)
derived_rows host cols row zero = ok []
derived_rows host cols row (suc left) =
    both_rows (row_of host row cols) (derived_rows host cols (row + 1) left)

abbrev derived_labels : Host → Result Fault ℕ → Result Fault ℕ → Result Fault (List Json)
derived_labels host (err e) cols = err e
derived_labels host (ok rows) cols = derived_rows host cols 1 rows

-- the seats of an explicit plan; a text or a dictionary has no seat among what it iterates over
abbrev explicit_of : Host → Json → Result Fault (List Json)
explicit_of host (arr seats) = ok (explicit_labels seats)
explicit_of host (str s) = ok []
explicit_of host (obj fs) = ok []
explicit_of host v = err (other (host.type_error v))

abbrev pub legacy_labels : Host → Fields → Result Fault (List Json)
legacy_labels host layout =
    if truthy (get layout "seats")
    then explicit_of host (get layout "seats")
    else derived_labels host (rounds_of host (or_value (get layout "rows") (int (pos 0))))
        (rounds_of host (or_value (get layout "cols") (int (pos 0))))

-- the whole plan
unfoldable pub plan_labels : Host → Json → Result Fault (List Json)
plan_labels host (arr rows) = ok (grid_labels rows)
plan_labels host (obj layout) = legacy_labels host layout
plan_labels host v = if truthy v then err (other (host.attribute_error v)) else ok []

-- `labels[:total_seats] if total_seats else labels`
abbrev pub cut : ℕ → Result Fault (List Json) → Result Fault (List Json)
cut zero labels = labels
cut (suc n) (ok labels) = ok (take (suc n) labels)
cut (suc n) (err e) = err e

unfoldable pub seat_labels : Host → Json → ℕ → Result Fault (List Json)
seat_labels host layout total_seats = cut total_seats (plan_labels host layout)

unfoldable pub trip_seat_labels : Host → Trip → Result Fault (List Json)
trip_seat_labels host trip = elim trip.seat_map [
  | none ↦ ok []
  | some m ↦ seat_labels host m.layout trip.total_seats
]
