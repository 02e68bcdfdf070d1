-- ===== src/Voyage/SeatLabels/Plans.antt =====
-- What the three formats of a seat plan give.
use toupac.Prelude.{
  ℕ, zero, suc, ◌+◌, ◌*◌, ◌≤◌, ◌≡◌, refl, sym, ◌∙◌, ap, ap₂, Bool, true, List, [], ◌∷◌, ◌++◌,
  length, length-append, take, all, arith, Bool-cases, inl, inr,
}
use toupac.Json.{Json, Items, nil, cons, obj, arr, truthy, get}
use toupac.Voyage.Host.{Host, Result, ok, err, Fault}
use toupac.Voyage.SeatLabels.{
  cell_labels, is_driver, row_labels, row_or_nothing, grid_labels, push_label, derived_label,
  derived_row, derived_rows, both_labels, both_rows, plan_labels, cut, seat_labels,
}

ok-injective : {A : Type 0} (x y : A) → ◌≡◌ {A = Result Fault A} (ok x) (ok y) → x ≡ y
ok-injective x y h = cc

all-append :
    {A : Type 0} (p : A → Bool) (xs ys : List A)
    → all p xs ≡ true
    → all p ys ≡ true
    → all p (xs ++ ys) ≡ true
all-append p [] ys h k = k
all-append p (x ∷ xs) ys h k = ground (arith, all-append p xs ys)

all-take :
    {A : Type 0} (p : A → Bool) (n : ℕ) (xs : List A) → all p xs ≡ true → all p (take n xs) ≡ true
all-take p zero xs h = refl
all-take p (suc n) [] h = refl
all-take p (suc n) (x ∷ xs) h = ground (arith, all-take p n xs)

length-take-le : {A : Type 0} (n : ℕ) (xs : List A) → length (take n xs) ≤ n
length-take-le zero xs = omega arith
length-take-le (suc n) [] = omega arith
length-take-le (suc n) (x ∷ xs) = omega (arith, length-take-le n xs)

push_label-truthy :
    (label : Json) (labels : List Json)
    → all truthy labels ≡ true
    → all truthy (push_label label labels) ≡ true
push_label-truthy label labels h = elim (Bool-cases (truthy label)) [
  | inl e ↦ rw (e, e) h
  | inr e ↦ rw e h
]

cell_labels-truthy :
    (cell : Json) (rest : List Json)
    → all truthy rest ≡ true
    → all truthy (cell_labels cell rest) ≡ true
cell_labels-truthy (obj fs) rest h = elim (Bool-cases (is_driver fs)) [
  | inl e ↦ rw e h
  | inr e ↦ rw e (push_label-truthy (get fs "label") rest h)
]
cell_labels-truthy _ rest h = h

row_labels-truthy : (cells : Items) → all truthy (row_labels cells) ≡ true
unfolding row_labels
row_labels-truthy nil = refl
row_labels-truthy (cons cell cells) = cell_labels-truthy cell _ (row_labels-truthy cells)

row_or_nothing-truthy : (row : Json) → all truthy (row_or_nothing row) ≡ true
row_or_nothing-truthy (arr cells) = row_labels-truthy cells
row_or_nothing-truthy _ = refl

-- No label of a grid is empty.
grid_labels-truthy : (rows : Items) → all truthy (grid_labels rows) ≡ true
unfolding grid_labels
grid_labels-truthy nil = refl
grid_labels-truthy (cons row rows) =
    all-append truthy (row_or_nothing row) _ (row_or_nothing-truthy row) (grid_labels-truthy rows)

-- Of a plan that is a grid, with a count of seats that is not zero: the labels are at most as many
-- as the count, and none of them is empty.
pub grid-seat_labels :
    (host : Host) (rows : Items) (n : ℕ) (labels : List Json)
    → seat_labels host (arr rows) (suc n) ≡ ok labels
    → (length labels ≤ suc n) × (all truthy labels ≡ true)
unfolding seat_labels plan_labels
grid-seat_labels host rows n labels h =
    let same : take (suc n) (grid_labels rows) ≡ labels = ok-injective _ _ h in
    rw (sym same) (
      length-take-le (suc n) (grid_labels rows),
      all-take truthy (suc n) (grid_labels rows) (grid_labels-truthy rows),
    )

-- A count of seats cuts the labels of any plan, and never adds one.
pub seat_labels-cut :
    (host : Host) (layout : Json) (n : ℕ) (whole labels : List Json)
    → seat_labels host layout 0 ≡ ok whole
    → seat_labels host layout (suc n) ≡ ok labels
    → (labels ≡ take (suc n) whole) × (length labels ≤ suc n)
unfolding seat_labels
seat_labels-cut host layout n whole labels h k =
    let same : take (suc n) whole ≡ labels = ok-injective _ _ (sym (ap (cut (suc n)) h) ∙ k) in
    (sym same, rw (sym same) (length-take-le (suc n) whole))

both_labels-length :
    (label : Result Fault Json) (rest : Result Fault (List Json)) (n : ℕ) (labels : List Json)
    → ((more : List Json) → rest ≡ ok more → length more ≡ n)
    → both_labels label rest ≡ ok labels
    → length labels ≡ suc n
both_labels-length (err e) rest n labels h k = cc
both_labels-length (ok l) (err e) n labels h k = cc
both_labels-length (ok l) (ok more) n labels h k =
    ap length (sym (ok-injective _ _ k)) ∙ ap suc (h more refl)

derived_row-length :
    (host : Host) (row col n : ℕ) (labels : List Json)
    → derived_row host row col n ≡ ok labels
    → length labels ≡ n
unfolding derived_row
derived_row-length host row col zero labels h = ap length (sym (ok-injective _ _ h))
derived_row-length host row col (suc n) labels h =
    both_labels-length (derived_label host row col) (derived_row host row (col + 1) n) n labels
      (derived_row-length host row (col + 1) n) h

both_rows-length :
    (first rest : Result Fault (List Json)) (n m : ℕ) (labels : List Json)
    → ((more : List Json) → first ≡ ok more → length more ≡ n)
    → ((more : List Json) → rest ≡ ok more → length more ≡ m)
    → both_rows first rest ≡ ok labels
    → length labels ≡ n + m
both_rows-length (err e) rest n m labels h k p = cc
both_rows-length (ok l) (err e) n m labels h k p = cc
both_rows-length (ok l) (ok more) n m labels h k p =
    ap length (sym (ok-injective _ _ p)) ∙ length-append l more ∙ ap₂ ◌+◌ (h l refl) (k more refl)

-- A plan that is derived from its rows and columns has a label for each place of the rectangle.
pub derived_rows-length :
    (host : Host) (cols row rows : ℕ) (labels : List Json)
    → derived_rows host (ok cols) row rows ≡ ok labels
    → length labels ≡ rows * cols
unfolding derived_rows
derived_rows-length host cols row zero labels h =
    ap length (sym (ok-injective _ _ h)) ∙ (ground arith)
derived_rows-length host cols row (suc n) labels h =
    both_rows-length (derived_row host row 1 cols) (derived_rows host (ok cols) (row + 1) n) cols
      (n * cols) labels (derived_row-length host row 1 cols)
      (derived_rows-length host cols (row + 1) n) h
    ∙ ground arith
