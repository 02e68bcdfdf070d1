-- ===== src/Numbering/Tests.antt =====
-- Invoices of a company, and the theorems on their numbers applied to them.
use toupac.Prelude.{◌+◌, ◌≡◌, refl, String, true, false, some, none, List, [], ◌∷◌, arith}
use toupac.Prelude.Text.{is_among}
use toupac.Prelude.Decimal.{padded}
use toupac.Numbering.{next_number, number, series}
use toupac.Numbering.Fresh.{next_number-fresh, max_of}
use toupac.Numbering.Exhausted.{next_number-taken}

abbrev invoices : List String
invoices = "FAC-2026-0009" ∷ "FAC-2025-0412" ∷ "FAC-2026-0010" ∷ []

tenth : next_number "FAC" 2026 invoices ≡ some "FAC-2026-0011"
unfolding next_number
tenth = refl

none_yet : next_number "CMD" 2026 [] ≡ some "CMD-2026-0001"
unfolding next_number
none_yet = refl

unreadable : next_number "FAC" 2026 ("FAC-2026-A" ∷ []) ≡ none
unfolding next_number
unreadable = refl

next_number-fresh_example :
    let next = number (series "FAC" 2026) (max_of (9 ∷ 10 ∷ []) + 1) in
    (next_number "FAC" 2026 invoices ≡ some next) × (is_among next invoices ≡ false)
unfolding padded
next_number-fresh_example =
    next_number-fresh "FAC" 2026 invoices (9 ∷ 10 ∷ []) refl (omega arith, (omega arith, tt))

abbrev crowded : List String
crowded = "FAC-2026-9999" ∷ "FAC-2026-10000" ∷ []

next_number-taken_example :
    let next = number (series "FAC" 2026) 10000 in
    (next_number "FAC" 2026 crowded ≡ some next) × (is_among next crowded ≡ true)
unfolding padded
next_number-taken_example =
    next_number-taken "FAC" 2026 crowded (9999 ∷ 10000 ∷ []) refl (omega arith, (omega arith, tt))
      refl refl
