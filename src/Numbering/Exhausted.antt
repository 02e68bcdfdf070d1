-- ===== src/Numbering/Exhausted.antt =====
-- What becomes of a series once it has both 9999 and 10000.
use Prim.Native.String.{◌++◌}
use toupac.Prelude.{
  ℕ, ◌*◌, ◌≤◌, ◌≡◌, refl, sym, ap, ◌∙◌, inl, inr, String, Bool, true, false, Option, some, none,
  List, [], ◌∷◌, map, select, any, All, ltb, leb, ◌==◌, str_eq, eq_iff, if◌then◌else◌, Bool-cases,
  ==_iff, or_left, or_right, arith,
}
use toupac.Prelude.Text.{is_among}
use toupac.Prelude.Decimal.{padded, digits, padded-digits}
use toupac.Numbering.{text_lt, greatest, starts_with, series, number, following, next_number}
use toupac.Numbering.Text.{starts_with-append, text_lt-digits}
use toupac.Numbering.Fresh.{
  best, best-le, better, numbered, greatest-map, following-numbered, is_among-select,
  text_lt-number, text_lt-number_small,
}

-- The place of a number among the texts: 10000 comes behind 1000 and before 1001.
abbrev rank : ℕ → ℕ
rank k = if k == 10000 then 2001 else k * 2

abbrev precedes : ℕ → ℕ → Bool
precedes a b = ltb (rank a) (rank b)

padded_ten_thousand : padded 4 10000 ≡ digits 4 1000 "0"
unfolding padded
padded_ten_thousand = refl

wide_wide : (s : String) → text_lt (number s 10000) (number s 10000) ≡ false
wide_wide s =
    text_lt-number s 10000 10000
    ∙ rw padded_ten_thousand (text_lt-digits 4 1000 1000 "0" "0" (omega arith) (omega arith))

wide_small : (s : String) (b : ℕ) → b ≤ 9999 → text_lt (number s 10000) (number s b) ≡ ltb 1000 b
wide_small s b k =
    text_lt-number s 10000 b
    ∙ rw (padded_ten_thousand, padded-digits 3 b (omega arith))
        (text_lt-digits 4 1000 b "0" String.[] (omega arith) (omega arith) ∙ ground arith)

small_wide : (s : String) (a : ℕ) → a ≤ 9999 → text_lt (number s a) (number s 10000) ≡ leb a 1000
small_wide s a h =
    text_lt-number s a 10000
    ∙ rw (padded_ten_thousand, padded-digits 3 a (omega arith))
        (text_lt-digits 4 a 1000 String.[] "0" (omega arith) (omega arith) ∙ ground arith)

ten_thousand : (k : ℕ) → (k == 10000) ≡ true → k ≡ 10000
ten_thousand k h = ground arith

text_lt-number_wide :
    (s : String) (a b : ℕ)
    → a ≤ 10000
    → b ≤ 10000
    → text_lt (number s a) (number s b) ≡ precedes a b
text_lt-number_wide s a b h k = elim (Bool-cases (a == 10000)) [
  | inl wide ↦ elim (Bool-cases (b == 10000)) [
    | inl both ↦ rw (ten_thousand a wide, ten_thousand b both) (wide_wide s)
    | inr small ↦ rw (ten_thousand a wide) (wide_small s b (ground arith) ∙ ground arith)
  ]
  | inr small ↦ elim (Bool-cases (b == 10000)) [
    | inl wide ↦ rw (ten_thousand b wide) (small_wide s a (ground arith) ∙ ground arith)
    | inr both ↦ text_lt-number_small s a b (ground arith) (ground arith) ∙ ground arith
  ]
]

at_last :
    (k : ℕ) (o : Option ℕ)
    → (k == 9999) ≡ true
    → ((j : ℕ) → o ≡ some j → j ≤ 10000)
    → some (better precedes k o) ≡ some 9999
at_last k none h small = ground arith
at_last k (some j) h small = ground (arith, small j refl)

before_last : (k : ℕ) → (k == 9999) ≡ false → k ≤ 10000 → better precedes k (some 9999) ≡ 9999
before_last k h small = ground arith

best_last :
    (ks : List ℕ)
    → any (λ k. k == 9999) ks ≡ true
    → All (λ k. k ≤ 10000) ks
    → best precedes ks ≡ some 9999
best_last [] h small = cc
best_last (k ∷ ks) h small = elim (Bool-cases (k == 9999)) [
  | inl here ↦
      at_last k (best precedes ks) here
        (λ j. best-le "" precedes 10000 (text_lt-number_wide "") ks j small.1)
  | inr other ↦ rw (best_last ks (rw other at h) small.1) (ap some (before_last k other small.0))
]

any-number :
    (n : ℕ) (s : String) (ks : List ℕ)
    → any (λ k. k == n) ks ≡ true
    → is_among (number s n) (map (number s) ks) ≡ true
any-number n s [] h = cc
any-number n s (k ∷ ks) h = elim (Bool-cases (k == n)) [
  | inl here ↦
      or_left (str_eq (number s n) (number s k)) _
        ((eq_iff (number s n) (number s k)).1 (ap (number s) (sym ((==_iff k n).0 here))))
  | inr other ↦ or_right (str_eq (number s n) (number s k)) _ (any-number n s ks (rw other at h))
]

-- Once a company has documents 9999 and 10000 of a year, the next number is 10000 again, which it
-- has: as texts, 9999 is the greatest, so the series never goes on and the insertion is refused by
-- the constraint on the numbers of the company.
pub next_number-taken :
    (letters : String) (year : ℕ) (numbers : List String) (ks : List ℕ)
    → select (starts_with (series letters year ++ "-")) numbers
      ≡ map (number (series letters year)) ks
    → All (λ k. k ≤ 10000) ks
    → any (λ k. k == 9999) ks ≡ true
    → any (λ k. k == 10000) ks ≡ true
    → let next = number (series letters year) 10000 in
      (next_number letters year numbers ≡ some next) × (is_among next numbers ≡ true)
unfolding next_number
next_number-taken letters year numbers ks of small last beyond =
    let s = series letters year in
    (
      ap (following s) (
            ap greatest of
            ∙ greatest-map s precedes 10000 (text_lt-number_wide s) ks small
            ∙ ap (numbered s) (best_last ks last small))
          ∙ following-numbered s 9999,
      is_among-select (starts_with (s ++ "-")) (number s 10000) numbers
            (starts_with-append s (padded 4 10000))
          ∙ ap (is_among (number s 10000)) of
          ∙ any-number 10000 s ks beyond,
    )
