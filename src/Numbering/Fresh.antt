-- ===== src/Numbering/Fresh.antt =====
-- Whether the next number is a new one.
use Prim.Native.String.{◌++◌}
use toupac.Prelude.{
  ℕ, ◌+◌, ◌≤◌, ◌<◌, ◌≡◌, refl, sym, ap, ◌∙◌, inl, inr, String, Bool, true, false, Option, some,
  none, List, [], ◌∷◌, map, select, All, ltb, str_eq, eq_iff, if◌then◌else◌, Bool-cases, arith,
}
use toupac.Prelude.Text.{is_among}
use toupac.Prelude.Decimal.{padded, parse_decimal, parse_decimal-padded, padded-digits}
use toupac.Numbering.{
  text_lt, greater_of, greatest, starts_with, last_part, series, number, incremented, following,
  next_number,
}
use toupac.Numbering.Text.{starts_with-append, text_lt-append, last_part-number, text_lt-digits}

-- The greatest of a list in an order.
abbrev pub better : (ℕ → ℕ → Bool) → ℕ → Option ℕ → ℕ
better lt k none = k
better lt k (some j) = if lt k j then j else k

abbrev pub best : (ℕ → ℕ → Bool) → List ℕ → Option ℕ
best lt [] = none
best lt (k ∷ ks) = some (better lt k (best lt ks))

abbrev pub max_of : List ℕ → ℕ
max_of [] = 0
max_of (k ∷ ks) = let m = max_of ks in if ltb k m then m else k

abbrev pub numbered : String → Option ℕ → Option String
numbered s none = none
numbered s (some k) = some (number s k)

module _ (s : String) (lt : ℕ → ℕ → Bool) (limit : ℕ)
    (agree : (a b : ℕ) → a ≤ limit → b ≤ limit → text_lt (number s a) (number s b) ≡ lt a b) where
  better-le :
      (k : ℕ) (o : Option ℕ)
      → k ≤ limit
      → ((j : ℕ) → o ≡ some j → j ≤ limit)
      → better lt k o ≤ limit
  better-le k none h g = h
  better-le k (some j) h g = ground (arith, g j refl)

  pub best-le : (ks : List ℕ) (j : ℕ) → All (λ k. k ≤ limit) ks → best lt ks ≡ some j → j ≤ limit
  best-le [] j h e = cc
  best-le (k ∷ ks) j h e = ground (arith, better-le k (best lt ks) h.0 (λ i. best-le ks i h.1))

  greater_of-better :
      (k : ℕ) (o : Option ℕ)
      → k ≤ limit
      → ((j : ℕ) → o ≡ some j → j ≤ limit)
      → greater_of (number s k) (numbered s o) ≡ number s (better lt k o)
  greater_of-better k none h g = refl
  greater_of-better k (some j) h g = elim (Bool-cases (lt k j)) [
    | inl less ↦ rw (agree k j h (g j refl), less) refl
    | inr not_less ↦ rw (agree k j h (g j refl), not_less) refl
  ]

  pub greatest-map :
      (ks : List ℕ)
      → All (λ k. k ≤ limit) ks
      → greatest (map (number s) ks) ≡ numbered s (best lt ks)
  greatest-map [] h = refl
  greatest-map (k ∷ ks) h =
      rw (greatest-map ks h.1)
        (ap some (greater_of-better k (best lt ks) h.0 (λ j. best-le ks j h.1)))

pub text_lt-number :
    (s : String) (a b : ℕ) → text_lt (number s a) (number s b) ≡ text_lt (padded 4 a) (padded 4 b)
text_lt-number s a b = text_lt-append s (String.◌∷◌ "-" (padded 4 a)) (String.◌∷◌ "-" (padded 4 b))

pub text_lt-number_small :
    (s : String) (a b : ℕ) → a ≤ 9999 → b ≤ 9999 → text_lt (number s a) (number s b) ≡ ltb a b
text_lt-number_small s a b h k =
    text_lt-number s a b
    ∙ rw (padded-digits 3 a (omega arith), padded-digits 3 b (omega arith))
        (text_lt-digits 4 a b String.[] String.[] (omega arith) (omega arith) ∙ ground arith)

max-best : (ks : List ℕ) (k : ℕ) → best ltb ks ≡ some k → max_of ks ≡ k
max-best [] k h = cc
max-best (j ∷ []) k h = ground arith
max-best (j ∷ i ∷ ks) k h = ground (arith, max-best (i ∷ ks) (better ltb i (best ltb ks)) refl)

pub following-numbered :
    (s : String) (k : ℕ) → following s (some (number s k)) ≡ some (number s (k + 1))
following-numbered s k =
    ap (incremented s) (ap parse_decimal (last_part-number s k) ∙ parse_decimal-padded 3 k)

-- A number is not the number of another rank.
number-injective : (s : String) (j k : ℕ) → number s j ≡ number s k → j ≡ k
number-injective s j k h =
    let parsed : some j ≡ some k =
      sym (parse_decimal-padded 3 j)
      ∙ ap parse_decimal (sym (last_part-number s j) ∙ ap last_part h ∙ last_part-number s k)
      ∙ parse_decimal-padded 3 k in
    cc

is_among-number :
    (s : String) (n : ℕ) (ks : List ℕ)
    → All (λ k. k < n) ks
    → is_among (number s n) (map (number s) ks) ≡ false
is_among-number s n [] h = refl
is_among-number s n (k ∷ ks) h = elim (Bool-cases (str_eq (number s n) (number s k))) [
  | inr other ↦ rw other (is_among-number s n ks h.1)
  | inl same ↦
      absurd (omega (arith, number-injective s n k ((eq_iff (number s n) (number s k)).0 same)))
]

pub is_among-select :
    (p : String → Bool) (x : String) (ss : List String)
    → p x ≡ true
    → is_among x ss ≡ is_among x (select p ss)
is_among-select p x [] h = refl
is_among-select p x (s ∷ ss) h = elim (Bool-cases (p s)) [
  | inl chosen ↦ rw chosen (rw (is_among-select p x ss h) refl)
  | inr left ↦ elim (Bool-cases (str_eq x s)) [
    | inr other ↦ rw (left, other) (is_among-select p x ss h)
    | inl same ↦ let taken : p s ≡ true = rw (← (eq_iff x s).0 same) h in cc
  ]
]

max_below : (ks : List ℕ) (n : ℕ) → max_of ks < n → All (λ k. k < n) ks
max_below [] n h = tt
max_below (k ∷ ks) n h = (ground arith, max_below ks n (ground arith))

following-best :
    (s : String) (ks : List ℕ) (o : Option ℕ)
    → best ltb ks ≡ o
    → following s (numbered s o) ≡ some (number s (max_of ks + 1))
following-best s [] none h = refl
following-best s [] (some k) h = cc
following-best s (j ∷ ks) none h = cc
following-best s (j ∷ ks) (some k) h =
    following-numbered s k ∙ ap (λ m. some (number s (m + 1))) (sym (max-best (j ∷ ks) k h))

-- Where the company's numbers that begin as those of the year do are all in the format of the series,
-- with ranks up to 9999, the next one is one more than the greatest, or 0001 where there is none, and
-- no document of the company has it. The numbers that begin otherwise may be any.
pub next_number-fresh :
    (letters : String) (year : ℕ) (numbers : List String) (ks : List ℕ)
    → select (starts_with (series letters year ++ "-")) numbers
      ≡ map (number (series letters year)) ks
    → All (λ k. k ≤ 9999) ks
    → let next = number (series letters year) (max_of ks + 1) in
      (next_number letters year numbers ≡ some next) × (is_among next numbers ≡ false)
unfolding next_number
next_number-fresh letters year numbers ks of small =
    let s = series letters year in
    (
      ap (following s) (ap greatest of ∙ greatest-map s ltb 9999 (text_lt-number_small s) ks small)
          ∙ following-best s ks (best ltb ks) refl,
      is_among-select (starts_with (s ++ "-")) (number s (max_of ks + 1)) numbers
            (starts_with-append s (padded 4 (max_of ks + 1)))
          ∙ ap (is_among (number s (max_of ks + 1))) of
          ∙ is_among-number s (max_of ks + 1) ks (max_below ks (max_of ks + 1) (omega arith)),
    )
