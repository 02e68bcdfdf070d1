-- ===== src/Prelude/Decimal.antt =====
-- Python's decimal format of a number, `f"{n:06d}"`, and its value again.
use Prim.Native.Char.{Char, code}
use Prim.Native.Nat.{ℕ, zero, suc, ◌+◌, ◌-◌, ◌*◌, ◌/◌, ◌%◌, ◌^◌, ◌≤◌, ◌<◌}
use Prim.Native.String.{String}
use mathlib.Core.Bool.{false, ◌||◌}
use mathlib.Core.Option.{Option, none, some}
use mathlib.Core.Path.{◌≡◌, refl, sym, ap, ◌∙◌}
use mathlib.Core.Logic.{◌≢◌, inl, inr}
use native.Mathlib.Nat.{pow-suc, pow-le-pow_right}
use native.Mathlib.Omega.{arith}
use toupac.Prelude.Tests.{ltb, if◌then◌else◌, Bool-cases}

abbrev pub digit : ℕ → Char
digit zero = "0"
digit (suc zero) = "1"
digit (suc (suc zero)) = "2"
digit (suc (suc (suc zero))) = "3"
digit (suc (suc (suc (suc zero)))) = "4"
digit (suc (suc (suc (suc (suc zero))))) = "5"
digit (suc (suc (suc (suc (suc (suc zero)))))) = "6"
digit (suc (suc (suc (suc (suc (suc (suc zero))))))) = "7"
digit (suc (suc (suc (suc (suc (suc (suc (suc zero)))))))) = "8"
digit (suc (suc (suc (suc (suc (suc (suc (suc (suc n))))))))) = "9"

-- the `w` lowest digits of `n`, before `rest`
unfoldable pub digits : ℕ → ℕ → String → String
digits zero n rest = rest
digits (suc w) n rest = digits w (n / 10) (String.◌∷◌ (digit (n % 10)) rest)

-- how many digits `n` has; the fuel `n` is enough
width_within : ℕ → ℕ → ℕ
width_within zero n = 1
width_within (suc fuel) n =
    let more = width_within fuel (n / 10) in if ltb n 10 then 1 else suc more

unfoldable pub width : ℕ → ℕ
unfolding width_within
width n = width_within n n

-- `f"{n:0wd}"`
unfoldable pub padded : ℕ → ℕ → String
unfolding digits width
padded w n = digits (if ltb w (width n) then width n else w) n String.[]

-- the value of decimal digits read from the left, `none` at any other character
read_from : ℕ → String → Option ℕ
read_from n String.[] = some n
read_from n (String.◌∷◌ c s) =
    if ltb (code c) 48 || ltb 57 (code c) then none else read_from (n * 10 + (code c - 48)) s

-- `int(text)` of a text of ASCII digits, `none` for the empty text and for any other
unfoldable pub parse_decimal : String → Option ℕ
unfolding read_from
parse_decimal String.[] = none
parse_decimal (String.◌∷◌ c s) = read_from 0 (String.◌∷◌ c s)

pub code-digit : (n : ℕ) → n < 10 → code (digit n) ≡ n + 48
code-digit zero h = refl
code-digit (suc zero) h = refl
code-digit (suc (suc zero)) h = refl
code-digit (suc (suc (suc zero))) h = refl
code-digit (suc (suc (suc (suc zero)))) h = refl
code-digit (suc (suc (suc (suc (suc zero))))) h = refl
code-digit (suc (suc (suc (suc (suc (suc zero)))))) h = refl
code-digit (suc (suc (suc (suc (suc (suc (suc zero))))))) h = refl
code-digit (suc (suc (suc (suc (suc (suc (suc (suc zero)))))))) h = refl
code-digit (suc (suc (suc (suc (suc (suc (suc (suc (suc n))))))))) h = omega arith

read_digit :
    (m d : ℕ) (s : String)
    → d < 10
    → read_from m (String.◌∷◌ (digit d) s) ≡ read_from (m * 10 + d) s
unfolding read_from
read_digit m d s h = ground (arith, code-digit d h)

shift : (m p n : ℕ) → (m * p + n / 10) * 10 + n % 10 ≡ m * (p * 10) + n
shift m p n = grind arith

read-digits :
    (w m n : ℕ) (s : String)
    → n < 10 ^ w
    → read_from m (digits w n s) ≡ read_from (m * 10 ^ w + n) s
unfolding digits
read-digits zero m n s h = ap (λ k. read_from k s) (omega arith)
read-digits (suc w) m n s h =
    read-digits w m (n / 10) (String.◌∷◌ (digit (n % 10)) s) (omega (arith, pow-suc 10 w))
    ∙ read_digit (m * 10 ^ w + n / 10) (n % 10) s (omega arith)
    ∙ ap (λ k. read_from k s) (shift m (10 ^ w) n ∙ ap (λ p. m * p + n) (sym (pow-suc 10 w)))

ltb_large : (n : ℕ) → ltb n 10 ≡ false → 10 ≤ n
ltb_large n h = ground arith

lt-pow-width_within : (fuel n : ℕ) → n ≤ fuel → n < 10 ^ width_within fuel n
unfolding width_within
lt-pow-width_within zero n h = omega arith
lt-pow-width_within (suc fuel) n h = elim (Bool-cases (ltb n 10)) [
  | inl small ↦ rw small (ground arith)
  | inr large ↦ rw large (
      omega (
        arith,
        lt-pow-width_within fuel (n / 10) (ground arith),
        ltb_large n large,
        pow-suc 10 (width_within fuel (n / 10)),
      ))
]

width_within-le : (fuel m n : ℕ) → n < 10 ^ suc m → width_within fuel n ≤ suc m
unfolding width_within
width_within-le zero m n h = omega arith
width_within-le (suc fuel) zero n h = ground arith
width_within-le (suc fuel) (suc m) n h =
    ground (arith, width_within-le fuel m (n / 10) (omega (arith, pow-suc 10 (suc m))))

-- a number below 10 ^ w fits the width
pub padded-digits : (w n : ℕ) → n < 10 ^ suc w → padded (suc w) n ≡ digits (suc w) n String.[]
unfolding padded
padded-digits w n h = ground (arith, width_within-le n w n h)

not_wide : (w k : ℕ) → ltb w k ≡ false → k ≤ w
not_wide w k h = ground arith

lt-pow-digits : (w n : ℕ) → n < 10 ^ (if ltb w (width n) then width n else w)
unfolding width
lt-pow-digits w n = elim (Bool-cases (ltb w (width n))) [
  | inl wide ↦ rw wide (lt-pow-width_within n n (omega arith))
  | inr fits ↦ rw fits (
      omega (
        arith,
        lt-pow-width_within n n (omega arith),
        pow-le-pow_right {n = 10} (omega arith) (not_wide w (width n) fits),
      ))
]

first_digit :
    (w n : ℕ) (s : String)
    → s ≢ String.[]
    → parse_decimal (digits w n s) ≡ read_from 0 (digits w n s)
unfolding digits parse_decimal
first_digit zero n String.[] h = absurd (h refl)
first_digit zero n (String.◌∷◌ c s) h = refl
first_digit (suc w) n s h = first_digit w (n / 10) (String.◌∷◌ (digit (n % 10)) s) (λ e. cc)

parse-digits : (k n : ℕ) → 0 < k → n < 10 ^ k → parse_decimal (digits k n String.[]) ≡ some n
unfolding digits read_from
parse-digits zero n h lt = absurd (omega arith)
parse-digits (suc k) n h lt =
    first_digit k (n / 10) (String.◌∷◌ (digit (n % 10)) String.[]) (λ e. cc)
    ∙ read-digits (suc k) 0 n String.[] lt
    ∙ ap some (omega arith)

-- a formatted number is read back, whatever its width
pub parse_decimal-padded : (w n : ℕ) → parse_decimal (padded (suc w) n) ≡ some n
unfolding padded
parse_decimal-padded w n =
    parse-digits (if ltb (suc w) (width n) then width n else suc w) n (ground arith)
      (lt-pow-digits (suc w) n)
