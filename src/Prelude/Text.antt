-- ===== src/Prelude/Text.antt =====
-- Python's `str`: a text of code points, its slices, `strip`, and the pieces of an f-string.
use Prim.Native.Char.{code}
use Prim.Native.Nat.{ℕ, zero, suc, ◌≤◌}
use Prim.Native.String.{String, ◌++◌}
use mathlib.Core.Bool.{Bool, true, false, ◌&&◌, ◌||◌}
use mathlib.Core.List.{List, [], ◌∷◌}
use native.Mathlib.Omega.{arith}
use text.Mathlib.Text.{◌==◌ as str_eq}
use toupac.Prelude.Tests.{leb, ◌==◌, if◌then◌else◌}

-- `bool(s)`
abbrev pub is_empty : String → Bool
is_empty String.[] = true
is_empty (String.◌∷◌ c s) = false

-- `s[:n]`
unfoldable pub slice_to : ℕ → String → String
slice_to zero s = String.[]
slice_to (suc n) String.[] = String.[]
slice_to (suc n) (String.◌∷◌ c s) = String.◌∷◌ c (slice_to n s)

-- `len(s)`
abbrev pub char_count : String → ℕ
char_count String.[] = 0
char_count (String.◌∷◌ c s) = suc (char_count s)

pub char_count-slice_to-le : (n : ℕ) (s : String) → char_count (slice_to n s) ≤ n
unfolding slice_to
char_count-slice_to-le zero s = omega arith
char_count-slice_to-le (suc n) String.[] = omega arith
char_count-slice_to-le (suc n) (String.◌∷◌ c s) = omega (arith, char_count-slice_to-le n s)

-- `str.isspace` of one code point
is_space : ℕ → Bool
is_space c =
    (leb 9 c && leb c 13)
    || (leb 28 c && leb c 32)
    || c == 133
    || c == 160
    || c == 5760
    || (leb 8192 c && leb c 8202)
    || c == 8232
    || c == 8233
    || c == 8239
    || c == 8287
    || c == 12288

strip_left : String → String
strip_left String.[] = String.[]
strip_left (String.◌∷◌ c s) =
    let rest = strip_left s in if is_space (code c) then rest else String.◌∷◌ c s

strip_right : String → String
strip_right String.[] = String.[]
strip_right (String.◌∷◌ c s) =
    let rest = strip_right s in
    if is_space (code c) && is_empty rest then String.[] else String.◌∷◌ c rest

-- `s.strip()`
unfoldable pub strip : String → String
unfolding strip_left strip_right is_space
strip s = strip_right (strip_left s)

-- an f-string, as the list of its pieces
unfoldable pub concat : List String → String
concat [] = String.[]
concat (s ∷ ss) = s ++ concat ss

-- `s in {...}` over a literal set of texts
abbrev pub is_among : String → List String → Bool
is_among s [] = false
is_among s (t ∷ ts) = str_eq s t || is_among s ts
