-- ===== src/Numbering.antt =====
-- The sequential numbers of billing/services.py, `FAC-YYYY-NNNN`, and of colis/services.py,
-- `CMD-YYYY-NNNN`: both read the greatest number of the year as a text, and add one to its last part.
pub mod Text
pub mod Fresh
pub mod Exhausted
pub mod Tests
use Prim.Native.Char.{Char, code}
use Prim.Native.String.{◌++◌}
use toupac.Prelude.{
  ℕ, suc, ◌+◌, String, Bool, true, false, ◌&&◌, Option, some, none, List, [], ◌∷◌, select, ltb,
  ◌==◌, get_or_default, if◌then◌else◌,
}
use toupac.Prelude.Decimal.{padded, parse_decimal}

-- the order of texts by code points, as the database sorts the digits of such numbers
abbrev pub text_lt : String → String → Bool
text_lt s String.[] = false
text_lt String.[] (String.◌∷◌ d t) = true
text_lt (String.◌∷◌ c s) (String.◌∷◌ d t) =
    let rest = text_lt s t in
    if ltb (code c) (code d) then true else if code c == code d then rest else false

abbrev pub greater_of : String → Option String → String
greater_of s none = s
greater_of s (some t) = if text_lt s t then t else s

-- `.order_by("-number").first()`
abbrev pub greatest : List String → Option String
greatest [] = none
greatest (s ∷ ss) = some (greater_of s (greatest ss))

-- `text.startswith(prefix)`
abbrev pub starts_with : String → String → Bool
starts_with String.[] s = true
starts_with (String.◌∷◌ c p) String.[] = false
starts_with (String.◌∷◌ c p) (String.◌∷◌ d s) = code c == code d && starts_with p s

abbrev pub behind : Char → String → Option String → Option String
behind c s (some t) = some t
behind c s none = if code c == b'-' then some s else none

-- what stands behind the last hyphen, if there is one
abbrev pub behind_hyphen : String → Option String
behind_hyphen String.[] = none
behind_hyphen (String.◌∷◌ c s) = behind c s (behind_hyphen s)

-- `text.split("-")[-1]`
abbrev pub last_part : String → String
last_part s = get_or_default (behind_hyphen s) s

-- `f"FAC-{year}"`, for the letters of the document
abbrev pub series : String → ℕ → String
series letters year = letters ++ String.◌∷◌ "-" (padded 1 year)

-- `f"FAC-{year}-{seq:04d}"`
abbrev pub number : String → ℕ → String
number s seq = s ++ String.◌∷◌ "-" (padded 4 seq)

abbrev pub incremented : String → Option ℕ → Option String
incremented s none = none
incremented s (some seq) = some (number s (seq + 1))

abbrev pub following : String → Option String → Option String
following s none = some (number s 1)
following s (some last) = incremented s (parse_decimal (last_part last))

-- `generate_invoice_number` and `InternalIdGenerator.generate`, on the numbers of the company; no
-- value where `int` raises `ValueError`, which it does on a last part that is no number. A number
-- whose last part is written otherwise than in ASCII digits is outside the model.
unfoldable pub next_number : String → ℕ → List String → Option String
unfolding padded parse_decimal
next_number letters year numbers =
    let s = series letters year in following s (greatest (select (starts_with (s ++ "-")) numbers))
