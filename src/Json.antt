-- ===== src/Json.antt =====
-- A value of a decoded JSON document, with the dynamic behaviour of Python that the code uses.
use toupac.Prelude.{
  ◌*◌, ◌+◌, ◌^◌, ◌==◌, ◌&&◌, ℕ, zero, suc, String, Bool, true, false, not, Option, none, some, List,
  [], ◌∷◌, if◌then◌else◌, str_eq,
}
use toupac.Prelude.Int.{ℤ, pos, negsuc}
use toupac.Prelude.Text.{is_empty}

-- `real m k` is a number written with a fraction or an exponent: m * 10^-k.
mutual
  pub data Json : Type 0 where
    null : Json
    bool : Bool → Json
    int : ℤ → Json
    real : ℤ → ℕ → Json
    str : String → Json
    arr : Items → Json
    obj : Fields → Json

  pub data Items : Type 0 where
    nil : Items
    cons : Json → Items → Items

  pub data Fields : Type 0 where
    end : Fields
    field : String → Json → Fields → Fields

abbrev is_zero : ℤ → Bool
is_zero (pos zero) = true
is_zero (pos (suc n)) = false
is_zero (negsuc n) = false

-- `bool(value)`
abbrev pub truthy : Json → Bool
truthy null = false
truthy (bool b) = b
truthy (int n) = not (is_zero n)
truthy (real m k) = not (is_zero m)
truthy (str s) = not (is_empty s)
truthy (arr nil) = false
truthy (arr (cons x xs)) = true
truthy (obj end) = false
truthy (obj (field k v fs)) = true

-- a decoded object keeps the last value of a repeated key; its fields are listed with that value
abbrev pub lookup_field : String → Fields → Option Json
lookup_field k end = none
lookup_field k (field j v fs) = let rest = lookup_field k fs in if str_eq j k then some v else rest

-- a dictionary's `get(key)` and `get(key, default)`
abbrev pub get_default : Fields → String → Json → Json
get_default fs k d = elim (lookup_field k fs) [ none ↦ d | some v ↦ v ]

abbrev pub get : Fields → String → Json
get fs k = get_default fs k null

-- `a or b`
abbrev pub or_value : Json → Json → Json
or_value a b = if truthy a then a else b

-- `some` of a value that is true
abbrev pub present : Json → Option Json
present v = if truthy v then some v else none

-- the list of an array's items, to be walked
abbrev pub elements : Items → List Json
elements nil = []
elements (cons x xs) = x ∷ elements xs

-- the first `n` items
pub take_items : ℕ → Items → Items
take_items zero xs = nil
take_items (suc n) nil = nil
take_items (suc n) (cons x xs) = cons x (take_items n xs)

-- `payload->>key` where the value is a text, as a JSON lookup compares it
abbrev pub text_at : String → Json → Option String
text_at k (obj fs) = elim (lookup_field k fs) [ some (str s) ↦ some s | _ ↦ none ]
text_at k _ = none

-- `isinstance(v, (list, dict))`: what cannot be hashed
abbrev pub is_unhashable : Json → Bool
is_unhashable (arr xs) = true
is_unhashable (obj fs) = true
is_unhashable _ = false

-- Python's `a == b`, through numbers as mantissa and scale
abbrev number_eq : ℤ → ℕ → ℤ → ℕ → Bool
number_eq (pos m) k (pos n) l = m * 10 ^ l == n * 10 ^ k
number_eq (negsuc m) k (negsuc n) l = (m + 1) * 10 ^ l == (n + 1) * 10 ^ k
number_eq _ _ _ _ = false

abbrev number_of_bool : Bool → ℤ
number_of_bool true = pos 1
number_of_bool false = pos 0

abbrev is_number : ℤ → ℕ → Json → Bool
is_number m k (bool b) = number_eq m k (number_of_bool b) 0
is_number m k (int n) = number_eq m k n 0
is_number m k (real n l) = number_eq m k n l
is_number m k _ = false

abbrev pub is_text : String → Json → Bool
is_text s (str t) = str_eq s t
is_text s _ = false

abbrev field_count : Fields → ℕ
field_count end = 0
field_count (field k v fs) = suc (field_count fs)

mutual
  value_eq : Json → Json → Bool
  value_eq null w = elim w [ null ↦ true | _ ↦ false ]
  value_eq (bool b) w = is_number (number_of_bool b) 0 w
  value_eq (int n) w = is_number n 0 w
  value_eq (real n k) w = is_number n k w
  value_eq (str s) w = is_text s w
  value_eq (arr xs) w = elim w [ arr ys ↦ items_eq xs ys | _ ↦ false ]
  value_eq (obj fs) w = elim w [
    | obj gs ↦ field_count fs == field_count gs && fields_among fs gs
    | _ ↦ false
  ]

  items_eq : Items → Items → Bool
  items_eq nil ys = elim ys [ nil ↦ true | _ ↦ false ]
  items_eq (cons x xs) ys = elim ys [ nil ↦ false | cons y r ↦ value_eq x y && items_eq xs r ]

  fields_among : Fields → Fields → Bool
  fields_among end gs = true
  fields_among (field k v fs) gs = elim (lookup_field k gs) [
    | none ↦ false
    | some w ↦ value_eq v w && fields_among fs gs
  ]

-- `v == w`
unfoldable pub json_eq : Json → Json → Bool
unfolding value_eq
json_eq v w = value_eq v w
