-- ===== src/Billing/Pricing.antt =====
-- billing/services.py, PricingEngine: the prices of a trip and of a parcel.
use toupac.Prelude.{
  ℕ, suc, ◌-◌, ◌*◌, ◌/◌, ◌^◌, Bool, true, false, not, ◌&&◌, Option, some, none, List, first, ◌==◌,
  get_or_default, if◌then◌else◌,
}
use toupac.Prelude.Int.{ℤ, pos, negsuc, ◌+ℤ◌, ltb_ℤ}
use toupac.Prelude.Results.{Result, ok, err}

-- `PriceList.Type`
pub data ListType : Type 0 where
  voyage colis : ListType

-- `PriceRule.CalculationMethod`
pub data Method : Type 0 where
  fixed per_km per_kg per_zone : Method

-- `PriceRule`, with the type and the activity of its list. A rate is in hundredths.
pub record PriceRule : Type 0 where
  pub id : ℕ
  pub tenant : ℕ
  pub list_type : ListType
  pub list_active : Bool
  pub route : Option ℕ
  pub method : Method
  pub base_amount_xof : ℤ
  pub rate_per_unit : Option ℤ
  pub min_amount_xof : Option ℤ
  pub max_amount_xof : Option ℤ

-- `Schedule`, as the engine reads it
pub record Schedule : Type 0 where
  pub id : ℕ
  pub tenant : ℕ
  pub route : ℕ
  pub is_active : Bool
  pub departure_time : ℕ
  pub default_price_xof : ℤ

-- The two `ValueError` of the engine.
pub data PriceError : Type 0 where
  no_price unsupported_method : PriceError

abbrev pub is_list : ListType → ListType → Bool
is_list voyage voyage = true
is_list voyage colis = false
is_list colis voyage = false
is_list colis colis = true

abbrev pub is_id : Option ℕ → ℕ → Bool
is_id none i = false
is_id (some j) i = j == i

-- the rows of `PriceRule.objects.filter(...)`, up to the route
abbrev pub is_rule : ℕ → ListType → PriceRule → Bool
is_rule tenant type r = r.tenant == tenant && is_list type r.list_type && r.list_active

-- `bool(amount)`
abbrev is_amount : ℤ → Bool
is_amount (pos n) = not (n == 0)
is_amount (negsuc n) = true

abbrev is_schedule : ℕ → ℕ → Schedule → Bool
is_schedule tenant route s = s.tenant == tenant && s.route == route && s.is_active

abbrev default_price : Option Schedule → Result PriceError ℤ
default_price none = err no_price
default_price (some s) =
    if is_amount s.default_price_xof then ok s.default_price_xof else err no_price

abbrev voyage_price : Option PriceRule → Option Schedule → Result PriceError ℤ
voyage_price (some rule) schedule = ok rule.base_amount_xof
voyage_price none schedule = default_price schedule

-- `calculate_voyage_price`. The rules have no order of their own, and the first is the one of the
-- least primary key, as Django orders an unordered `.first()`.
unfoldable pub calculate_voyage_price : ℕ → ℕ → List PriceRule → List Schedule → Result PriceError ℤ
calculate_voyage_price tenant route rules schedules =
    voyage_price (first (λ r. r.id) (λ r. is_rule tenant voyage r && is_id r.route route) rules)
      (first (λ s. s.departure_time) (is_schedule tenant route) schedules)

abbrev negate : ℕ → ℤ
negate n = if n == 0 then pos 0 else negsuc (n - 1)

-- `a` times `b`, over a power of ten, cut towards zero as `int` does
abbrev cut_product : ℤ → ℤ → ℕ → ℤ
cut_product (pos a) (pos b) d = pos (a * b / d)
cut_product (pos a) (negsuc b) d = negate (a * suc b / d)
cut_product (negsuc a) (pos b) d = negate (suc a * b / d)
cut_product (negsuc a) (negsuc b) d = pos (suc a * suc b / d)

-- `max(price, rule.min_amount_xof)` and `min(price, rule.max_amount_xof)`, where they are set
abbrev pub at_least : Option ℤ → ℤ → ℤ
at_least none price = price
at_least (some low) price = if ltb_ℤ price low then low else price

abbrev pub at_most : Option ℤ → ℤ → ℤ
at_most none price = price
at_most (some high) price = if ltb_ℤ high price then high else price

-- A weight is a decimal: a numeral with a count of decimal places. `None` and 0 count for 0.
abbrev weighed : Option (ℤ × ℕ) → ℤ × ℕ
weighed none = (pos 0, 0)
weighed (some weight) = weight

abbrev pub by_method : Method → PriceRule → ℤ × ℕ → Result PriceError ℤ
by_method fixed rule weight = ok rule.base_amount_xof
by_method per_kg rule (numeral, places) =
    let rate = get_or_default rule.rate_per_unit (pos 0) in
    ok (rule.base_amount_xof +ℤ cut_product numeral rate (100 * 10 ^ places))
by_method per_km rule weight = err unsupported_method
by_method per_zone rule weight = err unsupported_method

-- the price before its bounds
unfoldable pub raw_price : PriceRule → Option (ℤ × ℕ) → Result PriceError ℤ
raw_price rule weight = by_method rule.method rule (weighed weight)

abbrev pub bounded : PriceRule → Result PriceError ℤ → Result PriceError ℤ
bounded rule (err e) = err e
bounded rule (ok price) = ok (at_most rule.max_amount_xof (at_least rule.min_amount_xof price))

abbrev pub priced : Option (ℤ × ℕ) → Option PriceRule → Result PriceError ℤ
priced weight none = err no_price
priced weight (some rule) = bounded rule (raw_price rule weight)

-- `calculate_colis_price`
unfoldable pub calculate_colis_price : ℕ → Option (ℤ × ℕ) → List PriceRule → Result PriceError ℤ
unfolding raw_price
calculate_colis_price tenant weight rules =
    priced weight (first (λ r. r.id) (is_rule tenant colis) rules)
