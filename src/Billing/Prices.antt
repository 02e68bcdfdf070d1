-- ===== src/Billing/Prices.antt =====
-- The prices of parcels against their weights.
use toupac.Prelude.{
  ℕ, ◌*◌, ◌/◌, ◌^◌, ◌≤◌, ◌≡◌, refl, true, Option, some, none, List, first, get_or_default, arith,
}
use native.Mathlib.Nat.{mul-le-mul_right}
use toupac.Prelude.Int.{ℤ, pos, ◌+ℤ◌, leb_ℤ}
use toupac.Prelude.Results.{ok}
use toupac.Billing.Pricing.{
  PriceRule, per_kg, is_rule, colis, at_least, at_most, calculate_colis_price,
}

at_least_mono :
    (low : Option ℤ) (p q : ℤ) → leb_ℤ p q ≡ true → leb_ℤ (at_least low p) (at_least low q) ≡ true
at_least_mono none p q h = h
at_least_mono (some low) p q h = ground arith

at_most_mono :
    (high : Option ℤ) (p q : ℤ) → leb_ℤ p q ≡ true → leb_ℤ (at_most high p) (at_most high q) ≡ true
at_most_mono none p q h = h
at_most_mono (some high) p q h = ground arith

add_mono : (base : ℤ) (a b : ℕ) → a ≤ b → leb_ℤ (base +ℤ pos a) (base +ℤ pos b) ≡ true
unfolding ◌+ℤ◌
add_mono base a b h = ground arith

mul-div_mono : (a b r d : ℕ) → a ≤ b → a * r / d ≤ b * r / d
mul-div_mono a b r d h = grind (arith, mul-le-mul_right r h)

le-at_most :
    (high : Option ℤ) (p : ℤ) → leb_ℤ (at_most high p) (get_or_default high (at_most high p)) ≡ true
le-at_most none p = ground arith
le-at_most (some high) p = ground arith

-- A company whose first active list of parcels prices by weight, at a rate that is not negative, gives
-- a price for every weight: a heavier parcel never costs less, and no parcel costs more than the
-- maximum of the rule. The two weights have as many decimal places.
pub calculate_colis_price_mono :
    (tenant : ℕ) (rules : List PriceRule) (rule : PriceRule) (light heavy places rate : ℕ)
    → first (λ r. r.id) (is_rule tenant colis) rules ≡ some rule
    → rule.method ≡ per_kg
    → get_or_default rule.rate_per_unit (pos 0) ≡ pos rate
    → light ≤ heavy
    → (p : ℤ) × (q : ℤ) × (calculate_colis_price tenant (some (pos light, places)) rules ≡ ok p)
      × (calculate_colis_price tenant (some (pos heavy, places)) rules ≡ ok q)
      × (leb_ℤ p q ≡ true)
      × (leb_ℤ q (get_or_default rule.max_amount_xof q) ≡ true)
unfolding calculate_colis_price
calculate_colis_price_mono tenant rules rule light heavy places rate found method positive h =
    let d = 100 * 10 ^ places in
    let low = rule.base_amount_xof +ℤ pos (light * rate / d) in
    let high = rule.base_amount_xof +ℤ pos (heavy * rate / d) in
    let grown =
      add_mono rule.base_amount_xof (light * rate / d) (heavy * rate / d)
        (mul-div_mono light heavy rate d h) in
    (
      at_most rule.max_amount_xof (at_least rule.min_amount_xof low),
      at_most rule.max_amount_xof (at_least rule.min_amount_xof high),
      rw (found, method, positive) refl,
      rw (found, method, positive) refl,
      at_most_mono rule.max_amount_xof _ _ (at_least_mono rule.min_amount_xof low high grown),
      le-at_most rule.max_amount_xof (at_least rule.min_amount_xof high),
    )
