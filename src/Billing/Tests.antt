-- ===== src/Billing/Tests.antt =====
-- A price by weight and an invoice, and the theorems on billing/ applied to them.
use toupac.Prelude.{◌≡◌, refl, true, some, none, [], ◌∷◌, get_or_default, arith}
use toupac.Prelude.Int.{ℤ, pos, ◌+ℤ◌, leb_ℤ}
use toupac.Prelude.Results.{ok}
use toupac.Billing.Pricing.{PriceRule, colis, per_kg, calculate_colis_price}
use toupac.Billing.Invoicing.{Billed}
use toupac.Billing.Prices.{calculate_colis_price_mono}

abbrev rule : PriceRule
rule = record {
  id = 1;
  tenant = 1;
  list_type = colis;
  list_active = true;
  route = none;
  method = per_kg;
  base_amount_xof = pos 500;
  rate_per_unit = some (pos 15050);
  min_amount_xof = some (pos 1000);
  max_amount_xof = some (pos 5000);
}

-- 2.5 kg at 150.50 XOF
two_and_a_half : calculate_colis_price 1 (some (pos 25, 1)) (rule ∷ []) ≡ ok (pos 1000)
unfolding calculate_colis_price ◌+ℤ◌
two_and_a_half = refl

calculate_colis_price_mono_example :
    (p : ℤ) × (q : ℤ) × (calculate_colis_price 1 (some (pos 25, 1)) (rule ∷ []) ≡ ok p)
    × (calculate_colis_price 1 (some (pos 400, 1)) (rule ∷ []) ≡ ok q)
    × (leb_ℤ p q ≡ true)
    × (leb_ℤ q (get_or_default rule.max_amount_xof q) ≡ true)
calculate_colis_price_mono_example =
    calculate_colis_price_mono 1 (rule ∷ []) rule 25 400 1 15050 refl refl refl (omega arith)

abbrev reservation : Billed
reservation = record {
  id = 9;
  tenant = 1;
  passenger = 30;
  customer_user = some 40;
  passenger_name = "Fatou Ndiaye";
  route_name = "Dakar - Touba";
  seat_label = "12";
  amount_xof = pos 6000;
}
