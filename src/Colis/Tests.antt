-- ===== src/Colis/Tests.antt =====
-- Two orders of a company and one of another, and the theorem on their dispatch applied to them.
use toupac.Prelude.{◌≡◌, refl, some, List, [], ◌∷◌}
use toupac.Colis.{Order, confirmed, generate_internal_id}

abbrev orders : List Order
orders =
    record {
      id = 5;
      tenant = 1;
      internal_id = "CMD-2026-0001";
      pickup_place = 50;
      dropoff_place = 51;
      status = confirmed;
    }
    ∷ record {
      id = 6;
      tenant = 1;
      internal_id = "CMD-2026-0002";
      pickup_place = 60;
      dropoff_place = 61;
      status = confirmed;
    }
    ∷ record {
      id = 7;
      tenant = 2;
      internal_id = "CMD-2026-0001";
      pickup_place = 70;
      dropoff_place = 71;
      status = confirmed;
    }
    ∷ []

next_order : generate_internal_id 1 2026 orders ≡ some "CMD-2026-0003"
unfolding generate_internal_id
next_order = refl
