-- ===== src/Colis/Round.antt =====
-- The round that a dispatch lays out.
use toupac.Prelude.{ℕ, suc, ◌≤◌, ◌≡◌, Bool, true, false, not, all, ◌||◌, List, [], ◌∷◌, ◌==◌}
use toupac.Colis.{
  Order, OrderStatus, dispatched, draft, confirmed, picked_up, in_transit, delivered, failed,
  cancelled, DeliveryTask,
}

-- The ranks of a round grow from task to task, from `from` on.
abbrev pub Grows : ℕ → List DeliveryTask → Type 0
Grows from [] = Unit
Grows from (t ∷ ts) = (from ≤ t.sequence_order) × Grows (suc t.sequence_order) ts

-- A task of the company, for the driver and the vehicle of the round.
abbrev pub Serves : ℕ → ℕ → ℕ → DeliveryTask → Type 0
Serves tenant driver vehicle t = (t.tenant ≡ tenant) × (t.driver ≡ driver) × (t.vehicle ≡ vehicle)

abbrev is_dispatched : OrderStatus → Bool
is_dispatched dispatched = true
is_dispatched draft = false
is_dispatched confirmed = false
is_dispatched picked_up = false
is_dispatched in_transit = false
is_dispatched delivered = false
is_dispatched failed = false
is_dispatched cancelled = false

-- The order of a primary key is dispatched.
abbrev pub leaves : ℕ → List Order → Bool
leaves i orders = all (λ o. not (o.id == i) || is_dispatched o.status) orders
