-- ===== src/Colis.antt =====
-- colis/services.py: orders are dispatched to a driver and a vehicle.
pub mod Round
pub mod Tests
use toupac.Prelude.{
  ℕ, suc, ◌+◌, ◌*◌, Bool, ◌&&◌, map, Option, some, none, List, [], ◌∷◌, ◌++◌, select, first,
  update_where, ◌==◌, if◌then◌else◌, String,
}
use toupac.Numbering.{next_number}

-- `Order.Status`
pub data OrderStatus : Type 0 where
  draft confirmed dispatched picked_up in_transit delivered failed cancelled : OrderStatus

-- `Order`, as the dispatch reads and writes it
pub record Order : Type 0 where
  pub id : ℕ
  pub tenant : ℕ
  pub internal_id : String
  pub pickup_place : ℕ
  pub dropoff_place : ℕ
  pub status : OrderStatus

-- `DeliveryTask.TaskType`
pub data TaskType : Type 0 where
  pickup delivery : TaskType

-- `DeliveryTask`
pub record DeliveryTask : Type 0 where
  pub tenant : ℕ
  pub order : ℕ
  pub driver : ℕ
  pub vehicle : ℕ
  pub type : TaskType
  pub place : ℕ
  pub sequence_order : ℕ

-- `orders_by_id.get(str(order_id))`, over the orders of the company
abbrev pub order_of : ℕ → ℕ → List Order → Option Order
order_of tenant i orders = first (λ o. o.id) (λ o. o.tenant == tenant && o.id == i) orders

-- `order.status = DISPATCHED`, saved
abbrev pub mark_dispatched : ℕ → List Order → List Order
mark_dispatched i = update_where (λ o. o.id == i) (λ o. record o { status = dispatched })

module _ (tenant driver vehicle : ℕ) where
  abbrev pub task_for : TaskType → ℕ → Order → ℕ → DeliveryTask
  task_for type place o rank = record {
    tenant = tenant;
    order = o.id;
    driver = driver;
    vehicle = vehicle;
    type = type;
    place = place;
    sequence_order = rank;
  }

  abbrev pub tasks_for : ℕ → Option Order → List DeliveryTask
  tasks_for index none = []
  tasks_for index (some o) =
      task_for pickup o.pickup_place o (index * 2)
      ∷ task_for delivery o.dropoff_place o (index * 2 + 1)
      ∷ []

  abbrev pub after_order : Option Order → List Order → List Order
  after_order none orders = orders
  after_order (some o) orders = mark_dispatched o.id orders

  -- the loop, on the orders that were read before it; the tasks, and the orders afterwards
  unfoldable pub dispatch_from :
      ℕ → List Order → List ℕ → List Order → List DeliveryTask × List Order
  dispatch_from index read [] orders = ([], orders)
  dispatch_from index read (i ∷ order_ids) orders =
      let o = order_of tenant i read in
      let rest = dispatch_from (suc index) read order_ids (after_order o orders) in
      (tasks_for index o ++ rest.0, rest.1)

  -- `dispatch_orders`: the tasks that it creates, and the orders afterwards
  unfoldable pub dispatch_orders : List ℕ → List Order → List DeliveryTask × List Order
  unfolding dispatch_from
  dispatch_orders order_ids orders = dispatch_from 0 orders order_ids orders

-- `InternalIdGenerator.generate`
unfoldable pub generate_internal_id : ℕ → ℕ → List Order → Option String
unfolding next_number
generate_internal_id tenant year orders =
    next_number "CMD" year (map (λ o. o.internal_id) (select (λ o. o.tenant == tenant) orders))
