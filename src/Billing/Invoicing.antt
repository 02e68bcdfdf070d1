-- ===== src/Billing/Invoicing.antt =====
-- billing/services.py, InvoiceGenerator: the invoices of reservations and orders.
use toupac.Prelude.{
  ℕ, String, ◌&&◌, Option, some, none, List, [], ◌∷◌, ◌++◌, map, any, select, ◌==◌, str_eq,
  get_or_default, if◌then◌else◌,
}
use toupac.Prelude.Int.{ℤ, pos}
use toupac.Prelude.Results.{Result, ok, err}
use toupac.Prelude.Text.{is_empty, concat}
use toupac.Numbering.{next_number}

-- `Invoice` and its only line, as the generator writes them
pub record Invoice : Type 0 where
  pub tenant : ℕ
  pub invoice_number : String
  pub customer_name : String
  pub customer_type : String
  pub customer_id : Option ℕ
  pub issue_date : ℕ
  pub subtotal_xof : ℤ
  pub tax_xof : ℤ
  pub total_xof : ℤ

pub record InvoiceLine : Type 0 where
  pub description : String
  pub reference_type : String
  pub reference_id : ℕ
  pub quantity : ℕ
  pub unit_price_xof : ℤ
  pub amount_xof : ℤ

-- What the generator reads of a reservation with its passenger and its trip.
pub record Billed : Type 0 where
  pub id : ℕ
  pub tenant : ℕ
  pub passenger : ℕ
  pub customer_user : Option ℕ
  pub passenger_name : String
  pub route_name : String
  pub seat_label : String
  pub amount_xof : ℤ

-- What it reads of an order. `customer` is the account and its name.
pub record BilledOrder : Type 0 where
  pub id : ℕ
  pub tenant : ℕ
  pub internal_id : String
  pub customer : Option (ℕ × String)
  pub customer_name : String
  pub total_amount_xof : Option ℤ

abbrev pub numbers_of : ℕ → List Invoice → List String
numbers_of tenant invoices = map (λ i. i.invoice_number) (select (λ i. i.tenant == tenant) invoices)

-- Why no invoice is made: the last number of the series cannot be read, or the new one is taken.
pub data InvoiceError : Type 0 where
  unreadable_number duplicate_number : InvoiceError

abbrev pub insert_invoice :
    Invoice
    → InvoiceLine
    → List (Invoice × InvoiceLine)
    → Result InvoiceError (List (Invoice × InvoiceLine))
insert_invoice invoice line rows =
    if any
      (λ row. row.0.tenant == invoice.tenant && str_eq row.0.invoice_number invoice.invoice_number)
      rows
    then err duplicate_number
    else ok (rows ++ (invoice, line) ∷ [])

abbrev pub invoices_of : List (Invoice × InvoiceLine) → List Invoice
invoices_of rows = map (λ row. row.0) rows

abbrev pub with_number :
    Option String
    → (String → Invoice)
    → InvoiceLine
    → List (Invoice × InvoiceLine)
    → Result InvoiceError (List (Invoice × InvoiceLine))
with_number none invoice line rows = err unreadable_number
with_number (some number) invoice line rows = insert_invoice (invoice number) line rows

-- `InvoiceGenerator.generate_invoice_number`
unfoldable pub generate_invoice_number : ℕ → ℕ → List Invoice → Option String
unfolding next_number
generate_invoice_number tenant year invoices = next_number "FAC" year (numbers_of tenant invoices)

abbrev customer_of : Billed → String × ℕ
customer_of r = elim r.customer_user [
  | some account ↦ ("client_user", account)
  | none ↦ ("passenger", r.passenger)
]

abbrev pub reservation_invoice : ℕ → Billed → String → Invoice
reservation_invoice today r number = record {
  tenant = r.tenant;
  invoice_number = number;
  customer_name = r.passenger_name;
  customer_type = (customer_of r).0;
  customer_id = some (customer_of r).1;
  issue_date = today;
  subtotal_xof = r.amount_xof;
  tax_xof = pos 0;
  total_xof = r.amount_xof;
}

abbrev pub reservation_line : Billed → InvoiceLine
reservation_line r = record {
  description = concat ("Billet " ∷ r.route_name ∷ " — siège " ∷ r.seat_label ∷ []);
  reference_type = "reservation";
  reference_id = r.id;
  quantity = 1;
  unit_price_xof = r.amount_xof;
  amount_xof = r.amount_xof;
}

-- `InvoiceGenerator.from_reservation`, on the day and in the year of the clock
unfoldable pub from_reservation :
    ℕ
    → ℕ
    → Billed
    → List (Invoice × InvoiceLine)
    → Result InvoiceError (List (Invoice × InvoiceLine))
unfolding generate_invoice_number
from_reservation today year r rows =
    with_number (generate_invoice_number r.tenant year (invoices_of rows))
      (reservation_invoice today r) (reservation_line r) rows

abbrev order_customer : BilledOrder → String × Option ℕ
order_customer o = elim o.customer [
  | some account ↦ ("client_user", some account.0)
  | none ↦ ("external", none)
]

abbrev order_name : BilledOrder → String
order_name o =
    if is_empty o.customer_name
    then elim o.customer [ some account ↦ account.1 | none ↦ "Client" ]
    else o.customer_name

abbrev order_amount : BilledOrder → ℤ
order_amount o = get_or_default o.total_amount_xof (pos 0)

abbrev pub order_invoice : ℕ → BilledOrder → String → Invoice
order_invoice today o number = record {
  tenant = o.tenant;
  invoice_number = number;
  customer_name = order_name o;
  customer_type = (order_customer o).0;
  customer_id = (order_customer o).1;
  issue_date = today;
  subtotal_xof = order_amount o;
  tax_xof = pos 0;
  total_xof = order_amount o;
}

abbrev pub order_line : BilledOrder → InvoiceLine
order_line o = record {
  description = concat ("Livraison " ∷ o.internal_id ∷ []);
  reference_type = "order";
  reference_id = o.id;
  quantity = 1;
  unit_price_xof = order_amount o;
  amount_xof = order_amount o;
}

-- `InvoiceGenerator.from_order`
unfoldable pub from_order :
    ℕ
    → ℕ
    → BilledOrder
    → List (Invoice × InvoiceLine)
    → Result InvoiceError (List (Invoice × InvoiceLine))
unfolding generate_invoice_number
from_order today year o rows =
    with_number (generate_invoice_number o.tenant year (invoices_of rows)) (order_invoice today o)
      (order_line o) rows
