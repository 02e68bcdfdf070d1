-- ===== src/Billing/Issued.antt =====
-- The invoice of a reservation and its number.
use Prim.Native.String.{◌++◌}
use toupac.Prelude.{String, ◌++◌ as append}
