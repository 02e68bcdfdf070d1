-- ===== src/Billing.antt =====
-- billing/services.py: prices and invoices.
pub mod Pricing
pub mod Prices
pub mod Invoicing
pub mod Issued
pub mod Tests
