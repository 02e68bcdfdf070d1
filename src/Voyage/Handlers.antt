-- ===== src/Voyage/Handlers.antt =====
-- voyage/services/handlers/: one module for each file of handlers.
pub mod Boarding
pub mod Transitions
pub mod Stops
pub mod Parcels
pub mod Incidents
pub mod Resolutions
pub mod SaleChecks
pub mod Sales
pub mod Frame
