-- ===== src/Voyage.antt =====
-- The voyage application: its rows, its store, and the processing of offline control events.
pub mod Codes
pub mod Models
pub mod Host
pub mod Db
pub mod Tx
pub mod Events
pub mod Anomalies
pub mod Signals
pub mod Session
pub mod SeatLabels
pub mod Tickets
pub mod Handlers
pub mod Drafts
pub mod Verdicts
pub mod Processor
pub mod Batch
pub mod TripStops
mod Tests
