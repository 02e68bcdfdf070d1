-- ===== src/Notifications.antt =====
-- notifications/: the events that the application announces, whom they reach, and their delivery.
pub mod Models
pub mod Catalog
pub mod Rendering
pub mod Outbox
pub mod Tasks
pub mod Service
pub mod Tests
