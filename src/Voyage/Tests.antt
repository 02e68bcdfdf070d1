-- ===== src/Voyage/Tests.antt =====
-- The theorems at work on the small company of the tests.
mod World
mod Processing
mod Trips
mod Plans
mod Stops
mod Sales
mod Parcels
