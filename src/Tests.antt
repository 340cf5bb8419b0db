-- ===== src/Tests.antt =====
-- The services run on small inputs, and each theorem at an input that meets its conditions.
mod Data
mod Lifecycle
mod System
mod Api
mod Monitoring
mod Delivery
mod Workers
mod Migrations
mod App
mod Submission
mod LoadTest
