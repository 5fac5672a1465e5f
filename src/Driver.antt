-- ===== src/Driver.antt =====
-- The kernel driver (driver/).
pub mod Binding
pub mod Engine
pub mod Gem
pub mod Platform
pub mod Scheduler
pub mod Sim
pub mod SimDevices
pub mod Submit
