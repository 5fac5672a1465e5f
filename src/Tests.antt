-- ===== src/Tests.antt =====
-- Runs of the definitions, and the theorems at concrete inputs.
mod Allocators
mod Pools
mod Buffers
mod Jobs
mod Discoveries
mod Driver
mod FreeLists
mod OldDrivers
mod Sims
mod Submits
mod Glue
mod Contexts
mod Gems
mod Arenas
mod BufferData
mod Bindings
