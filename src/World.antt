-- ===== src/World.antt =====
-- src/autokernel/world: the rebuild of a distribution's packages.
pub mod Models
pub mod Triage
pub mod Exceptions
pub mod Flags
pub mod Waves
pub mod Builder
mod Tests
