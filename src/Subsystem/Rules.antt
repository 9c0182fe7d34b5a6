-- ===== src/Subsystem/Rules.antt =====
-- The rule list of src/autokernel/subsystem.py, cut into parts that follow one another.
mod Arch
mod Storage
mod Devices
mod Rest
unfoldable pub use Arch.{arch_rules}
unfoldable pub use Storage.{storage_rules}
unfoldable pub use Devices.{device_rules}
unfoldable pub use Rest.{rest_rules}
