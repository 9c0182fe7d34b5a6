-- ===== src/Install.antt =====
-- src/autokernel/install.py, rollback.py and bootloader.py: the plans of an installation and of its
-- rollback, and how they are executed. A step has no description here. Whether `update-grub` is on
-- the path is an argument, and so are the results of the commands.
pub mod Bootloader
pub mod Plan
pub mod Execute
pub mod Rollback
pub mod FailFast
pub mod Default
pub mod Undo
pub mod RoundTrip
mod Tests
pub mod Entries
