-- ===== src/Patches.antt =====
-- src/autokernel/patches.py: the versions of kernels, the sets of patches, their
-- application to a tree, and their configuration.
pub mod Version
pub mod Sets
pub mod Process
mod Tests
pub mod Config
