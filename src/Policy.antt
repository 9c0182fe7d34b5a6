-- ===== src/Policy.antt =====
-- src/autokernel/policy.py: which proposals may be applied at which level of autonomy.
pub mod Blocklists
pub mod LoadBearing
pub mod Apply
mod Tests
