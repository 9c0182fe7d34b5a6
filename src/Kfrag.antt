-- ===== src/Kfrag.antt =====
-- src/autokernel/kfrag.py: the fragment of accepted changes, written and read back.
pub mod Parser
pub mod Format
pub mod Writer
pub mod Lines
pub mod Values
pub mod Means
pub mod Sections
pub mod OneLines
pub mod Header
pub mod RoundTrip
pub mod Injection
mod Tests
