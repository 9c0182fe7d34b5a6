-- ===== src/Tui.antt =====
-- src/autokernel/tui: the review interface's state, with no widgets.
pub mod Filters
pub mod State
mod Tests
