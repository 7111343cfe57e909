-- ===== src/Widgets.antt =====
-- surfaces/desktop/src/widgets: the turn that one widget decision holds at a time, and the pool of
-- warm shell windows.
pub mod Turn
pub mod Order
pub mod Pool
pub mod Labels
pub mod Handed
mod Tests
