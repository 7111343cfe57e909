-- ===== src/Control.antt =====
-- The shared protocol crate, shared/control: the words both sides of a socket agree on.
pub mod State
pub mod Text
pub mod Cut
pub mod Message
pub mod Briefing
pub mod Surface
pub mod Agent
pub mod Local
pub mod Wire
pub mod Framing
pub mod Lines
mod Tests
