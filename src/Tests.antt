-- ===== src/Tests.antt =====
-- Runs of the model at concrete inputs.
pub mod Given
pub mod Utils
pub mod Parsing
pub mod Frames
pub mod Serving
pub mod Wire
pub mod Services
pub mod Events
pub mod Loops
pub mod Server
pub mod Rings
pub mod Served
pub mod Answered
