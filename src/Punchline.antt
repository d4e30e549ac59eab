-- ===== src/Punchline.antt =====
-- modules/punchline: the time-clock application on top of the engine.
pub mod Fields
pub mod Data
pub mod Reader
pub mod Rules
pub mod Queries
pub mod Recorder
pub mod Lifecycle
