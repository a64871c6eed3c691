-- ===== src/Config.antt =====
-- The config.rs part: the configuration file.
pub mod Modes
pub mod Text
pub mod Parse
mod Words
mod RoundTrip
mod Tests
