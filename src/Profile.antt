-- ===== src/Profile.antt =====
-- The settings of a profile that the daemon reads and writes: profile/src/components and the
-- accessors of daemon/src/profile.rs. Maps that the source keys by its profile enumerations are
-- keyed by the standard names here; Conversion has the two and their correspondence.
pub mod Conversion
mod State
pub mod Lighting
pub mod Mute
pub mod Faders
pub mod Router
pub mod Submix
unfoldable pub use State.*
