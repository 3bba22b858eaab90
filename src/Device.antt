-- ===== src/Device.antt =====
-- daemon/src/device.rs: the handlers of one attached device.
mod State
pub mod Routing
pub mod Lights
pub mod Speech
pub mod Hardware
pub mod Mute
pub mod Cough
pub mod Faders
pub mod Session
pub mod Volumes
pub mod Inputs
pub mod Submix
pub mod Loading
pub mod Command
pub mod Commands
unfoldable pub use State.*
