-- ===== src/Usb.antt =====
-- usb/src: the protocol that the device speaks.
pub mod Colouring
pub mod Command
pub mod Wire
pub mod Perform
pub mod Routing
mod ButtonEnums
mod Requests
mod ColourTarget
unfoldable pub use ButtonEnums.*
unfoldable pub use ColourTarget.*
unfoldable pub use Requests.*
