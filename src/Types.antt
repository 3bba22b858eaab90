-- ===== src/Types.antt =====
-- types/src/lib.rs
mod Channels
mod EffectKeys
mod MicKey
mod Settings
unfoldable pub use Channels.*
unfoldable pub use EffectKeys.*
unfoldable pub use MicKey.*
unfoldable pub use Settings.*
