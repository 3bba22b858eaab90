-- ===== src/Effects.antt =====
-- The encoders of the effects, profile/src/components.
pub mod Pitch
pub mod Gender
pub mod Echo
