-- ===== src/Mic.antt =====
-- The microphone's profile: daemon/src/mic_profile.rs and profile/src/microphone.
pub mod Gain
pub mod Equalizer
pub mod MiniEqualizer
pub mod Compressor
