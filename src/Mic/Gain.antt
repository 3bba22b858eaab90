-- ===== src/Mic/Gain.antt =====
-- profile/src/microphone/equalizer.rs: the gain of a band of either equaliser.
use goxlr_utility.Base.{Bool}
use goxlr_utility.Base.Int.{ℤ, within}

-- whether `validate_gain` accepts it
unfoldable pub validate_gain : ℤ → Bool
validate_gain gain = within 9 gain
