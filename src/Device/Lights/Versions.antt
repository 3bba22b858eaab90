-- ===== src/Device/Lights/Versions.antt =====
-- The order of firmware versions.
use goxlr_utility.Base.{◌≡◌, ◌<◌, ◌≤◌, ◌⊎◌, true, arith}
use goxlr_utility.Types.{VersionNumber}
use goxlr_utility.Device.Lights.{version_newer_or_equal_to}

-- The lexicographic order of the four numbers.
pub IsAtLeast : VersionNumber → VersionNumber → Type 0
IsAtLeast v c =
    (c.v0 < v.v0)
    ⊎ ((c.v0 ≡ v.v0)
        × ((c.v1 < v.v1) ⊎ ((c.v1 ≡ v.v1) × ((c.v2 < v.v2) ⊎ ((c.v2 ≡ v.v2) × (c.v3 ≤ v.v3))))))

-- `version_newer_or_equal_to` holds exactly where the first version is at least the second in the
-- lexicographic order of their four numbers.
version_newer_or_equal_to_iff :
    (v c : VersionNumber)
    → (version_newer_or_equal_to v c ≡ true → IsAtLeast v c)
      × (IsAtLeast v c → version_newer_or_equal_to v c ≡ true)
unfolding version_newer_or_equal_to IsAtLeast
version_newer_or_equal_to_iff v c = ((λ e. ground (arith, e)), λ e. ground (arith, e))
