-- ===== src/Usb/Wire/Replies/Updates.antt =====
-- The answers of a firmware update, case by case.
use goxlr_utility.Base.{◌≡◌, ◌↔◌, true, false, some, arith}
use goxlr_utility.Usb.Wire.Replies.{Poll, verify_status, finalise_status}

-- A poll of the verification ends it exactly on command 2, stage 0 and state 2, and goes on exactly
-- on command 3, stage 0 and state 1 without an error code.
pub verify_status_iff :
    (p : Poll)
    → ((verify_status p ≡ some (true, p.read_total, p.read_done))
        ↔ ((p.op ≡ 2) × (p.stage ≡ 0) × (p.state ≡ 2)))
      × ((verify_status p ≡ some (false, p.read_total, p.read_done))
          ↔ ((p.op ≡ 3) × (p.stage ≡ 0) × (p.state ≡ 1) × (p.error_code ≡ 0)))
unfolding verify_status
verify_status_iff p = (
  ((λ e. ground (arith, e)), λ e. ground (arith, e)),
  ((λ e. ground (arith, e)), λ e. ground (arith, e)),
)

-- A poll of the last step ends it exactly on command 4, stage 1 and state 2, and goes on exactly on
-- state 1 of the same.
pub finalise_status_iff :
    (p : Poll)
    → ((finalise_status p ≡ some (true, p.read_total, p.read_done))
        ↔ ((p.op ≡ 4) × (p.stage ≡ 1) × (p.state ≡ 2)))
      × ((finalise_status p ≡ some (false, p.read_total, p.read_done))
          ↔ ((p.op ≡ 4) × (p.stage ≡ 1) × (p.state ≡ 1)))
unfolding finalise_status
finalise_status_iff p = (
  ((λ e. ground (arith, e)), λ e. ground (arith, e)),
  ((λ e. ground (arith, e)), λ e. ground (arith, e)),
)
