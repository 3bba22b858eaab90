-- ===== src/Device/State.antt =====
-- The state of a device, and handlers as actions on it. The requests sent are kept, the newest
-- first, for they are what the hardware sees. An action that fails keeps what it did before.
use Prim.Native.String.{String}
use goxlr_utility.Base.{ℕ, Bool, true, List, ◌∷◌, if◌then◌else◌}
use goxlr_utility.Types.{FaderName, VersionNumber}
use goxlr_utility.Usb.{Request}
use goxlr_utility.Profile.{Profile, Scribble}

pub data DeviceType : Type 0 where
  unknown full mini : DeviceType

-- `usb` is a request that failed, `bail` an error that a handler makes itself.
pub data Error : Type 0 where
  usb bail : Error

-- What the USB connection does with a request, given those before it: it is not under src/.
pub data Link : Type 0 where
  reliable : Link
  flaky : (List Request → Request → Bool) → Link

pub record PauseUntil : Type 0 where
  pub paused : Bool
  pub until : ℕ

-- The settings of daemon/src/settings.rs that the handlers read.
pub record Settings : Type 0 where
  pub lock_faders : Bool
  pub enable_monitor_with_fx : Bool
  pub vc_mute_also_mute_cm : Bool

-- `render` draws a scribble, the scribbles crate; `tts` holds the messages sent to the events
-- channel, the newest first.
pub record Device : Type 0 where
  pub profile : Profile
  pub device_type : DeviceType
  pub firmware : VersionNumber
  pub settings : Settings
  pub fader_last_seen : FaderName → ℕ
  pub fader_pause_until : FaderName → PauseUntil
  pub render : Scribble → List ℕ
  pub link : Link
  pub sent : List Request
  pub tts : List String

pub data Result (A : Type 0) : Type 0 where
  ok : A → Result A
  err : Error → Result A

abbrev pub Action : Type 0 → Type 0
Action A = Device → Result A × Device

abbrev pub Done : Type 0
Done = Unit {0}

module _ {A : Type 0} where
  abbrev pub pure : A → Action A
  pure a d = (ok a, d)

  abbrev pub raise : Error → Action A
  raise e d = (err e, d)

  abbrev pub gets : (Device → A) → Action A
  gets f d = (ok (f d), d)

infixl 5 ◌>>=◌ ◌>>◌
abbrev pub ◌>>=◌ : {A B : Type 0} → Action A → (A → Action B) → Action B
◌>>=◌ m f d = let (r, d') = m d in elim r [ ok a ↦ f a d' | err e ↦ (err e, d') ]

abbrev pub ◌>>◌ : {A B : Type 0} → Action A → Action B → Action B
m >> k = m >>= λ _. k

-- `if test { .. }` with no `else`
abbrev pub when : Bool → Action Done → Action Done
when test m = if test then m else pure tt

abbrev pub modify_profile : (Profile → Profile) → Action Done
modify_profile f d = (ok tt, record d { profile = f d.profile })

abbrev pub say : String → Action Done
say message d = (ok tt, record d { tts = message ∷ d.tts })

-- `self.goxlr.<request>?`
abbrev pub answers : Link → List Request → Request → Bool
answers Link.reliable sent r = true
answers (Link.flaky f) sent r = f sent r

unfoldable pub request : Request → Action Done
request r d =
    if answers d.link d.sent r then (ok tt, record d { sent = r ∷ d.sent }) else (err Error.usb, d)
