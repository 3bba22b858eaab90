-- ===== src/Device/Commands/Steps.antt =====
-- Actions that succeed on every ready device and leave it ready.
use goxlr_utility.Base.{refl, Bool, true, false, List, [], ◌∷◌, none, some, if◌then◌else◌}
use goxlr_utility.Types.{InputDevice}
use goxlr_utility.Device.State.{Device, Settings, Action, Done, pure, gets, ◌>>=◌, ◌>>◌}
use goxlr_utility.Device.Hardware.Quiet.{
  Same, Quiet, Quiet-bind, Quiet-pure, Succeeds, Succeeds-bind,
}
use goxlr_utility.Device.Mute.Effect.{IsSound-Same}
use goxlr_utility.Device.Mute.Steps.{apply_routing-Quiet}
use goxlr_utility.Device.Cough.Branches.{IsReady}
use goxlr_utility.Device.Session.Reached.{KnowsMic-eq}
use goxlr_utility.Device.Commands.{modify_settings, latch, route_all}

abbrev pub Safe : Action Done → Type 0
Safe m = (d : Device) → IsReady d → Succeeds IsReady m d

pub IsReady-Same : {d e : Device} → Same d e → IsReady d → IsReady e
IsReady-Same {d} {e} s r = record {
  sound = IsSound-Same s r.sound;
  knows = KnowsMic-eq d.profile e.profile s.faders s.mute_chat r.knows;
}

pub Safe-Quiet : {m : Action Done} → Quiet m → Safe m
Safe-Quiet q d r = record {
  done = q.succeeds d r.sound.link;
  post = IsReady-Same (q.same d r.sound.link) r;
}

pub Safe-pure : Safe (pure tt)
Safe-pure d r = record { done = refl; post = r }

pub Safe-bind : (m k : Action Done) → Safe m → Safe k → Safe (m >> k)
Safe-bind m k p q d r = Succeeds-bind IsReady m k (p d r) q

pub Safe-gets :
    {A : Type 0} (f : Device → A) (k : A → Action Done)
    → ((a : A) → Safe (k a))
    → Safe (gets f >>= k)
Safe-gets f k q d r = let s = q (f d) d r in record { done = s.done; post = s.post }

pub Safe-if : (b : Bool) (m k : Action Done) → Safe m → Safe k → Safe (if b then m else k)
Safe-if true m k p q = p
Safe-if false m k p q = q

pub Quiet-settings : (f : Settings → Settings) → Quiet (modify_settings f)
Quiet-settings f = record {
  succeeds = λ d l. refl;
  same = λ d l. record {
    link = refl;
    mute_buttons = refl;
    mute_chat = refl;
    faders = refl;
    states = λ c. refl;
  };
}

pub latch-Quiet : (o : _) (v : _) → Quiet (latch o v)
unfolding latch
latch-Quiet none v = Quiet-pure
latch-Quiet (some f) v = record {
  succeeds = λ d l. refl;
  same = λ d l. record {
    link = refl;
    mute_buttons = refl;
    mute_chat = refl;
    faders = refl;
    states = λ c. refl;
  };
}

pub route_all-Quiet : (inputs : List InputDevice) → Quiet (route_all inputs)
unfolding route_all
route_all-Quiet [] = Quiet-pure
route_all-Quiet (i ∷ rest) = Quiet-bind _ _ (apply_routing-Quiet i) (route_all-Quiet rest)
