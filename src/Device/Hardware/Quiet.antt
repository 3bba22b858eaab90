-- ===== src/Device/Hardware/Quiet.antt =====
-- Actions that succeed on a reliable link and leave alone all that the mute state of the channels
-- rests on: the settings of the buttons and faders, and the channel states sent.
use goxlr_utility.Base.{◌≡◌, refl, ◌∙◌, Bool, true, false, List, ◌∷◌, if◌then◌else◌, arith}
use goxlr_utility.Types.{ChannelName}
use goxlr_utility.Usb.{Request}
use goxlr_utility.Profile.{Profile}
use goxlr_utility.Device.State.{
  Device, Action, Done, ok, Link, pure, gets, say, modify_profile, ◌>>=◌, ◌>>◌, request,
}
use goxlr_utility.Device.Hardware.{channel_state}

pub record Same (d e : Device) : Type 0 where
  pub link : e.link ≡ d.link
  pub mute_buttons : e.profile.mute_buttons ≡ d.profile.mute_buttons
  pub mute_chat : e.profile.mute_chat ≡ d.profile.mute_chat
  pub faders : e.profile.faders ≡ d.profile.faders
  pub states : (c : ChannelName) → channel_state c e.sent ≡ channel_state c d.sent

pub Same-refl : (d : Device) → Same d d
Same-refl d = record {
  link = refl;
  mute_buttons = refl;
  mute_chat = refl;
  faders = refl;
  states = λ c. refl;
}

pub Same-trans : {d e f : Device} → Same d e → Same e f → Same d f
Same-trans s t = record {
  link = t.link ∙ s.link;
  mute_buttons = t.mute_buttons ∙ s.mute_buttons;
  mute_chat = t.mute_chat ∙ s.mute_chat;
  faders = t.faders ∙ s.faders;
  states = λ c. t.states c ∙ s.states c;
}

pub record Quiet (m : Action Done) : Type 0 where
  pub succeeds : (d : Device) → d.link ≡ Link.reliable → (m d).0 ≡ ok tt
  pub same : (d : Device) → d.link ≡ Link.reliable → Same d (m d).1

pub Quiet-pure : Quiet (pure tt)
Quiet-pure = record { succeeds = λ d l. refl; same = λ d l. Same-refl d }

pub Quiet-say : (message : _) → Quiet (say message)
Quiet-say message = record {
  succeeds = λ d l. refl;
  same = λ d l. record {
    link = refl;
    mute_buttons = refl;
    mute_chat = refl;
    faders = refl;
    states = λ c. refl;
  };
}

abbrev pub IsSilent : Request → Type 0
IsSilent r =
    (c : ChannelName) (sent : List Request) → channel_state c (r ∷ sent) ≡ channel_state c sent

pub Quiet-request : (r : Request) → IsSilent r → Quiet (request r)
unfolding request
Quiet-request r silent = record {
  succeeds = λ d l. ground arith;
  same = λ d l. record {
    link = ground arith;
    mute_buttons = ground arith;
    mute_chat = ground arith;
    faders = ground arith;
    states = λ c. ground (arith, silent c d.sent);
  };
}

bind-eq : (m k : Action Done) (d : Device) → (m d).0 ≡ ok tt → (m >> k) d ≡ k (m d).1
bind-eq m k d h = rw (h, ◌>>=◌)

pub Quiet-bind : (m k : Action Done) → Quiet m → Quiet k → Quiet (m >> k)
Quiet-bind m k qm qk = record {
  succeeds = λ d l. rw (bind-eq m k d (qm.succeeds d l)) (qk.succeeds _ ((qm.same d l).link ∙ l));
  same = λ d l.
      rw (bind-eq m k d (qm.succeeds d l))
        (Same-trans (qm.same d l) (qk.same _ ((qm.same d l).link ∙ l)));
}

pub Quiet-gets :
    {A : Type 0} (f : Device → A) (k : A → Action Done)
    → ((a : A) → Quiet (k a))
    → Quiet (gets f >>= k)
Quiet-gets f k q = record {
  succeeds = λ d l. (q (f d)).succeeds d l;
  same = λ d l. (q (f d)).same d l;
}

pub Quiet-if : (b : Bool) (m k : Action Done) → Quiet m → Quiet k → Quiet (if b then m else k)
Quiet-if true m k qm qk = qm
Quiet-if false m k qm qk = qk

pub Quiet-modify :
    (f : Profile → Profile)
    → ((p : Profile)
        → ((f p).mute_buttons ≡ p.mute_buttons)
          × ((f p).mute_chat ≡ p.mute_chat)
          × ((f p).faders ≡ p.faders))
    → Quiet (modify_profile f)
Quiet-modify f h = record {
  succeeds = λ d l. refl;
  same = λ d l. record {
    link = refl;
    mute_buttons = (h d.profile).0;
    mute_chat = (h d.profile).1;
    faders = (h d.profile).2;
    states = λ c. refl;
  };
}

-- An action that is computed from the state that it starts in.
pub Quiet-here : (k : Device → Action Done) → ((d : Device) → Quiet (k d)) → Quiet (λ d. k d d)
Quiet-here k q = record { succeeds = λ d l. (q d).succeeds d l; same = λ d l. (q d).same d l }

pub ruleset quiet_rules = (Quiet-pure, Quiet-say, Quiet-request, Quiet-bind, Quiet-gets, Quiet-if)

-- `m`, run in `d`, succeeds and leaves a state of which `Q` holds.
pub record Succeeds (Q : Device → Type 0) (m : Action Done) (d : Device) : Type 0 where
  pub done : (m d).0 ≡ ok tt
  pub post : Q (m d).1

pub Succeeds-bind :
    (Q : Device → Type 0) {R : Device → Type 0} (m k : Action Done) {d : Device}
    → Succeeds Q m d
    → ((e : Device) → Q e → Succeeds R k e)
    → Succeeds R (m >> k) d
Succeeds-bind Q m k {d} h next = record {
  done = rw (bind-eq m k d h.done) (next (m d).1 h.post).done;
  post = rw (bind-eq m k d h.done) (next (m d).1 h.post).post;
}

pub Succeeds-Quiet :
    {m : Action Done} (d : Device) → Quiet m → d.link ≡ Link.reliable → Succeeds (Same d) m d
Succeeds-Quiet d q l = record { done = q.succeeds d l; post = q.same d l }

pub Succeeds-eq :
    {Q : Device → Type 0} (m k : Action Done) {d : Device}
    → m d ≡ k d
    → Succeeds Q k d
    → Succeeds Q m d
Succeeds-eq m k e h = record { done = rw e h.done; post = rw e h.post }

-- A request on a reliable link is sent.
pub request-reliable :
    (r : Request) (d : Device)
    → d.link ≡ Link.reliable
    → request r d ≡ (ok tt, record d { sent = r ∷ d.sent })
unfolding request
request-reliable r d l = rw l refl

pub Succeeds-if :
    {Q : Device → Type 0} (b : Bool) {m k : Action Done} {d : Device}
    → (b ≡ true → Succeeds Q m d)
    → (b ≡ false → Succeeds Q k d)
    → Succeeds Q (if b then m else k) d
Succeeds-if true m k = m refl
Succeeds-if false m k = k refl
