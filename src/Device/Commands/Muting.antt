-- ===== src/Device/Commands/Muting.antt =====
-- The commands that mute and unmute the faders and the mute state of the channels.
use goxlr_utility.Base.{◌≡◌, ◌⊎◌, inl, inr, refl, true, false, Bool-cases, arith}
use goxlr_utility.Types.{FaderName, MuteFunction, fader_name_enumeration}
use goxlr_utility.Profile.{is_on}
use goxlr_utility.Profile.Mute.{
  get_mute_button_state, set_mute_button_behaviour, mic_muted_by_cough, get_mute_chat_button_state,
}
use goxlr_utility.Profile.Faders.{get_fader_assignment}
use goxlr_utility.Device.State.{Device, Action, Done, Error, ok, err, pure, modify_profile}
use goxlr_utility.Device.Hardware.{wanted, wanted_off_fader}
use goxlr_utility.Device.Hardware.Quiet.{Succeeds, Succeeds-bind, Succeeds-eq}
use goxlr_utility.Device.Mute.{unmute_fader, mute_fader_to_x, mute_fader_to_all}
use goxlr_utility.Device.Mute.Effect.{IsSound}
use goxlr_utility.Device.Mute.ToAll.{mute_fader_to_all-IsSound, lit, blinking}
use goxlr_utility.Device.Mute.Opening.{IsOpened, unmute_fader-IsOpened}
use goxlr_utility.Device.Mute.Agreement.{mute_fader_to_x-IsSound}
use goxlr_utility.Device.Cough.Branches.{IsReady}
use goxlr_utility.Device.Session.Keeps.{
  Keeps, mute_fader_to_all-Keeps, mute_fader_to_x-Keeps, unmute_fader-Keeps,
}
use goxlr_utility.Device.Session.Reached.{KnowsMic-eq}
use goxlr_utility.Device.Command.{MuteState}
use goxlr_utility.Device.Commands.{change_mute_function, set_fader_state}
use goxlr_utility.Device.Commands.Steps.{Safe}

-- An action on the faders that keeps a device sound, with what it leaves alone, keeps it ready.
keeps-IsReady :
    (m : Action Done) (d : Device)
    → Keeps m
    → IsReady d
    → Succeeds IsSound m d
    → Succeeds IsReady m d
keeps-IsReady m d k r s = record {
  done = s.done;
  post = record {
    sound = s.post;
    knows =
        let u = k.untouched d r.sound.link in
        KnowsMic-eq d.profile (m d).1.profile u.faders u.mute_chat r.knows;
  };
}

unmute_fader-Safe : (f : FaderName) → Safe (unmute_fader f)
unmute_fader-Safe f d r =
    let s = unmute_fader-IsOpened f d r.sound in
    keeps-IsReady (unmute_fader f) d (unmute_fader-Keeps f) r
      (record { done = s.done; post = s.post.sound })

-- A dark button mutes nothing, whatever its function is.
behaviour-IsReady :
    (f : FaderName) (b : MuteFunction) (d : Device)
    → is_on (d.profile.mute_buttons f).colour_map.state ≡ false
    → is_on (d.profile.mute_buttons f).colour_map.blink ≡ false
    → IsReady d
    → Succeeds IsReady (modify_profile (set_mute_button_behaviour f b)) d
unfolding set_mute_button_behaviour wanted wanted_off_fader get_fader_assignment
    get_mute_button_state mic_muted_by_cough get_mute_chat_button_state
behaviour-IsReady f b d x all r = record {
  done = refl;
  post = record {
    sound = record {
      link = r.sound.link;
      distinct = r.sound.distinct;
      lit = λ g. ground (arith, r.sound.lit g);
      agrees = record {
        on_fader = λ g. ground (arith, x, all, r.sound.agrees.on_fader g);
        off_fader = r.sound.agrees.off_fader;
      };
    };
    knows = KnowsMic-eq d.profile (set_mute_button_behaviour f b d.profile) refl refl r.knows;
  };
}

pub change_mute_function-Safe : (f : FaderName) (b : MuteFunction) → Safe (change_mute_function f b)
unfolding change_mute_function
change_mute_function-Safe f b d r =
    let s = unmute_fader-IsOpened f d r.sound in
    let t = unmute_fader-Safe f d r in
    Succeeds-bind (λ e. IsOpened f d e × IsReady e) (unmute_fader f)
      (modify_profile (set_mute_button_behaviour f b))
      (record { done = s.done; post = (s.post, t.post) })
      λ e h. behaviour-IsReady f b e h.0.state h.0.blink h.1

-- What a command answers: it is done, or an error that changed nothing.
abbrev pub Outcome : Action Done → Device → Type 0
Outcome m d = Succeeds IsReady m d ⊎ (m d ≡ (err Error.bail, d))

set_muted_to_x-Outcome : (f : FaderName) (d : Device) → IsReady d → Outcome (mute_fader_to_x f) d
unfolding mute_fader_to_x get_mute_button_state
set_muted_to_x-Outcome f d r = elim (Bool-cases (blinking f d r.sound)) [
  | inl e ↦ inr (refused e)
  | inr e ↦ elim (Bool-cases (lit f d r.sound)) [
    | inl on ↦
        inl
          (Succeeds-eq (mute_fader_to_x f) (pure tt) (idle e on) (record { done = refl; post = r }))
    | inr off ↦ inl (
        keeps-IsReady (mute_fader_to_x f) d (mute_fader_to_x-Keeps f) r
          (mute_fader_to_x-IsSound f d r.sound off))
  ]
]
  where
    refused : blinking f d r.sound ≡ true → mute_fader_to_x f d ≡ (err Error.bail, d)
    refused e = rw e refl

    idle : blinking f d r.sound ≡ false → lit f d r.sound ≡ true → mute_fader_to_x f d ≡ (ok tt, d)
    idle e on = rw (e, on) refl

pub set_fader_state-Outcome :
    (f : FaderName) (state : MuteState) (d : Device)
    → IsReady d
    → Outcome (set_fader_state f state) d
unfolding set_fader_state
set_fader_state-Outcome f MuteState.unmuted d r = inl (unmute_fader-Safe f d r)
set_fader_state-Outcome f MuteState.muted_to_x d r = set_muted_to_x-Outcome f d r
set_fader_state-Outcome f MuteState.muted_to_all d r = inl (
    keeps-IsReady (mute_fader_to_all f true) d (mute_fader_to_all-Keeps f true) r
      (mute_fader_to_all-IsSound f true d r.sound (inl refl)))
