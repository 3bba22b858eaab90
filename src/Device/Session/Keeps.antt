-- ===== src/Device/Session/Keeps.antt =====
-- The mute buttons of the faders leave the cough button and the faders' channels alone.
use goxlr_utility.Base.{◌≡◌, refl, ◌∙◌, ◌==◌, ◌||◌, Bool, true, false, not, if◌then◌else◌}
use goxlr_utility.Types.{ChannelName, FaderName, channel_name_enumeration}
use goxlr_utility.Usb.{Request, ChannelState}
use goxlr_utility.Profile.Mute.{
  mic_muted_by_cough, set_mute_previous_volume, set_mute_button_on, set_mute_button_blink,
}
use goxlr_utility.Device.State.{
  Device, Action, Done, Error, Link, Result, ok, err, pure, raise, gets, modify_profile, request,
  say, ◌>>=◌, ◌>>◌,
}
use goxlr_utility.Device.Hardware.Quiet.{Quiet, Quiet-pure, Quiet-say}
use goxlr_utility.Device.Lights.{apply_mic_input_mute}
use goxlr_utility.Device.Mute.{
  settle_mute, restore_volume, settle_unmute, settle_mute_to_x, silence_fader, mute_fader_to_all,
  reopen_channel, darken_button, unmute_fader, mute_fader_to_x, handle_fader_mute,
}
use goxlr_utility.Device.Mute.Steps.{
  apply_mic_input_mute-Quiet, settle_mute-Quiet, restore_volume-Quiet, settle_unmute-Quiet,
  settle_mute_to_x-Quiet,
}

pub record Untouched (d e : Device) : Type 0 where
  pub link : e.link ≡ d.link
  pub mute_chat : e.profile.mute_chat ≡ d.profile.mute_chat
  pub faders : e.profile.faders ≡ d.profile.faders

Untouched-refl : (d : Device) → Untouched d d
Untouched-refl d = record { link = refl; mute_chat = refl; faders = refl }

-- Whatever an action answers, on a reliable link.
pub record Keeps (m : Action Done) : Type 0 where
  pub untouched : (d : Device) → d.link ≡ Link.reliable → Untouched d (m d).1

Keeps-Quiet : {m : Action Done} → Quiet m → Keeps m
Keeps-Quiet q = record {
  untouched = λ d l. record {
    link = (q.same d l).link;
    mute_chat = (q.same d l).mute_chat;
    faders = (q.same d l).faders;
  };
}

Keeps-request : (r : Request) → Keeps (request r)
unfolding request
Keeps-request r = record {
  untouched = λ d l. rw l (record { link = refl; mute_chat = refl; faders = refl });
}

Keeps-raise : (e : Error) → Keeps (raise e)
Keeps-raise e = record { untouched = λ d l. Untouched-refl d }

then-Untouched :
    (r : Result Done) (d e : Device) (k : Action Done)
    → Keeps k
    → d.link ≡ Link.reliable
    → Untouched d e
    → Untouched d (elim r as (λ x. Result Done × Device) [ ok a ↦ k e | err x ↦ (err x, e) ]).1
then-Untouched (err x) d e k q l h = h
then-Untouched (ok a) d e k q l h =
    let u = q.untouched e (h.link ∙ l) in
    record {
      link = u.link ∙ h.link;
      mute_chat = u.mute_chat ∙ h.mute_chat;
      faders = u.faders ∙ h.faders;
    }

Keeps-bind : (m k : Action Done) → Keeps m → Keeps k → Keeps (m >> k)
Keeps-bind m k p q = record {
  untouched = λ d l. then-Untouched (m d).0 d (m d).1 k q l (p.untouched d l);
}

Keeps-gets :
    {A : Type 0} (f : Device → A) (k : A → Action Done)
    → ((a : A) → Keeps (k a))
    → Keeps (gets f >>= k)
Keeps-gets f k q = record { untouched = λ d l. (q (f d)).untouched d l }

Keeps-if : (b : Bool) (m k : Action Done) → Keeps m → Keeps k → Keeps (if b then m else k)
Keeps-if true m k p q = p
Keeps-if false m k p q = q

Keeps-previous : (f : FaderName) (v : _) → Keeps (modify_profile (set_mute_previous_volume f v))
unfolding set_mute_previous_volume
Keeps-previous f v = record {
  untouched = λ d l. record { link = refl; mute_chat = refl; faders = refl };
}

Keeps-on : (f : FaderName) (b : Bool) → Keeps (modify_profile (set_mute_button_on f b))
unfolding set_mute_button_on
Keeps-on f b = record { untouched = λ d l. record { link = refl; mute_chat = refl; faders = refl } }

Keeps-blink : (f : FaderName) (b : Bool) → Keeps (modify_profile (set_mute_button_blink f b))
unfolding set_mute_button_blink
Keeps-blink f b = record {
  untouched = λ d l. record { link = refl; mute_chat = refl; faders = refl };
}

Keeps-pure : Keeps (pure tt)
Keeps-pure = Keeps-Quiet Quiet-pure

Keeps-say : (message : _) → Keeps (say message)
Keeps-say message = Keeps-Quiet (Quiet-say message)

ruleset keep_rules = (
  Keeps-pure, Keeps-say, Keeps-request, Keeps-raise, Keeps-bind, Keeps-gets, Keeps-if,
  Keeps-previous, Keeps-on, Keeps-blink,
)

silence_fader-Keeps : (f : FaderName) (c : ChannelName) → Keeps (silence_fader f c)
unfolding silence_fader
silence_fader-Keeps f c = search keep_rules depth 16

pub mute_fader_to_all-Keeps : (f : FaderName) (b : Bool) → Keeps (mute_fader_to_all f b)
unfolding mute_fader_to_all
mute_fader_to_all-Keeps f b = search (keep_rules, silence_fader-Keeps, settled) depth 16
  where
    settled : (c : ChannelName) → Keeps (settle_mute c)
    settled c = Keeps-Quiet (settle_mute-Quiet c)

reopen_channel-Keeps : (c : ChannelName) → Keeps (reopen_channel c)
unfolding reopen_channel
reopen_channel-Keeps c =
    Keeps-gets (λ d. mic_muted_by_cough d.profile) _
      λ coughed.
        Keeps-if (not (c == ChannelName.mic) || not coughed) _ _
          (Keeps-bind _ _ (Keeps-request (Request.set_channel_state c ChannelState.unmuted)) effect)
          Keeps-pure
  where
    effect : Keeps apply_mic_input_mute
    effect = Keeps-Quiet apply_mic_input_mute-Quiet

pub unmute_fader-Keeps : (f : FaderName) → Keeps (unmute_fader f)
unfolding unmute_fader darken_button
unmute_fader-Keeps f = search (keep_rules, reopen_channel-Keeps, restored, settled) depth 20
  where
    restored : (c : ChannelName) → Keeps (restore_volume f c)
    restored c = Keeps-Quiet (restore_volume-Quiet f c)

    settled : (b : Bool) (c : ChannelName) → Keeps (settle_unmute b c)
    settled b c = Keeps-Quiet (settle_unmute-Quiet b c)

pub mute_fader_to_x-Keeps : (f : FaderName) → Keeps (mute_fader_to_x f)
unfolding mute_fader_to_x
mute_fader_to_x-Keeps f = search (keep_rules, mute_fader_to_all-Keeps, settled) depth 20
  where
    settled : (c : ChannelName) → Keeps (settle_mute_to_x c)
    settled c = Keeps-Quiet (settle_mute_to_x-Quiet c)

pub handle_fader_mute-Keeps : (f : FaderName) (held : Bool) → Keeps (handle_fader_mute f held)
unfolding handle_fader_mute
handle_fader_mute-Keeps f held =
    search (keep_rules, mute_fader_to_all-Keeps, unmute_fader-Keeps, mute_fader_to_x-Keeps) depth 20
