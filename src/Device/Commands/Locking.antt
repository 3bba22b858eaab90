-- ===== src/Device/Commands/Locking.antt =====
-- `lock_faders` and `unlock_faders` and the mute state of the channels.
use goxlr_utility.Base.{◌≡◌, refl, ℕ, Bool, List, [], ◌∷◌, update_all}
use goxlr_utility.Types.{ChannelName, FaderName, fader_name_enumeration, fader_name_variants}
use goxlr_utility.Usb.{Request, ChannelState}
use goxlr_utility.Profile.{Profile, is_on}
use goxlr_utility.Profile.Mute.{
  get_mute_button_state, set_mute_previous_volume, get_fader_mute_state, mic_muted_by_cough,
  get_mute_chat_button_state,
}
use goxlr_utility.Profile.Faders.{get_fader_assignment, get_channel_volume}
use goxlr_utility.Device.State.{Device, Action, Done, modify_profile, pure, request}
use goxlr_utility.Device.Hardware.{wanted, wanted_off_fader}
use goxlr_utility.Device.Hardware.Quiet.{Succeeds}
use goxlr_utility.Device.Lights.{is_mini}
use goxlr_utility.Device.Mute.Steps.{set_volume-Quiet, load_colour_map-Quiet}
use goxlr_utility.Device.Cough.Branches.{IsReady}
use goxlr_utility.Device.Session.Reached.{KnowsMic-eq}
use goxlr_utility.Device.Faders.{
  lock_fader, unlock_fader, drop_volume, for_each, lock_faders, unlock_faders,
}
use goxlr_utility.Device.Commands.{change_lock}
use goxlr_utility.Device.Commands.Steps.{
  Safe, Safe-Quiet, Safe-pure, Safe-bind, Safe-if, Quiet-settings,
}

-- Buttons that mute as they did, on a profile that differs in nothing else that mutes.
buttons-IsReady :
    (d : Device) (p : Profile)
    → ((g : FaderName) → get_mute_button_state p g ≡ get_mute_button_state d.profile g)
    → p.faders ≡ d.profile.faders
    → p.mute_chat ≡ d.profile.mute_chat
    → IsReady d
    → IsReady (record d { profile = p })
unfolding wanted wanted_off_fader get_fader_assignment mic_muted_by_cough get_mute_chat_button_state
buttons-IsReady d p b f m r = record {
  sound = record {
    link = r.sound.link;
    distinct = rw f r.sound.distinct;
    lit = λ g. rw (b g) (r.sound.lit g);
    agrees = record {
      on_fader = λ g. rw (b g, f, m) (r.sound.agrees.on_fader g);
      off_fader = λ c n. rw m (r.sound.agrees.off_fader c (rw f at n));
    };
  };
  knows = KnowsMic-eq d.profile p f m r.knows;
}

previous_volume-state :
    (f g : FaderName) (v : ℕ) (p : Profile)
    → get_mute_button_state (set_mute_previous_volume f v p) g ≡ get_mute_button_state p g
unfolding get_mute_button_state set_mute_previous_volume
previous_volume-state f g v p =
    update_all
      (λ j b.
        record {
          muted_to_x = is_on b.colour_map.state;
          muted_to_all = is_on b.colour_map.blink;
          mute_function = b.mute_function;
        }
        ≡ get_mute_button_state p j)
      p.mute_buttons f (record (p.mute_buttons f) { previous_volume = v }) refl (λ j. refl) g

previous_volume-Safe :
    (f : FaderName) (v : ℕ) → Safe (modify_profile (set_mute_previous_volume f v))
unfolding set_mute_previous_volume
previous_volume-Safe f v d r = record {
  done = refl;
  post =
      buttons-IsReady d (set_mute_previous_volume f v d.profile)
        (λ g. previous_volume-state f g v d.profile) refl refl r;
}

lock_fader-Safe : (f : FaderName) → Safe (lock_fader f)
unfolding lock_fader
lock_fader-Safe f d r =
    let s = sent (get_fader_mute_state d.profile f) in record { done = s.done; post = s.post }
  where
    sent :
        (s : ChannelState)
        → Succeeds IsReady
            (λ e. elim s [
              | ChannelState.muted ↦
                  request
                    (Request.set_volume
                      (get_fader_assignment d.profile f)
                      (d.profile.mute_buttons f).previous_volume)
                    e
              | ChannelState.unmuted ↦ pure tt e
            ])
            d
    sent ChannelState.muted = Safe-Quiet (set_volume-Quiet _ _) d r
    sent ChannelState.unmuted = Safe-pure d r

drop_volume-Safe : (f : FaderName) (c : ChannelName) (v : ℕ) → Safe (drop_volume f c v)
drop_volume-Safe f c v =
    Safe-bind _ _ (previous_volume-Safe f v) (Safe-Quiet (set_volume-Quiet c 0))

unlock_fader-Safe : (f : FaderName) → Safe (unlock_fader f)
unfolding unlock_fader
unlock_fader-Safe f d r =
    let s = dropped (get_fader_mute_state d.profile f) in record { done = s.done; post = s.post }
  where
    dropped :
        (s : ChannelState)
        → Succeeds IsReady
            (λ e. elim s [
              | ChannelState.muted ↦
                  drop_volume f
                    (get_fader_assignment d.profile f)
                    (get_channel_volume d.profile (get_fader_assignment d.profile f))
                    e
              | ChannelState.unmuted ↦ pure tt e
            ])
            d
    dropped ChannelState.muted = drop_volume-Safe f _ _ d r
    dropped ChannelState.unmuted = Safe-pure d r

for_each-Safe :
    (fs : List FaderName) (body : FaderName → Action Done)
    → ((f : FaderName) → Safe (body f))
    → Safe (for_each fs body)
unfolding for_each
for_each-Safe [] body h = Safe-pure
for_each-Safe (f ∷ rest) body h = Safe-bind _ _ (h f) (for_each-Safe rest body h)

lock_faders-Safe : Safe lock_faders
unfolding lock_faders
lock_faders-Safe d r =
    let s =
      Safe-if (is_mini d.device_type) _ _ Safe-pure
        (for_each-Safe fader_name_variants lock_fader lock_fader-Safe) d r in
    record { done = s.done; post = s.post }

unlock_faders-Safe : Safe unlock_faders
unfolding unlock_faders
unlock_faders-Safe d r =
    let s =
      Safe-if (is_mini d.device_type) _ _ Safe-pure
        (for_each-Safe fader_name_variants unlock_fader unlock_fader-Safe) d r in
    record { done = s.done; post = s.post }

pub change_lock-Safe : (value : Bool) → Safe (change_lock value)
unfolding change_lock
change_lock-Safe value = Safe-bind _ _ (Safe-Quiet (Quiet-settings _)) (
    Safe-bind _ _ (Safe-if value _ _ lock_faders-Safe unlock_faders-Safe)
      (Safe-Quiet load_colour_map-Quiet))
