-- ===== src/Device/Volumes/Stored.antt =====
-- The volume of a channel as `update_volumes_to` stores it.
use goxlr_utility.Base.{
  ℕ, Bool, true, false, ◌&&◌, ◌≡◌, inl, inr, refl, eqb, Option, none, some, update, Bool-cases, ap,
  arith,
}
use goxlr_utility.Types.{
  ChannelName, SubMixChannelName, fader_name_enumeration, channel_name_enumeration,
}
use goxlr_utility.Profile.Faders.{get_channel_volume, set_channel_volume}
use goxlr_utility.Device.State.{Device, Link, ok, Result, request}
use goxlr_utility.Device.Lights.{device_supports_submixes}
use goxlr_utility.Profile.Conversion.{channel_name_to_submix}
use goxlr_utility.Profile.Submix.{is_submix_enabled}
use goxlr_utility.Device.Volumes.{follow_link, update_submix_for, store_volume}

-- What moving a fader does not touch.
record Beside (d e : Device) : Type 0 where
  link : e.link ≡ d.link
  device_type : e.device_type ≡ d.device_type
  faders : e.profile.faders ≡ d.profile.faders
  seen : e.fader_last_seen ≡ d.fader_last_seen
  pauses : e.fader_pause_until ≡ d.fader_pause_until
  volumes : e.profile.volumes ≡ d.profile.volumes

follow_link-Beside :
    (volume : ℕ) (o : Option SubMixChannelName) (d : Device)
    → d.link ≡ Link.reliable
    → ((follow_link volume o d).0 ≡ ok tt) × Beside d (follow_link volume o d).1
unfolding follow_link request
follow_link-Beside volume none d l = (
  refl,
  record {
    link = refl;
    device_type = refl;
    faders = refl;
    seen = refl;
    pauses = refl;
    volumes = refl;
  },
)
follow_link-Beside volume (some mix) d l = (
  ground (arith, l),
  record {
    link = ground (arith, l);
    device_type = ground (arith, l);
    faders = ground (arith, l);
    seen = ground (arith, l);
    pauses = ground (arith, l);
    volumes = ground (arith, l);
  },
)

update_submix_for-Beside :
    (c : ChannelName) (volume : ℕ) (d : Device)
    → d.link ≡ Link.reliable
    → ((update_submix_for c volume d).0 ≡ ok tt) × Beside d (update_submix_for c volume d).1
unfolding update_submix_for
update_submix_for-Beside c volume d l =
    elim (Bool-cases
      (device_supports_submixes d.device_type d.firmware && is_submix_enabled d.profile)) [
        | inl e ↦ rw e (follow_link-Beside volume (channel_name_to_submix c) d l)
        | inr e ↦ rw e (
          refl,
          record {
            link = refl;
            device_type = refl;
            faders = refl;
            seen = refl;
            pauses = refl;
            volumes = refl;
          },
        )
      ]

-- The new volume is stored, and nothing else that the faders rest on.
pub record Stored (c : ChannelName) (volume : ℕ) (d e : Device) : Type 0 where
  pub link : e.link ≡ d.link
  pub device_type : e.device_type ≡ d.device_type
  pub faders : e.profile.faders ≡ d.profile.faders
  pub seen : e.fader_last_seen ≡ d.fader_last_seen
  pub pauses : e.fader_pause_until ≡ d.fader_pause_until
  pub volumes : (x : ChannelName) → e.profile.volumes x ≡ update d.profile.volumes c volume x

-- The call returns, and its device satisfies the predicate.
pub record Gives (q : Device → Type 0) (r : Result Bool × Device) : Type 0 where
  pub answer : Bool
  pub done : r.0 ≡ ok answer
  pub post : q r.1

pub store_volume-Stored :
    (c : ChannelName) (volume : ℕ) (d : Device)
    → d.link ≡ Link.reliable
    → Gives (Stored c volume d) (store_volume c volume d)
unfolding store_volume get_channel_volume set_channel_volume update_submix_for
    device_supports_submixes
store_volume-Stored c volume d l = elim (Bool-cases (eqb volume (d.profile.volumes c))) [
  | inl e ↦ rw e (record {
    answer = false;
    done = refl;
    post = record {
      link = refl;
      device_type = refl;
      faders = refl;
      seen = refl;
      pauses = refl;
      volumes = λ x. ground (arith, e);
    };
  })
  | inr e ↦
      let s =
        update_submix_for-Beside c volume
          (record d { profile = set_channel_volume c volume d.profile }) l in
      rw (e, s.0)
        (record {
          answer = true;
          done = refl;
          post = record {
            link = s.1.link;
            device_type = s.1.device_type;
            faders = s.1.faders;
            seen = s.1.seen;
            pauses = s.1.pauses;
            volumes = λ x. ap (λ f. f x) s.1.volumes;
          };
        })
]
