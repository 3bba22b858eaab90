-- ===== src/Device/Volumes/Heard.antt =====
-- What `update_volumes_to` leaves of each fader.
use goxlr_utility.Base.{
  ℕ, true, false, ◌+◌, ◌≤◌, ◌≡◌, ◌≢◌, ◌↔◌, inl, inr, refl, if◌then◌else◌, Bool-cases, ap, arith,
}
use goxlr_utility.Types.{FaderName, fader_name_enumeration, channel_name_enumeration}
use goxlr_utility.Profile.Faders.{get_fader_assignment, get_channel_volume}
use goxlr_utility.Device.State.{Device, Link}
use goxlr_utility.Device.Hardware.{IsDistinct}
use goxlr_utility.Device.Lights.{is_mini}
use goxlr_utility.Device.Volumes.{in_range, is_ignored, see_fader, update_fader}
use goxlr_utility.Device.Volumes.Stored.{Gives, store_volume-Stored}

-- The range of a paused fader is the volumes at most five away, for bytes.
pub in_range_iff :
    (until volume : ℕ)
    → until ≤ 255
    → volume ≤ 255
    → (in_range until volume ≡ true) ↔ ((until ≤ volume + 5) × (volume ≤ until + 5))
unfolding in_range
in_range_iff until volume h k = ((λ e. ground (arith, e)), λ e. ground (arith, e))

-- What a fader is known by.
pub record Kept (g : FaderName) (d e : Device) : Type 0 where
  pub link : e.link ≡ d.link
  pub device_type : e.device_type ≡ d.device_type
  pub faders : e.profile.faders ≡ d.profile.faders
  pub seen : e.fader_last_seen g ≡ d.fader_last_seen g
  pub pause : e.fader_pause_until g ≡ d.fader_pause_until g
  pub volume :
      e.profile.volumes (get_fader_assignment d.profile g)
      ≡ d.profile.volumes (get_fader_assignment d.profile g)

-- The fader `g` reported the volume `v`: it was ignored, or it is seen and its channel has the
-- volume; and a pause of a full device lasts as long as the fader is ignored.
pub record Heard (g : FaderName) (v : ℕ) (d e : Device) : Type 0 where
  pub seen : e.fader_last_seen g ≡ (if is_ignored g v d then d.fader_last_seen g else v)
  pub volume : get_channel_volume e.profile (get_fader_assignment e.profile g) ≡ (
      if is_ignored g v d
      then get_channel_volume d.profile (get_fader_assignment d.profile g)
      else v)
  pub paused : is_mini d.device_type ≡ false → (e.fader_pause_until g).paused ≡ (is_ignored g v d)

pub Kept-refl : (g : FaderName) (d : Device) → Kept g d d
Kept-refl g d = record {
  link = refl;
  device_type = refl;
  faders = refl;
  seen = refl;
  pause = refl;
  volume = refl;
}

pub update_fader-Kept :
    (f g : FaderName) (v : ℕ) (d : Device)
    → d.link ≡ Link.reliable
    → IsDistinct d.profile
    → f ≢ g
    → Gives (Kept g d) (update_fader f v d)
unfolding update_fader see_fader get_fader_assignment
update_fader-Kept f g v d l i n = elim (Bool-cases (is_ignored f v d)) [
  | inl e ↦ rw e (record { answer = false; done = refl; post = Kept-refl g d })
  | inr e ↦
      let s = store_volume-Stored (get_fader_assignment d.profile f) v (see_fader f v d) l in
      rw e (record {
        answer = s.answer;
        done = s.done;
        post = record {
          link = s.post.link;
          device_type = s.post.device_type;
          faders = s.post.faders;
          seen = ground (arith, ap (λ m. m g) s.post.seen, n);
          pause = ground (arith, ap (λ m. m g) s.post.pauses, n);
          volume = ground (arith, s.post.volumes (get_fader_assignment d.profile g), n, i f g);
        };
      })
]

pub update_fader-Heard :
    (f : FaderName) (v : ℕ) (d : Device)
    → d.link ≡ Link.reliable
    → Gives
        (λ e.
          (e.link ≡ d.link)
          × (e.device_type ≡ d.device_type)
          × (e.profile.faders ≡ d.profile.faders)
          × Heard f v d e)
        (update_fader f v d)
unfolding update_fader see_fader is_ignored get_channel_volume get_fader_assignment
update_fader-Heard f v d l = elim (Bool-cases (is_ignored f v d)) [
  | inl e ↦ rw e (record {
    answer = false;
    done = refl;
    post = (
      refl,
      refl,
      refl,
      record { seen = rw e refl; volume = rw e refl; paused = λ m. ground (arith, e, m) },
    );
  })
  | inr e ↦
      let s = store_volume-Stored (get_fader_assignment d.profile f) v (see_fader f v d) l in
      rw e (record {
        answer = s.answer;
        done = s.done;
        post = (
          s.post.link,
          s.post.device_type,
          s.post.faders,
          record {
            seen = ground (arith, ap (λ m. m f) s.post.seen, e);
            volume = ground (
              arith,
              s.post.volumes (get_fader_assignment d.profile f),
              ap (λ m. (m f).channel) s.post.faders,
              e,
            );
            paused = λ m. ground (arith, ap (λ m. m f) s.post.pauses, e, m);
          },
        );
      })
]
