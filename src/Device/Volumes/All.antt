-- ===== src/Device/Volumes/All.antt =====
-- `update_volumes_to` for the four faders.
use goxlr_utility.Base.{ℕ, Bool, false, ◌||◌, ◌≡◌, ◌≢◌, ◌⊎◌, inl, inr, refl, ◌∙◌, List, [], ◌∷◌, ap}
use mathlib.Core.Path.{subst}
use goxlr_utility.Device.Lights.{is_mini}
use goxlr_utility.Types.{FaderName, FaderName-discrete, fader_name_enumeration, fader_name_variants}
use goxlr_utility.Profile.Faders.{get_fader_assignment, get_channel_volume}
use goxlr_utility.Device.State.{Device, Action, Link, Result, ◌>>=◌}
use goxlr_utility.Device.Hardware.{IsDistinct}
use goxlr_utility.Device.Volumes.{is_ignored, update_fader, update_faders, update_volumes_to}
use goxlr_utility.Device.Volumes.Stored.{Gives}
use goxlr_utility.Device.Volumes.Heard.{
  Kept, Kept-refl, Heard, update_fader-Kept, update_fader-Heard,
}

Gives-bind :
    (q : Device → Type 0) {r : Device → Type 0} (m : Action Bool) (k : Bool → Action Bool)
    {d : Device}
    → Gives q (m d)
    → ((b : Bool) (e : Device) → q e → Gives r (k b e))
    → Gives r ((m >>= k) d)
Gives-bind q m k {d} h next = rw (h.done, ◌>>=◌) (next h.answer (m d).1 h.post)

Gives-implies :
    (q r : Device → Type 0) (x : Result Bool × Device)
    → Gives q x
    → ((e : Device) → q e → r e)
    → Gives r x
Gives-implies q r x h f = record { answer = h.answer; done = h.done; post = f x.1 h.post }

Kept-trans : (g : FaderName) {c d e : Device} → Kept g c d → Kept g d e → Kept g c e
unfolding get_fader_assignment
Kept-trans g {c} {d} {e} h k = record {
  link = k.link ∙ h.link;
  device_type = k.device_type ∙ h.device_type;
  faders = k.faders ∙ h.faders;
  seen = k.seen ∙ h.seen;
  pause = k.pause ∙ h.pause;
  volume = cc (
    h.volume,
    k.volume,
    ap (λ m. e.profile.volumes (m g).channel) h.faders,
    ap (λ m. d.profile.volumes (m g).channel) h.faders,
  );
}

is_distinct :
    (d e : Device)
    → e.profile.faders ≡ d.profile.faders
    → IsDistinct d.profile
    → IsDistinct e.profile
unfolding get_fader_assignment
is_distinct d e h i f g p = i f g (cc (p, ap (λ m. (m f).channel) h, ap (λ m. (m g).channel) h))

Heard-Kept : (g : FaderName) (v : ℕ) (d e u : Device) → Heard g v d e → Kept g e u → Heard g v d u
unfolding get_fader_assignment get_channel_volume
Heard-Kept g v d e u h k = record {
  seen = k.seen ∙ h.seen;
  volume = ap (λ m. u.profile.volumes (m g).channel) k.faders ∙ (k.volume ∙ h.volume);
  paused = λ m. ap (λ p. p.paused) k.pause ∙ h.paused m;
}

is_ignored-Kept :
    (g : FaderName) (v : ℕ) (d e : Device) → Kept g d e → is_ignored g v e ≡ is_ignored g v d
unfolding is_ignored
is_ignored-Kept g v d e k = rw (k.device_type, k.seen, k.pause) refl

Kept-Heard : (g : FaderName) (v : ℕ) (d e u : Device) → Kept g d e → Heard g v e u → Heard g v d u
unfolding get_fader_assignment get_channel_volume
Kept-Heard g v d e u k h = record {
  seen = cc (h.seen, k.seen, is_ignored-Kept g v d e k);
  volume = cc (
    h.volume,
    k.volume,
    ap (λ m. e.profile.volumes (m g).channel) k.faders,
    is_ignored-Kept g v d e k,
  );
  paused = λ m. h.paused (ap is_mini k.device_type ∙ m) ∙ is_ignored-Kept g v d e k;
}

abbrev Avoids : FaderName → List FaderName → Type 0
Avoids g [] = Unit {0}
Avoids g (f ∷ rest) = (f ≢ g) × Avoids g rest

abbrev Once : FaderName → List FaderName → Type 0
Once g [] = ⊥
Once g (f ∷ rest) = ((f ≡ g) × Avoids g rest) ⊎ ((f ≢ g) × Once g rest)

module _ (volumes : FaderName → ℕ) (g : FaderName) where
  update_faders-Kept :
      (fs : List FaderName) (b : Bool) (d : Device)
      → d.link ≡ Link.reliable
      → IsDistinct d.profile
      → Avoids g fs
      → Gives (Kept g d) (update_faders volumes fs b d)
  update_faders-Kept [] b d l i a = record { answer = b; done = refl; post = Kept-refl g d }
  update_faders-Kept (f ∷ rest) b d l i a =
      Gives-bind (Kept g d) (update_fader f (volumes f))
        (λ changed. update_faders volumes rest (b || changed))
        (update_fader-Kept f g (volumes f) d l i a.0)
        (λ c e k.
          Gives-implies (Kept g e) (Kept g d) _
            (update_faders-Kept rest (b || c) e (k.link ∙ l) (is_distinct d e k.faders i) a.1)
            (λ u q. Kept-trans g k q))

  update_faders-Heard :
      (fs : List FaderName) (b : Bool) (d : Device)
      → d.link ≡ Link.reliable
      → IsDistinct d.profile
      → Once g fs
      → Gives (Heard g (volumes g) d) (update_faders volumes fs b d)
  update_faders-Heard [] b d l i o = absurd o
  update_faders-Heard (f ∷ rest) b d l i (inl (p, a)) =
      Gives-bind
        (λ e.
          (e.link ≡ d.link)
          × (e.device_type ≡ d.device_type)
          × (e.profile.faders ≡ d.profile.faders)
          × Heard f (volumes f) d e)
        (update_fader f (volumes f)) (λ changed. update_faders volumes rest (b || changed))
        (update_fader-Heard f (volumes f) d l)
        (λ c e k.
          Gives-implies (Kept g e) (Heard g (volumes g) d) _
            (update_faders-Kept rest (b || c) e (k.0 ∙ l) (is_distinct d e k.2 i) a)
            (λ u q. Heard-Kept g (volumes g) d e u (subst (λ x. Heard x (volumes x) d e) p k.3) q))
  update_faders-Heard (f ∷ rest) b d l i (inr (n, o)) =
      Gives-bind (Kept g d) (update_fader f (volumes f))
        (λ changed. update_faders volumes rest (b || changed))
        (update_fader-Kept f g (volumes f) d l i n)
        (λ c e k.
          Gives-implies (Heard g (volumes g) e) (Heard g (volumes g) d) _
            (update_faders-Heard rest (b || c) e (k.link ∙ l) (is_distinct d e k.faders i) o)
            (λ u h. Kept-Heard g (volumes g) d e u k h))

fader-Once : (g : FaderName) → Once g fader_name_variants
unfolding FaderName-discrete
fader-Once FaderName.a = inl (refl, ((λ e. cc), ((λ e. cc), ((λ e. cc), tt))))
fader-Once FaderName.b = inr ((λ e. cc), inl (refl, ((λ e. cc), ((λ e. cc), tt))))
fader-Once FaderName.c = inr ((λ e. cc), inr ((λ e. cc), inl (refl, ((λ e. cc), tt))))
fader-Once FaderName.d = inr ((λ e. cc), inr ((λ e. cc), inr ((λ e. cc), inl (refl, tt))))

-- On a reliable link, with no channel on two faders, the volumes that the device reports are taken:
-- each fader is ignored, or it is seen and its channel has its volume; and a full device's pause of a
-- fader lasts as long as the fader is ignored.
pub update_volumes_to-Heard :
    (volumes : FaderName → ℕ) (g : FaderName) (d : Device)
    → d.link ≡ Link.reliable
    → IsDistinct d.profile
    → Gives (Heard g (volumes g) d) (update_volumes_to volumes d)
unfolding update_volumes_to
update_volumes_to-Heard volumes g d l i =
    update_faders-Heard volumes g fader_name_variants false d l i (fader-Once g)
