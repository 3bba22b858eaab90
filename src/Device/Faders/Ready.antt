-- ===== src/Device/Faders/Ready.antt =====
-- `set_fader` on a ready device.
use mathlib.Core.Path.{subst}
use goxlr_utility.Base.{
  ℕ, ◌≡◌, ◌≢◌, ap, refl, sym, ◌∙◌, true, not, Option, none, some, ◌==◌, update, arith,
  if◌then◌else◌,
}
use goxlr_utility.Types.{
  ChannelName, FaderName, fader_name_index, fader_name_variants, fader_name_enumeration,
  channel_name_enumeration,
}
use goxlr_utility.Usb.{Request}
use goxlr_utility.Profile.{Fader}
use goxlr_utility.Profile.Faders.{
  swap, get_fader_assignment, set_fader_assignment, switch_fader_assignment,
}
use goxlr_utility.Profile.Mute.{is_mic_on_fader, get_mic_fader, set_mic_fader, clear_mic_fader}
use goxlr_utility.Device.State.{Device, Action, Done, ◌>>◌, when, modify_profile, request}
use goxlr_utility.Device.Hardware.Quiet.{Succeeds, Succeeds-bind, Succeeds-if}
use goxlr_utility.Device.Mute.{unmute_fader, is_headphones_or_line_out}
use goxlr_utility.Device.Mute.Opening.{unmute_fader-IsOpened}
use goxlr_utility.Device.Cough.Effect.{KnowsMic}
use goxlr_utility.Device.Cough.Branches.{IsReady}
use goxlr_utility.Device.Faders.{
  fader_to_switch, keep_channel, replace_channel, exchange_faders, change_channel, set_fader,
  is_mic,
}
use goxlr_utility.Device.Faders.Search.{Found, Found-all, none_found}
use goxlr_utility.Device.Faders.Tails.{
  fader_rules, replace_tail, replace_tail-Quiet, exchange_tail, exchange_tail-Quiet,
}
use goxlr_utility.Device.Faders.Agreement.{set_fader-IsSound}
use goxlr_utility.Device.Faders.Knowing.{
  Knows, Knows-KnowsMic, Knows-kept, Knows-replaced, Knows-exchanged,
}
use goxlr_utility.Device.Faders.Placed.{
  Placed, Placed-Quiet, Placed-set_mic, Placed-clear, Placed-assign, Placed-switch, Placed-KnowsMic,
}

module _ (f : FaderName) (c : ChannelName) (d : Device) (r : IsReady d) where
  abbrev here : FaderName → Fader
  here = d.profile.faders

  abbrev mic_id : ℕ
  mic_id = d.profile.mute_chat.mic_fader_id

  abbrev now : ChannelName
  now = get_fader_assignment d.profile f

  placed : Placed d here mic_id d
  placed = record {
    link = r.sound.link;
    faders = refl;
    fader = refl;
    blink = refl;
    behaviour = refl;
  }

  opened : Succeeds (Placed d here mic_id) (unmute_fader f) d
  opened =
      let s = unmute_fader-IsOpened f d r.sound in
      record {
        done = s.done;
        post = record {
          link = s.post.sound.link;
          faders = s.post.faders;
          fader = ap (λ m. m.mic_fader_id) s.post.mute_chat;
          blink = ap (λ m. m.blink) s.post.mute_chat;
          behaviour = ap (λ m. m.cough_behaviour) s.post.mute_chat;
        };
      }

  keep-Placed :
      Succeeds
        (Placed d here (if is_mic c then fader_name_index f else mic_id))
        (keep_channel f c)
        d
  unfolding keep_channel
  keep-Placed =
      Succeeds-bind (Placed d here (if is_mic c then fader_name_index f else mic_id))
        (when (is_mic c) (modify_profile (set_mic_fader f)))
        (when (not (is_headphones_or_line_out c)) (request (Request.set_fader f c)))
        (Placed-set_mic d (is_mic c) f here mic_id d placed)
        λ e p. Placed-Quiet d _ _ _ e (search fader_rules depth 6) p

  abbrev replaced : FaderName → Fader
  replaced = update here f (record (here f) { channel = c })

  abbrev replaced_id : ℕ
  replaced_id = if is_mic now then 4 else mic_id

  replace-Placed : Succeeds (Placed d replaced replaced_id) (replace_channel f now c) d
  unfolding replace_channel replace_tail
  replace-Placed =
      Succeeds-bind (Placed d here mic_id) (unmute_fader f)
        (do
          when (is_mic now) (modify_profile clear_mic_fader)
          modify_profile (set_fader_assignment f c)
          replace_tail f now c)
        opened
        λ d1 p1.
          Succeeds-bind (Placed d here replaced_id)
            (when (is_mic now) (modify_profile clear_mic_fader))
            (do modify_profile (set_fader_assignment f c); replace_tail f now c)
            (Placed-clear d (is_mic now) here mic_id d1 p1)
            λ d2 p2.
              Succeeds-bind (Placed d replaced replaced_id)
                (modify_profile (set_fader_assignment f c)) (replace_tail f now c)
                (Placed-assign d f c here replaced_id d2 p2)
                λ d3 p3.
                  Placed-Quiet d (replace_tail f now c) replaced replaced_id d3
                    (replace_tail-Quiet f now c) p3

  abbrev first_id : ℕ
  first_id = if is_mic c then fader_name_index f else mic_id

  exchange-Placed :
      (g : FaderName)
      → Succeeds
          (Placed d (swap here f g) (if is_mic now then fader_name_index g else first_id))
          (exchange_faders f g now c)
          d
  unfolding exchange_faders exchange_tail
  exchange-Placed g =
      Succeeds-bind (Placed d (swap here f g) mic_id) (modify_profile (switch_fader_assignment f g))
        (do
          when (is_mic c) (modify_profile (set_mic_fader f))
          when (is_mic now) (modify_profile (set_mic_fader g))
          exchange_tail f g now c)
        (Placed-switch d f g here mic_id d placed)
        λ d1 p1.
          Succeeds-bind (Placed d (swap here f g) first_id)
            (when (is_mic c) (modify_profile (set_mic_fader f)))
            (do when (is_mic now) (modify_profile (set_mic_fader g)); exchange_tail f g now c)
            (Placed-set_mic d (is_mic c) f (swap here f g) mic_id d1 p1)
            λ d2 p2.
              Succeeds-bind
                (Placed d (swap here f g) (if is_mic now then fader_name_index g else first_id))
                (when (is_mic now) (modify_profile (set_mic_fader g))) (exchange_tail f g now c)
                (Placed-set_mic d (is_mic now) g (swap here f g) first_id d2 p2)
                λ d3 p3. Placed-Quiet d _ _ _ d3 (exchange_tail-Quiet f g now c) p3

  known : Knows here mic_id
  known = Knows-KnowsMic r.knows

  to-KnowsMic :
      (k : Action Done) (m : FaderName → Fader) (i : ℕ)
      → Succeeds (Placed d m i) k d
      → Knows m i
      → Succeeds (λ e. KnowsMic e.profile) k d
  to-KnowsMic k m i s h = record {
    done = s.done;
    post = Placed-KnowsMic d m i (k d).1 r.knows s.post h;
  }

  change-KnowsMic :
      (found : Option FaderName)
      → fader_to_switch d.profile f c fader_name_variants none ≡ found
      → c ≢ now
      → (c ≡ ChannelName.mic → is_mic_on_fader d.profile ≡ true)
      → Succeeds (λ e. KnowsMic e.profile) (change_channel f now c found) d
  unfolding change_channel Found get_fader_assignment
  change-KnowsMic none e n mic =
      to-KnowsMic (replace_channel f now c) replaced replaced_id replace-Placed
        (Knows-replaced here mic_id known f c (λ q. somewhere q (r.knows.located (mic q))))
    where
      somewhere :
          c ≡ ChannelName.mic
          → get_fader_assignment d.profile (get_mic_fader d.profile) ≡ ChannelName.mic
          → ⊥
      somewhere q l =
          none_found d.profile f c e (get_mic_fader d.profile)
            (λ p. n (q ∙ sym l ∙ ap (get_fader_assignment d.profile) p)) (l ∙ sym q)
  change-KnowsMic (some g) e n mic =
      to-KnowsMic (exchange_faders f g now c) _ _ (exchange-Placed g)
        (found (rw e at (Found-all d.profile f c fader_name_variants none tt)))
    where
      found :
          (g ≢ f) × (get_fader_assignment d.profile g ≡ c)
          → Knows (swap here f g) (if is_mic now then fader_name_index g else first_id)
      found h =
          subst
            (λ o. Knows (swap here f g) (
              if is_mic now
              then fader_name_index g
              else if is_mic o
              then fader_name_index f
              else mic_id))
            h.1 (Knows-exchanged here mic_id known f g h.0 (λ q. n (sym h.1 ∙ sym q)))

  keep-KnowsMic : c ≡ now → Succeeds (λ e. KnowsMic e.profile) (keep_channel f c) d
  unfolding get_fader_assignment
  keep-KnowsMic q = to-KnowsMic (keep_channel f c) here _ keep-Placed (
      subst (λ o. Knows here (if is_mic o then fader_name_index f else mic_id)) (sym q)
        (Knows-kept here mic_id known f))

  -- A channel given to a fader leaves a ready device ready, but for the microphone when no fader has
  -- it, which the cough button's settings then do not learn of.
  pub set_fader-IsReady :
      (c ≡ ChannelName.mic → is_mic_on_fader d.profile ≡ true) → Succeeds IsReady (set_fader f c) d
  unfolding set_fader
  set_fader-IsReady mic =
      let s =
        Succeeds-if {Q = λ e. KnowsMic e.profile} (c == now) {d = d}
          (λ e. keep-KnowsMic (ground (arith, e)))
          (λ e.
            change-KnowsMic (fader_to_switch d.profile f c fader_name_variants none) refl
              (λ q. ground (arith, e, q)) mic) in
      let t = set_fader-IsSound f c d r.sound in
      record { done = t.0; post = record { sound = t.1; knows = s.post } }
