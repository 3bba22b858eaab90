-- ===== src/Device/Faders/Knowing.antt =====
-- `set_fader` and the cough button's knowledge of the microphone's fader.
use goxlr_utility.Base.{
  ℕ, ◌≡◌, ◌≢◌, ap, refl, sym, ◌∙◌, true, false, not, eqb, ◌≟◌, update, update_self, update_ne,
  arith, inl, inr, Bool-cases, if◌then◌else◌,
}
use goxlr_utility.Types.{
  ChannelName, FaderName, fader_name_index, fader_name_enumeration, channel_name_enumeration,
}
use goxlr_utility.Profile.{Fader, Profile}
use goxlr_utility.Profile.Faders.{swap, get_fader_assignment}
use goxlr_utility.Profile.Mute.{
  fader_from_id, is_mic_on_fader, get_mic_fader, get_mute_chat_button_state,
}
use goxlr_utility.Device.Cough.Effect.{KnowsMic}
use goxlr_utility.Device.Faders.{is_mic}

-- The knowledge that `i` is, with the channels of the faders.
pub record Knows (m : FaderName → Fader) (i : ℕ) : Type 0 where
  pub on_fader :
      (g : FaderName)
      → (m g).channel ≡ ChannelName.mic
      → (not (eqb i 4) ≡ true) × (fader_from_id i ≡ g)
  pub located : not (eqb i 4) ≡ true → (m (fader_from_id i)).channel ≡ ChannelName.mic

pub Knows-KnowsMic : {p : Profile} → KnowsMic p → Knows p.faders p.mute_chat.mic_fader_id
unfolding is_mic_on_fader get_mic_fader get_fader_assignment
Knows-KnowsMic k = record { on_fader = k.on_fader; located = k.located }

pub KnowsMic-Knows :
    {p : Profile}
    → Knows p.faders p.mute_chat.mic_fader_id
    → ((get_mute_chat_button_state p).mute_toggle ≡ false
        → (get_mute_chat_button_state p).muted_to_all ≡ false)
    → KnowsMic p
unfolding is_mic_on_fader get_mic_fader get_fader_assignment
KnowsMic-Knows k s = record { on_fader = k.on_fader; located = k.located; still = s }

fader_from_id-index : (f : FaderName) → fader_from_id (fader_name_index f) ≡ f
unfolding fader_from_id fader_name_index
fader_from_id-index FaderName.a = refl
fader_from_id-index _ = refl

index_apart : (f : FaderName) → not (eqb (fader_name_index f) 4) ≡ true
unfolding fader_name_index
index_apart FaderName.a = refl
index_apart _ = refl

-- A fader that has the microphone, alone.
Knows-index :
    (m : FaderName → Fader) (f : FaderName)
    → (m f).channel ≡ ChannelName.mic
    → ((g : FaderName) → (m g).channel ≡ ChannelName.mic → g ≡ f)
    → Knows m (fader_name_index f)
Knows-index m f q unique = record {
  on_fader = λ g e. (index_apart f, fader_from_id-index f ∙ sym (unique g e));
  located = λ _. ap (λ g. (m g).channel) (fader_from_id-index f) ∙ q;
}

is_mic-eq : (c : ChannelName) → is_mic c ≡ true → c ≡ ChannelName.mic
is_mic-eq c e = ground (arith, e)

false_ne_true : false ≢ true
false_ne_true e = absurd (cc e)

module _ (m : FaderName → Fader) (i : ℕ) (k : Knows m i) where
  unique :
      (g h : FaderName) → (m g).channel ≡ ChannelName.mic → (m h).channel ≡ ChannelName.mic → g ≡ h
  unique g h p q = sym (k.on_fader g p).1 ∙ (k.on_fader h q).1

  pub Knows-kept :
      (f : FaderName) → Knows m (if is_mic (m f).channel then fader_name_index f else i)
  Knows-kept f = elim (Bool-cases (is_mic (m f).channel)) [
    | inl e ↦ rw e (Knows-index m f (is_mic-eq _ e) (λ g q. unique g f q (is_mic-eq _ e)))
    | inr e ↦ rw e k
  ]

  replaced_here :
      (f : FaderName) (c : ChannelName) → (update m f (record (m f) { channel = c }) f).channel ≡ c
  replaced_here f c = ap (λ b. b.channel) (update_self m f (record (m f) { channel = c }))

  replaced_else :
      (f : FaderName) (c : ChannelName) (g : FaderName)
      → g ≢ f
      → (update m f (record (m f) { channel = c }) g).channel ≡ (m g).channel
  replaced_else f c g p = ap (λ b. b.channel) (update_ne m f g (record (m f) { channel = c }) p)

  -- A fader with another channel is not the one that has the microphone.
  apart :
      (f : FaderName) {g : FaderName}
      → is_mic (m f).channel ≡ false
      → (m g).channel ≡ ChannelName.mic
      → g ≢ f
  apart f e q p = false_ne_true (sym e ∙ ap is_mic (sym (ap (λ h. (m h).channel) p) ∙ q))

  pub Knows-replaced :
      (f : FaderName) (c : ChannelName)
      → c ≢ ChannelName.mic
      → Knows (update m f (record (m f) { channel = c })) (if is_mic (m f).channel then 4 else i)
  Knows-replaced f c n = elim (Bool-cases (is_mic (m f).channel)) [
    | inl e ↦ rw e (record {
      on_fader = λ g q. elim (g ≟ f) [
        | yes p ↦ absurd (n (sym (replaced_here f c) ∙ sym (ap replaced_channel p) ∙ q))
        | no p ↦ absurd (p (unique g f (sym (replaced_else f c g p) ∙ q) (is_mic-eq _ e)))
      ];
      located = λ q. absurd (cc q);
    })
    | inr e ↦ rw e (record {
      on_fader = λ g q. elim (g ≟ f) [
        | yes p ↦ absurd (n (sym (replaced_here f c) ∙ sym (ap replaced_channel p) ∙ q))
        | no p ↦ k.on_fader g (sym (replaced_else f c g p) ∙ q)
      ];
      located = λ q. replaced_else f c (fader_from_id i) (apart f e (k.located q)) ∙ k.located q;
    })
  ]
    where
      replaced_channel : FaderName → ChannelName
      replaced_channel g = (update m f (record (m f) { channel = c }) g).channel

  -- The channels after an exchange.
  on_second : (f g : FaderName) → (swap m f g g).channel ≡ (m f).channel
  on_second f g = ap (λ b. b.channel) (update_self (update m f (m g)) g (m f))

  on_first : (f g : FaderName) → g ≢ f → (swap m f g f).channel ≡ (m g).channel
  on_first f g n =
      ap (λ b. b.channel)
        (update_ne (update m f (m g)) g f (m f) (λ p. n (sym p)) ∙ update_self m f (m g))

  beside : (f g h : FaderName) → h ≢ g → h ≢ f → (swap m f g h).channel ≡ (m h).channel
  beside f g h a b =
      ap (λ b. b.channel) (update_ne (update m f (m g)) g h (m f) a ∙ update_ne m f h (m g) b)

  not_mic : (c : ChannelName) → is_mic c ≡ false → c ≢ ChannelName.mic
  not_mic c e q = false_ne_true (sym e ∙ ap is_mic q)

  gone :
      (f g : FaderName)
      → g ≢ f
      → (m f).channel ≢ (m g).channel
      → is_mic (m f).channel ≡ true
      → (h : FaderName) → (swap m f g h).channel ≡ ChannelName.mic
      → h ≡ g
  gone f g n d e h q = elim (h ≟ g) [
    | yes p ↦ p
    | no p ↦ elim (h ≟ f) [
      | yes a ↦
          absurd (d (is_mic-eq _ e ∙ sym q ∙ ap (λ j. (swap m f g j).channel) a ∙ on_first f g n))
      | no a ↦ absurd (a (unique h f (sym (beside f g h p a) ∙ q) (is_mic-eq _ e)))
    ]
  ]

  come :
      (f g : FaderName)
      → g ≢ f
      → is_mic (m f).channel ≡ false
      → is_mic (m g).channel ≡ true
      → (h : FaderName) → (swap m f g h).channel ≡ ChannelName.mic
      → h ≡ f
  come f g n e a h q = elim (h ≟ f) [
    | yes p ↦ p
    | no p ↦ elim (h ≟ g) [
      | yes b ↦
          absurd (not_mic _ e (sym (on_second f g) ∙ sym (ap (λ j. (swap m f g j).channel) b) ∙ q))
      | no b ↦ absurd (b (unique h g (sym (beside f g h b p) ∙ q) (is_mic-eq _ a)))
    ]
  ]

  neither :
      (f g : FaderName)
      → g ≢ f
      → (h : FaderName) → is_mic (m f).channel ≡ false
      → is_mic (m g).channel ≡ false
      → (swap m f g h).channel ≡ ChannelName.mic
      → (h ≢ g) × (h ≢ f)
  neither f g n h e a q = (
    λ p. not_mic _ e (sym (on_second f g) ∙ sym (ap (λ j. (swap m f g j).channel) p) ∙ q),
    λ p. not_mic _ a (sym (on_first f g n) ∙ sym (ap (λ j. (swap m f g j).channel) p) ∙ q),
  )

  pub Knows-exchanged :
      (f g : FaderName)
      → g ≢ f
      → (m f).channel ≢ (m g).channel
      → Knows (swap m f g) (
          if is_mic (m f).channel
          then fader_name_index g
          else if is_mic (m g).channel
          then fader_name_index f
          else i)
  Knows-exchanged f g n d = elim (Bool-cases (is_mic (m f).channel)) [
    | inl e ↦ rw e (Knows-index (swap m f g) g (on_second f g ∙ is_mic-eq _ e) (gone f g n d e))
    | inr e ↦ elim (Bool-cases (is_mic (m g).channel)) [
      | inl a ↦
          rw (e, a) (Knows-index (swap m f g) f (on_first f g n ∙ is_mic-eq _ a) (come f g n e a))
      | inr a ↦
          rw (e, a)
            (record {
              on_fader = λ h q.
                  k.on_fader h
                    (sym (beside f g h (neither f g n h e a q).0 (neither f g n h e a q).1) ∙ q);
              located = λ q.
                  beside f g (fader_from_id i) (apart g a (k.located q)) (apart f e (k.located q))
                  ∙ k.located q;
            })
    ]
  ]
