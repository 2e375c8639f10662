-- ===== src/Mixer/Frames.antt =====
-- What `ApplySpeakerMute` and `ApplyNearFieldLoudnessFalloff` of daemon/src/audio_engine.cpp make of
-- each sample.
use audio_bat.Base.{
  ℕ, zero, suc, ◌-◌, ◌*◌, ◌≡◌, refl, ◌∙◌, sym, ap, Bool, true, false, List, [], ◌∷◌, length,
  length-set, take, drop, take-append, drop-append, length-take, length-drop, take-append-drop,
  get_or, set, ltb, ◌==◌, if◌then◌else◌, arith, Bool-cases, inl, inr,
}
use audio_bat.Layout.{SpeakerLayout, is_speaker_muted, get_speaker_distance}
use audio_bat.Mixer.{
  FloatOps, speaker_to_frame_index, on_frames, any_muted, mute_frame, apply_speaker_mute,
  scale_frame, apply_near_field_loudness_falloff,
}
use audio_bat.Startup.{speakers}

module _ {ℓ} {A : Type ℓ} (k : FloatOps A) where
  -- A sample of a channel: LFE passes; any other is silenced where its speaker is muted, and then scaled
  -- by its speaker's distance where near field is on.
  abbrev pub expected_sample : Bool → SpeakerLayout → ℕ → A → A
  expected_sample near_field l channel x =
      let speaker = if ltb channel 3 then channel else channel - 1 in
      let heard = if is_speaker_muted l speaker then k.silence else x in
      if channel == 3
      then x
      else if near_field
      then k.multiply heard (k.gain (get_speaker_distance l speaker))
      else heard

  abbrev pub expected_frame : Bool → SpeakerLayout → ℕ → List A → List A
  expected_frame near_field l channel [] = []
  expected_frame near_field l channel (x ∷ xs) =
      expected_sample near_field l channel x ∷ expected_frame near_field l (suc channel) xs

  set-get_or : (xs : List A) (i : ℕ) (d : A) → set xs i (get_or xs i d) ≡ xs
  set-get_or [] i d = refl
  set-get_or (x ∷ xs) zero d = refl
  set-get_or (x ∷ xs) (suc i) d = ap (◌∷◌ x) (set-get_or xs i d)

  -- Muting as one write for each speaker.
  abbrev mute_set : SpeakerLayout → List ℕ → List A → List A
  mute_set l [] frame = frame
  mute_set l (i ∷ is) frame =
      let c = speaker_to_frame_index i in
      mute_set l is
        (set frame c (if is_speaker_muted l i then k.silence else get_or frame c k.silence))

  mute_frame_set :
      (l : SpeakerLayout) (is : List ℕ) (frame : List A)
      → mute_frame k l is frame ≡ mute_set l is frame
  unfolding mute_frame
  mute_frame_set l [] frame = refl
  mute_frame_set l (i ∷ is) frame = elim (Bool-cases (is_speaker_muted l i)) [
    | inl e ↦ rw e (mute_frame_set l is (set frame (speaker_to_frame_index i) k.silence))
    | inr e ↦
        rw (e, set-get_or frame (speaker_to_frame_index i) k.silence) (mute_frame_set l is frame)
  ]

  length-mute_set :
      (l : SpeakerLayout) (is : List ℕ) (frame : List A)
      → length (mute_set l is frame) ≡ length frame
  length-mute_set l [] frame = refl
  length-mute_set l (i ∷ is) frame =
      length-mute_set l is _ ∙ length-set frame (speaker_to_frame_index i) _

  -- One frame of eight channels.
  abbrev both : Bool → SpeakerLayout → List A → List A
  both near_field l frame =
      if near_field
      then scale_frame k l speakers (mute_set l speakers frame)
      else mute_set l speakers frame

  both-expected :
      (near_field : Bool) (l : SpeakerLayout) (frame : List A)
      → length frame ≡ 8
      → both near_field l frame ≡ expected_frame near_field l 0 frame
  unfolding scale_frame
  both-expected true l (a ∷ b ∷ c ∷ d ∷ e ∷ f ∷ g ∷ h ∷ []) eight = refl
  both-expected false l (a ∷ b ∷ c ∷ d ∷ e ∷ f ∷ g ∷ h ∷ []) eight = refl
  both-expected _ l _ eight = absurd (omega arith)

  -- The first frame of a buffer of whole frames, and the frames behind it.
  first_frame : (n : ℕ) (xs : List A) → length xs ≡ suc n * 8 → length (take 8 xs) ≡ 8
  first_frame n xs e = omega (arith, length-take 8 xs)

  more_frames : (n : ℕ) (xs : List A) → length xs ≡ suc n * 8 → length (drop 8 xs) ≡ n * 8
  more_frames n xs e = omega (arith, length-drop 8 xs)

  on_frames_same :
      (f g : List A → List A) (n : ℕ) (xs : List A)
      → ((frame : List A) → length frame ≡ 8 → f frame ≡ g frame)
      → length xs ≡ n * 8
      → on_frames k f n xs ≡ on_frames k g n xs
  unfolding on_frames
  on_frames_same f g zero xs same whole = refl
  on_frames_same f g (suc n) xs same whole =
      rw
        (
          same (take 8 xs) (first_frame n xs whole),
          on_frames_same f g n (drop 8 xs) same (more_frames n xs whole),
        )
        refl

  on_frames_fixed :
      (f : List A → List A) (n : ℕ) (xs : List A)
      → ((frame : List A) → f frame ≡ frame)
      → on_frames k f n xs ≡ xs
  unfolding on_frames
  on_frames_fixed f zero xs fixed = refl
  on_frames_fixed f (suc n) xs fixed =
      rw (fixed (take 8 xs), on_frames_fixed f n (drop 8 xs) fixed) (take-append-drop 8 xs)

  on_frames_twice :
      (f g : List A → List A) (n : ℕ) (xs : List A)
      → ((frame : List A) → length (g frame) ≡ length frame)
      → length xs ≡ n * 8
      → on_frames k f n (on_frames k g n xs) ≡ on_frames k (λ frame. f (g frame)) n xs
  unfolding on_frames
  on_frames_twice f g zero xs kept whole = refl
  on_frames_twice f g (suc n) xs kept whole =
      let first = g (take 8 xs) in
      let rest = on_frames k g n (drop 8 xs) in
      let eight : length first ≡ 8 = kept (take 8 xs) ∙ first_frame n xs whole in
      rw
        (
          take-append 8 first rest eight,
          drop-append 8 first rest eight,
          on_frames_twice f g n (drop 8 xs) kept (more_frames n xs whole),
        )
        refl

  -- Where no speaker is muted, the early return changes nothing.
  none_muted :
      (l : SpeakerLayout) (is : List ℕ) (frame : List A)
      → any_muted k l is ≡ false
      → mute_frame k l is frame ≡ frame
  unfolding any_muted mute_frame
  none_muted l [] frame h = refl
  none_muted l (i ∷ is) frame h = elim (Bool-cases (is_speaker_muted l i)) [
    | inl e ↦ absurd (cc (rw e at h))
    | inr e ↦ rw e (none_muted l is frame (rw e at h))
  ]

  mute-frames :
      (l : SpeakerLayout) (n : ℕ) (xs : List A)
      → length xs ≡ n * 8
      → apply_speaker_mute k l n xs ≡ on_frames k (mute_set l speakers) n xs
  unfolding apply_speaker_mute
  mute-frames l n xs whole =
      let set_each =
        on_frames_same (mute_frame k l speakers) (mute_set l speakers) n xs
          (λ frame eight. mute_frame_set l speakers frame) whole in
      elim (Bool-cases (any_muted k l speakers)) [
        | inl e ↦ rw (apply_speaker_mute, e) set_each
        | inr e ↦
            rw (apply_speaker_mute, e)
              (sym (
                  on_frames_fixed (mute_frame k l speakers) n xs
                    (λ frame. none_muted l speakers frame e))
                ∙ set_each)
      ]

  -- On a buffer of whole frames, muting and then scaling change each frame sample by sample: LFE
  -- passes, a muted speaker's sample is silenced, and where near field is on each speaker's sample is
  -- then scaled by the gain of its distance.
  pub apply_speaker_mute-expected :
      (near_field : Bool) (l : SpeakerLayout) (n : ℕ) (xs : List A)
      → length xs ≡ n * 8
      → apply_near_field_loudness_falloff k near_field l n (apply_speaker_mute k l n xs)
        ≡ on_frames k (expected_frame near_field l 0) n xs
  unfolding apply_near_field_loudness_falloff
  apply_speaker_mute-expected true l n xs whole =
      ap (on_frames k (scale_frame k l speakers) n) (mute-frames l n xs whole)
      ∙ on_frames_twice (scale_frame k l speakers) (mute_set l speakers) n xs
          (length-mute_set l speakers) whole
      ∙ on_frames_same (both true l) (expected_frame true l 0) n xs (both-expected true l) whole
  apply_speaker_mute-expected false l n xs whole =
      mute-frames l n xs whole
      ∙ on_frames_same (both false l) (expected_frame false l 0) n xs (both-expected false l) whole
