-- ===== src/Mixer/Stereo.antt =====
-- Left and right samples in the ring between the callbacks of daemon/src/audio_engine.cpp, over any
-- sequence of calls. A call that runs during another is not covered: it can find half a frame.
use audio_bat.Base.{
  ℕ, ◌+◌, ◌-◌, ◌*◌, ◌≡◌, ◌∙◌, ap, List, [], ◌∷◌, length, length-append, take, length-take,
  length-drop, min, arith, All, ltb, if◌then◌else◌,
}
use audio_bat.Ring
use audio_bat.Ring.{RingBuffer}
use audio_bat.Ring.Queue.{IsRing, contents, push_pop_lem, new-IsRing, capacity}
use audio_bat.Mixer.{
  FloatOps, Stages, Mixer, active_stage, prepare_input, handle_virtual_sink_audio,
  handle_hardware_output_request,
}

-- The callbacks, with their arguments.
pub data Callback {ℓ} (A : Type ℓ) : Type ℓ where
  sink_audio : ℕ → List A → Callback A
  output_request : ℕ → Callback A

-- The stages and the effects render a stereo frame for each frame.
pub record IsStages {ℓ} {A : Type ℓ} (stages : Stages A) : Type ℓ where
  pub bass_enhancer :
      (frames : ℕ) (xs : List A) → length (stages.bass_enhancer frames xs) ≡ frames * 2

-- The ring holds whole stereo frames, and has room for whole ones.
pub record IsStereo {ℓ} {A : Type ℓ} (k : FloatOps A) (r : RingBuffer A) : Type ℓ where
  pub ring : IsRing r
  pub waiting : ℕ
  pub whole : length (contents k.silence r) ≡ waiting * 2
  pub places : ℕ
  pub odd : length r.buffer ≡ places * 2 + 1

module _ {ℓ} {A : Type ℓ} (k : FloatOps A) where
  push-IsStereo :
      (r : RingBuffer A) (xs : List A) (n : ℕ)
      → IsStereo k r
      → length xs ≡ n * 2
      → IsStereo k (Ring.push k.silence r xs).0
  push-IsStereo r xs n v even =
      let pushed = (push_pop_lem k.silence r xs 0 v.ring).0 in
      let room = capacity r - length (contents k.silence r) in
      record {
        ring = pushed.valid;
        waiting = v.waiting + min n (v.places - v.waiting);
        whole = omega (
          arith,
          ap length pushed.queue,
          length-append (contents k.silence r) (take room xs),
          length-take room xs,
          even,
          v.whole,
          v.odd,
        );
        places = v.places;
        odd = pushed.size ∙ v.odd;
      }

  pop-IsStereo :
      (r : RingBuffer A) (frames : ℕ)
      → (v : IsStereo k r)
      → (length (Ring.pop k.silence r (frames * 2)).1 ≡ min frames v.waiting * 2)
        × IsStereo k (Ring.pop k.silence r (frames * 2)).0
  pop-IsStereo r frames v =
      let popped = (push_pop_lem k.silence r [] (frames * 2) v.ring).1 in
      (
        omega (
          arith,
          ap length popped.result,
          length-take (frames * 2) (contents k.silence r),
          v.whole,
        ),
        record {
          ring = popped.valid;
          waiting = v.waiting - frames;
          whole = omega (
            arith,
            ap length popped.queue,
            length-drop (frames * 2) (contents k.silence r),
            v.whole,
          );
          places = v.places;
          odd = popped.size ∙ v.odd;
        },
      )

-- An answer of whole frames.
abbrev pub IsWhole {ℓ} : {A : Type ℓ} → ℕ × List A → Type 0
IsWhole (returned, popped) = length popped ≡ returned * 2

module _ {ℓ} {A : Type ℓ} (k : FloatOps A) (stages : Stages A) where
  -- The answers to the requests, and the mixer after all calls.
  unfoldable pub play : List (Callback A) → Mixer A → List (ℕ × List A) × Mixer A
  unfolding handle_hardware_output_request
  play [] m = ([], m)
  play (sink_audio frames xs ∷ cs) m = play cs (handle_virtual_sink_audio k stages frames xs m)
  play (output_request frames ∷ cs) m =
      let answer = handle_hardware_output_request k stages frames m in
      let rest = play cs answer.2 in ((answer.0, answer.1) ∷ rest.0, rest.1)

  sink_audio-IsStereo :
      (frames : ℕ) (xs : List A) (m : Mixer A)
      → IsStages stages
      → IsStereo k m.stereo_mix_buffer
      → IsStereo k (handle_virtual_sink_audio k stages frames xs m).stereo_mix_buffer
  unfolding handle_virtual_sink_audio
  sink_audio-IsStereo frames xs m rendered v =
      let n = if ltb 8192 frames then 8192 else frames in
      let mixed =
        stages.hw_eq n (active_stage k stages m.mode n (prepare_input k stages m n xs).0) in
      push-IsStereo k m.stereo_mix_buffer (take (n * 2) (stages.bass_enhancer n mixed)) n v (
        omega (
          arith,
          length-take (n * 2) (stages.bass_enhancer n mixed),
          rendered.bass_enhancer n mixed,
        ))

  output_request-IsStereo :
      (frames : ℕ) (m : Mixer A)
      → IsStereo k m.stereo_mix_buffer
      → let answer = handle_hardware_output_request k stages frames m in
        IsWhole (answer.0, answer.1) × IsStereo k answer.2.stereo_mix_buffer
  unfolding handle_hardware_output_request
  output_request-IsStereo frames m v =
      let popped = pop-IsStereo k m.stereo_mix_buffer frames v in
      (omega (arith, popped.0), popped.1)

  -- Where the last stage renders two samples for each frame, and the ring holds whole stereo frames and
  -- has an even capacity: in any sequence of calls of which none runs during another, each request is answered with twice as
  -- many samples as the frames it returns, so no frame is split between two answers, and the ring
  -- holds whole frames again.
  pub play-IsStereo :
      (cs : List (Callback A)) (m : Mixer A)
      → IsStages stages
      → IsStereo k m.stereo_mix_buffer
      → All IsWhole (play cs m).0 × IsStereo k (play cs m).1.stereo_mix_buffer
  unfolding play
  play-IsStereo [] m rendered v = (tt, v)
  play-IsStereo (sink_audio frames xs ∷ cs) m rendered v =
      play-IsStereo cs _ rendered (sink_audio-IsStereo frames xs m rendered v)
  play-IsStereo (output_request frames ∷ cs) m rendered v =
      let answer = output_request-IsStereo frames m v in
      let rest = play-IsStereo cs _ rendered answer.1 in ((answer.0, rest.0), rest.1)

-- The engine's ring, `StereoMixBuffer{48000 * 2}`.
pub new-IsStereo {ℓ} : {A : Type ℓ} (k : FloatOps A) → IsStereo k (Ring.new k.silence 96000)
new-IsStereo k =
    let fresh = new-IsRing k.silence 96000 in
    record {
      ring = fresh.0;
      waiting = 0;
      whole = ap length fresh.1;
      places = 48000;
      odd = omega (arith, fresh.2, fresh.0.write_in);
    }
