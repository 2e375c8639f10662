-- ===== src/Slot.antt =====
-- `CrossfadingSlot` of daemon/src/dsp/crossfading_slot.hpp. An instance is named by a number. What the
-- instances render and the mixing of floats are left out: a frame of the output names the instances
-- that it is mixed from, with the `FadeFramesRemaining` that its gains are computed from.
pub mod Fade
pub mod Drops
use audio_bat.Base.{
  ℕ, zero, suc, ◌+◌, ◌-◌, ◌%◌, Bool, true, false, List, [], ◌∷◌, ◌++◌, Option, none, some, ltb,
  ◌==◌, if◌then◌else◌, min,
}

pub data FrameMix : Type 0 where
  single : ℕ → FrameMix
  mixed : ℕ → Option ℕ → ℕ → FrameMix

pub record CrossfadingSlot : Type 0 where
  pub live : ℕ
  pub fading_out : Option ℕ
  pub fade_frames_remaining : ℕ
  pub trash_slot : ℕ
  pub crossfade_frames : ℕ
  pub pending : Option ℕ
  pub trash0 : Option ℕ
  pub trash1 : Option ℕ

abbrev pub max_process_frames : ℕ
max_process_frames = 8192

unfoldable pub new_slot : ℕ → ℕ → CrossfadingSlot
new_slot initial frames = record {
  live = initial;
  fading_out = none;
  fade_frames_remaining = 0;
  trash_slot = 0;
  crossfade_frames = frames;
  pending = none;
  trash0 = none;
  trash1 = none;
}

unfoldable pub publish : ℕ → CrossfadingSlot → CrossfadingSlot
publish new_value s = record s { pending = some new_value }

unfoldable pub collect_garbage : CrossfadingSlot → CrossfadingSlot
collect_garbage s = record s { trash0 = none; trash1 = none }

-- `Pending.exchange(nullptr)`, where no fade is in flight.
unfoldable pub take_pending : Option ℕ → CrossfadingSlot → CrossfadingSlot
take_pending none s = s
take_pending (some new_value) s = record s {
  pending = none;
  fading_out = some s.live;
  live = new_value;
  fade_frames_remaining = s.crossfade_frames;
}

-- The loop over the frames, from the fade's frames that remain.
unfoldable pub mix_frames : ℕ → Option ℕ → ℕ → ℕ → List FrameMix × ℕ
mix_frames new_value old zero remaining = ([], remaining)
mix_frames new_value old (suc frames) remaining =
    let rest = mix_frames new_value old frames (remaining - 1) in
    (mixed new_value old remaining ∷ rest.0, rest.1)

unfoldable pub singles : ℕ → ℕ → List FrameMix
singles value zero = []
singles value (suc frames) = single value ∷ singles value frames

-- A store into a trash slot drops what the slot held, on the calling thread.
abbrev pub dropped : Option ℕ → List ℕ
dropped none = []
dropped (some old) = old ∷ []

-- The end of a fade: the old instance goes to the trash.
unfoldable pub discard : CrossfadingSlot → CrossfadingSlot × List ℕ
discard s =
    if s.trash_slot == 0
    then (
      record s { trash0 = s.fading_out; fading_out = none; trash_slot = (s.trash_slot + 1) % 2 },
      dropped s.trash0,
    )
    else (
      record s { trash1 = s.fading_out; fading_out = none; trash_slot = (s.trash_slot + 1) % 2 },
      dropped s.trash1,
    )

-- What `Process` leaves: the slot, the output, and what it dropped on the audio thread.
pub record Processed : Type 0 where
  pub slot : CrossfadingSlot
  pub output : List FrameMix
  pub freed : List ℕ

-- The part behind the loop.
unfoldable pub end_block : CrossfadingSlot → List FrameMix → Processed
unfolding discard
end_block s output =
    let thrown = discard s in
    if s.fade_frames_remaining == 0
    then record { slot = thrown.0; output = output; freed = thrown.1 }
    else record { slot = s; output = output; freed = [] }

unfoldable pub start_fade : CrossfadingSlot → CrossfadingSlot
unfolding take_pending
start_fade s = if s.fade_frames_remaining == 0 then take_pending s.pending s else s

unfoldable pub render : ℕ → CrossfadingSlot → Processed
unfolding end_block mix_frames singles
render frames s =
    let mix = mix_frames s.live s.fading_out frames s.fade_frames_remaining in
    if s.fade_frames_remaining == 0
    then record { slot = s; output = singles s.live frames; freed = [] }
    else end_block (record s { fade_frames_remaining = mix.1 }) mix.0

-- The store into `FadingOut` where a fade starts drops what it held, on the audio thread too.
unfoldable pub overwritten : Option ℕ → CrossfadingSlot → List ℕ
overwritten none s = []
overwritten (some new_value) s = if s.fade_frames_remaining == 0 then dropped s.fading_out else []

unfoldable pub process : ℕ → CrossfadingSlot → Processed
unfolding render start_fade overwritten
process frames s =
    let rendered =
      render (if ltb max_process_frames frames then max_process_frames else frames)
        (start_fade s) in
    record rendered { freed = overwritten s.pending s ++ rendered.freed }
