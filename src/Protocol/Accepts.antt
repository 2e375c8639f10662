-- ===== src/Protocol/Accepts.antt =====
-- The commands that `DecodeCommand` of common/src/protocol.cpp accepts: their indices, enumerations
-- and numbers.
use audio_bat.Base.{
  ℕ, zero, suc, ◌+◌, ◌≤◌, ◌<◌, ◌≡◌, refl, List, [], ◌∷◌, Option, some, none, arith, length,
  length-take, drop, ltb, if◌then◌else◌, true, false, All, Bool, get_or-drop,
}
use audio_bat.Protocol.Types.{Opcode, EqFilterType, Command, command, IsFloat, IsByte}
use audio_bat.Protocol.Bytes.{
  byte_at, read_float_be, read_eq_band, read_bass_enhancer_settings, read_string, mode_of_byte,
  filter_of_byte,
}
use audio_bat.Protocol.Decode.{
  decode_command, decode_content_eq_band, decode_content_eq_preset, decode_save_content_eq_preset,
}
use audio_bat.Protocol.Request.{IsMode}
use audio_bat.Protocol.FieldRoundTrip.{IsFilter, IsEqBand, IsBassEnhancer}

byte_at-IsByte : (p : List ℕ) (i : ℕ) → All IsByte p → byte_at p i < 256
byte_at-IsByte [] i h = omega arith
byte_at-IsByte (x ∷ p) zero h = h.0
byte_at-IsByte (x ∷ p) (suc i) h = byte_at-IsByte p i h.1

drop-IsByte : (n : ℕ) (p : List ℕ) → All IsByte p → All IsByte (drop n p)
drop-IsByte zero p h = h
drop-IsByte (suc n) [] h = h
drop-IsByte (suc n) (x ∷ p) h = drop-IsByte n p h.1

read_float_be-IsFloat : (p : List ℕ) → All IsByte p → IsFloat (read_float_be p)
unfolding read_float_be
read_float_be-IsFloat p h =
    omega (
      arith,
      byte_at-IsByte p 0 h,
      byte_at-IsByte p 1 h,
      byte_at-IsByte p 2 h,
      byte_at-IsByte p 3 h,
    )

mode_of_byte-IsMode : (b : ℕ) → ltb 2 b ≡ false → IsMode (mode_of_byte b)
mode_of_byte-IsMode b h = ground arith

filter_of_byte-IsFilter : (b : ℕ) → ltb 5 b ≡ false → IsFilter (filter_of_byte b)
filter_of_byte-IsFilter b h = ground arith

read_eq_band-IsEqBand :
    (p : List ℕ) → All IsByte p → ltb 5 (byte_at p 0) ≡ false → IsEqBand (read_eq_band p)
unfolding read_eq_band
read_eq_band-IsEqBand p h f = record {
  filter = filter_of_byte-IsFilter (byte_at p 0) f;
  frequency = read_float_be-IsFloat (drop 1 p) (drop-IsByte 1 p h);
  gain = read_float_be-IsFloat (drop 5 p) (drop-IsByte 5 p h);
  quality = read_float_be-IsFloat (drop 9 p) (drop-IsByte 9 p h);
}

read_bass_enhancer_settings-IsBassEnhancer :
    (p : List ℕ) → All IsByte p → IsBassEnhancer (read_bass_enhancer_settings p)
unfolding read_bass_enhancer_settings
read_bass_enhancer_settings-IsBassEnhancer p h = record {
  cutoff = read_float_be-IsFloat (drop 1 p) (drop-IsByte 1 p h);
  driven = read_float_be-IsFloat (drop 5 p) (drop-IsByte 5 p h);
  mixed = read_float_be-IsFloat (drop 9 p) (drop-IsByte 9 p h);
}

-- What a handler of the opcode may rely on in its command: each index lies in its array, each
-- enumeration is named, and each number has its width.
abbrev pub IsArguments : Opcode → Command → Type 0
IsArguments Opcode.set_spatial_mode c = IsMode c.mode_value
IsArguments Opcode.set_speaker_azimuth c = (c.speaker_index < 7) × IsFloat c.azimuth_degrees
IsArguments Opcode.set_speaker_mute c = c.speaker_index < 7
IsArguments Opcode.set_speaker_distance c = (c.speaker_index < 7) × IsFloat c.distance_meters
IsArguments Opcode.set_output_device c = length c.output_device_name ≤ 65535
IsArguments Opcode.set_hrtf_file c = IsByte c.hrtf_index
IsArguments Opcode.set_hw_eq_band c = (c.band_index < 10) × IsEqBand c.band
IsArguments Opcode.set_bass_enhancer c = IsBassEnhancer c.bass_enhancer
IsArguments Opcode.set_content_eq_band c = (c.band_index < 10) × IsEqBand c.band
IsArguments _ c = Unit

abbrev pub IsAllowed : Opcode → Option Command → Type 0
IsAllowed op none = Unit
IsAllowed op (some c) = (c.command_opcode ≡ op) × IsArguments op c

-- A filter type that has a name.
abbrev pub IsNamed : EqFilterType → Type 0
IsNamed (EqFilterType.unnamed b) = ⊥
IsNamed _ = Unit

-- The filter type of a band is named, and a preset's index is a byte.
abbrev pub IsCheckedCommand : Opcode → Command → Type 0
IsCheckedCommand Opcode.set_hw_eq_band c = IsNamed c.band.filter_type
IsCheckedCommand Opcode.set_content_eq_band c = IsNamed c.band.filter_type
IsCheckedCommand Opcode.set_hw_eq_preset c = IsByte c.eq_preset_index
IsCheckedCommand Opcode.set_content_eq_preset c = IsByte c.eq_preset_index
IsCheckedCommand _ c = Unit

abbrev pub IsChecked : Opcode → Option Command → Type 0
IsChecked op none = Unit
IsChecked op (some c) = IsCheckedCommand op c

guarded-IsAllowed :
    (op : Opcode) (b : Bool) (c : Command)
    → (b ≡ false → (c.command_opcode ≡ op) × IsArguments op c)
    → IsAllowed op (if b then none else some c)
guarded-IsAllowed op true c h = tt
guarded-IsAllowed op false c h = h refl

byte_at-drop : (p : List ℕ) (k : ℕ) → byte_at (drop k p) 0 ≡ byte_at p k
byte_at-drop p k = let e : k + 0 ≡ k = omega arith in rw (get_or-drop k p 0 0, e) refl

band-IsArguments :
    (p : List ℕ) (k : ℕ)
    → All IsByte p
    → ltb 5 (byte_at p k) ≡ false
    → IsEqBand (read_eq_band (drop k p))
band-IsArguments p k h f =
    read_eq_band-IsEqBand (drop k p) (drop-IsByte k p h) (rw (byte_at-drop p k) f)

decode_content_eq_band-IsAllowed :
    (p : List ℕ) (n : ℕ) (o : Option (List ℕ × ℕ))
    → All IsByte p
    → IsAllowed Opcode.set_content_eq_band
        (decode_content_eq_band (command Opcode.set_content_eq_band) p n o)
unfolding decode_content_eq_band
decode_content_eq_band-IsAllowed p n none h = tt
decode_content_eq_band-IsAllowed p n (some (app, offset)) h =
    guarded-IsAllowed _ _ _
      (λ g. (refl, (ground arith, band-IsArguments p (offset + 1) h (ground arith))))

decode_content_eq_preset-IsAllowed :
    (p : List ℕ) (n : ℕ) (o : Option (List ℕ × ℕ))
    → IsAllowed Opcode.set_content_eq_preset
        (decode_content_eq_preset (command Opcode.set_content_eq_preset) p n o)
unfolding decode_content_eq_preset
decode_content_eq_preset-IsAllowed p n none = tt
decode_content_eq_preset-IsAllowed p n (some (app, offset)) =
    guarded-IsAllowed _ _ _ (λ g. (refl, tt))

decode_save_content_eq_preset-IsAllowed :
    (p : List ℕ) (n : ℕ) (o : Option (List ℕ × ℕ))
    → IsAllowed Opcode.save_content_eq_preset
        (decode_save_content_eq_preset (command Opcode.save_content_eq_preset) p n o)
unfolding decode_save_content_eq_preset
decode_save_content_eq_preset-IsAllowed p n none = tt
decode_save_content_eq_preset-IsAllowed p n (some (app, offset)) = (refl, tt)

decode_command-IsArguments :
    (op : Opcode) (p : List ℕ) (n : ℕ)
    → All IsByte p
    → n ≤ 65535
    → IsAllowed op (decode_command op p n)
unfolding decode_command
decode_command-IsArguments Opcode.get_status p n h small = (refl, tt)
decode_command-IsArguments Opcode.set_spatial_mode p n h small =
    guarded-IsAllowed _ _ _ (λ g. (refl, mode_of_byte-IsMode (byte_at p 0) (ground arith)))
decode_command-IsArguments Opcode.set_speaker_azimuth p n h small =
    guarded-IsAllowed _ _ _
      (λ g. (refl, (ground arith, read_float_be-IsFloat (drop 1 p) (drop-IsByte 1 p h))))
decode_command-IsArguments Opcode.get_devices p n h small = (refl, tt)
decode_command-IsArguments Opcode.set_output_device p n h small =
    (refl, omega (arith, length-take n p))
decode_command-IsArguments Opcode.reset_speaker_positions p n h small = (refl, tt)
decode_command-IsArguments Opcode.set_speaker_mute p n h small =
    guarded-IsAllowed _ _ _ (λ g. (refl, ground arith))
decode_command-IsArguments Opcode.set_test_noise p n h small =
    guarded-IsAllowed _ _ _ (λ g. (refl, tt))
decode_command-IsArguments Opcode.get_hrtf_catalog p n h small = (refl, tt)
decode_command-IsArguments Opcode.set_hrtf_file p n h small =
    guarded-IsAllowed _ _ _ (λ g. (refl, byte_at-IsByte p 0 h))
decode_command-IsArguments Opcode.set_speaker_distance p n h small =
    guarded-IsAllowed _ _ _
      (λ g. (refl, (ground arith, read_float_be-IsFloat (drop 1 p) (drop-IsByte 1 p h))))
decode_command-IsArguments Opcode.set_near_field_enabled p n h small =
    guarded-IsAllowed _ _ _ (λ g. (refl, tt))
decode_command-IsArguments Opcode.set_hw_eq_band p n h small =
    guarded-IsAllowed _ _ _ (λ g. (refl, (ground arith, band-IsArguments p 1 h (ground arith))))
decode_command-IsArguments Opcode.set_hw_eq_preset p n h small =
    guarded-IsAllowed _ _ _ (λ g. (refl, tt))
decode_command-IsArguments Opcode.save_hw_eq_preset p n h small = (refl, tt)
decode_command-IsArguments Opcode.get_hw_eq_state p n h small = (refl, tt)
decode_command-IsArguments Opcode.set_bass_enhancer p n h small =
    guarded-IsAllowed _ _ _ (λ g. (refl, read_bass_enhancer_settings-IsBassEnhancer p h))
decode_command-IsArguments Opcode.get_bass_enhancer_state p n h small = (refl, tt)
decode_command-IsArguments Opcode.get_content_streams p n h small = (refl, tt)
decode_command-IsArguments Opcode.set_content_eq_band p n h small =
    decode_content_eq_band-IsAllowed p n (read_string p n 0) h
decode_command-IsArguments Opcode.set_content_eq_preset p n h small =
    decode_content_eq_preset-IsAllowed p n (read_string p n 0)
decode_command-IsArguments Opcode.save_content_eq_preset p n h small =
    decode_save_content_eq_preset-IsAllowed p n (read_string p n 0)
decode_command-IsArguments Opcode.get_eq_preset_catalog p n h small = (refl, tt)
decode_command-IsArguments _ p n h small = tt

guarded-IsChecked :
    (op : Opcode) (b : Bool) (c : Command)
    → (b ≡ false → IsCheckedCommand op c)
    → IsChecked op (if b then none else some c)
guarded-IsChecked op true c h = tt
guarded-IsChecked op false c h = h refl

filter_of_byte-IsNamed : (b : ℕ) → ltb 5 b ≡ false → IsNamed (filter_of_byte b)
filter_of_byte-IsNamed b h = ground arith

band-IsNamed :
    (p : List ℕ) (k : ℕ)
    → ltb 5 (byte_at p k) ≡ false
    → IsNamed (read_eq_band (drop k p)).filter_type
unfolding read_eq_band
band-IsNamed p k f = filter_of_byte-IsNamed (byte_at (drop k p) 0) (rw (byte_at-drop p k) f)

decode_content_eq_band-IsChecked :
    (p : List ℕ) (n : ℕ) (o : Option (List ℕ × ℕ))
    → IsChecked Opcode.set_content_eq_band
        (decode_content_eq_band (command Opcode.set_content_eq_band) p n o)
unfolding decode_content_eq_band
decode_content_eq_band-IsChecked p n none = tt
decode_content_eq_band-IsChecked p n (some (app, offset)) =
    guarded-IsChecked Opcode.set_content_eq_band _ _
      (λ g. band-IsNamed p (offset + 1) (ground arith))

decode_content_eq_preset-IsChecked :
    (p : List ℕ) (n : ℕ) (o : Option (List ℕ × ℕ))
    → All IsByte p
    → IsChecked Opcode.set_content_eq_preset
        (decode_content_eq_preset (command Opcode.set_content_eq_preset) p n o)
unfolding decode_content_eq_preset
decode_content_eq_preset-IsChecked p n none h = tt
decode_content_eq_preset-IsChecked p n (some (app, offset)) h =
    guarded-IsChecked Opcode.set_content_eq_preset _ _ (λ g. byte_at-IsByte p offset h)

unchecked :
    (op : Opcode) (o : Option Command) → ((c : Command) → IsCheckedCommand op c) → IsChecked op o
unchecked op none h = tt
unchecked op (some c) h = h c

decode_command-IsChecked :
    (op : Opcode) (p : List ℕ) (n : ℕ) → All IsByte p → IsChecked op (decode_command op p n)
unfolding decode_command
decode_command-IsChecked Opcode.set_hw_eq_band p n h =
    guarded-IsChecked Opcode.set_hw_eq_band _ _ (λ g. band-IsNamed p 1 (ground arith))
decode_command-IsChecked Opcode.set_hw_eq_preset p n h =
    guarded-IsChecked Opcode.set_hw_eq_preset _ _ (λ g. byte_at-IsByte p 0 h)
decode_command-IsChecked Opcode.set_content_eq_band p n h =
    decode_content_eq_band-IsChecked p n (read_string p n 0)
decode_command-IsChecked Opcode.set_content_eq_preset p n h =
    decode_content_eq_preset-IsChecked p n (read_string p n 0) h
decode_command-IsChecked op p n h = unchecked op (decode_command op p n) (λ c. tt)

-- Whatever the bytes of a payload of at most 65535 are: a command that `DecodeCommand` accepts has
-- the message's opcode, and, where its opcode carries one, a speaker index below 7, a band index below
-- 10, a spatial mode and a filter type that are named, a preset or HRTF index of one byte, and
-- numbers of their fields' widths.
pub decode_command-IsAllowed :
    (op : Opcode) (p : List ℕ) (n : ℕ)
    → All IsByte p
    → n ≤ 65535
    → IsAllowed op (decode_command op p n) × IsChecked op (decode_command op p n)
decode_command-IsAllowed op p n h small =
    (decode_command-IsArguments op p n h small, decode_command-IsChecked op p n h)
