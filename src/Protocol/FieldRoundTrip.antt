-- ===== src/Protocol/FieldRoundTrip.antt =====
-- The fields of a message: the `Append...` helpers of common/src/protocol.cpp against the `Read...`
-- helpers.
use audio_bat.Base.{
  ℕ, ◌+◌, ◌/◌, ◌%◌, ◌≤◌, ◌<◌, ◌≡◌, refl, Bool, true, false, List, ◌∷◌, ◌++◌, append_assoc, some,
  arith, length, drop, take-append, get_or-append_ge, drop-append_ge, drop-drop, get_or-drop, sym,
  ap, ◌∙◌, flag_byte, is_set, min, le→ltb, take_all,
}
use audio_bat.Protocol.Types.{EqFilterType, EqBand, BassEnhancerSettings, IsFloat, IsByte}
use audio_bat.Protocol.Bytes.{
  byte_at, float_bytes, read_float_be, filter_byte, filter_of_byte, append_eq_band, read_eq_band,
  append_bass_enhancer_settings, read_bass_enhancer_settings, append_string, read_u16_be,
  read_string,
}

pub is_set-flag_byte : (b : Bool) → is_set (flag_byte b) ≡ b
is_set-flag_byte true = refl
is_set-flag_byte false = refl

pub read_float_be-append :
    (v : ℕ) (rest : List ℕ) → IsFloat v → read_float_be (float_bytes v ++ rest) ≡ v
unfolding read_float_be
read_float_be-append v rest h = omega arith

-- A value of the enumeration: a byte, and `unnamed` only where no enumerator names it.
abbrev pub IsFilter : EqFilterType → Type 0
IsFilter (EqFilterType.unnamed b) = (5 < b) × IsByte b
IsFilter _ = Unit

pub filter_of_byte-filter_byte :
    (t : EqFilterType) → IsFilter t → filter_of_byte (filter_byte t) ≡ t
filter_of_byte-filter_byte (EqFilterType.unnamed b) h = ground arith
filter_of_byte-filter_byte _ h = refl

pub record IsEqBand (b : EqBand) : Type 0 where
  pub filter : IsFilter b.filter_type
  pub frequency : IsFloat b.frequency_hz
  pub gain : IsFloat b.gain_db
  pub quality : IsFloat b.q

abbrev pub eq_band_bytes : EqBand → List ℕ
eq_band_bytes b =
    filter_byte b.filter_type
    ∷ (float_bytes b.frequency_hz ++ (float_bytes b.gain_db ++ float_bytes b.q))

pub append_eq_band_lem : (out : List ℕ) (b : EqBand) → append_eq_band out b ≡ out ++ eq_band_bytes b
unfolding append_eq_band
append_eq_band_lem out b = simp append_assoc

pub read_eq_band-append :
    (b : EqBand) (rest : List ℕ) → IsEqBand b → read_eq_band (eq_band_bytes b ++ rest) ≡ b
unfolding read_eq_band
read_eq_band-append b rest v = rw (
  filter_of_byte-filter_byte b.filter_type v.filter,
  read_float_be-append b.frequency_hz (float_bytes b.gain_db ++ float_bytes b.q ++ rest)
      v.frequency,
  read_float_be-append b.gain_db (float_bytes b.q ++ rest) v.gain,
  read_float_be-append b.q rest v.quality,
)

pub record IsBassEnhancer (s : BassEnhancerSettings) : Type 0 where
  pub cutoff : IsFloat s.cutoff_hz
  pub driven : IsFloat s.drive
  pub mixed : IsFloat s.mix

abbrev pub bass_enhancer_bytes : BassEnhancerSettings → List ℕ
bass_enhancer_bytes s =
    flag_byte s.enabled ∷ (float_bytes s.cutoff_hz ++ (float_bytes s.drive ++ float_bytes s.mix))

pub append_bass_enhancer_settings_lem :
    (out : List ℕ) (s : BassEnhancerSettings)
    → append_bass_enhancer_settings out s ≡ out ++ bass_enhancer_bytes s
unfolding append_bass_enhancer_settings
append_bass_enhancer_settings_lem out s = simp append_assoc

pub read_bass_enhancer_settings-append :
    (s : BassEnhancerSettings) (rest : List ℕ)
    → IsBassEnhancer s
    → read_bass_enhancer_settings (bass_enhancer_bytes s ++ rest) ≡ s
unfolding read_bass_enhancer_settings
read_bass_enhancer_settings-append s rest v = rw (
  is_set-flag_byte s.enabled,
  read_float_be-append s.cutoff_hz (float_bytes s.drive ++ float_bytes s.mix ++ rest) v.cutoff,
  read_float_be-append s.drive (float_bytes s.mix ++ rest) v.driven,
  read_float_be-append s.mix rest v.mixed,
)

abbrev pub string_bytes : List ℕ → List ℕ
string_bytes text = length text / 256 % 256 ∷ length text % 256 ∷ text

pub append_string_lem :
    (out text : List ℕ) → length text < 65536 → append_string out text ≡ out ++ string_bytes text
unfolding append_string
append_string_lem out text h =
    let e : min (length text) 0xffff % 65536 ≡ length text = omega arith in
    rw (e, take_all (length text) text (omega arith))

module _ (before text rest : List ℕ) (n offset : ℕ) (small : length text < 65536)
    (at : length before ≡ offset) where
  abbrev placed : List ℕ
  placed = before ++ (string_bytes text ++ rest)

  read_u16_be-placed : read_u16_be placed offset ≡ length text
  read_u16_be-placed =
      rw
        (
          get_or-append_ge before (string_bytes text ++ rest) offset 0 0 (omega arith),
          get_or-append_ge before (string_bytes text ++ rest) (offset + 1) 1 0 (omega arith),
        )
        (omega arith)

  drop-placed : drop (offset + 2) placed ≡ text ++ rest
  drop-placed = drop-append_ge before (string_bytes text ++ rest) (offset + 2) 2 (omega arith)

  -- A text that stands at `offset`, with the payload's end behind it, is read whole.
  pub read_string-append :
      offset + 2 + length text ≤ n
      → read_string placed n offset ≡ some (text, offset + 2 + length text)
  unfolding read_string
  read_string-append fits = rw (
    le→ltb n (offset + 2) (omega arith),
    read_u16_be-placed,
    le→ltb n (offset + 2 + length text) fits,
    drop-placed,
    take-append (length text) text rest refl,
  )

-- The same for any memory that holds the text's bytes at `offset`.
pub read_string_at :
    (memory text rest : List ℕ) (n offset : ℕ)
    → length text < 65536
    → drop offset memory ≡ string_bytes text ++ rest
    → offset + 2 + length text ≤ n
    → read_string memory n offset ≡ some (text, offset + 2 + length text)
unfolding read_string
read_string_at memory text rest n offset small at fits =
    let high : byte_at memory (offset + 0) ≡ length text / 256 % 256 =
      sym (get_or-drop offset memory 0 0) ∙ ap (λ m. byte_at m 0) at in
    let low : byte_at memory (offset + 1) ≡ length text % 256 =
      sym (get_or-drop offset memory 1 0) ∙ ap (λ m. byte_at m 1) at in
    let here : byte_at memory offset ≡ byte_at memory (offset + 0) =
      ap (byte_at memory) (omega arith) in
    let size : read_u16_be memory offset ≡ length text = rw (here, high, low) (omega arith) in
    rw (
      le→ltb n (offset + 2) (omega arith),
      size,
      le→ltb n (offset + 2 + length text) fits,
      ← drop-drop offset 2 memory,
      at,
      take-append (length text) text rest refl,
    )
