-- ===== src/Settings/Fields.antt =====
-- The lines that `Save` of daemon/src/settings_store.cpp writes: keys and values that `Load` can tell apart.
use audio_bat.Base.{
  ℕ, ◌<◌, ◌≡◌, refl, inl, inr, Bool, true, false, List, ◌∷◌, ◌++◌, get_or, some, arith, All,
}
use audio_bat.Protocol.Types.{default_eq_band}
use audio_bat.Protocol.Bytes.{mode_byte, filter_byte}
use audio_bat.Protocol.Request.{IsMode}
use audio_bat.Protocol.FieldRoundTrip.{IsFilter}
use audio_bat.Engine.{PersistedSettings, each_speaker}
use audio_bat.Settings.{
  Numbers, to_string, speaker_key, hw_eq_band_key, each_band, flag_text, join, speaker_fields,
  band_fields, bass_fields, fields_of,
}
use audio_bat.Settings.Keys.{
  bass_enabled_key, bass_cutoff_key, bass_drive_key, bass_mix_key, mode_key, near_field_key,
  azimuth_field, distance_field, muted_field, type_field, freq_field, gain_field, q_field,
  speaker_prefix, hw_eq_prefix,
}
use audio_bat.Settings.Lines.{
  lacks, lacks-append, lacks-to_string, IsNoDigit, IsField, All-append, All-join,
}

-- What the development relies on: a printed number has no line break, and `stol` reads the digits of
-- a byte back.
pub record IsNumbers (n : Numbers) : Type 0 where
  pub one_line : (v : ℕ) → lacks 10 (n.print_float v) ≡ true
  pub digits : (b : ℕ) → b < 256 → n.stol (to_string b) ≡ some b

-- Settings of the C++ types, with named modes, and names of one line.
pub record IsSettings (s : PersistedSettings) : Type 0 where
  pub mode : IsMode s.mode
  pub filters : All (λ b. IsFilter b.filter_type) s.hw_eq_bands
  pub device : lacks 10 s.output_device_name ≡ true
  pub hrtf : lacks 10 s.active_hrtf_display_name ≡ true

lacks-flag_text : (b : Bool) → lacks 10 (flag_text b) ≡ true
lacks-flag_text true = refl
lacks-flag_text false = refl

-- A key that is split off whole.
abbrev IsName : List ℕ → Type 0
IsName key = (lacks 10 key ≡ true) × (lacks 61 key ≡ true)

line_break : IsNoDigit 10
line_break = inl (omega arith)

equals_sign : IsNoDigit 61
equals_sign = inr (omega arith)

-- A key of a prefix, an index and a word.
indexed_name :
    (c i : ℕ) (prefix field : List ℕ)
    → IsNoDigit c
    → lacks c prefix ≡ true
    → lacks c (46 ∷ field) ≡ true
    → lacks c (prefix ++ to_string i ++ (46 ∷ field)) ≡ true
indexed_name c i prefix field no_digit p f =
    lacks-append c (prefix ++ to_string i) (46 ∷ field)
      (lacks-append c prefix (to_string i) p (lacks-to_string c i no_digit)) f

speaker_key-IsName :
    (i : ℕ) (field : List ℕ)
    → lacks 10 field ≡ true
    → lacks 61 field ≡ true
    → IsName (speaker_key i field)
unfolding speaker_key
speaker_key-IsName i field f g = (
  indexed_name 10 i speaker_prefix field line_break refl f,
  indexed_name 61 i speaker_prefix field equals_sign refl g,
)

hw_eq_band_key-IsName :
    (i : ℕ) (field : List ℕ)
    → lacks 10 field ≡ true
    → lacks 61 field ≡ true
    → IsName (hw_eq_band_key i field)
unfolding hw_eq_band_key
hw_eq_band_key-IsName i field f g = (
  indexed_name 10 i hw_eq_prefix field line_break refl f,
  indexed_name 61 i hw_eq_prefix field equals_sign refl g,
)

module _ (n : Numbers) (law : IsNumbers n) (s : PersistedSettings) (v : IsSettings s) where
  byte-IsField : (key : List ℕ) (b : ℕ) → IsName key → IsField (key, to_string b)
  byte-IsField key b k = record {
    key_line = k.0;
    key_name = k.1;
    value_line = lacks-to_string 10 b line_break;
  }

  flag-IsField : (key : List ℕ) (b : Bool) → IsName key → IsField (key, flag_text b)
  flag-IsField key b k = record { key_line = k.0; key_name = k.1; value_line = lacks-flag_text b }

  float-IsField : (key : List ℕ) (value : ℕ) → IsName key → IsField (key, n.print_float value)
  float-IsField key value k = record {
    key_line = k.0;
    key_name = k.1;
    value_line = law.one_line value;
  }

  speaker_fields-IsField : (i : ℕ) → All IsField (speaker_fields n s i)
  unfolding speaker_fields
  speaker_fields-IsField i = (
    float-IsField _ (get_or s.speaker_azimuth_degrees i 0)
        (speaker_key-IsName i azimuth_field refl refl),
    (
      float-IsField _ (get_or s.speaker_distance_meters i 0)
          (speaker_key-IsName i distance_field refl refl),
      (
        flag-IsField _ (get_or s.speaker_muted i false)
            (speaker_key-IsName i muted_field refl refl),
        tt,
      ),
    ),
  )

  band_fields-IsField : (i : ℕ) → All IsField (band_fields n s i)
  unfolding band_fields
  band_fields-IsField i =
      let band = get_or s.hw_eq_bands i default_eq_band in
      (
        byte-IsField _ (filter_byte band.filter_type)
            (hw_eq_band_key-IsName i type_field refl refl),
        (
          float-IsField _ band.frequency_hz (hw_eq_band_key-IsName i freq_field refl refl),
          (
            float-IsField _ band.gain_db (hw_eq_band_key-IsName i gain_field refl refl),
            (float-IsField _ band.q (hw_eq_band_key-IsName i q_field refl refl), tt),
          ),
        ),
      )

  pub All-IsField : All IsField (fields_of n s)
  unfolding fields_of bass_fields
  All-IsField =
      let speakers = speaker_fields-IsField in
      let bands = band_fields-IsField in
      let each_speaker_field : All (All IsField) (each_speaker (speaker_fields n s)) = (
        speakers 0,
        (speakers 1, (speakers 2, (speakers 3, (speakers 4, (speakers 5, (speakers 6, tt)))))),
      ) in
      let each_band_field : All (All IsField) (each_band (band_fields n s)) = (
        bands 0,
        (
          bands 1,
          (
            bands 2,
            (bands 3, (bands 4, (bands 5, (bands 6, (bands 7, (bands 8, (bands 9, tt))))))),
          ),
        ),
      ) in
      let behind : All IsField (bass_fields n s) = (
        flag-IsField bass_enabled_key s.bass_enhancer.enabled (refl, refl),
        (
          float-IsField bass_cutoff_key s.bass_enhancer.cutoff_hz (refl, refl),
          (
            float-IsField bass_drive_key s.bass_enhancer.drive (refl, refl),
            (float-IsField bass_mix_key s.bass_enhancer.mix (refl, refl), tt),
          ),
        ),
      ) in
      (
        byte-IsField mode_key (mode_byte s.mode) (refl, refl),
        (
          flag-IsField near_field_key s.near_field_enabled (refl, refl),
          (
            record { key_line = refl; key_name = refl; value_line = v.device },
            (
              record { key_line = refl; key_name = refl; value_line = v.hrtf },
              All-append IsField (join (each_speaker (speaker_fields n s)))
                  (join (each_band (band_fields n s)) ++ bass_fields n s)
                  (All-join IsField (each_speaker (speaker_fields n s)) each_speaker_field)
                  (All-append IsField (join (each_band (band_fields n s))) (bass_fields n s)
                    (All-join IsField (each_band (band_fields n s)) each_band_field) behind),
            ),
          ),
        ),
      )
