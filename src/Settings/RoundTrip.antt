-- ===== src/Settings/RoundTrip.antt =====
-- What `Load` of daemon/src/settings_store.cpp makes of what `Save` wrote.
use audio_bat.Base.{
  All, zero, suc, ℕ, ◌%◌, ◌<◌, ◌≡◌, refl, ap, ◌∙◌, fun_ext, Bool, true, false, List, [], ◌∷◌,
  get_or, arith,
}
use audio_bat.Protocol.Types.{
  SpatialMode, EqFilterType, EqBand, default_bass_enhancer, default_eq_band,
}
use audio_bat.Protocol.Bytes.{mode_byte, mode_of_byte, filter_byte, filter_of_byte}
use audio_bat.Protocol.Request.{IsMode}
use audio_bat.Protocol.FieldRoundTrip.{IsFilter, filter_of_byte-filter_byte}
use audio_bat.Engine.{PersistedSettings, same_text, each_speaker}
use audio_bat.Settings.{
  Numbers, to_string, each_band, default_hw_eq_band, flag_text, fields_of, text_of, find_field,
  value_or, load_fields, load_text,
}
use audio_bat.Settings.Fields.{IsNumbers, IsSettings, All-IsField}
use audio_bat.Settings.Lines.{fields_in-render}

-- A float as it comes back: what `stof` makes of what `<<` printed, or the default.
abbrev pub reread : Numbers → ℕ → ℕ → ℕ
reread n default v = value_or default (n.stof (n.print_float v))

abbrev pub reread_band : Numbers → PersistedSettings → ℕ → EqBand
reread_band n s i =
    let band = get_or s.hw_eq_bands i default_eq_band in
    record {
      filter_type = band.filter_type;
      frequency_hz = reread n (default_hw_eq_band i).frequency_hz band.frequency_hz;
      gain_db = reread n 0 band.gain_db;
      q = reread n (default_hw_eq_band i).q band.q;
    }

-- The settings, with every float reread.
abbrev pub reread_settings : Numbers → PersistedSettings → PersistedSettings
reread_settings n s = record {
  mode = s.mode;
  speaker_azimuth_degrees = each_speaker (λ i. reread n 0 (get_or s.speaker_azimuth_degrees i 0));
  speaker_distance_meters = each_speaker (λ i. reread n 0 (get_or s.speaker_distance_meters i 0));
  speaker_muted = each_speaker (λ i. get_or s.speaker_muted i false);
  near_field_enabled = s.near_field_enabled;
  output_device_name = s.output_device_name;
  active_hrtf_display_name = s.active_hrtf_display_name;
  hw_eq_bands = each_band (reread_band n s);
  bass_enhancer = record {
    enabled = s.bass_enhancer.enabled;
    cutoff_hz = reread n default_bass_enhancer.cutoff_hz s.bass_enhancer.cutoff_hz;
    drive = reread n default_bass_enhancer.drive s.bass_enhancer.drive;
    mix = reread n default_bass_enhancer.mix s.bass_enhancer.mix;
  };
}

same_text-flag_text : (b : Bool) → same_text (flag_text b) (49 ∷ []) ≡ b
unfolding same_text
same_text-flag_text true = refl
same_text-flag_text false = refl

mode_byte_small : (m : SpatialMode) → IsMode m → mode_byte m < 256
mode_byte_small SpatialMode.off h = omega arith
mode_byte_small SpatialMode.basic h = omega arith
mode_byte_small SpatialMode.advanced h = omega arith
mode_byte_small (SpatialMode.unnamed b) h = absurd h

mode_of_byte-mode_byte : (m : SpatialMode) → IsMode m → mode_of_byte (mode_byte m) ≡ m
mode_of_byte-mode_byte SpatialMode.off h = refl
mode_of_byte-mode_byte SpatialMode.basic h = refl
mode_of_byte-mode_byte SpatialMode.advanced h = refl
mode_of_byte-mode_byte (SpatialMode.unnamed b) h = absurd h

filter_byte_small : (t : EqFilterType) → IsFilter t → filter_byte t < 256
filter_byte_small (EqFilterType.unnamed b) h = h.1
filter_byte_small EqFilterType.peaking h = omega arith
filter_byte_small EqFilterType.low_shelf h = omega arith
filter_byte_small EqFilterType.high_shelf h = omega arith
filter_byte_small EqFilterType.low_pass h = omega arith
filter_byte_small EqFilterType.high_pass h = omega arith
filter_byte_small EqFilterType.notch h = omega arith

get_or-All {ℓ κ} :
    {A : Type ℓ} (P : A → Type κ) (xs : List A) (i : ℕ) (d : A) → All P xs → P d → P (get_or xs i d)
get_or-All P [] i d h p = p
get_or-All P (x ∷ xs) zero d h p = h.0
get_or-All P (x ∷ xs) (suc i) d h p = get_or-All P xs i d h.1 p

module _ (n : Numbers) (law : IsNumbers n) (s : PersistedSettings) (v : IsSettings s) where
  -- The same before a mode, a filter type or a flag is read back.
  abbrev raw_byte : ℕ → ℕ → ℕ
  raw_byte default b = value_or default (n.stol (to_string b)) % 256

  abbrev raw_flag : Bool → Bool
  raw_flag b = same_text (flag_text b) (49 ∷ [])

  abbrev raw_band : ℕ → EqBand
  raw_band i = record (reread_band n s i) {
    filter_type =
        filter_of_byte
          (raw_byte 0 (filter_byte (get_or s.hw_eq_bands i default_eq_band).filter_type));
  }

  abbrev with_parts : SpatialMode → List Bool → Bool → List EqBand → Bool → PersistedSettings
  with_parts mode muted near_field bands enabled = record (reread_settings n s) {
    mode = mode;
    speaker_muted = muted;
    near_field_enabled = near_field;
    hw_eq_bands = bands;
    bass_enhancer = record (reread_settings n s).bass_enhancer { enabled = enabled };
  }

  with_parts_same :
      {m m' : SpatialMode} {muted muted' : List Bool} {near near' : Bool}
      {bands bands' : List EqBand} {on on' : Bool}
      → m ≡ m'
      → muted ≡ muted'
      → near ≡ near'
      → bands ≡ bands'
      → on ≡ on'
      → with_parts m muted near bands on ≡ with_parts m' muted' near' bands' on'
  with_parts_same p q r t u = rw (p, q, r, t, u) refl

  abbrev raw_settings : PersistedSettings
  raw_settings =
      with_parts (mode_of_byte (raw_byte 0 (mode_byte s.mode)))
        (each_speaker (λ i. raw_flag (get_or s.speaker_muted i false)))
        (raw_flag s.near_field_enabled) (each_band raw_band) (raw_flag s.bass_enhancer.enabled)

  load_fields_raw : load_fields n (fields_of n s) ≡ raw_settings
  unfolding load_fields find_field fields_of same_text
  load_fields_raw = refl

  raw_byte_lem : (b : ℕ) → b < 256 → raw_byte 0 b ≡ b
  raw_byte_lem b h = let small : b % 256 ≡ b = omega arith in rw (law.digits b h, small) refl

  mode_lem : mode_of_byte (raw_byte 0 (mode_byte s.mode)) ≡ s.mode
  mode_lem =
      rw (raw_byte_lem (mode_byte s.mode) (mode_byte_small s.mode v.mode))
        (mode_of_byte-mode_byte s.mode v.mode)

  filter_at : (i : ℕ) → IsFilter (get_or s.hw_eq_bands i default_eq_band).filter_type
  filter_at i =
      get_or-All (λ b. IsFilter b.filter_type) s.hw_eq_bands i default_eq_band v.filters tt

  band_lem : (i : ℕ) → raw_band i ≡ reread_band n s i
  band_lem i =
      let t = (get_or s.hw_eq_bands i default_eq_band).filter_type in
      ap (λ f. record (reread_band n s i) { filter_type = f })
        (ap filter_of_byte (raw_byte_lem (filter_byte t) (filter_byte_small t (filter_at i)))
          ∙ filter_of_byte-filter_byte t (filter_at i))

  load_fields-fields_of : load_fields n (fields_of n s) ≡ reread_settings n s
  load_fields-fields_of =
      let muted : each_speaker (λ i. raw_flag (get_or s.speaker_muted i false))
          ≡ each_speaker (λ i. get_or s.speaker_muted i false) =
        ap each_speaker (fun_ext (λ i. same_text-flag_text (get_or s.speaker_muted i false))) in
      let bands : each_band raw_band ≡ each_band (reread_band n s) =
        ap each_band (fun_ext band_lem) in
      load_fields_raw
      ∙ with_parts_same mode_lem muted (same_text-flag_text s.near_field_enabled) bands
          (same_text-flag_text s.bass_enhancer.enabled)

  -- Settings of named modes whose two names have no line break: `Load` reads from the text that `Save`
  -- writes the same settings, except that each float comes back as `stof` reads what `<<` printed, or as
  -- its default where `stof` throws.
  pub load_text-text_of : load_text n (text_of n s) ≡ reread_settings n s
  unfolding load_text text_of
  load_text-text_of =
      ap (load_fields n) (fields_in-render (fields_of n s) (All-IsField n law s v))
      ∙ load_fields-fields_of
