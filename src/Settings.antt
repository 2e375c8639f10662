-- ===== src/Settings.antt =====
-- `SettingsStore` of daemon/src/settings_store.cpp: the text that `Save` writes and `Load` reads, and
-- what each does to the settings file. Text is a list of character codes. How the standard library
-- prints and reads a `float`, and reads a `long`, is a record of operations; a `long` is its 64-bit two's
-- complement. An `unordered_map` filled by `emplace` is an association list in which a key's first
-- entry counts.
pub mod Keys
pub mod Lines
pub mod Fields
pub mod RoundTrip
pub mod Saved
use audio_bat.Base.{
  ℕ, zero, suc, ◌+◌, ◌/◌, ◌%◌, Bool, true, false, List, [], ◌∷◌, ◌++◌, get_or, take, Option, none,
  some, ltb, ◌==◌, if◌then◌else◌,
}
use audio_bat.Protocol.Types.{
  SpatialMode, EqFilterType, EqBand, BassEnhancerSettings, default_bass_enhancer, default_eq_band,
}
use audio_bat.Protocol.Bytes.{mode_byte, mode_of_byte, filter_byte, filter_of_byte}
use audio_bat.Settings.Keys.{
  mode_key, near_field_key, output_device_key, hrtf_display_name_key, speaker_prefix, hw_eq_prefix,
  azimuth_field, distance_field, muted_field, type_field, freq_field, gain_field, q_field,
  bass_enabled_key, bass_cutoff_key, bass_drive_key, bass_mix_key, config_suffix, tmp_directory,
  program_suffix, file_suffix,
}
use audio_bat.Engine.{PersistedSettings, same_text, each_speaker}

-- `operator<<` of a `float`, `std::stof` and `std::stol`, `none` where they throw.
pub record Numbers : Type 0 where
  pub print_float : ℕ → List ℕ
  pub stof : List ℕ → Option ℕ
  pub stol : List ℕ → Option ℕ

-- A line's key and value.
abbrev pub Field : Type 0
Field = List ℕ × List ℕ

-- The digits of a number, on fuel; the number itself is fuel enough.
unfoldable pub decimal : ℕ → ℕ → List ℕ
decimal zero n = (48 + n % 10) ∷ []
decimal (suc fuel) n =
    let front = decimal fuel (n / 10) in
    if ltb n 10 then (48 + n) ∷ [] else front ++ ((48 + n % 10) ∷ [])

unfoldable pub to_string : ℕ → List ℕ
unfolding decimal
to_string n = decimal n n

unfoldable pub speaker_key : ℕ → List ℕ → List ℕ
unfolding to_string
speaker_key index field = speaker_prefix ++ to_string index ++ (46 ∷ field)

unfoldable pub hw_eq_band_key : ℕ → List ℕ → List ℕ
unfolding to_string
hw_eq_band_key index field = hw_eq_prefix ++ to_string index ++ (46 ∷ field)

-- `XDG_CONFIG_HOME` and `HOME`; a value that is empty counts as none. `mkdir` is not modelled.
unfoldable pub default_settings_path : Option (List ℕ) → Option (List ℕ) → List ℕ
default_settings_path (some (c ∷ cs)) home = (c ∷ cs) ++ program_suffix ++ file_suffix
default_settings_path _ (some (c ∷ cs)) = (c ∷ cs) ++ config_suffix ++ program_suffix ++ file_suffix
default_settings_path _ _ = tmp_directory ++ program_suffix ++ file_suffix

-- `for (size_t i = 0; i < MaxEqBands; ++i)`.
abbrev pub each_band {ℓ} : {A : Type ℓ} → (ℕ → A) → List A
each_band f = f 0 ∷ f 1 ∷ f 2 ∷ f 3 ∷ f 4 ∷ f 5 ∷ f 6 ∷ f 7 ∷ f 8 ∷ f 9 ∷ []

-- `DefaultEqCenterFrequenciesHz`.
abbrev pub default_eq_center_frequencies_hz : List ℕ
default_eq_center_frequencies_hz =
    0x41fc_0000 ∷ 0x427c_0000 ∷ 0x42fa_0000 ∷ 0x437a_0000 ∷ 0x43fa_0000 ∷ 0x447a_0000 ∷ 0x44fa_0000
    ∷ 0x457a_0000 ∷ 0x45fa_0000 ∷ 0x467a_0000 ∷ []

-- A band of `DefaultHwEqBands`; `DefaultGraphicEqQ` is 1.41f.
abbrev pub default_hw_eq_band : ℕ → EqBand
default_hw_eq_band i = record {
  filter_type = EqFilterType.peaking;
  frequency_hz = get_or default_eq_center_frequencies_hz i 0;
  gain_db = 0;
  q = 0x3fb4_7ae1;
}

-- `PersistedSettings{}`.
unfoldable pub default_settings : PersistedSettings
default_settings = record {
  mode = SpatialMode.off;
  speaker_azimuth_degrees = each_speaker (λ i. 0);
  speaker_distance_meters = each_speaker (λ i. 0);
  speaker_muted = each_speaker (λ i. false);
  near_field_enabled = false;
  output_device_name = [];
  active_hrtf_display_name = [];
  hw_eq_bands = each_band default_hw_eq_band;
  bass_enhancer = default_bass_enhancer;
}

-- `b ? 1 : 0`.
abbrev pub flag_text : Bool → List ℕ
flag_text true = 49 ∷ []
flag_text false = 48 ∷ []

abbrev pub join {ℓ} : {A : Type ℓ} → List (List A) → List A
join [] = []
join (xs ∷ xss) = xs ++ join xss

module _ (n : Numbers) where
  unfoldable pub speaker_fields : PersistedSettings → ℕ → List Field
  unfolding speaker_key
  speaker_fields s i =
      (speaker_key i azimuth_field, n.print_float (get_or s.speaker_azimuth_degrees i 0))
      ∷ (speaker_key i distance_field, n.print_float (get_or s.speaker_distance_meters i 0))
      ∷ (speaker_key i muted_field, flag_text (get_or s.speaker_muted i false))
      ∷ []

  unfoldable pub band_fields : PersistedSettings → ℕ → List Field
  unfolding hw_eq_band_key to_string
  band_fields s i =
      let band = get_or s.hw_eq_bands i default_eq_band in
      (hw_eq_band_key i type_field, to_string (filter_byte band.filter_type))
      ∷ (hw_eq_band_key i freq_field, n.print_float band.frequency_hz)
      ∷ (hw_eq_band_key i gain_field, n.print_float band.gain_db)
      ∷ (hw_eq_band_key i q_field, n.print_float band.q)
      ∷ []

  unfoldable pub bass_fields : PersistedSettings → List Field
  bass_fields s =
      (bass_enabled_key, flag_text s.bass_enhancer.enabled)
      ∷ (bass_cutoff_key, n.print_float s.bass_enhancer.cutoff_hz)
      ∷ (bass_drive_key, n.print_float s.bass_enhancer.drive)
      ∷ (bass_mix_key, n.print_float s.bass_enhancer.mix)
      ∷ []

  -- What `Save` puts into `Out`, line by line.
  unfoldable pub fields_of : PersistedSettings → List Field
  unfolding speaker_fields band_fields bass_fields to_string
  fields_of s =
      (mode_key, to_string (mode_byte s.mode))
      ∷ (near_field_key, flag_text s.near_field_enabled)
      ∷ (output_device_key, s.output_device_name)
      ∷ (hrtf_display_name_key, s.active_hrtf_display_name)
      ∷ (join (each_speaker (speaker_fields s))
          ++ (join (each_band (band_fields s)) ++ bass_fields s))

-- `<< Key << "=" << Value << "\n"`.
unfoldable pub render : List Field → List ℕ
render [] = []
render ((key, value) ∷ fields) = key ++ (61 ∷ value ++ (10 ∷ render fields))

unfoldable pub text_of : Numbers → PersistedSettings → List ℕ
unfolding fields_of render
text_of n s = render (fields_of n s)

abbrev pub push_char : ℕ → List (List ℕ) → List (List ℕ)
push_char c [] = (c ∷ []) ∷ []
push_char c (line ∷ rest) = (c ∷ line) ∷ rest

-- The lines that `std::getline` returns in turn.
unfoldable pub lines : List ℕ → List (List ℕ)
lines [] = []
lines (c ∷ cs) = let rest = lines cs in if c == 10 then [] ∷ rest else push_char c rest

abbrev pub push_key : ℕ → Option Field → Option Field
push_key c none = none
push_key c (some (key, value)) = some (c ∷ key, value)

-- The parts before and behind the first '='.
unfoldable pub split_line : List ℕ → Option Field
split_line [] = none
split_line (c ∷ cs) = let rest = split_line cs in if c == 61 then some ([], cs) else push_key c rest

unfoldable pub fields_in : List (List ℕ) → List Field
unfolding split_line
fields_in [] = []
fields_in (line ∷ rest) = elim (split_line line) [
  | none ↦ fields_in rest
  | some field ↦ field ∷ fields_in rest
]

unfoldable pub find_field : List ℕ → List Field → Option (List ℕ)
find_field key [] = none
find_field key ((k, value) ∷ fields) =
    let later = find_field key fields in if same_text k key then some value else later

abbrev pub value_or {ℓ} : {A : Type ℓ} → A → Option A → A
value_or default none = default
value_or default (some a) = a

-- `GetString`, and `GetBool`.
unfoldable pub get_string : List Field → List ℕ → List ℕ → List ℕ
unfolding find_field
get_string fields key default = value_or default (find_field key fields)

abbrev pub bool_of : Bool → Option (List ℕ) → Bool
bool_of default none = default
bool_of default (some value) = same_text value (49 ∷ [])

unfoldable pub get_bool : List Field → List ℕ → Bool → Bool
unfolding find_field
get_bool fields key default = bool_of default (find_field key fields)

-- `GetLong` and `GetFloat`, by what reads the value: the default where the key is missing, and where
-- reading throws.
abbrev pub number_of : (List ℕ → Option ℕ) → ℕ → Option (List ℕ) → ℕ
number_of read default none = default
number_of read default (some value) = value_or default (read value)

unfoldable pub get_number : (List ℕ → Option ℕ) → List Field → List ℕ → ℕ → ℕ
unfolding find_field
get_number read fields key default = number_of read default (find_field key fields)

module _ (n : Numbers) (fields : List Field) where
  unfoldable pub load_band : ℕ → EqBand
  unfolding get_number hw_eq_band_key
  load_band i =
      let band = default_hw_eq_band i in
      record {
        filter_type = filter_of_byte (
            get_number n.stol fields (hw_eq_band_key i type_field) (filter_byte band.filter_type)
            % 256);
        frequency_hz = get_number n.stof fields (hw_eq_band_key i freq_field) band.frequency_hz;
        gain_db = get_number n.stof fields (hw_eq_band_key i gain_field) band.gain_db;
        q = get_number n.stof fields (hw_eq_band_key i q_field) band.q;
      }

  unfoldable pub load_bass_enhancer : BassEnhancerSettings
  unfolding get_number get_bool
  load_bass_enhancer = record {
    enabled = get_bool fields bass_enabled_key default_bass_enhancer.enabled;
    cutoff_hz = get_number n.stof fields bass_cutoff_key default_bass_enhancer.cutoff_hz;
    drive = get_number n.stof fields bass_drive_key default_bass_enhancer.drive;
    mix = get_number n.stof fields bass_mix_key default_bass_enhancer.mix;
  }

  unfoldable pub load_fields : PersistedSettings
  unfolding get_number get_bool get_string speaker_key load_band load_bass_enhancer
  load_fields = record {
    mode = mode_of_byte (get_number n.stol fields mode_key 0 % 256);
    speaker_azimuth_degrees =
        each_speaker (λ i. get_number n.stof fields (speaker_key i azimuth_field) 0);
    speaker_distance_meters =
        each_speaker (λ i. get_number n.stof fields (speaker_key i distance_field) 0);
    speaker_muted = each_speaker (λ i. get_bool fields (speaker_key i muted_field) false);
    near_field_enabled = get_bool fields near_field_key false;
    output_device_name = get_string fields output_device_key [];
    active_hrtf_display_name = get_string fields hrtf_display_name_key [];
    hw_eq_bands = each_band load_band;
    bass_enhancer = load_bass_enhancer;
  }

-- `Load` of an open file's text.
unfoldable pub load_text : Numbers → List ℕ → PersistedSettings
unfolding load_fields fields_in lines
load_text n text = load_fields n (fields_in (lines text))

-- The settings file and the one beside it that `Save` writes first.
pub record Disk : Type 0 where
  pub settings_file : Option (List ℕ)
  pub temp_file : Option (List ℕ)

unfoldable pub load : Numbers → Disk → Option PersistedSettings
unfolding load_text
load n disk = elim disk.settings_file [ none ↦ none | some text ↦ some (load_text n text) ]

-- `Save`: whether the temporary file opens, how many characters of the text reach it (a write that
-- fails is not noticed), and whether `rename` succeeds.
unfoldable pub save : Bool → ℕ → Bool → List ℕ → Disk → Disk
save false written renames text d = d
save true written false text d = record d { temp_file = some (take written text) }
save true written true text d = record {
  settings_file = some (take written text);
  temp_file = none;
}
