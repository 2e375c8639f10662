-- ===== src/Settings/Keys.antt =====
-- The words of daemon/src/settings_store.cpp's keys, and its paths, as character codes.
use audio_bat.Base.{ℕ, List, [], ◌∷◌}

abbrev pub mode_key : List ℕ
mode_key = b'm' ∷ b'o' ∷ b'd' ∷ b'e' ∷ []

abbrev pub near_field_key : List ℕ
near_field_key = b'n' ∷ b'e' ∷ b'a' ∷ b'r' ∷ 95 ∷ b'f' ∷ b'i' ∷ b'e' ∷ b'l' ∷ b'd' ∷ []

abbrev pub output_device_key : List ℕ
output_device_key =
    b'o' ∷ b'u' ∷ b't' ∷ b'p' ∷ b'u' ∷ b't' ∷ 95 ∷ b'd' ∷ b'e' ∷ b'v' ∷ b'i' ∷ b'c' ∷ b'e' ∷ []

abbrev pub hrtf_display_name_key : List ℕ
hrtf_display_name_key =
    b'h' ∷ b'r' ∷ b't' ∷ b'f' ∷ 95 ∷ b'd' ∷ b'i' ∷ b's' ∷ b'p' ∷ b'l' ∷ b'a' ∷ b'y' ∷ 95 ∷ b'n'
    ∷ b'a' ∷ b'm' ∷ b'e' ∷ []

abbrev pub speaker_prefix : List ℕ
speaker_prefix = b's' ∷ b'p' ∷ b'e' ∷ b'a' ∷ b'k' ∷ b'e' ∷ b'r' ∷ 46 ∷ []

abbrev pub hw_eq_prefix : List ℕ
hw_eq_prefix = b'h' ∷ b'w' ∷ b'e' ∷ b'q' ∷ 46 ∷ []

abbrev pub azimuth_field : List ℕ
azimuth_field = b'a' ∷ b'z' ∷ b'i' ∷ b'm' ∷ b'u' ∷ b't' ∷ b'h' ∷ []

abbrev pub distance_field : List ℕ
distance_field = b'd' ∷ b'i' ∷ b's' ∷ b't' ∷ b'a' ∷ b'n' ∷ b'c' ∷ b'e' ∷ []

abbrev pub muted_field : List ℕ
muted_field = b'm' ∷ b'u' ∷ b't' ∷ b'e' ∷ b'd' ∷ []

abbrev pub type_field : List ℕ
type_field = b't' ∷ b'y' ∷ b'p' ∷ b'e' ∷ []

abbrev pub freq_field : List ℕ
freq_field = b'f' ∷ b'r' ∷ b'e' ∷ b'q' ∷ []

abbrev pub gain_field : List ℕ
gain_field = b'g' ∷ b'a' ∷ b'i' ∷ b'n' ∷ []

abbrev pub q_field : List ℕ
q_field = b'q' ∷ []

abbrev pub bass_enabled_key : List ℕ
bass_enabled_key =
    b'b' ∷ b'a' ∷ b's' ∷ b's' ∷ 95 ∷ b'e' ∷ b'n' ∷ b'h' ∷ b'a' ∷ b'n' ∷ b'c' ∷ b'e' ∷ b'r' ∷ 46
    ∷ b'e' ∷ b'n' ∷ b'a' ∷ b'b' ∷ b'l' ∷ b'e' ∷ b'd' ∷ []

abbrev pub bass_cutoff_key : List ℕ
bass_cutoff_key =
    b'b' ∷ b'a' ∷ b's' ∷ b's' ∷ 95 ∷ b'e' ∷ b'n' ∷ b'h' ∷ b'a' ∷ b'n' ∷ b'c' ∷ b'e' ∷ b'r' ∷ 46
    ∷ b'c' ∷ b'u' ∷ b't' ∷ b'o' ∷ b'f' ∷ b'f' ∷ 95 ∷ b'h' ∷ b'z' ∷ []

abbrev pub bass_drive_key : List ℕ
bass_drive_key =
    b'b' ∷ b'a' ∷ b's' ∷ b's' ∷ 95 ∷ b'e' ∷ b'n' ∷ b'h' ∷ b'a' ∷ b'n' ∷ b'c' ∷ b'e' ∷ b'r' ∷ 46
    ∷ b'd' ∷ b'r' ∷ b'i' ∷ b'v' ∷ b'e' ∷ []

abbrev pub bass_mix_key : List ℕ
bass_mix_key =
    b'b' ∷ b'a' ∷ b's' ∷ b's' ∷ 95 ∷ b'e' ∷ b'n' ∷ b'h' ∷ b'a' ∷ b'n' ∷ b'c' ∷ b'e' ∷ b'r' ∷ 46
    ∷ b'm' ∷ b'i' ∷ b'x' ∷ []

abbrev pub config_suffix : List ℕ
config_suffix = 47 ∷ 46 ∷ b'c' ∷ b'o' ∷ b'n' ∷ b'f' ∷ b'i' ∷ b'g' ∷ []

abbrev pub tmp_directory : List ℕ
tmp_directory = 47 ∷ b't' ∷ b'm' ∷ b'p' ∷ []

abbrev pub program_suffix : List ℕ
program_suffix = 47 ∷ b'r' ∷ b'a' ∷ b'm' ∷ b'k' ∷ b'o' ∷ b'l' ∷ b'f' ∷ b'x' ∷ []

abbrev pub file_suffix : List ℕ
file_suffix =
    47 ∷ b's' ∷ b'e' ∷ b't' ∷ b't' ∷ b'i' ∷ b'n' ∷ b'g' ∷ b's' ∷ 46 ∷ b'c' ∷ b'o' ∷ b'n' ∷ b'f' ∷ []
