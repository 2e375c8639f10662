-- ===== src/Tests/Settings.antt =====
-- Settings of daemon/src/settings_store.cpp through a file, with floats printed as the digits of their
-- patterns, and two starts of daemon/src/audio_engine.cpp.
use audio_bat.Base.{
  ℕ, zero, suc, ◌+◌, ◌-◌, ◌*◌, ◌≤◌, ◌<◌, ◌≡◌, ◌⊎◌, inl, inr, refl, true, false, List, [], ◌∷◌,
  Option, none, some, length, arith, ◌++◌, ◌/◌, ◌%◌, ap, ltb, ltb→le, Bool-cases,
}
use audio_bat.Engine.{PersistedSettings, same_text}
use audio_bat.Engine.Answer.{IsEngine}
use audio_bat.Engine.Told.{live_source}
use audio_bat.Startup.FirstSource.{first_source}
use audio_bat.Engine.Sync.{IsLive, on_disk}
use audio_bat.Layout.{new_layout}
use audio_bat.Devices.{
  resolve_initial_output_device, has_device, has_entry, pick_any_device, pick_loop,
}
use audio_bat.Settings.{
  Numbers, Disk, default_settings, text_of, load_text, load, save, to_string, decimal,
}
use audio_bat.Settings.Lines.{lacks-to_string}
use audio_bat.Settings.Fields.{IsNumbers, IsSettings}
use audio_bat.Settings.RoundTrip.{reread_settings, load_text-text_of}
use audio_bat.Settings.Saved.{save-atomic}
use audio_bat.Startup.{Surroundings, Starts, run, set_up, device_of}
use audio_bat.Startup.Invariant.{IsLoaded, default_bands-IsEqBand, run-IsEngine}
use audio_bat.Startup.FirstRun.{first_saved, collapsed, run-collapses}
use audio_bat.Startup.Choice.{Plays, set_up-Plays}
use audio_bat.Tests.Engine.{engine, engine-IsEngine, head, sphere, no_devices, swapped}

-- The number that digits stand for.
abbrev read_digits : ℕ → List ℕ → ℕ
read_digits n [] = n
read_digits n (c ∷ cs) = read_digits (n * 10 + (c - 48)) cs

abbrev read : List ℕ → Option ℕ
read cs = some (read_digits 0 cs)

abbrev numbers : Numbers
numbers = record { print_float = to_string; stof = read; stol = read }

read_digits-append :
    (n d : ℕ) (cs : List ℕ) → read_digits n (cs ++ ((48 + d) ∷ [])) ≡ read_digits n cs * 10 + d
read_digits-append n d [] = omega arith
read_digits-append n d (c ∷ cs) = read_digits-append (n * 10 + (c - 48)) d cs

read_digits-decimal : (fuel n : ℕ) → n ≤ fuel → read_digits 0 (decimal fuel n) ≡ n
unfolding decimal
read_digits-decimal zero n h = omega arith
read_digits-decimal (suc fuel) n h = elim (Bool-cases (ltb n 10)) [
  | inl e ↦ rw e (omega arith)
  | inr e ↦
      let big = ltb→le n 10 e in
      let front = read_digits-decimal fuel (n / 10) (omega arith) in
      rw (e, read_digits-append 0 (n % 10) (decimal fuel (n / 10)), front) (omega arith)
]

numbers-IsNumbers : IsNumbers numbers
unfolding to_string
numbers-IsNumbers = record {
  one_line = λ v. lacks-to_string 10 v (inl (omega arith));
  digits = λ b h. ap some (read_digits-decimal b b (omega arith));
}

abbrev saved : PersistedSettings
saved = record default_settings {
  output_device_name = 97 ∷ 61 ∷ [];
  active_hrtf_display_name = 115 ∷ [];
}

saved-IsSettings : IsSettings saved
unfolding default_settings
saved-IsSettings = record { mode = tt; filters = ground arith; device = refl; hrtf = refl }

load_text-text_of_example :
    load_text numbers (text_of numbers saved) ≡ reread_settings numbers saved
load_text-text_of_example = load_text-text_of numbers numbers-IsNumbers saved saved-IsSettings

abbrev empty_disk : Disk
empty_disk = record { settings_file = none; temp_file = none }

-- Power is lost after ten characters.
save-atomic_example :
    (load numbers (save true 10 false (text_of numbers saved) empty_disk) ≡ load numbers empty_disk)
    ⊎ (load numbers (save true 10 false (text_of numbers saved) empty_disk)
        ≡ some (reread_settings numbers saved))
save-atomic_example =
    save-atomic numbers saved true false 10 empty_disk numbers-IsNumbers saved-IsSettings (inl refl)

abbrev surroundings : Surroundings
surroundings = record {
  bundled = sphere ∷ [];
  user_entries = head ∷ [];
  overridden = false;
  sofa_path = [];
  registry = no_devices;
}

abbrev all_start : Starts
all_start = record { sink = true; device_registry = true; output = true; server = true }

saved-IsLoaded : IsLoaded saved
unfolding default_settings
saved-IsLoaded = record {
  mode = tt;
  azimuths = ground arith;
  distances = ground arith;
  bands = refl;
  band_values = default_bands-IsEqBand;
  bass = record { cutoff = omega arith; driven = omega arith; mixed = omega arith };
}

short_name : length (resolve_initial_output_device (device_of (some saved)) no_devices) < 65467
unfolding resolve_initial_output_device has_device has_entry pick_any_device pick_loop same_text
short_name = omega arith

all_started : (run all_start surroundings (some saved) engine).0 ≡ true
unfolding run
all_started = refl

named : same_text saved.active_hrtf_display_name [] ≡ false
unfolding same_text
named = refl

run-IsEngine_example :
    let begun = (run all_start surroundings (some saved) engine).1 in
    IsEngine begun
    × IsLive begun
    × (live_source begun.effects ≡ some (first_source surroundings (some saved)))
run-IsEngine_example =
    run-IsEngine all_start surroundings (some saved) engine saved-IsLoaded engine-IsEngine
      short_name all_started

run-collapses_example :
    ((run all_start surroundings none engine).1.shared_layout ≡ new_layout)
    × (on_disk (run all_start surroundings none engine).1.effects ≡ some (first_saved surroundings))
    × ((run all_start surroundings (some (first_saved surroundings)) engine).1.shared_layout
        ≡ collapsed)
run-collapses_example =
    run-collapses all_start all_start surroundings surroundings engine engine refl refl refl

set_up-Plays_example : Plays (115 ∷ []) (set_up surroundings (some saved) engine)
set_up-Plays_example = set_up-Plays surroundings saved engine sphere 0 refl named swapped refl
