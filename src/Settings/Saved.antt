-- ===== src/Settings/Saved.antt =====
-- The settings file across `Save` of daemon/src/settings_store.cpp, also where power is lost on the
-- way: a run that stops before `rename` is one whose `rename` does not succeed.
use audio_bat.Base.{
  ℕ, ◌≤◌, ◌≡◌, refl, ap, ◌∙◌, Bool, true, false, length, take_all, some, ◌⊎◌, inl, inr,
}
use audio_bat.Engine.{PersistedSettings}
use audio_bat.Settings.{
  Numbers, Disk, text_of, load_text, load, save, default_settings, load_fields, lines, fields_in,
}
use audio_bat.Settings.Fields.{IsNumbers, IsSettings}
use audio_bat.Settings.RoundTrip.{reread_settings, load_text-text_of}

-- Where the temporary file does not open, where `rename` does not succeed or is not reached, however
-- much was written by then, and where all of the text was written: a `Load` afterwards returns what it
-- returned before the `Save`, or the settings that were saved, with their floats reread. Their modes
-- are named and their names have no line break.
pub save-atomic :
    (n : Numbers) (s : PersistedSettings) (opens renames : Bool) (written : ℕ) (d : Disk)
    → IsNumbers n
    → IsSettings s
    → (renames ≡ false) ⊎ (length (text_of n s) ≤ written)
    → (load n (save opens written renames (text_of n s) d) ≡ load n d)
      ⊎ (load n (save opens written renames (text_of n s) d) ≡ some (reread_settings n s))
unfolding save load
save-atomic n s false renames written d law v whole = inl refl
save-atomic n s true false written d law v whole = inl refl
save-atomic n s true true written d law v (inl e) = absurd (cc e)
save-atomic n s true true written d law v (inr h) = inr (
    ap (λ t. some (load_text n t)) (take_all written (text_of n s) h)
    ∙ ap some (load_text-text_of n law s v))

-- Where the temporary file opens and `rename` succeeds, but no character of the text could be written,
-- whatever the settings file held: a `Load` afterwards returns the default settings.
pub save-unwritten :
    (n : Numbers) (s : PersistedSettings) (d : Disk)
    → load n (save true 0 true (text_of n s) d) ≡ some default_settings
unfolding save load load_text load_fields fields_in lines default_settings
save-unwritten n s d = refl
