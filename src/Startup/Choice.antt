-- ===== src/Startup/Choice.antt =====
-- The HRTF source that `AudioEngine::Run` of daemon/src/audio_engine.cpp starts with.
use audio_bat.Base.{
  ℕ, zero, suc, ◌%◌, ◌≤◌, ◌≡◌, refl, ap, false, List, [], ◌∷◌, get_or, get_elem?, length, some,
  arith,
}
use audio_bat.Engine.{
  AudioEngine, HrtfCatalogEntry, PersistedSettings, emit, same_text, new_catalog,
  rebuild_hrtf_catalog,
}
use audio_bat.Engine.Told.{live_source}
use audio_bat.Engine.Catalog.{find_entry-get, find_entry-finds, length-new_catalog, get_elem?-bound}
use audio_bat.Startup.{
  Surroundings, choose_by_name, choose_hrtf, make_deck, restore, restore_effects, set_up,
}

-- An entry of that name is active and plays.
pub record Plays (name : List ℕ) (e : AudioEngine) : Type 0 where
  pub entry : HrtfCatalogEntry
  pub named : entry.display_name ≡ name
  pub active : get_elem? e.runtime_hrtf_catalog e.active_hrtf_index ≡ some entry
  pub plays : live_source e.effects ≡ some (entry.kind, entry.path)

pub get_or-get_elem? {ℓ} :
    {A : Type ℓ} (xs : List A) (i : ℕ) (x d : A) → get_elem? xs i ≡ some x → get_or xs i d ≡ x
get_or-get_elem? [] i x d e = absurd (cc e)
get_or-get_elem? (y ∷ xs) zero x d e = cc e
get_or-get_elem? (y ∷ xs) (suc i) x d e = get_or-get_elem? xs i x d e

make_deck-Plays :
    (name path : List ℕ) (e : AudioEngine) (entry : HrtfCatalogEntry) (n : ℕ)
    → length e.runtime_hrtf_catalog ≤ 255
    → get_elem? e.runtime_hrtf_catalog n ≡ some entry
    → entry.display_name ≡ name
    → Plays name (make_deck (choose_by_name name path e) e)
unfolding make_deck choose_by_name emit
make_deck-Plays name path e entry n small got same =
    let catalog = e.runtime_hrtf_catalog in
    let (k, found) = find_entry-finds name 0 catalog n entry got same in
    let (entry', m, at, got', same') = find_entry-get name 0 catalog k found in
    let here : get_elem? catalog k ≡ some entry' = (let f : k ≡ m = omega arith in rw f got') in
    let byte : k % 256 ≡ k = omega (arith, get_elem?-bound catalog k entry' here) in
    rw (choose_by_name, found)
      (record {
        entry = entry';
        named = same';
        active = rw byte here;
        plays = ap (λ x. some (x.kind, x.path)) (get_or-get_elem? catalog k entry' _ here);
      })

-- Where RAMKOLFX_HRTF_SOFA is not set and the loaded settings name an HRTF source that is in the
-- catalogue: an entry of that name is the active one, and the deck starts with that entry's source.
pub set_up-Plays :
    (w : Surroundings) (s : PersistedSettings) (e : AudioEngine) (entry : HrtfCatalogEntry) (n : ℕ)
    → w.overridden ≡ false
    → same_text s.active_hrtf_display_name [] ≡ false
    → get_elem? (new_catalog w.bundled w.user_entries) n ≡ some entry
    → entry.display_name ≡ s.active_hrtf_display_name
    → Plays s.active_hrtf_display_name (set_up w (some s) e)
unfolding set_up choose_hrtf
set_up-Plays w s e entry n free given got same =
    let rebuilt =
      rebuild_hrtf_catalog w.bundled w.user_entries
        (restore_effects (some s) (restore (some s) e)) in
    let catalog : rebuilt.runtime_hrtf_catalog ≡ new_catalog w.bundled w.user_entries =
      unfold rebuild_hrtf_catalog in refl in
    rw (free, given)
      (make_deck-Plays s.active_hrtf_display_name w.sofa_path rebuilt entry n
        (rw catalog (length-new_catalog w.bundled w.user_entries)) (rw catalog got) same)
