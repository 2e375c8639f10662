-- ===== src/Engine/Catalog.antt =====
-- The catalogue and the active index that `AudioEngine::RebuildHrtfCatalog` leaves.
use audio_bat.Base.{
  All, ◌≢◌, none, Option-cases, ℕ, zero, suc, ◌+◌, ◌≤◌, ◌<◌, ◌≡◌, refl, ap, true, List, [], ◌∷◌,
  ◌++◌, some, arith, length, length-take, get_elem?, ltb, ltb→le, ◌==◌, ==_iff, Bool-cases, inl,
  inr,
}
use audio_bat.Engine.{
  AudioEngine, HrtfCatalogEntry, same_text, find_entry, new_catalog, rebuild_hrtf_catalog,
  old_entry, relocate, name_at, settings_of, current_status,
}

same_text→eq : (xs ys : List ℕ) → same_text xs ys ≡ true → xs ≡ ys
unfolding same_text
same_text→eq [] [] h = refl
same_text→eq [] (y ∷ ys) h = absurd (cc h)
same_text→eq (x ∷ xs) [] h = absurd (cc h)
same_text→eq (x ∷ xs) (y ∷ ys) h = elim (Bool-cases (x == y)) [
  | inl e ↦ rw ((==_iff x y).0 e) (ap (◌∷◌ y) (same_text→eq xs ys (cc (rw e at h))))
  | inr e ↦ absurd (cc (rw e at h))
]

-- What a name search finds: an entry of that name, and none before it.
pub find_entry-get :
    (name : List ℕ) (i : ℕ) (entries : List HrtfCatalogEntry) (k : ℕ)
    → find_entry name i entries ≡ some k
    → (entry : HrtfCatalogEntry) × (n : ℕ) × (k ≡ i + n)
      × (get_elem? entries n ≡ some entry)
      × (entry.display_name ≡ name)
unfolding find_entry
find_entry-get name i [] k h = absurd (cc h)
find_entry-get name i (entry ∷ entries) k h =
    elim (Bool-cases (same_text entry.display_name name)) [
      | inl e ↦
          let found : i ≡ k = cc (rw e at h) in (entry, 0, omega arith, refl, same_text→eq _ _ e)
      | inr e ↦
          let (entry', n, at, got, same) = find_entry-get name (suc i) entries k (cc (rw e at h)) in
          (entry', suc n, omega arith, got, same)
    ]

same_text_self : (xs : List ℕ) → same_text xs xs ≡ true
unfolding same_text
same_text_self [] = refl
same_text_self (x ∷ xs) = rw ((==_iff x x).1 refl) (same_text_self xs)

-- A name that some entry has is found.
pub find_entry-finds :
    (name : List ℕ) (i : ℕ) (entries : List HrtfCatalogEntry) (n : ℕ) (entry : HrtfCatalogEntry)
    → get_elem? entries n ≡ some entry
    → entry.display_name ≡ name
    → (k : ℕ) × (find_entry name i entries ≡ some k)
unfolding find_entry
find_entry-finds name i [] n entry got same = absurd (cc got)
find_entry-finds name i (x ∷ entries) zero entry got same =
    let first : x ≡ entry = cc got in (i, rw (first, same, same_text_self name) refl)
find_entry-finds name i (x ∷ entries) (suc n) entry got same =
    elim (Bool-cases (same_text x.display_name name)) [
      | inl e ↦ (i, rw e refl)
      | inr e ↦ rw e (find_entry-finds name (suc i) entries n entry got same)
    ]

pub get_elem?-bound {ℓ} :
    {A : Type ℓ} (xs : List A) (n : ℕ) (x : A) → get_elem? xs n ≡ some x → n < length xs
get_elem?-bound [] n x e = absurd (cc e)
get_elem?-bound (y ∷ xs) zero x e = omega arith
get_elem?-bound (y ∷ xs) (suc n) x e = omega (arith, get_elem?-bound xs n x e)

pub length-new_catalog :
    (bundled user : List HrtfCatalogEntry) → length (new_catalog bundled user) ≤ 255
unfolding new_catalog
length-new_catalog bundled user = elim (Bool-cases (ltb 255 (length (bundled ++ user)))) [
  | inl e ↦ rw e (omega (arith, length-take 255 (bundled ++ user)))
  | inr e ↦ rw e (ltb→le 255 (length (bundled ++ user)) e)
]

-- What a rebuild leaves, for the entry that was active before it.
pub record Relocated (old : HrtfCatalogEntry) (e : AudioEngine) : Type 0 where
  pub small : length e.runtime_hrtf_catalog ≤ 255
  pub index : e.active_hrtf_index < 255
  pub entry : HrtfCatalogEntry
  pub active : get_elem? e.runtime_hrtf_catalog e.active_hrtf_index ≡ some entry
  pub same : entry.display_name ≡ old.display_name

-- Where the active entry's name is still in the catalogue that a rebuild makes, the catalogue has at
-- most 255 entries and the active index, below 255, is that of an entry of that name.
pub rebuild_hrtf_catalog-Relocated :
    (bundled user : List HrtfCatalogEntry) (e : AudioEngine) (old entry : HrtfCatalogEntry) (n : ℕ)
    → get_elem? e.runtime_hrtf_catalog e.active_hrtf_index ≡ some old
    → get_elem? (new_catalog bundled user) n ≡ some entry
    → entry.display_name ≡ old.display_name
    → Relocated old (rebuild_hrtf_catalog bundled user e)
unfolding rebuild_hrtf_catalog old_entry relocate
rebuild_hrtf_catalog-Relocated bundled user e old entry n was got same =
    let catalog = new_catalog bundled user in
    let (k, found) = find_entry-finds old.display_name 0 catalog n entry got same in
    let (entry', m, at, got', same') = find_entry-get old.display_name 0 catalog k found in
    let here : get_elem? catalog k ≡ some entry' = (let e : k ≡ m = omega arith in rw e got') in
    rw (was, found)
      (record {
        small = length-new_catalog bundled user;
        index =
            omega (arith, get_elem?-bound catalog k entry' here, length-new_catalog bundled user);
        entry = entry';
        active = here;
        same = same';
      })

All-get_elem? {ℓ κ} :
    {A : Type ℓ} (P : A → Type κ) (xs : List A) (n : ℕ) (x : A)
    → All P xs
    → get_elem? xs n ≡ some x
    → P x
All-get_elem? P [] n x h e = absurd (cc e)
All-get_elem? P (y ∷ xs) zero x h e = let same : y ≡ x = cc e in rw (← same) (h.0)
All-get_elem? P (y ∷ xs) (suc n) x h e = All-get_elem? P xs n x h.1 e

-- An entry that is called otherwise.
abbrev pub IsOther : List ℕ → HrtfCatalogEntry → Type 0
IsOther name x = x.display_name ≢ name

find_entry-none :
    (name : List ℕ) (entries : List HrtfCatalogEntry)
    → All (IsOther name) entries
    → find_entry name 0 entries ≡ none
find_entry-none name entries h = elim (Option-cases (find_entry name 0 entries)) [
  | inl e ↦ e
  | inr (k, e) ↦
      let (entry, n, at, got, same) = find_entry-get name 0 entries k e in
      absurd (All-get_elem? (IsOther name) entries n entry h got same)
]

name_at-other :
    (name : List ℕ) (entries : List HrtfCatalogEntry) (n : ℕ)
    → All (IsOther name) entries
    → name ≢ []
    → name_at (get_elem? entries n) ≢ name
unfolding name_at
name_at-other name entries n h given e = elim (Option-cases (get_elem? entries n)) [
  | inl f ↦ given (cc (rw f at e))
  | inr (x, f) ↦ All-get_elem? (IsOther name) entries n x h f (cc (rw f at e))
]

-- Where the active entry has a name and no entry of the new catalogue has that name: no stage is told
-- of it, the active index stays, and the settings that the engine would save then do not name the
-- entry that was active.
pub rebuild_hrtf_catalog-stale :
    (bundled user : List HrtfCatalogEntry) (e : AudioEngine) (old : HrtfCatalogEntry)
    → get_elem? e.runtime_hrtf_catalog e.active_hrtf_index ≡ some old
    → old.display_name ≢ []
    → All (IsOther old.display_name) (new_catalog bundled user)
    → let after = rebuild_hrtf_catalog bundled user e in
      (after.effects ≡ e.effects)
      × (after.active_hrtf_index ≡ e.active_hrtf_index)
      × ((settings_of (current_status after) after).active_hrtf_display_name ≢ old.display_name)
unfolding rebuild_hrtf_catalog old_entry relocate settings_of current_status
rebuild_hrtf_catalog-stale bundled user e old was given gone =
    rw (was, find_entry-none old.display_name (new_catalog bundled user) gone)
      (
        refl,
        refl,
        name_at-other old.display_name (new_catalog bundled user) e.active_hrtf_index gone given,
      )
