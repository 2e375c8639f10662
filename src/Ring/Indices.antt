-- ===== src/Ring/Indices.antt =====
-- The indices of a ring of `s` places, and the elements between two of them.
use audio_bat.Base.{
  ℕ, zero, suc, ◌+◌, ◌-◌, ◌%◌, ◌≤◌, ◌<◌, ◌≡◌, ◌≢◌, ◌⊎◌, refl, ap, List, [], ◌∷◌, ◌++◌, arith,
  length, get_or, set, get_or-set_ne,
}

-- Where an index goes next, and how many steps it is from one index to another.
abbrev pub next : ℕ → ℕ → ℕ
next s i = (i + 1) % s

abbrev pub distance : ℕ → ℕ → ℕ → ℕ
distance s h w = (w + s - h) % s

pub next_cases :
    (s i : ℕ) → i < s → ((i + 1 < s) × (next s i ≡ i + 1)) ⊎ ((i + 1 ≡ s) × (next s i ≡ 0))
next_cases s i h = grind arith

pub distance_cases :
    (s h w : ℕ)
    → h < s
    → w < s
    → ((h ≤ w) × (distance s h w ≡ w - h)) ⊎ ((w < h) × (distance s h w ≡ w + s - h))
distance_cases s h w hh hw = grind arith

-- With room behind `w`, one step more from `h`.
pub distance-next :
    (s h w : ℕ) → h < s → w < s → next s w ≢ h → distance s h (next s w) ≡ suc (distance s h w)
distance-next s h w hh hw room =
    omega (arith, next_cases s w hw, distance_cases s h w hh hw, distance_cases s h (next s w) hh)

module _ {ℓ} {A : Type ℓ} (initial : A) (s : ℕ) where
  -- The `n` elements from index `h` on, going round at `s`.
  abbrev pub slots : List A → ℕ → ℕ → List A
  slots buffer h zero = []
  slots buffer h (suc n) = get_or buffer h initial ∷ slots buffer (next s h) n

  pub length-slots : (buffer : List A) (h n : ℕ) → length (slots buffer h n) ≡ n
  length-slots buffer h zero = refl
  length-slots buffer h (suc n) = ap suc (length-slots buffer (next s h) n)

  -- A write to the index that lies just behind the elements leaves them as they are.
  pub slots-set :
      (buffer : List A) (x : A) (n h w : ℕ)
      → h < s
      → w < s
      → n ≡ distance s h w
      → slots (set buffer w x) h n ≡ slots buffer h n
  slots-set buffer x zero h w hh hw e = refl
  slots-set buffer x (suc n) h w hh hw e =
      let apart : w ≢ h = omega (arith, distance_cases s h w hh hw) in
      rw (
        get_or-set_ne buffer x initial apart,
        slots-set buffer x n (next s h) w (omega (arith, next_cases s h hh)) hw (
            omega (
              arith,
              next_cases s h hh,
              distance_cases s h w hh hw,
              distance_cases s (next s h) w,
            )),
      )

  -- One element more, from the index just behind.
  pub slots-snoc :
      (buffer : List A) (n h w : ℕ)
      → h < s
      → w < s
      → n ≡ distance s h w
      → slots buffer h (suc n) ≡ slots buffer h n ++ (get_or buffer w initial ∷ [])
  slots-snoc buffer zero h w hh hw e =
      let same : h ≡ w = omega (arith, distance_cases s h w hh hw) in rw same
  slots-snoc buffer (suc n) h w hh hw e = ap (◌∷◌ (get_or buffer h initial)) (
      slots-snoc buffer n (next s h) w (omega (arith, next_cases s h hh)) hw (
        omega
          (arith, next_cases s h hh, distance_cases s h w hh hw, distance_cases s (next s h) w)))
