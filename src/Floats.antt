-- ===== src/Floats.antt =====
-- `float` as the 32-bit pattern of IEEE 754 binary32: the order that `<` gives, and `std::clamp`.
use audio_bat.Base.{ℕ, ◌%◌, Bool, true, false, not, ◌&&◌, ◌||◌, ltb, leb, ◌==◌, if◌then◌else◌}

-- The sign bit, and the 31 bits behind it, which order the numbers of one sign.
abbrev pub is_negative : ℕ → Bool
is_negative v = leb 0x8000_0000 v

abbrev pub magnitude : ℕ → ℕ
magnitude v = v % 0x8000_0000

abbrev pub is_nan : ℕ → Bool
is_nan v = ltb 0x7f80_0000 (magnitude v)

-- `a < b` on numbers: false where either is not one, and zero is not less than minus zero.
less_signed : Bool → Bool → ℕ → ℕ → Bool
less_signed false false a b = ltb (magnitude a) (magnitude b)
less_signed true true a b = ltb (magnitude b) (magnitude a)
less_signed false true a b = false
less_signed true false a b = not (magnitude a == 0 && magnitude b == 0)

unfoldable pub less : ℕ → ℕ → Bool
unfolding less_signed
less a b = if is_nan a || is_nan b then false else less_signed (is_negative a) (is_negative b) a b

-- `std::clamp(v, low, high)`.
unfoldable pub clamp : ℕ → ℕ → ℕ → ℕ
clamp v low high = if less v low then low else if less high v then high else v
