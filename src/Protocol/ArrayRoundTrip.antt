-- ===== src/Protocol/ArrayRoundTrip.antt =====
-- The arrays of floats and of flags in a message of common/src/protocol.cpp.
use audio_bat.Base.{
  ℕ, zero, suc, ◌*◌, ◌≡◌, refl, ap, ◌∙◌, sym, Bool, List, [], ◌∷◌, ◌++◌, append_assoc, append-nil,
  arith, length, All, flag_byte,
}
use audio_bat.Protocol.Types.{IsFloat}
use audio_bat.Protocol.Bytes.{float_bytes}
use audio_bat.Protocol.Responses.{append_floats, append_flags}
use audio_bat.Protocol.Replies.{read_floats, read_flags}
use audio_bat.Protocol.FieldRoundTrip.{is_set-flag_byte, read_float_be-append}

abbrev pub floats_bytes : List ℕ → List ℕ
floats_bytes [] = []
floats_bytes (v ∷ vs) = float_bytes v ++ floats_bytes vs

pub append_floats_lem : (out vs : List ℕ) → append_floats out vs ≡ out ++ floats_bytes vs
unfolding append_floats
append_floats_lem out [] = sym (append-nil out)
append_floats_lem out (v ∷ vs) =
    append_floats_lem (out ++ float_bytes v) vs ∙ append_assoc out (float_bytes v) (floats_bytes vs)

pub length-floats_bytes : (vs : List ℕ) → length (floats_bytes vs) ≡ 4 * length vs
length-floats_bytes [] = omega arith
length-floats_bytes (v ∷ vs) = omega (arith, length-floats_bytes vs)

pub read_floats-append :
    (vs rest : List ℕ) (n : ℕ)
    → length vs ≡ n
    → All IsFloat vs
    → read_floats n (floats_bytes vs ++ rest) ≡ vs
unfolding read_floats
read_floats-append [] rest zero e h = refl
read_floats-append [] rest (suc n) e h = absurd (omega arith)
read_floats-append (v ∷ vs) rest zero e h = absurd (omega arith)
read_floats-append (v ∷ vs) rest (suc n) e h = rw (
  read_float_be-append v (floats_bytes vs ++ rest) h.0,
  read_floats-append vs rest n (omega arith) h.1,
)

abbrev pub flags_bytes : List Bool → List ℕ
flags_bytes [] = []
flags_bytes (b ∷ bs) = flag_byte b ∷ flags_bytes bs

pub append_flags_lem : (out : List ℕ) (bs : List Bool) → append_flags out bs ≡ out ++ flags_bytes bs
unfolding append_flags
append_flags_lem out [] = sym (append-nil out)
append_flags_lem out (b ∷ bs) =
    append_flags_lem (out ++ (flag_byte b ∷ [])) bs
    ∙ append_assoc out (flag_byte b ∷ []) (flags_bytes bs)

pub length-flags_bytes : (bs : List Bool) → length (flags_bytes bs) ≡ length bs
length-flags_bytes [] = refl
length-flags_bytes (b ∷ bs) = ap suc (length-flags_bytes bs)

pub read_flags-append :
    (bs : List Bool) (rest : List ℕ) (n : ℕ)
    → length bs ≡ n
    → read_flags n (flags_bytes bs ++ rest) ≡ bs
unfolding read_flags
read_flags-append [] rest zero e = refl
read_flags-append [] rest (suc n) e = absurd (omega arith)
read_flags-append (b ∷ bs) rest zero e = absurd (omega arith)
read_flags-append (b ∷ bs) rest (suc n) e =
    rw (is_set-flag_byte b, read_flags-append bs rest n (omega arith))
