-- ===== src/Protocol/ReadBounds.antt =====
-- `DecodeCommand` of common/src/protocol.cpp and its readers, against bytes behind the payload.
use audio_bat.Base.{
  ℕ, ◌+◌, ◌-◌, ◌≤◌, ◌<◌, ◌≡◌, refl, List, ◌++◌, some, arith, length, length-drop, drop, ltb,
  Bool-cases, Option-cases, inl, inr, ltb→le, get_or-append_lt, get_or-drop, drop-append_le,
  take-append_le, ==_iff, ◌==◌, drop-drop,
}
use audio_bat.Protocol.Types.{Opcode}
use audio_bat.Protocol.Bytes.{
  byte_at, read_float_be, read_eq_band, read_bass_enhancer_settings, read_u16_be, read_string,
}
use audio_bat.Protocol.Decode.{decode_command}

module _ (p more : List ℕ) where
  pub byte_at-append : (i : ℕ) → i < length p → byte_at (p ++ more) i ≡ byte_at p i
  byte_at-append i h = get_or-append_lt p more i 0 h

  read_float_be-append_le :
      (k : ℕ) → k + 4 ≤ length p → read_float_be (drop k (p ++ more)) ≡ read_float_be (drop k p)
  unfolding read_float_be
  read_float_be-append_le k h = simp (get_or-drop) (
      rw (
        byte_at-append (k + 0) (omega arith),
        byte_at-append (k + 1) (omega arith),
        byte_at-append (k + 2) (omega arith),
        byte_at-append (k + 3) (omega arith),
      ))

  read_eq_band-append_le :
      (k : ℕ) → k + 13 ≤ length p → read_eq_band (drop k (p ++ more)) ≡ read_eq_band (drop k p)
  unfolding read_eq_band
  read_eq_band-append_le k h =
      simp (get_or-drop, drop-drop)
        (rw (
          byte_at-append (k + 0) (omega arith),
          read_float_be-append_le (k + 1) (omega arith),
          read_float_be-append_le (k + 5) (omega arith),
          read_float_be-append_le (k + 9) (omega arith),
        ))

  read_bass_enhancer_settings-append_le :
      13 ≤ length p → read_bass_enhancer_settings (p ++ more) ≡ read_bass_enhancer_settings p
  unfolding read_bass_enhancer_settings
  read_bass_enhancer_settings-append_le h = rw (
    byte_at-append 0 (omega arith),
    read_float_be-append_le 1 (omega arith),
    read_float_be-append_le 5 (omega arith),
    read_float_be-append_le 9 (omega arith),
  )

  pub read_string-append_le :
      (n offset : ℕ) → n ≤ length p → read_string (p ++ more) n offset ≡ read_string p n offset
  unfolding read_string
  read_string-append_le n offset h = elim (Bool-cases (ltb n (offset + 2))) [
    | inl e ↦ rw e
    | inr e ↦
        let high : byte_at (p ++ more) offset ≡ byte_at p offset =
          byte_at-append offset (omega (arith, ltb→le n (offset + 2) e)) in
        let low : byte_at (p ++ more) (offset + 1) ≡ byte_at p (offset + 1) =
          byte_at-append (offset + 1) (omega (arith, ltb→le n (offset + 2) e)) in
        let len : ℕ = read_u16_be p offset in
        rw (e, high, low)
          (elim (Bool-cases (ltb n (offset + 2 + len))) [
            | inl f ↦ rw f
            | inr f ↦
                let fits : offset + 2 + len ≤ n = ltb→le n (offset + 2 + len) f in
                rw (
                  f,
                  drop-append_le (offset + 2) p more (omega arith),
                  take-append_le len (drop (offset + 2) p) more
                      (omega (arith, length-drop (offset + 2) p)),
                )
          ])
  ]

-- A text that is read ends inside the payload, so that the `Offset` behind it may be subtracted.
read_string_offset :
    (p : List ℕ) (n offset : ℕ) {text : List ℕ} {offset' : ℕ}
    → read_string p n offset ≡ some (text, offset')
    → offset' ≤ n
unfolding read_string
read_string_offset p n offset e = ground arith

-- `DecodeCommand` reads inside the payload only: for every opcode, and memory `p` that holds at least
-- the payload's `n` bytes, what lies behind `p` does not change the command that is decoded.
pub decode_command-append :
    (op : Opcode) (p more : List ℕ) (n : ℕ)
    → n ≤ length p
    → decode_command op (p ++ more) n ≡ decode_command op p n
unfolding decode_command
decode_command-append Opcode.set_spatial_mode p more n h = elim (Bool-cases (ltb n 1)) [
  | inl e ↦ rw e
  | inr e ↦ rw (byte_at-append p more 0 (omega (arith, ltb→le n 1 e)))
]
decode_command-append Opcode.set_speaker_azimuth p more n h = elim (Bool-cases (ltb n 5)) [
  | inl e ↦ rw e
  | inr e ↦ rw (
    byte_at-append p more 0 (omega (arith, ltb→le n 5 e)),
    read_float_be-append_le p more 1 (omega (arith, ltb→le n 5 e)),
  )
]
decode_command-append Opcode.set_output_device p more n h = rw (take-append_le n p more h)
decode_command-append Opcode.set_speaker_mute p more n h = elim (Bool-cases (ltb n 2)) [
  | inl e ↦ rw e
  | inr e ↦ rw (
    byte_at-append p more 0 (omega (arith, ltb→le n 2 e)),
    byte_at-append p more 1 (omega (arith, ltb→le n 2 e)),
  )
]
decode_command-append Opcode.set_test_noise p more n h = elim (Bool-cases (ltb n 1)) [
  | inl e ↦ rw e
  | inr e ↦ rw (byte_at-append p more 0 (omega (arith, ltb→le n 1 e)))
]
decode_command-append Opcode.set_hrtf_file p more n h = elim (Bool-cases (ltb n 1)) [
  | inl e ↦ rw e
  | inr e ↦ rw (byte_at-append p more 0 (omega (arith, ltb→le n 1 e)))
]
decode_command-append Opcode.set_speaker_distance p more n h = elim (Bool-cases (ltb n 5)) [
  | inl e ↦ rw e
  | inr e ↦ rw (
    byte_at-append p more 0 (omega (arith, ltb→le n 5 e)),
    read_float_be-append_le p more 1 (omega (arith, ltb→le n 5 e)),
  )
]
decode_command-append Opcode.set_near_field_enabled p more n h = elim (Bool-cases (ltb n 1)) [
  | inl e ↦ rw e
  | inr e ↦ rw (byte_at-append p more 0 (omega (arith, ltb→le n 1 e)))
]
decode_command-append Opcode.set_hw_eq_band p more n h = elim (Bool-cases (ltb n 14)) [
  | inl e ↦ rw e
  | inr e ↦ rw (
    byte_at-append p more 0 (omega (arith, ltb→le n 14 e)),
    byte_at-append p more 1 (omega (arith, ltb→le n 14 e)),
    read_eq_band-append_le p more 1 (omega (arith, ltb→le n 14 e)),
  )
]
decode_command-append Opcode.set_hw_eq_preset p more n h = elim (Bool-cases (ltb n 1)) [
  | inl e ↦ rw e
  | inr e ↦ rw (byte_at-append p more 0 (omega (arith, ltb→le n 1 e)))
]
decode_command-append Opcode.save_hw_eq_preset p more n h = rw (take-append_le n p more h)
decode_command-append Opcode.set_bass_enhancer p more n h = elim (Bool-cases (n == 13)) [
  | inl e ↦ rw (read_bass_enhancer_settings-append_le p more (omega (arith, (==_iff n 13).0 e)))
  | inr e ↦ rw e
]
decode_command-append Opcode.set_content_eq_band p more n h =
    rw (read_string-append_le p more n 0 h) (elim (Option-cases (read_string p n 0)) [
      | inl e ↦ rw e
      | inr ((app, offset), e) ↦ rw e (elim (Bool-cases (ltb n (offset + 14))) [
        | inl f ↦ rw f
        | inr f ↦ rw (
          byte_at-append p more offset (omega (arith, ltb→le n (offset + 14) f)),
          byte_at-append p more (offset + 1) (omega (arith, ltb→le n (offset + 14) f)),
          read_eq_band-append_le p more (offset + 1) (omega (arith, ltb→le n (offset + 14) f)),
        )
      ])
    ])
decode_command-append Opcode.set_content_eq_preset p more n h =
    rw (read_string-append_le p more n 0 h) (elim (Option-cases (read_string p n 0)) [
      | inl e ↦ rw e
      | inr ((app, offset), e) ↦ rw e (elim (Bool-cases (ltb n (offset + 1))) [
        | inl f ↦ rw f
        | inr f ↦ rw (byte_at-append p more offset (omega (arith, ltb→le n (offset + 1) f)))
      ])
    ])
decode_command-append Opcode.save_content_eq_preset p more n h =
    rw (read_string-append_le p more n 0 h) (elim (Option-cases (read_string p n 0)) [
      | inl e ↦ rw e
      | inr ((app, offset), e) ↦
          let inside : offset ≤ n = read_string_offset p n 0 e in
          rw (
            e,
            drop-append_le offset p more (omega arith),
            take-append_le (n - offset) (drop offset p) more (omega (arith, length-drop offset p)),
          )
    ])
decode_command-append _ p more n h = refl
