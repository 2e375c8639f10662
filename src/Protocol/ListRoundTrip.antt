-- ===== src/Protocol/ListRoundTrip.antt =====
-- The list responses of common/src/protocol.cpp (devices, HRTF catalogue, content streams, presets),
-- for any kind of entry: what the decoder reads back from what the encoder wrote.
use audio_bat.Base.{
  ℕ, ◌+◌, ◌*◌, ◌/◌, ◌%◌, ◌≤◌, ◌<◌, ◌≡◌, refl, ap, ◌∙◌, sym, List, [], ◌∷◌, ◌++◌, append-nil,
  append_assoc, Option, some, arith, length, length-append, ltb, if◌then◌else◌, Bool-cases, inl,
  inr, ltb→lt, ltb→le, le→ltb,
}
use audio_bat.Protocol.Types.{max_payload_size}
use audio_bat.Protocol.Responses.{append_entries, list_payload, map_entries}
use audio_bat.Protocol.Replies.{read_entries, decode_list}

pair_path {ℓ κ} :
    {A : Type ℓ} {B : Type κ} {a a' : A} {b b' : B}
    → a ≡ a'
    → b ≡ b'
    → ◌≡◌ {A = A × B} (a, b) (a', b')
pair_path p q = λ i. (p i, q i)

module _ {ℓ} {A : Type ℓ} (entry : A → List ℕ) where
  abbrev pub entries_bytes : List A → List ℕ
  entries_bytes [] = []
  entries_bytes (x ∷ xs) = entry x ++ entries_bytes xs

  -- The entries that still fit when `used` bytes are taken.
  pub shown : ℕ → List A → List A
  shown used [] = []
  shown used (x ∷ xs) =
      let rest = shown (used + length (entry x)) xs in
      if ltb max_payload_size (used + length (entry x)) then [] else x ∷ rest

  pub shown_fits :
      (xs : List A) (used : ℕ)
      → used ≤ max_payload_size
      → used + length (entries_bytes (shown used xs)) ≤ max_payload_size
  unfolding shown
  shown_fits [] used h = omega arith
  shown_fits (x ∷ xs) used h = elim (Bool-cases (ltb max_payload_size (used + length (entry x)))) [
    | inl e ↦ rw e (omega arith)
    | inr e ↦ rw e (
        omega (
          arith,
          shown_fits xs (used + length (entry x)) (ltb→le _ _ e),
          length-append (entry x) (entries_bytes (shown (used + length (entry x)) xs)),
        ))
  ]

  -- The shown entries are a longest prefix: what is left is nothing, or starts with an entry that
  -- would exceed the payload.
  abbrev pub Leaves : ℕ → List A → List A → Type ℓ
  Leaves used xs ys =
      (dropped : List A) × (xs ≡ ys ++ dropped)
      × ((x : A) (rest : List A)
          → dropped ≡ x ∷ rest
          → max_payload_size < used + length (entries_bytes ys) + length (entry x))

  pub shown-Leaves : (xs : List A) (used : ℕ) → Leaves used xs (shown used xs)
  unfolding shown
  shown-Leaves [] used = ([], refl, λ x rest e. cc)
  shown-Leaves (x ∷ xs) used = elim (Bool-cases (ltb max_payload_size (used + length (entry x)))) [
    | inl e ↦ rw e (x ∷ xs, refl, λ y rest d. ground (arith, ltb→lt _ _ e))
    | inr e ↦
        let (dropped, split, next) = shown-Leaves xs (used + length (entry x)) in
        rw e (
          dropped,
          ap (◌∷◌ x) split,
          λ y rest d. omega (
            arith,
            next y rest d,
            length-append (entry x) (entries_bytes (shown (used + length (entry x)) xs)),
          ),
        )
  ]

  module _ (long : (a : A) → 2 ≤ length (entry a)) where
    append_entries-shown :
        (xs : List A) (payload : List ℕ) (count : ℕ)
        → 2 * count + 2 ≤ length payload
        → length payload ≤ max_payload_size
        → append_entries payload count (map_entries entry xs) ≡ (
          payload ++ entries_bytes (shown (length payload) xs),
          count + length (shown (length payload) xs),
        )
    unfolding append_entries shown
    append_entries-shown [] payload count h k = pair_path (sym (append-nil payload)) (omega arith)
    append_entries-shown (x ∷ xs) payload count h k =
        elim (Bool-cases (ltb max_payload_size (length payload + length (entry x)))) [
          | inl e ↦ rw e (pair_path (sym (append-nil payload)) (omega arith))
          | inr e ↦
              let fits : length payload + length (entry x) ≤ max_payload_size = ltb→le _ _ e in
              let grown : length (payload ++ entry x) ≡ length payload + length (entry x) =
                length-append payload (entry x) in
              let small : (count + 1) % 65536 ≡ count + 1 = omega arith in
              let rest : List A = shown (length payload + length (entry x)) xs in
              rw (e, small)
                (append_entries-shown xs (payload ++ entry x) (count + 1)
                    (omega (arith, grown, long x)) (omega (arith, grown))
                  ∙ rw grown (
                      pair_path (append_assoc payload (entry x) (entries_bytes rest))
                        (omega arith)))
        ]

    length-entries : (xs : List A) → 2 * length xs ≤ length (entries_bytes xs)
    length-entries [] = omega arith
    length-entries (x ∷ xs) =
        omega (arith, long x, length-entries xs, length-append (entry x) (entries_bytes xs))

    pub length-shown : (xs : List A) → 2 * length (shown 2 xs) + 2 ≤ max_payload_size
    length-shown xs = omega (arith, length-entries (shown 2 xs), shown_fits xs 2 (omega arith))

    -- The payload: the number of the entries that fit, and those entries.
    pub list_payload-shown :
        (xs : List A)
        → list_payload (map_entries entry xs)
          ≡ length (shown 2 xs) / 256 % 256 ∷ length (shown 2 xs) % 256 ∷ entries_bytes (shown 2 xs)
    unfolding list_payload
    list_payload-shown xs =
        let ys : List A = shown 2 xs in
        rw (append_entries-shown xs (0 ∷ 0 ∷ []) 0 (omega arith) (omega arith))
          (ap (λ k. k / 256 % 256 ∷ k % 256 ∷ entries_bytes ys) (omega arith))

    -- A reader that takes one entry off, wherever it stands in a payload.
    module _ (read_entry : List ℕ → ℕ → ℕ → Option (A × ℕ))
        (reads : (a : A) (before rest : List ℕ) (n offset : ℕ)
          → length before ≡ offset
          → offset + length (entry a) ≤ n
          → length (entry a) ≤ 4094
          → read_entry (before ++ (entry a ++ rest)) n offset
            ≡ some (a, offset + length (entry a))) where
      -- Over any memory that holds the entries at `offset`.
      read_entries-append :
          (xs : List A) (memory before rest : List ℕ) (n offset : ℕ)
          → memory ≡ before ++ (entries_bytes xs ++ rest)
          → length before ≡ offset
          → offset + length (entries_bytes xs) ≤ n
          → length (entries_bytes xs) ≤ 4094
          → read_entries (read_entry memory n) (length xs) offset ≡ some xs
      unfolding read_entries
      read_entries-append [] memory before rest n offset m e h k = refl
      read_entries-append (x ∷ xs) memory before rest n offset m e h k =
          let size : length (entry x ++ entries_bytes xs)
              ≡ length (entry x) + length (entries_bytes xs) =
            length-append (entry x) (entries_bytes xs) in
          let here : memory ≡ before ++ (entry x ++ (entries_bytes xs ++ rest)) =
            m ∙ ap (λ t. before ++ t) (append_assoc (entry x) (entries_bytes xs) rest) in
          let first : read_entry memory n offset ≡ some (x, offset + length (entry x)) = rw here (
            reads x before (entries_bytes xs ++ rest) n offset e (omega (arith, size))
              (omega (arith, size))) in
          rw (
            first,
            read_entries-append xs memory (before ++ entry x) rest n (offset + length (entry x))
                (here ∙ sym (append_assoc before (entry x) (entries_bytes xs ++ rest)))
                (omega (arith, length-append before (entry x))) (omega (arith, size))
                (omega (arith, size)),
          )

      -- The decoder reads back the entries that fit, in order, from a payload that keeps its bound.
      pub decode_list-list_payload :
          (xs : List A) (rest : List ℕ) (n : ℕ)
          → length (list_payload (map_entries entry xs)) ≡ n
          → decode_list read_entry (list_payload (map_entries entry xs) ++ rest) n
            ≡ some (shown 2 xs)
      unfolding decode_list
      decode_list-list_payload xs rest n e =
          let ys : List A = shown 2 xs in
          let size : length (list_payload (map_entries entry xs)) ≡ 2 + length (entries_bytes ys) =
            rw (list_payload-shown xs) (omega arith) in
          let count : (length ys / 256 % 256 * 256 + length ys % 256) % 65536 ≡ length ys =
            omega (arith, length-shown xs) in
          rw (
            list_payload-shown xs,
            le→ltb n 2 (omega arith),
            count,
            read_entries-append ys _ (length ys / 256 % 256 ∷ length ys % 256 ∷ []) rest n 2 refl
                refl (omega arith) (omega (arith, shown_fits xs 2 (omega arith))),
          )
