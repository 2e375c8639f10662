-- ===== src/Client/Receive.antt =====
-- `RecvExact` and `SendRawRequest` of gui/src/control_client.cpp over a stream socket.
use audio_bat.Base.{
  ℕ, zero, suc, ◌+◌, ◌-◌, ◌≤◌, ◌<◌, ◌≡◌, refl, sym, ap, ◌∙◌, List, [], ◌∷◌, ◌++◌, append-nil,
  append_assoc, length, length-append, take, drop, none, some, arith, ltb, lt→ltb, le→ltb, ltb→lt,
  ltb→le, if◌then◌else◌, drop-append_ge, Bool-cases, inl, inr, ◌⊎◌, subst,
}
use audio_bat.Client.{Socket, recv_loop, recv_exact}

-- What `recv` does on a connected stream: it stores no more than was asked for, in order, and where
-- bytes still arrive in time it stores one at least. `bytes` are all that still arrive in time.
pub record IsStream {ℓ} {S : Type ℓ} (k : Socket S) (bytes : S → List ℕ) : Type ℓ where
  pub bounded : (s : S) (n : ℕ) → length (k.recv s n).0 ≤ n
  pub ordered : (s : S) (n : ℕ) → (k.recv s n).0 ++ bytes (k.recv s n).1 ≡ bytes s
  pub eager : (s : S) (n : ℕ) → 0 < n → 0 < length (bytes s) → 0 < length (k.recv s n).0

-- Behind a first part of at most `n` elements.
take-append_ge {ℓ} :
    {A : Type ℓ} (n : ℕ) (xs ys : List A)
    → length xs ≤ n
    → take n (xs ++ ys) ≡ xs ++ take (n - length xs) ys
take-append_ge n [] ys h = let same : n - 0 ≡ n = omega arith in rw same refl
take-append_ge zero (x ∷ xs) ys h = absurd (omega arith)
take-append_ge (suc n) (x ∷ xs) ys h =
    let same : suc n - suc (length xs) ≡ n - length xs = omega arith in
    rw same (ap (◌∷◌ x) (take-append_ge n xs ys (omega arith)))

List-cases : (xs : List ℕ) → (xs ≡ []) ⊎ ((x : ℕ) × (rest : List ℕ) × (xs ≡ x ∷ rest))
List-cases [] = inl refl
List-cases (x ∷ xs) = inr (x, xs, refl)

module _ {ℓ} {S : Type ℓ} (k : Socket S) where
  recv_loop_done :
      (fuel count : ℕ) (out : List ℕ) (s : S)
      → count ≤ length out
      → recv_loop k fuel count out s ≡ (some out, s)
  unfolding recv_loop
  recv_loop_done zero count out s h = rw (le→ltb (length out) count h) refl
  recv_loop_done (suc fuel) count out s h = rw (le→ltb (length out) count h) refl

  recv_loop_closed :
      (fuel count : ℕ) (out : List ℕ) (s : S)
      → length out < count
      → (k.recv s (count - length out)).0 ≡ []
      → (recv_loop k fuel count out s).0 ≡ none
  unfolding recv_loop
  recv_loop_closed zero count out s h e = rw (lt→ltb (length out) count h) refl
  recv_loop_closed (suc fuel) count out s h e = rw (lt→ltb (length out) count h, e) refl

  -- One round that receives something.
  recv_loop_step :
      (fuel count : ℕ) (out : List ℕ) (s : S)
      → length out < count
      → 0 < length (k.recv s (count - length out)).0
      → recv_loop k (suc fuel) count out s
        ≡ recv_loop k fuel count
            (out ++ (k.recv s (count - length out)).0)
            (k.recv s (count - length out)).1
  unfolding recv_loop
  recv_loop_step fuel count out s h some_bytes =
      elim (List-cases (k.recv s (count - length out)).0) [
        | inl e ↦ absurd (omega (arith, ap length e))
        | inr (b, rest, e) ↦ rw (lt→ltb (length out) count h, e) refl
      ]

module _ {ℓ} {S : Type ℓ} (k : Socket S) (bytes : S → List ℕ) (law : IsStream k bytes) where
  -- What a call of `recv` leaves.
  length-recv :
      (s : S) (n : ℕ) → length (k.recv s n).0 + length (bytes (k.recv s n).1) ≡ length (bytes s)
  length-recv s n =
      sym (length-append (k.recv s n).0 (bytes (k.recv s n).1)) ∙ ap length (law.ordered s n)

  recv_done :
      (fuel count : ℕ) (out : List ℕ) (s : S)
      → length out ≤ count
      → count ≤ length out
      → ((recv_loop k fuel count out s).0 ≡ some (out ++ take (count - length out) (bytes s)))
        × (bytes (recv_loop k fuel count out s).1 ≡ drop (count - length out) (bytes s))
  recv_done fuel count out s inside done =
      let none_left : count - length out ≡ 0 = omega arith in
      rw (recv_loop_done k fuel count out s done, none_left) (ap some (sym (append-nil out)), refl)

  -- Where a chunk ends the bytes received, what is still to receive.
  recv_rest :
      (count : ℕ) (out : List ℕ) (s : S)
      → length out ≤ count
      → let n = count - length out in
        let chunk = (k.recv s n).0 in
        let left = bytes (k.recv s n).1 in
        ((out ++ chunk) ++ take (count - length (out ++ chunk)) left ≡ out ++ take n (bytes s))
        × (drop (count - length (out ++ chunk)) left ≡ drop n (bytes s))
  recv_rest count out s inside =
      let n = count - length out in
      let chunk = (k.recv s n).0 in
      let left = bytes (k.recv s n).1 in
      let to_go : count - length (out ++ chunk) ≡ n - length chunk =
        omega (arith, length-append out chunk, law.bounded s n) in
      (
        append_assoc out chunk (take (count - length (out ++ chunk)) left)
            ∙ ap (λ m. out ++ (chunk ++ take m left)) to_go
            ∙ ap (◌++◌ out) (sym (take-append_ge n chunk left (law.bounded s n)))
            ∙ ap (λ b. out ++ take n b) (law.ordered s n),
        ap (λ m. drop m left) to_go
            ∙ sym (drop-append_ge chunk left n (n - length chunk) (omega (arith, law.bounded s n)))
            ∙ ap (drop n) (law.ordered s n),
      )

  -- The loop, with `count - length out` bytes still to receive.
  recv_loop-bytes :
      (fuel count : ℕ) (out : List ℕ) (s : S)
      → length out ≤ count
      → count ≤ length out + fuel
      → count ≤ length out + length (bytes s)
      → ((recv_loop k fuel count out s).0 ≡ some (out ++ take (count - length out) (bytes s)))
        × (bytes (recv_loop k fuel count out s).1 ≡ drop (count - length out) (bytes s))
  recv_loop-bytes zero count out s inside enough there =
      recv_done zero count out s inside (omega arith)
  recv_loop-bytes (suc fuel) count out s inside enough there =
      elim (Bool-cases (ltb (length out) count)) [
        | inl less ↦
            let lt = ltb→lt (length out) count less in
            let n = count - length out in
            let chunk = (k.recv s n).0 in
            let some_bytes = law.eager s n (omega arith) (omega arith) in
            let cut = recv_rest count out s inside in
            let rest =
              recv_loop-bytes fuel count (out ++ chunk) (k.recv s n).1
                (omega (arith, length-append out chunk, law.bounded s n))
                (omega (arith, length-append out chunk, some_bytes))
                (omega (arith, length-append out chunk, length-recv s n)) in
            rw (recv_loop_step k fuel count out s lt some_bytes)
              (rest.0 ∙ ap some cut.0, rest.1 ∙ cut.1)
        | inr done ↦ recv_done (suc fuel) count out s inside (ltb→le (length out) count done)
      ]

  recv_loop-short :
      (fuel count : ℕ) (out : List ℕ) (s : S)
      → length out + length (bytes s) < count
      → (recv_loop k fuel count out s).0 ≡ none
  recv_loop-short zero count out s few =
      unfold recv_loop in rw (lt→ltb (length out) count (omega arith)) refl
  recv_loop-short (suc fuel) count out s few = elim (List-cases (k.recv s (count - length out)).0) [
    | inl e ↦ recv_loop_closed k (suc fuel) count out s (omega arith) e
    | inr (b, rest, e) ↦
        let n = count - length out in
        rw (recv_loop_step k fuel count out s (omega arith) (omega (arith, ap length e))) (
          recv_loop-short fuel count (out ++ (k.recv s n).0) (k.recv s n).1
            (omega (arith, length-append out (k.recv s n).0, length-recv s n)))
  ]

  pub recv_exact-bytes :
      (count : ℕ) (s : S)
      → count ≤ length (bytes s)
      → ((recv_exact k count s).0 ≡ some (take count (bytes s)))
        × (bytes (recv_exact k count s).1 ≡ drop count (bytes s))
  unfolding recv_exact
  recv_exact-bytes count s h =
      let same : count - 0 ≡ count = omega arith in
      subst
        (λ n.
          ((recv_loop k count count [] s).0 ≡ some (take n (bytes s)))
          × (bytes (recv_loop k count count [] s).1 ≡ drop n (bytes s)))
        same (recv_loop-bytes count count [] s (omega arith) (omega arith) (omega arith))

  -- Over a stream socket, however `recv` cuts the bytes up, `RecvExact` returns the next `count`
  -- bytes where so many arrive in time, and fails where fewer do.
  pub recv_exact_lem :
      (count : ℕ) (s : S)
      → (recv_exact k count s).0
        ≡ (if ltb (length (bytes s)) count then none else some (take count (bytes s)))
  recv_exact_lem count s = elim (Bool-cases (ltb (length (bytes s)) count)) [
    | inl few ↦ rw few (
        unfold recv_exact in
        recv_loop-short count count [] s (omega (arith, ltb→lt (length (bytes s)) count few)))
    | inr there ↦ rw there (recv_exact-bytes count s (ltb→le (length (bytes s)) count there)).0
  ]
