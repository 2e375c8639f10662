-- ===== src/Ring/Queue.antt =====
-- `RingBuffer` of common/include/ramkolfx/ring_buffer.hpp against a queue: the elements that wait.
use audio_bat.Base.{
  ℕ, zero, suc, ◌+◌, ◌-◌, ◌≤◌, ◌<◌, ◌≡◌, ◌≢◌, inl, inr, refl, ap, ◌∙◌, sym, List, [], ◌∷◌, ◌↔◌,
  ◌++◌, append-nil, append_assoc, arith, length, length-append, length-set, get_or, set, take, drop,
  min, get_or-set_self, length-replicate, take-nil, ◌==◌, ==_iff, Bool-cases, replicate, false,
}
use audio_bat.Ring.{RingBuffer, new, push_loop, push, pop_loop, pop, available_to_read}
use audio_bat.Ring.Indices.{
  next, distance, next_cases, distance_cases, distance-next, slots, length-slots, slots-set,
  slots-snoc,
}

pub record IsRing {ℓ} {A : Type ℓ} (r : RingBuffer A) : Type 0 where
  pub write_in : r.write_index < length r.buffer
  pub read_in : r.read_index < length r.buffer

abbrev pub capacity {ℓ} : {A : Type ℓ} → RingBuffer A → ℕ
capacity r = length r.buffer - 1

==-ne : (a b : ℕ) → (a == b) ≡ false → a ≢ b
==-ne a b e = ground arith

module _ {ℓ} {A : Type ℓ} (initial : A) where
  -- The elements that wait to be read, oldest first.
  abbrev pub contents : RingBuffer A → List A
  contents r =
      slots initial (length r.buffer) r.buffer r.read_index
        (distance (length r.buffer) r.read_index r.write_index)

  pub length-contents : (r : RingBuffer A) → length (contents r) ≡ available_to_read r
  unfolding available_to_read
  length-contents r = length-slots initial (length r.buffer) r.buffer r.read_index _

  -- A new buffer is empty, with room for `capacity` elements.
  pub new-IsRing :
      (n : ℕ)
      → IsRing (new initial n) × (contents (new initial n) ≡ []) × (capacity (new initial n) ≡ n)
  unfolding new
  new-IsRing n =
      let size : length (replicate (n + 1) initial) ≡ n + 1 = length-replicate (n + 1) initial in
      let empty : distance (length (replicate (n + 1) initial)) 0 0 ≡ 0 = omega (
        arith,
        size,
        distance_cases (length (replicate (n + 1) initial)) 0 0 (omega (arith, size))
            (omega (arith, size)),
      ) in
      (omega (arith, size), rw empty, omega (arith, size))

  -- One round of `Push` that finds room.
  abbrev pub stored : RingBuffer A → A → RingBuffer A
  stored r x = record r {
    buffer = set r.buffer r.write_index x;
    write_index = next (length r.buffer) r.write_index;
  }

  module _ (r : RingBuffer A) (v : IsRing r) where
    pub stored-IsRing : (x : A) → IsRing (stored r x)
    stored-IsRing x = omega (
      arith,
      length-set r.buffer r.write_index x,
      next_cases (length r.buffer) r.write_index v.write_in,
      v.read_in,
    )

    pub contents-stored :
        (x : A)
        → next (length r.buffer) r.write_index ≢ r.read_index
        → contents (stored r x) ≡ contents r ++ (x ∷ [])
    contents-stored x room =
        let s : ℕ = length r.buffer in
        let n : ℕ = distance s r.read_index r.write_index in
        let one_more : distance s r.read_index (next s r.write_index) ≡ suc n =
          distance-next s r.read_index r.write_index v.read_in v.write_in room in
        rw (
          length-set r.buffer r.write_index x,
          one_more,
          slots-snoc initial s (set r.buffer r.write_index x) n r.read_index r.write_index v.read_in
              v.write_in refl,
          slots-set initial s r.buffer x n r.read_index r.write_index v.read_in v.write_in refl,
          get_or-set_self r.buffer r.write_index x initial v.write_in,
        )

    -- The test for a full buffer.
    full_iff :
        (next (length r.buffer) r.write_index ≡ r.read_index) ↔ (length (contents r) ≡ capacity r)
    full_iff =
        let s : ℕ = length r.buffer in
        let size : length (contents r) ≡ distance s r.read_index r.write_index =
          length-slots initial s r.buffer r.read_index _ in
        (
          λ e. omega (
            arith,
            size,
            next_cases s r.write_index v.write_in,
            distance_cases s r.read_index r.write_index v.read_in v.write_in,
          ),
          λ e. omega (
            arith,
            size,
            next_cases s r.write_index v.write_in,
            distance_cases s r.read_index r.write_index v.read_in v.write_in,
          ),
        )

    -- The number of waiting elements never exceeds the capacity.
    pub contents_bounded : length (contents r) ≤ capacity r
    contents_bounded = omega (
      arith,
      length-slots initial (length r.buffer) r.buffer r.read_index
          (distance (length r.buffer) r.read_index r.write_index),
      distance_cases (length r.buffer) r.read_index r.write_index v.read_in v.write_in,
    )

    -- One round of `Pop` that finds an element.
    abbrev pub taken : RingBuffer A
    taken = record r { read_index = next (length r.buffer) r.read_index }

    pub taken-IsRing : IsRing taken
    taken-IsRing = omega (arith, next_cases (length r.buffer) r.read_index v.read_in, v.write_in)

    pub contents-taken :
        r.read_index ≢ r.write_index
        → contents r ≡ get_or r.buffer r.read_index initial ∷ contents taken
    contents-taken some_left =
        let s : ℕ = length r.buffer in
        let n : ℕ = distance s (next s r.read_index) r.write_index in
        let one_more : distance s r.read_index r.write_index ≡ suc n = omega (
          arith,
          next_cases s r.read_index v.read_in,
          distance_cases s r.read_index r.write_index v.read_in v.write_in,
          distance_cases s (next s r.read_index) r.write_index,
        ) in
        rw one_more

    contents_empty : r.read_index ≡ r.write_index → contents r ≡ []
    contents_empty e =
        let nothing : distance (length r.buffer) r.read_index r.write_index ≡ 0 = omega (
          arith,
          distance_cases (length r.buffer) r.read_index r.write_index v.read_in v.write_in,
        ) in
        rw nothing

  abbrev pub room : RingBuffer A → ℕ
  room r = capacity r - length (contents r)

  -- What `Push` has done when it stops, started with `written` elements written.
  pub record Pushed (r : RingBuffer A) (xs : List A) (written : ℕ) (out : RingBuffer A × ℕ)
      : Type ℓ where
    pub valid : IsRing out.0
    pub size : length out.0.buffer ≡ length r.buffer
    pub count : out.1 ≡ written + min (length xs) (room r)
    pub queue : contents out.0 ≡ contents r ++ take (room r) xs

  push_loop-Pushed :
      (xs : List A) (r : RingBuffer A) (written : ℕ)
      → IsRing r
      → Pushed r xs written (push_loop initial r xs written)
  unfolding push_loop
  push_loop-Pushed [] r written v = record {
    valid = v;
    size = refl;
    count = omega arith;
    queue = rw (take-nil, append-nil);
  }
  push_loop-Pushed (x ∷ xs) r written v =
      elim (Bool-cases (next (length r.buffer) r.write_index == r.read_index)) [
        | inl full ↦
            let none_left : room r ≡ 0 = omega (arith, (full_iff r v).0 ((==_iff _ _).0 full)) in
            rw full (record {
              valid = v;
              size = refl;
              count = omega (arith, none_left);
              queue = rw (none_left, append-nil);
            })
        | inr free ↦
            let distinct : next (length r.buffer) r.write_index ≢ r.read_index = ==-ne _ _ free in
            let grown : contents (stored r x) ≡ contents r ++ (x ∷ []) =
              contents-stored r v x distinct in
            let ih : Pushed (stored r x) xs (written + 1)
                (push_loop initial (stored r x) xs (written + 1)) =
              push_loop-Pushed xs (stored r x) (written + 1) (stored-IsRing r v x) in
            let one_less : room r ≡ suc (room (stored r x)) = omega (
              arith,
              ap length grown,
              length-append (contents r) (x ∷ []),
              length-set r.buffer r.write_index x,
              contents_bounded (stored r x) (stored-IsRing r v x),
            ) in
            rw free (record {
              valid = ih.valid;
              size = ih.size ∙ length-set r.buffer r.write_index x;
              count = omega (arith, ih.count, one_less);
              queue =
                  ih.queue
                  ∙ ap (λ t. t ++ take (room (stored r x)) xs) grown
                  ∙ append_assoc (contents r) (x ∷ []) (take (room (stored r x)) xs)
                  ∙ ap (λ n. contents r ++ take n (x ∷ xs)) (sym one_less);
            })
      ]

  -- What `Pop` has done when it stops, asked for `count` elements with `read` already read.
  pub record Popped (r : RingBuffer A) (count : ℕ) (read : List A) (out : RingBuffer A × List A)
      : Type ℓ where
    pub valid : IsRing out.0
    pub size : length out.0.buffer ≡ length r.buffer
    pub result : out.1 ≡ read ++ take count (contents r)
    pub queue : contents out.0 ≡ drop count (contents r)

  pop_loop-Popped :
      (count : ℕ) (r : RingBuffer A) (read : List A)
      → IsRing r
      → Popped r count read (pop_loop initial r count read)
  unfolding pop_loop
  pop_loop-Popped zero r read v = record {
    valid = v;
    size = refl;
    result = sym (append-nil read);
    queue = refl;
  }
  pop_loop-Popped (suc count) r read v = elim (Bool-cases (r.read_index == r.write_index)) [
    | inl empty ↦
        let nothing : contents r ≡ [] = contents_empty r v ((==_iff _ _).0 empty) in
        rw empty
          (record { valid = v; size = refl; result = rw (nothing, append-nil); queue = rw nothing })
    | inr some_left ↦
        let first : A = get_or r.buffer r.read_index initial in
        let split : contents r ≡ first ∷ contents (taken r v) =
          contents-taken r v (==-ne _ _ some_left) in
        let ih : Popped (taken r v) count (read ++ (first ∷ []))
            (pop_loop initial (taken r v) count (read ++ (first ∷ []))) =
          pop_loop-Popped count (taken r v) (read ++ (first ∷ [])) (taken-IsRing r v) in
        rw some_left (record {
          valid = ih.valid;
          size = ih.size;
          result = ih.result ∙ rw split (append_assoc read (first ∷ []) _);
          queue = ih.queue ∙ rw split;
        })
  ]

  -- `Push` writes as many elements as there is room for, in order and behind those that wait, and
  -- returns their number; `Pop` takes the elements that wait longest, in order, as many as it is
  -- asked for or as there are. Both keep the indices in range and the capacity as it is.
  pub push_pop_lem :
      (r : RingBuffer A) (xs : List A) (count : ℕ)
      → IsRing r
      → Pushed r xs 0 (push initial r xs) × Popped r count [] (pop initial r count)
  unfolding push pop
  push_pop_lem r xs count v = (push_loop-Pushed xs r 0 v, pop_loop-Popped count r [] v)
