-- ===== src/Ring.antt =====
-- `RingBuffer<T>` of common/include/ramkolfx/ring_buffer.hpp, each call run by itself. `Ring/Threads`
-- has the same calls with the producer and the consumer interleaved.
pub mod Indices
pub mod Queue
pub mod Threads
use audio_bat.Base.{
  ℕ, zero, suc, ◌+◌, ◌-◌, ◌%◌, List, [], ◌∷◌, ◌++◌, ◌==◌, if◌then◌else◌, length, get_or, set,
  replicate,
}

pub record RingBuffer {ℓ} (A : Type ℓ) : Type ℓ where
  pub buffer : List A
  pub write_index : ℕ
  pub read_index : ℕ

-- `initial` is the value that `std::vector<T>(n)` gives its elements, and stands for what a read
-- outside the vector would find.
module _ {ℓ} {A : Type ℓ} (initial : A) where
  unfoldable pub new : ℕ → RingBuffer A
  new capacity = record {
    buffer = replicate (capacity + 1) initial;
    write_index = 0;
    read_index = 0;
  }

  -- The loop of `Push`, over the elements not yet written, and `Written`.
  unfoldable pub push_loop : RingBuffer A → List A → ℕ → RingBuffer A × ℕ
  push_loop r [] written = (r, written)
  push_loop r (x ∷ xs) written =
      let next_write_idx = (r.write_index + 1) % length r.buffer in
      let rest =
        push_loop (record r { buffer = set r.buffer r.write_index x; write_index = next_write_idx })
          xs (written + 1) in
      if next_write_idx == r.read_index then (r, written) else rest

  unfoldable pub push : RingBuffer A → List A → RingBuffer A × ℕ
  push r items = push_loop r items 0

  -- The loop of `Pop`, over the places left in `Data`, and the elements read.
  unfoldable pub pop_loop : RingBuffer A → ℕ → List A → RingBuffer A × List A
  pop_loop r zero read = (r, read)
  pop_loop r (suc count) read =
      let rest =
        pop_loop (record r { read_index = (r.read_index + 1) % length r.buffer }) count
          (read ++ (get_or r.buffer r.read_index initial ∷ [])) in
      if r.read_index == r.write_index then (r, read) else rest

  unfoldable pub pop : RingBuffer A → ℕ → RingBuffer A × List A
  pop r count = pop_loop r count []

unfoldable pub available_to_read {ℓ} : {A : Type ℓ} → RingBuffer A → ℕ
available_to_read r = (r.write_index + length r.buffer - r.read_index) % length r.buffer
