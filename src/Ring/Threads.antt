-- ===== src/Ring/Threads.antt =====
-- `Push` and `Pop` of common/include/ramkolfx/ring_buffer.hpp on two threads. A step is the work
-- between two accesses to what the threads share: the producer's loads and test, its write to the
-- vector, and its store of `WriteIndex`; the consumer's likewise. Memory is sequentially consistent
-- here: a store with release that is read with acquire publishes what precedes it.
use audio_bat.Base.{
  ℕ, ◌+◌, ◌%◌, ◌≡◌, ◌≢◌, refl, ap, ◌∙◌, sym, subst, List, [], ◌∷◌, ◌++◌, append_assoc, arith,
  length, length-set, get_or, set, get_or-set_self, get_or-set_ne,
}
use audio_bat.Ring.{RingBuffer, new}
use audio_bat.Ring.Indices.{next, next_cases, slots-set, slots-snoc, distance-next}
use audio_bat.Ring.Queue.{IsRing, contents, contents-taken, taken, taken-IsRing, new-IsRing}

-- Where a thread stands in a round of its loop, with the element that it handles.
pub data Producer {ℓ} (A : Type ℓ) : Type ℓ where
  idle : Producer A
  checked : A → Producer A
  wrote : A → Producer A

pub data Consumer {ℓ} (A : Type ℓ) : Type ℓ where
  idle : Consumer A
  found : Consumer A
  holds : A → Consumer A

-- `pushed` and `popped` are all the elements that the calls have passed so far.
pub record Threads {ℓ} (A : Type ℓ) : Type ℓ where
  pub ring : RingBuffer A
  pub producer : Producer A
  pub consumer : Consumer A
  pub pushed : List A
  pub popped : List A

module _ {ℓ} {A : Type ℓ} (initial : A) where
  abbrev pub next_write : RingBuffer A → ℕ
  next_write r = (r.write_index + 1) % length r.buffer

  pub data Step : Threads A → Threads A → Type ℓ where
    check_room :
        (t : Threads A) (x : A)
        → t.producer ≡ Producer.idle
        → next_write t.ring ≢ t.ring.read_index
        → Step t (record t { producer = Producer.checked x })
    write_slot :
        (t : Threads A) (x : A)
        → t.producer ≡ Producer.checked x
        → Step t (record t {
          ring = record (t.ring) { buffer = set t.ring.buffer t.ring.write_index x };
          producer = Producer.wrote x;
        })
    publish :
        (t : Threads A) (x : A)
        → t.producer ≡ Producer.wrote x
        → Step t (record t {
          ring = record (t.ring) { write_index = next_write t.ring };
          producer = Producer.idle;
          pushed = t.pushed ++ (x ∷ []);
        })
    check_item :
        (t : Threads A)
        → t.consumer ≡ Consumer.idle
        → t.ring.read_index ≢ t.ring.write_index
        → Step t (record t { consumer = Consumer.found })
    read_slot :
        (t : Threads A)
        → t.consumer ≡ Consumer.found
        → Step t (record t {
          consumer = Consumer.holds (get_or t.ring.buffer t.ring.read_index initial);
        })
    release :
        (t : Threads A) (x : A)
        → t.consumer ≡ Consumer.holds x
        → Step t (record t {
          ring = record (t.ring) { read_index = (t.ring.read_index + 1) % length t.ring.buffer };
          consumer = Consumer.idle;
          popped = t.popped ++ (x ∷ []);
        })

  abbrev pub start : ℕ → Threads A
  start capacity = record {
    ring = new initial capacity;
    producer = Producer.idle;
    consumer = Consumer.idle;
    pushed = [];
    popped = [];
  }

  -- What a new buffer of some capacity can come to.
  pub data Reach (capacity : ℕ) : Threads A → Type ℓ where
    here : Reach capacity (start capacity)
    then : {t u : Threads A} → Reach capacity t → Step t u → Reach capacity u

  -- What a thread may rely on between its steps, whatever the other one does.
  abbrev ProducerKnows : RingBuffer A → Producer A → Type ℓ
  ProducerKnows r Producer.idle = Unit
  ProducerKnows r (Producer.checked x) = (next_write r ≢ r.read_index) × Unit {ℓ}
  ProducerKnows r (Producer.wrote x) =
      (next_write r ≢ r.read_index) × (get_or r.buffer r.write_index initial ≡ x)

  abbrev ConsumerKnows : RingBuffer A → Consumer A → Type ℓ
  ConsumerKnows r Consumer.idle = Unit
  ConsumerKnows r Consumer.found = (r.read_index ≢ r.write_index) × Unit {ℓ}
  ConsumerKnows r (Consumer.holds x) =
      (r.read_index ≢ r.write_index) × (get_or r.buffer r.read_index initial ≡ x)

  record IsSafe (t : Threads A) : Type ℓ where
    valid : IsRing t.ring
    fifo : t.pushed ≡ t.popped ++ contents initial t.ring
    producer_knows : ProducerKnows t.ring t.producer
    consumer_knows : ConsumerKnows t.ring t.consumer

  module _ (r : RingBuffer A) (v : IsRing r) where
    -- The producer writes to a place that the consumer does not read.
    consumer_after_write :
        (x : A) (c : Consumer A)
        → ConsumerKnows r c
        → ConsumerKnows (record r { buffer = set r.buffer r.write_index x }) c
    consumer_after_write x Consumer.idle k = tt
    consumer_after_write x Consumer.found k = k
    consumer_after_write x (Consumer.holds y) k =
        (k.0, get_or-set_ne r.buffer x initial (λ e. k.0 (sym e)) ∙ k.1)

    consumer_after_publish :
        (c : Consumer A)
        → next_write r ≢ r.read_index
        → ConsumerKnows r c
        → ConsumerKnows (record r { write_index = next_write r }) c
    consumer_after_publish Consumer.idle room k = tt
    consumer_after_publish Consumer.found room k = (λ e. room (sym e), tt)
    consumer_after_publish (Consumer.holds y) room k = (λ e. room (sym e), k.1)

    -- Room that the producer has found stays when the consumer takes an element.
    room_after_release :
        r.read_index ≢ r.write_index → next_write r ≢ next (length r.buffer) r.read_index
    room_after_release item e = item (
        omega (
          arith,
          next_cases (length r.buffer) r.write_index v.write_in,
          next_cases (length r.buffer) r.read_index v.read_in,
        ))

    producer_after_release :
        (p : Producer A)
        → r.read_index ≢ r.write_index
        → ProducerKnows r p
        → ProducerKnows (record r { read_index = next (length r.buffer) r.read_index }) p
    producer_after_release Producer.idle item k = tt
    producer_after_release (Producer.checked x) item k = (room_after_release item, tt)
    producer_after_release (Producer.wrote x) item k = (room_after_release item, k.1)

    contents-write :
        (x : A)
        → contents initial (record r { buffer = set r.buffer r.write_index x }) ≡ contents initial r
    contents-write x = rw (length-set r.buffer r.write_index x) (
        slots-set initial (length r.buffer) r.buffer x _ r.read_index r.write_index v.read_in
          v.write_in refl)

    IsRing-write : (x : A) → IsRing (record r { buffer = set r.buffer r.write_index x })
    IsRing-write x = omega (arith, length-set r.buffer r.write_index x, v.write_in, v.read_in)

    next_write-write :
        (x : A) → next_write (record r { buffer = set r.buffer r.write_index x }) ≡ next_write r
    next_write-write x = rw (length-set r.buffer r.write_index x)

    -- A slot that is written already is published with its element at the end of the queue.
    contents-publish :
        (x : A)
        → next_write r ≢ r.read_index
        → get_or r.buffer r.write_index initial ≡ x
        → contents initial (record r { write_index = next_write r })
          ≡ contents initial r ++ (x ∷ [])
    contents-publish x room e =
        let s : ℕ = length r.buffer in
        rw (
          distance-next s r.read_index r.write_index v.read_in v.write_in room,
          slots-snoc initial s r.buffer _ r.read_index r.write_index v.read_in v.write_in refl,
          e,
        )

    IsRing-publish : IsRing (record r { write_index = next_write r })
    IsRing-publish = omega (arith, next_cases (length r.buffer) r.write_index v.write_in, v.read_in)

  Step-IsSafe : {t u : Threads A} → Step t u → IsSafe t → IsSafe u
  Step-IsSafe (check_room t x e room) v = record {
    valid = v.valid;
    fifo = v.fifo;
    producer_knows = (room, tt);
    consumer_knows = v.consumer_knows;
  }
  Step-IsSafe (write_slot t x e) v =
      let knows : ProducerKnows t.ring (Producer.checked x) =
        subst (ProducerKnows t.ring) e v.producer_knows in
      record {
        valid = IsRing-write t.ring v.valid x;
        fifo = v.fifo ∙ ap (λ q. t.popped ++ q) (sym (contents-write t.ring v.valid x));
        producer_knows = (
          rw (next_write-write t.ring v.valid x) (knows.0),
          get_or-set_self t.ring.buffer t.ring.write_index x initial v.valid.write_in,
        );
        consumer_knows = consumer_after_write t.ring v.valid x t.consumer v.consumer_knows;
      }
  Step-IsSafe (publish t x e) v =
      let knows : ProducerKnows t.ring (Producer.wrote x) =
        subst (ProducerKnows t.ring) e v.producer_knows in
      record {
        valid = IsRing-publish t.ring v.valid;
        fifo =
            ap (λ q. q ++ (x ∷ [])) v.fifo
            ∙ append_assoc t.popped (contents initial t.ring) (x ∷ [])
            ∙ ap (λ q. t.popped ++ q) (sym (contents-publish t.ring v.valid x knows.0 knows.1));
        producer_knows = tt;
        consumer_knows = consumer_after_publish t.ring v.valid t.consumer knows.0 v.consumer_knows;
      }
  Step-IsSafe (check_item t e item) v = record {
    valid = v.valid;
    fifo = v.fifo;
    producer_knows = v.producer_knows;
    consumer_knows = (item, tt);
  }
  Step-IsSafe (read_slot t e) v =
      let knows : ConsumerKnows t.ring Consumer.found =
        subst (ConsumerKnows t.ring) e v.consumer_knows in
      record {
        valid = v.valid;
        fifo = v.fifo;
        producer_knows = v.producer_knows;
        consumer_knows = (knows.0, refl);
      }
  Step-IsSafe (release t x e) v =
      let knows : ConsumerKnows t.ring (Consumer.holds x) =
        subst (ConsumerKnows t.ring) e v.consumer_knows in
      record {
        valid = taken-IsRing initial t.ring v.valid;
        fifo =
            v.fifo
            ∙ ap (λ q. t.popped ++ q)
                (contents-taken initial t.ring v.valid knows.0
                  ∙ ap (λ y. y ∷ contents initial (taken initial t.ring v.valid)) knows.1)
            ∙ sym
                (append_assoc t.popped (x ∷ []) (contents initial (taken initial t.ring v.valid)));
        producer_knows = producer_after_release t.ring v.valid t.producer knows.0 v.producer_knows;
        consumer_knows = tt;
      }

  Reach-IsSafe : {capacity : ℕ} {t : Threads A} → Reach capacity t → IsSafe t
  Reach-IsSafe {capacity} here = record {
    valid = (new-IsRing initial capacity).0;
    fifo = sym (new-IsRing initial capacity).1;
    producer_knows = tt;
    consumer_knows = tt;
  }
  Reach-IsSafe (then r step) = Step-IsSafe step (Reach-IsSafe r)

  -- In every interleaving of a producer and a consumer on a new buffer: what was pushed is what was
  -- popped followed by what waits, in order, so nothing is lost, made up or reordered.
  pub Reach-fifo :
      {capacity : ℕ} {t : Threads A}
      → Reach capacity t
      → t.pushed ≡ t.popped ++ contents initial t.ring
  Reach-fifo r = (Reach-IsSafe r).fifo

  -- In every interleaving, where the producer is about to write an element and the consumer about to
  -- read one, they touch different places of the buffer.
  pub Reach-apart :
      {capacity : ℕ} {t : Threads A} {x : A}
      → Reach capacity t
      → t.producer ≡ Producer.checked x
      → t.consumer ≡ Consumer.found
      → t.ring.write_index ≢ t.ring.read_index
  Reach-apart {t = t} r p c e =
      let v : IsSafe t = Reach-IsSafe r in
      (subst (ConsumerKnows t.ring) c v.consumer_knows).0 (sym e)
