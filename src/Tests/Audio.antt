-- ===== src/Tests/Audio.antt =====
-- The ring buffer of common/include/ramkolfx/ring_buffer.hpp and the crossfading slot of
-- daemon/src/dsp/crossfading_slot.hpp.
use audio_bat.Base.{ℕ, ◌≡◌, ◌≢◌, ◌≤◌, ◌<◌, ◌-◌, refl, List, [], ◌∷◌, ◌++◌, arith}
use audio_bat.Ring.{RingBuffer, new, push, pop}
use audio_bat.Ring.Queue.{Pushed, Popped, contents, push_pop_lem, new-IsRing}
use audio_bat.Ring.Threads.{
  Threads, Producer, Consumer, Reach, here, then, start, check_room, write_slot, publish,
  check_item, Reach-fifo, Reach-apart,
}
use audio_bat.Slot
use audio_bat.Slot.{
  CrossfadingSlot, new_slot, collect_garbage, process, start_fade, take_pending, render, end_block,
  mix_frames, discard, singles, overwritten,
}
use audio_bat.Slot.Drops.{Event, published, processed, run, new_slot-IsSound, run-frees_nothing}
use audio_bat.Slot.Fade.{Fading, play, publish-plays}

abbrev two_places : RingBuffer ℕ
two_places = new 0 2

abbrev samples : List ℕ
samples = 7 ∷ 8 ∷ 9 ∷ []

-- Three elements for two places.
push-pop_example :
    Pushed 0 two_places samples 0 (push 0 two_places samples)
    × Popped 0 two_places 3 [] (pop 0 two_places 3)
push-pop_example = push_pop_lem 0 two_places samples 3 (new-IsRing 0 2).0

-- The producer has pushed 7 and found room for 8; the consumer has found 7.
abbrev started : Threads ℕ
started = start 0 2

abbrev found_room : Threads ℕ
found_room = record started { producer = Producer.checked 7 }

abbrev written : Threads ℕ
written = record found_room {
  ring = record (found_room.ring) { buffer = 7 ∷ 0 ∷ 0 ∷ [] };
  producer = Producer.wrote 7;
}

abbrev pushed_one : Threads ℕ
pushed_one = record written {
  ring = record (written.ring) { write_index = 1 };
  producer = Producer.idle;
  pushed = 7 ∷ [];
}

abbrev found_more_room : Threads ℕ
found_more_room = record pushed_one { producer = Producer.checked 8 }

abbrev both_ready : Threads ℕ
both_ready = record found_more_room { consumer = Consumer.found }

started-Reach : Reach 0 2 started
started-Reach = here

found_room-Reach : Reach 0 2 found_room
unfolding new
found_room-Reach = then started-Reach (check_room started 7 refl (omega arith))

written-Reach : Reach 0 2 written
unfolding new
written-Reach = then found_room-Reach (write_slot found_room 7 refl)

pushed_one-Reach : Reach 0 2 pushed_one
unfolding new
pushed_one-Reach = then written-Reach (publish written 7 refl)

found_more_room-Reach : Reach 0 2 found_more_room
unfolding new
found_more_room-Reach = then pushed_one-Reach (check_room pushed_one 8 refl (omega arith))

both_ready-Reach : Reach 0 2 both_ready
unfolding new
both_ready-Reach = then found_more_room-Reach (check_item found_more_room refl (omega arith))

Reach-fifo_example : pushed_one.pushed ≡ pushed_one.popped ++ contents 0 pushed_one.ring
Reach-fifo_example = Reach-fifo 0 pushed_one-Reach

Reach-apart_example : both_ready.ring.write_index ≢ both_ready.ring.read_index
Reach-apart_example = Reach-apart 0 both_ready-Reach refl refl

-- Two fades of four frames.
abbrev slot : CrossfadingSlot
slot = new_slot 1 4

abbrev events : List Event
events = published 2 ∷ processed 8 ∷ published 3 ∷ processed 8 ∷ []

slot_place : slot.trash_slot < 2
unfolding new_slot
slot_place = omega arith

slot_idle : slot.fade_frames_remaining ≡ 0
unfolding new_slot
slot_idle = refl

two_fades : (run events (collect_garbage slot)).0 ≤ 2
unfolding new_slot collect_garbage Slot.publish process start_fade take_pending render end_block
    mix_frames discard singles overwritten
two_fades = omega arith

run-frees_nothing_example : (run events (collect_garbage slot)).1 ≡ []
run-frees_nothing_example =
    run-frees_nothing events slot slot_place (new_slot-IsSound 1 4 (omega arith)) two_fades

publish-plays_example :
    Fading 2 (slot.crossfade_frames - 6) (play (3 ∷ 3 ∷ []) (Slot.publish 2 slot))
publish-plays_example = publish-plays slot 2 3 (3 ∷ []) slot_idle (omega arith, (omega arith, tt))
