-- ===== src/Ring/Queue.antt =====
-- The ring as a bounded queue.
use apiscope.Prelude.{
  ==_refl, Bool, List, Option, [], ap, arith, dec_lt, false, length, length-append,
  length-replicate, ltb, none, refl, some, subst, sym, true, ℕ, ◌%◌, ◌&&◌, ◌++◌, ◌+◌, ◌<◌, ◌==◌,
  ◌^◌, ◌∙◌, ◌∷◌, ◌≡◌, ◌≤◌,
}
use apiscope.Protocol.{Event, payload_bytes, trace_max_event_bytes}
use apiscope.Ring.{
  Ring, dropped, emit_trace_event, emitted, enqueue, filled_slot, initial_ring, is_emittable,
  is_known_header, known_header, numbered, released, ring_capacity, slot_at, store_slot,
  try_read_ring, with_event, without_event,
}
use apiscope.Ring.Slots.{
  AreStored, AreStored-snoc, AreStored-store_slot, HoldsEvent, copy_event-HoldsEvent,
  length-copy_event, store_slot-sized, store_slot_above, store_slot_same,
}

-- The ring holds the events of a queue, and the other slots are free.
pub record IsQueue (ring : Ring) (queue : List Event) : Type 0 where
  pub header_known : ring.ring_header ≡ known_header
  pub room : length queue ≤ ring_capacity
  pub position : ring.enqueue_position ≡ ring.dequeue_position + length queue
  pub stored : AreStored ring.slots ring.dequeue_position queue
  pub free :
      (p : ℕ)
      → ring.enqueue_position ≤ p
      → p < ring.dequeue_position + ring_capacity
      → (slot_at ring p).slot_sequence ≡ p
  pub sized : (i : ℕ) → length (ring.slots i).slot_event.payload ≡ payload_bytes

pub emittable_size : (e : Event) → is_emittable e ≡ true → e.header.size ≤ trace_max_event_bytes
emittable_size e h = ground arith

-- A filled slot at the end of a queue that has room makes the queue longer.
pub filled-IsQueue :
    (wake_event : Option Bool) (ring : Ring) (queue : List Event) (e : Event)
    → IsQueue ring queue
    → length queue < ring_capacity
    → e.header.size ≤ trace_max_event_bytes
    → length e.payload ≡ payload_bytes
    → IsQueue (with_event wake_event ring e) (queue ++ numbered ring e ∷ [])
filled-IsQueue wake_event ring queue e is_queue fits small full =
    let n = numbered ring e in
    let index = ring.enqueue_position % ring_capacity in
    let new = filled_slot ring n in
    let old = (slot_at ring ring.enqueue_position).slot_event in
    let same = store_slot_same ring.slots index new in
    record {
      header_known = is_queue.header_known;
      room = omega (arith, length-append queue (n ∷ []));
      position = omega (arith, length-append queue (n ∷ []), is_queue.position);
      stored =
          AreStored-snoc (store_slot ring.slots index new) ring.dequeue_position
            ring.enqueue_position queue n is_queue.position
            (AreStored-store_slot ring.slots ring.dequeue_position ring.enqueue_position new queue
              (omega (arith, is_queue.position)) (omega (arith, is_queue.position)) is_queue.stored)
            (ap (λ s. s.slot_sequence) same)
            (rw (same) (copy_event-HoldsEvent old n small (is_queue.sized index) full));
      free = λ p above below.
          rw
            (store_slot_above ring.slots p ring.enqueue_position new (omega arith)
              (omega (arith, is_queue.position)))
            (is_queue.free p (omega arith) below);
      sized =
          store_slot-sized ring.slots index new is_queue.sized
            (length-copy_event old n n.header.size small (is_queue.sized index) full);
    }

enters :
    (ring : Ring) (e : Event)
    → ring.ring_header ≡ known_header
    → is_emittable e ≡ true
    → (is_known_header ring.ring_header && is_emittable e) ≡ true
enters ring e known fine = rw (known, fine) refl

same_index : (p q : ℕ) → p ≡ q + ring_capacity → p % ring_capacity ≡ q % ring_capacity
same_index p q h = omega arith

-- The sequence at the end of a full queue is that of its first event.
full_sequence :
    (ring : Ring) (queue : List Event)
    → IsQueue ring queue
    → length queue ≡ ring_capacity
    → ltb (slot_at ring ring.enqueue_position).slot_sequence ring.enqueue_position ≡ true
full_sequence ring [] is_queue h = absurd (omega arith)
full_sequence ring (e ∷ later) is_queue h =
    let index =
      same_index ring.enqueue_position ring.dequeue_position (omega (arith, is_queue.position)) in
    behind _ ring.dequeue_position ring.enqueue_position
      (ap (λ i. (ring.slots i).slot_sequence) index ∙ is_queue.stored.0)
      (omega (arith, is_queue.position))
  where
    behind :
        (sequence first last : ℕ)
        → sequence ≡ first + 1
        → last ≡ first + ring_capacity
        → ltb sequence last ≡ true
    behind sequence first last h k = ground arith

free_sequence :
    (ring : Ring) (queue : List Event)
    → IsQueue ring queue
    → length queue < ring_capacity
    → (slot_at ring ring.enqueue_position).slot_sequence ≡ ring.enqueue_position
free_sequence ring queue is_queue h =
    is_queue.free ring.enqueue_position (omega arith) (omega (arith, is_queue.position))

ltb_irrefl : (n : ℕ) → ltb n n ≡ false
ltb_irrefl n = ground arith

-- EmitTraceEvent of an event that passes its tests, to a ring that holds a queue: it numbers the event and
-- puts it at the queue's end where there is room, and otherwise counts it as dropped, in 32 bits that
-- wrap around, and keeps the queue. It never goes round its loop again.
pub emit_trace_event-IsQueue :
    (wake_event : Option Bool) (ring : Ring) (queue : List Event) (e : Event)
    → IsQueue ring queue
    → is_emittable e ≡ true
    → length e.payload ≡ payload_bytes
    → (length queue < ring_capacity
        → (next : Ring) × (emit_trace_event wake_event (some ring) e ≡ emitted next)
          × IsQueue next (queue ++ numbered ring e ∷ []))
      × (length queue ≡ ring_capacity
          → (next : Ring) × (emit_trace_event wake_event (some ring) e ≡ dropped next)
            × IsQueue next queue
            × (next.dropped_events ≡ (ring.dropped_events + 1) % 2 ^ 32))
unfolding emit_trace_event enqueue
emit_trace_event-IsQueue wake_event ring queue e is_queue fine full = (
  λ room. (
    with_event wake_event ring e,
    rw
        (
          enters ring e is_queue.header_known fine,
          free_sequence ring queue is_queue room,
          ltb_irrefl ring.enqueue_position,
          ==_refl ring.enqueue_position,
        )
        refl,
    filled-IsQueue wake_event ring queue e is_queue room (emittable_size e fine) full,
  ),
  λ no_room. (
    without_event ring,
    rw (enters ring e is_queue.header_known fine, full_sequence ring queue is_queue no_room) refl,
    record {
      header_known = is_queue.header_known;
      room = is_queue.room;
      position = is_queue.position;
      stored = is_queue.stored;
      free = is_queue.free;
      sized = is_queue.sized;
    },
    refl,
  ),
)

-- What TryReadRing owes to a queue: nothing from an empty one, else its first event, its header and
-- its bytes up to its size, and the rest of the queue.
abbrev pub IsServed : Ring → List Event → Type 0
IsServed ring [] = try_read_ring ring ≡ none
IsServed ring (e ∷ later) =
    (stored : Event) × (next : Ring) × (try_read_ring ring ≡ some (stored, next))
    × HoldsEvent stored e
    × (length stored.payload ≡ payload_bytes)
    × IsQueue next later

-- A slot given back, and the rest of the queue.
released-IsQueue :
    (ring : Ring) (e : Event) (later : List Event)
    → IsQueue ring (e ∷ later)
    → IsQueue (released ring) later
released-IsQueue ring e later is_queue =
    let d = ring.dequeue_position in
    let new = record (slot_at ring d) { slot_sequence = d + ring_capacity } in
    record {
      header_known = is_queue.header_known;
      room = omega (arith, is_queue.room);
      position = omega (arith, is_queue.position);
      stored =
          subst (λ i. AreStored (store_slot ring.slots i new) (d + 1) later)
            (same_index (d + ring_capacity) d refl)
            (AreStored-store_slot ring.slots (d + 1) (d + ring_capacity) new later
              (omega (arith, is_queue.room)) (omega arith) is_queue.stored.2);
      free = λ p above below. elim (dec_lt p (d + ring_capacity)) [
        | yes near ↦
            rw (store_slot_above ring.slots p d new (omega (arith, is_queue.position)) near)
              (is_queue.free p above near)
        | no far ↦
            let at_end : p ≡ d + ring_capacity = omega arith in
            rw (same_index p d at_end, store_slot_same ring.slots (d % ring_capacity) new)
              (sym at_end)
      ];
      sized =
          store_slot-sized ring.slots (d % ring_capacity) new is_queue.sized
            (is_queue.sized (d % ring_capacity));
    }

-- TryReadRing of a ring that holds a queue: it finds nothing in an empty queue, and otherwise takes the
-- queue's first event, its header and its bytes up to its size.
pub try_read_ring-IsQueue :
    (ring : Ring) (queue : List Event) → IsQueue ring queue → IsServed ring queue
unfolding try_read_ring
try_read_ring-IsQueue ring [] is_queue =
    rw
      (
        is_queue.free ring.dequeue_position (omega (arith, is_queue.position)) (omega arith),
        not_next ring.dequeue_position,
      )
      refl
  where
    not_next : (n : ℕ) → (n == n + 1) ≡ false
    not_next n = ground arith
try_read_ring-IsQueue ring (e ∷ later) is_queue = (
  _,
  _,
  rw (is_queue.stored.0, ==_refl (ring.dequeue_position + 1)) refl,
  is_queue.stored.1,
  is_queue.sized (ring.dequeue_position % ring_capacity),
  released-IsQueue ring e later is_queue,
)

-- The ring that the tracer makes holds the empty queue.
pub initial_ring-IsQueue : IsQueue initial_ring []
initial_ring-IsQueue = record {
  header_known = refl;
  room = omega arith;
  position = refl;
  stored = tt;
  free = λ p above below. omega arith;
  sized = λ i. length-replicate {A = ℕ} payload_bytes 0;
}
