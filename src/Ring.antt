-- ===== src/Ring.antt =====
-- src/include/trace_ring.h, EmitTraceEvent of src/apiscope-hooks/trace_transport.cpp and TryReadRing of
-- src/apiscope/trace_session.cpp: the ring of events that the traced process shares with the tracer.
-- Every function runs without another between its steps.
pub mod Slots
pub mod Queue
pub mod Delivery
pub mod Threads
use apiscope.Prelude.{
  Bool, Option, if◌then◌else◌, leb, ltb, none, replicate, some, ℕ, ◌%◌, ◌&&◌, ◌+◌, ◌-◌, ◌==◌, ◌^◌,
}
use apiscope.Memory.{custom_mem_cpy}
use apiscope.Protocol.{
  Event, event_header_bytes, payload_bytes, trace_event_magic, trace_event_version,
  trace_max_event_bytes,
}
use apiscope.Transport.{trace_name_bytes, zero_header}

abbrev pub ring_magic : ℕ
ring_magic = 0x474E4952

abbrev pub ring_version : ℕ
ring_version = 1

abbrev pub ring_capacity : ℕ
ring_capacity = 16384

-- `TraceRingSlot`
pub record Slot : Type 0 where
  pub slot_sequence : ℕ
  pub slot_event : Event

-- `TraceRing`: the slots are a function of the index. Positions are the values of the source's
-- 64-bit counters, which no run brings to 2 ^ 63. The three LONGs are their 32 bits.
pub record Ring : Type 0 where
  pub ring_header : ℕ × ℕ × ℕ × ℕ
  pub enqueue_position : ℕ
  pub dequeue_position : ℕ
  pub event_sequence : ℕ
  pub dropped_events : ℕ
  pub wake_pending : ℕ
  pub slots : ℕ → Slot

-- Magic, version, capacity and event size of a ring that both sides know.
abbrev pub known_header : ℕ × ℕ × ℕ × ℕ
known_header = (ring_magic, ring_version, ring_capacity, trace_max_event_bytes)

abbrev pub is_known_header : ℕ × ℕ × ℕ × ℕ → Bool
is_known_header (magic, version, capacity, event_size) =
    magic == ring_magic
    && version == ring_version
    && capacity == ring_capacity
    && event_size == trace_max_event_bytes

-- The ring that the tracer makes: memory of zeros, the header, and each slot's number.
abbrev pub initial_ring : Ring
initial_ring = record {
  ring_header = known_header;
  enqueue_position = 0;
  dequeue_position = 0;
  event_sequence = 0;
  dropped_events = 0;
  wake_pending = 0;
  slots = λ index. record {
    slot_sequence = index;
    slot_event = record { header = zero_header; payload = replicate payload_bytes 0 };
  };
}

-- A slot of a ring, and the ring with another value there.
abbrev pub slot_at : Ring → ℕ → Slot
slot_at ring position = ring.slots (position % ring_capacity)

abbrev pub store_slot : (ℕ → Slot) → ℕ → Slot → ℕ → Slot
store_slot slots index slot i = if i == index then slot else slots i

-- The tests of an event before it is emitted.
abbrev pub is_emittable : Event → Bool
is_emittable e =
    e.header.magic == trace_event_magic
    && e.header.version == trace_event_version
    && leb (event_header_bytes + trace_name_bytes e) e.header.size
    && leb e.header.size trace_max_event_bytes

-- `CustomMemCpy` of an event's first `size` bytes, which are its header and more, over another.
unfoldable pub copy_event : Event → Event → ℕ → Event
copy_event dest src size = record {
  header = src.header;
  payload = custom_mem_cpy dest.payload src.payload (size - event_header_bytes);
}

-- The wake-up behind a stored event: `none` without an event to set, else whether NtSetEvent
-- succeeds.
abbrev pub wake : Option Bool → ℕ → ℕ
wake none pending = pending
wake (some succeeds) pending = if pending == 0 then (if succeeds then 1 else 0) else 1

-- What EmitTraceEvent comes to, `retries` where its loop would go round again.
pub data Emission : Type 0 where
  refused : Emission
  dropped : Ring → Emission
  emitted : Ring → Emission
  retries : Emission

-- The slot that an event is stored in: the event, and the next position's sequence.
abbrev pub filled_slot : Ring → Event → Slot
filled_slot ring e = record {
  slot_sequence = ring.enqueue_position + 1;
  slot_event = copy_event (slot_at ring ring.enqueue_position).slot_event e e.header.size;
}

-- The event with the number that the ring gives it, and the ring with that number taken.
abbrev pub numbered : Ring → Event → Event
numbered ring e = record e {
  header = record (e.header) { sequence = (ring.event_sequence + 1) % 2 ^ 32 };
}

-- The ring with an event stored at its end, and with an event dropped.
abbrev pub with_event : Option Bool → Ring → Event → Ring
with_event wake_event ring e = record ring {
  event_sequence = (ring.event_sequence + 1) % 2 ^ 32;
  enqueue_position = ring.enqueue_position + 1;
  slots =
      store_slot ring.slots (ring.enqueue_position % ring_capacity)
        (filled_slot ring (numbered ring e));
  wake_pending = wake wake_event ring.wake_pending;
}

abbrev pub without_event : Ring → Ring
without_event ring = record ring {
  event_sequence = (ring.event_sequence + 1) % 2 ^ 32;
  dropped_events = (ring.dropped_events + 1) % 2 ^ 32;
}

-- `EmitTraceEvent` from where the sequence number is taken.
unfoldable pub enqueue : Option Bool → Ring → Event → Emission
enqueue wake_event ring e =
    let sequence = (slot_at ring ring.enqueue_position).slot_sequence in
    if ltb sequence ring.enqueue_position
    then dropped (without_event ring)
    else if sequence == ring.enqueue_position
    then emitted (with_event wake_event ring e)
    else retries

-- `EmitTraceEvent`
unfoldable pub emit_trace_event : Option Bool → Option Ring → Event → Emission
emit_trace_event wake_event none e = refused
emit_trace_event wake_event (some ring) e =
    if is_known_header ring.ring_header && is_emittable e
    then enqueue wake_event ring e
    else refused

-- The ring with its first slot given back.
abbrev pub released : Ring → Ring
released ring = record ring {
  dequeue_position = ring.dequeue_position + 1;
  slots =
      store_slot ring.slots (ring.dequeue_position % ring_capacity)
        (record (slot_at ring ring.dequeue_position) {
          slot_sequence = ring.dequeue_position + ring_capacity;
        });
}

-- `TraceSession::TryReadRing`: the event, and the ring with its slot given back.
unfoldable pub try_read_ring : Ring → Option (Event × Ring)
try_read_ring ring =
    let slot = slot_at ring ring.dequeue_position in
    if slot.slot_sequence == ring.dequeue_position + 1
    then some (slot.slot_event, released ring)
    else none
