-- ===== src/Ring/Threads.antt =====
-- EmitTraceEvent of src/apiscope-hooks/trace_transport.cpp on any number of threads of the traced
-- process, beside ReaderLoop of src/apiscope/trace_session.cpp: one access of shared memory at a
-- time, in any order. The wake event is set up, as it is from ConfigureTransport on. Copying an
-- event to or from a slot is one step. A batch of reads that ends without an event only brings the
-- reader back to `polling`, and is no step.
mod Slots
pub mod Producers
mod Invariant
mod Steps
pub mod Safety
pub mod Wakeup
use apiscope.Prelude.{
  Bool, false, if◌then◌else◌, length, true, ℕ, ◌%◌, ◌+◌, ◌<◌, ◌==◌, ◌^◌, ◌≡◌, ◌≢◌, ◌⊎◌,
}
use apiscope.Protocol.{Event, payload_bytes}
use apiscope.Ring.{
  Ring, Slot, copy_event, initial_ring, is_emittable, numbered, ring_capacity, slot_at, store_slot,
}

-- Where a producer stands, with the locals that are live there: its event, the position that it
-- has read, and the sequence of the slot.
pub data Producer : Type 0 where
  idle : Producer
  looping : Event → Producer
  positioned : Event → ℕ → Producer
  seen : Event → ℕ → ℕ → Producer
  claimed : Event → ℕ → Producer
  written : Event → ℕ → Producer
  waking : Producer
  setting : Producer

-- Where the reader stands: before a read of the ring, in one, behind one that has found nothing,
-- before the second read that follows the clearing of `wakePending`, or in WaitForMultipleObjects.
pub data Reader : Type 0 where
  polling : Reader
  found : Reader
  copied : Event → Reader
  released_slot : Event → Reader
  drained : Reader
  cleared : Reader
  waiting : Reader

-- The shared ring, the wake event, the threads, and what has happened: the failed calls of
-- NtSetEvent, the event of each position claimed, and the event of each position read.
pub record System : Type 0 where
  pub ring : Ring
  pub signalled : Bool
  pub producers : ℕ → Producer
  pub reader : Reader
  pub set_failures : ℕ
  pub claims : ℕ → Event
  pub deliveries : ℕ → Event

abbrev pub update {ℓ} : {A : Type ℓ} → (ℕ → A) → ℕ → A → ℕ → A
update f i a j = if j == i then a else f j

abbrev pub put_slot : Ring → ℕ → Slot → Ring
put_slot ring position slot = record ring {
  slots = store_slot ring.slots (position % ring_capacity) slot;
}

-- A producer's next place.
abbrev pub goes : System → ℕ → Producer → System
goes s i p = record s { producers = update s.producers i p }

-- The write of a producer, and the read of the reader.
abbrev pub written_slot : Ring → Event → ℕ → Slot
written_slot ring e p = record (slot_at ring p) {
  slot_event = copy_event (slot_at ring p).slot_event e e.header.size;
}

-- One access of shared memory.
pub data Step (s : System) : System → Type 0 where
  begin :
      (i : ℕ) (e : Event)
      → s.producers i ≡ idle
      → is_emittable e ≡ true
      → length e.payload ≡ payload_bytes
      → Step s (
          goes
            (record s {
              ring = record (s.ring) { event_sequence = (s.ring.event_sequence + 1) % 2 ^ 32 };
            })
            i
            (looping (numbered s.ring e)))
  read_position :
      (i : ℕ) (e : Event)
      → s.producers i ≡ looping e
      → Step s (goes s i (positioned e s.ring.enqueue_position))
  read_sequence :
      (i : ℕ) (e : Event) (p : ℕ)
      → s.producers i ≡ positioned e p
      → Step s (goes s i (seen e p (slot_at s.ring p).slot_sequence))
  drop_event :
      (i : ℕ) (e : Event) (p q : ℕ)
      → s.producers i ≡ seen e p q
      → q < p
      → Step s (
          goes
            (record s {
              ring = record (s.ring) { dropped_events = (s.ring.dropped_events + 1) % 2 ^ 32 };
            })
            i
            idle)
  retry :
      (i : ℕ) (e : Event) (p q : ℕ)
      → s.producers i ≡ seen e p q
      → p < q
      → Step s (goes s i (looping e))
  exchange_lost :
      (i : ℕ) (e : Event) (p : ℕ)
      → s.producers i ≡ seen e p p
      → s.ring.enqueue_position ≢ p
      → Step s (goes s i (looping e))
  claim :
      (i : ℕ) (e : Event) (p : ℕ)
      → s.producers i ≡ seen e p p
      → s.ring.enqueue_position ≡ p
      → Step s (
          goes
            (record s {
              ring = record (s.ring) { enqueue_position = p + 1 };
              claims = update s.claims p e;
            })
            i
            (claimed e p))
  write :
      (i : ℕ) (e : Event) (p : ℕ)
      → s.producers i ≡ claimed e p
      → Step s
          (goes (record s { ring = put_slot s.ring p (written_slot s.ring e p) }) i (written e p))
  publish :
      (i : ℕ) (e : Event) (p : ℕ)
      → s.producers i ≡ written e p
      → Step s (
          goes
            (record s {
              ring = put_slot s.ring p (record (slot_at s.ring p) { slot_sequence = p + 1 });
            })
            i
            waking)
  raise :
      (i : ℕ)
      → s.producers i ≡ waking
      → Step s (
          goes
            (record s { ring = record (s.ring) { wake_pending = 1 } })
            i
            (if s.ring.wake_pending == 0 then setting else idle))
  set_event :
      (i : ℕ) → s.producers i ≡ setting → Step s (goes (record s { signalled = true }) i idle)
  set_fails :
      (i : ℕ)
      → s.producers i ≡ setting
      → Step s (
          goes
            (record s {
              ring = record (s.ring) { wake_pending = 0 };
              set_failures = s.set_failures + 1;
            })
            i
            idle)
  find :
      (s.reader ≡ polling) ⊎ (s.reader ≡ cleared)
      → (slot_at s.ring s.ring.dequeue_position).slot_sequence ≡ s.ring.dequeue_position + 1
      → Step s (record s { reader = found })
  copy :
      s.reader ≡ found
      → Step s (record s { reader = copied (slot_at s.ring s.ring.dequeue_position).slot_event })
  release :
      (e : Event)
      → s.reader ≡ copied e
      → Step s (record s {
        ring =
            put_slot s.ring s.ring.dequeue_position
              (record (slot_at s.ring s.ring.dequeue_position) {
                slot_sequence = s.ring.dequeue_position + ring_capacity;
              });
        reader = released_slot e;
      })
  advance :
      (e : Event)
      → s.reader ≡ released_slot e
      → Step s (record s {
        ring = record (s.ring) { dequeue_position = s.ring.dequeue_position + 1 };
        reader = polling;
        deliveries = update s.deliveries s.ring.dequeue_position e;
      })
  miss :
      s.reader ≡ polling
      → (slot_at s.ring s.ring.dequeue_position).slot_sequence ≢ s.ring.dequeue_position + 1
      → Step s (record s { reader = drained })
  clear :
      s.reader ≡ drained
      → Step s (record s { ring = record (s.ring) { wake_pending = 0 }; reader = cleared })
  wait :
      s.reader ≡ cleared
      → (slot_at s.ring s.ring.dequeue_position).slot_sequence ≢ s.ring.dequeue_position + 1
      → Step s (record s { reader = waiting })
  awake :
      s.reader ≡ waiting
      → s.signalled ≡ true
      → Step s (record s { reader = polling; signalled = false })
  stop : s.reader ≡ waiting → Step s (record s { reader = polling })

abbrev pub initial_system : System
initial_system = record {
  ring = initial_ring;
  signalled = false;
  producers = λ i. idle;
  reader = polling;
  set_failures = 0;
  claims = λ p. (initial_ring.slots p).slot_event;
  deliveries = λ p. (initial_ring.slots p).slot_event;
}

pub data Reach : System → Type 0 where
  start : Reach initial_system
  later : {s t : System} → Reach s → Step s t → Reach t
