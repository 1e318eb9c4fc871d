-- ===== src/Ring/Threads/Safety.antt =====
-- What the threads may rely on in every reachable state of the ring.
use apiscope.Prelude.{
  Option, ap, arith, dec_lt, none, refl, some, subst, sym, ℕ, ◌%◌, ◌+◌, ◌<◌, ◌∙◌, ◌≡◌, ◌≢◌, ◌≤◌,
}
use apiscope.Protocol.{Event}
use apiscope.Ring.{Slot, ring_capacity, slot_at}
use apiscope.Ring.Slots.{HoldsEvent}
use apiscope.Ring.Threads.{
  Reach, Reader, Step, System, advance, awake, begin, claim, clear, cleared, copied, copy, drained,
  drop_event, exchange_lost, find, found, miss, polling, publish, raise, read_position,
  read_sequence, release, released_slot, retry, set_event, set_fails, stop, wait, waiting, write,
}
use apiscope.Ring.Threads.Invariant.{IsReader, IsSafe, given_back, given_back_range, unpublished}
use apiscope.Ring.Threads.Producers.{owned, owned_range}
use apiscope.Ring.Threads.Slots.{at, ne_of_lt, update_other}
use apiscope.Ring.Threads.Steps.{Reach-IsSafe}

-- A claimed position keeps its event.
Step-claims :
    {s t : System}
    → Step s t
    → (s.ring.enqueue_position ≤ t.ring.enqueue_position)
      × ((p : ℕ) → p < s.ring.enqueue_position → t.claims p ≡ s.claims p)
Step-claims {s} (begin i e here fine full) = (omega arith, λ p h. refl)
Step-claims {s} (read_position i e here) = (omega arith, λ p h. refl)
Step-claims {s} (read_sequence i e p here) = (omega arith, λ p h. refl)
Step-claims {s} (drop_event i e p q here full) = (omega arith, λ p h. refl)
Step-claims {s} (retry i e p q here late) = (omega arith, λ p h. refl)
Step-claims {s} (exchange_lost i e p here lost) = (omega arith, λ p h. refl)
Step-claims {s} (claim i e p here won) =
    (omega (arith, won), λ q h. update_other s.claims p e q (ne_of_lt (omega (arith, won))))
Step-claims {s} (write i e p here) = (omega arith, λ p h. refl)
Step-claims {s} (publish i e p here) = (omega arith, λ p h. refl)
Step-claims {s} (raise i here) = (omega arith, λ p h. refl)
Step-claims {s} (set_event i here) = (omega arith, λ p h. refl)
Step-claims {s} (set_fails i here) = (omega arith, λ p h. refl)
Step-claims {s} (find here seq) = (omega arith, λ p h. refl)
Step-claims {s} (copy here) = (omega arith, λ p h. refl)
Step-claims {s} (release e here) = (omega arith, λ p h. refl)
Step-claims {s} (advance e here) = (omega arith, λ p h. refl)
Step-claims {s} (miss here empty) = (omega arith, λ p h. refl)
Step-claims {s} (clear here) = (omega arith, λ p h. refl)
Step-claims {s} (wait here empty) = (omega arith, λ p h. refl)
Step-claims {s} (awake here signal) = (omega arith, λ p h. refl)
Step-claims {s} (stop here) = (omega arith, λ p h. refl)

-- In every reachable state, the event read at each position below the dequeue position is, in its
-- header and the bytes its size counts, the event that the producer which claimed the position was
-- emitting; no more positions have been read than claimed, and at most one more than the ring has
-- slots has been claimed and not yet read.
pub reads_the_claims :
    {s : System}
    → Reach s
    → ((p : ℕ) → p < s.ring.dequeue_position → HoldsEvent (s.deliveries p) (s.claims p))
      × (s.ring.dequeue_position ≤ s.ring.enqueue_position)
      × (s.ring.enqueue_position ≤ s.ring.dequeue_position + ring_capacity + 1)
reads_the_claims {s} reach =
    let inv = Reach-IsSafe reach in
    let (below, near) = given_back_range s.reader s.ring.dequeue_position in
    (
      inv.delivered,
      omega (arith, inv.slots_ok.ordered, below),
      omega (arith, inv.slots_ok.room, near),
    )

-- Different positions less than a ring apart have different slots.
apart_in_ring :
    (lo p q : ℕ)
    → lo ≤ p
    → p < lo + ring_capacity
    → lo ≤ q
    → q < lo + ring_capacity
    → p ≢ q
    → p % ring_capacity ≢ q % ring_capacity
apart_in_ring lo p q a b c d ne = elim (dec_lt p q) [
  | yes less ↦ λ e. absurd (omega arith)
  | no more ↦ λ e. absurd (ne (omega arith))
]

-- The position whose slot a thread may access: that of a producer between its claim and its
-- publication, and that of the reader, which is thread `none`, between finding an event and giving the
-- slot back.
abbrev pub reader_position : Reader → ℕ → Option ℕ
reader_position polling d = none
reader_position found d = some d
reader_position (copied e) d = some d
reader_position (released_slot e) d = none
reader_position drained d = none
reader_position cleared d = none
reader_position waiting d = none

abbrev pub position_of : System → Option ℕ → Option ℕ
position_of s none = reader_position s.reader s.ring.dequeue_position
position_of s (some i) = owned (s.producers i)

-- What the reader knows of the position it is at.
reader_facts :
    (slots : ℕ → Slot) (enq d p : ℕ) (claims : ℕ → Event) (reader : Reader)
    → IsReader slots enq d claims reader
    → reader_position reader d ≡ some p
    → (given_back reader d ≡ p) × (p < enq) × ((at slots p).slot_sequence ≡ p + 1)
reader_facts slots enq d p claims polling ok h = absurd (cc)
reader_facts slots enq d p claims found ok h =
    let same : d ≡ p = cc in
    subst (λ i. (d ≡ i) × (i < enq) × ((at slots i).slot_sequence ≡ i + 1)) same (refl, ok.0, ok.1)
reader_facts slots enq d p claims (copied e) ok h =
    let same : d ≡ p = cc in
    subst (λ i. (d ≡ i) × (i < enq) × ((at slots i).slot_sequence ≡ i + 1)) same (refl, ok.0, ok.1)
reader_facts slots enq d p claims (released_slot e) ok h = absurd (cc)
reader_facts slots enq d p claims drained ok h = absurd (cc)
reader_facts slots enq d p claims cleared ok h = absurd (cc)
reader_facts slots enq d p claims waiting ok h = absurd (cc)

module _ (s : System) (inv : IsSafe s) where
  producer_range :
      (i p : ℕ)
      → owned (s.producers i) ≡ some p
      → (given_back s.reader s.ring.dequeue_position ≤ p)
        × (p < s.ring.enqueue_position)
        × ((slot_at s.ring p).slot_sequence ≡ p)
  producer_range i p mine =
      owned_range s.ring.slots (given_back s.reader s.ring.dequeue_position) s.ring.enqueue_position
        s.claims (s.producers i) p (inv.producers_ok i) mine

  reader_apart :
      (i p q : ℕ)
      → owned (s.producers i) ≡ some p
      → reader_position s.reader s.ring.dequeue_position ≡ some q
      → p % ring_capacity ≢ q % ring_capacity
  reader_apart i p q mine there =
      let (a, b, seq) = producer_range i p mine in
      let (same, below, done) =
        reader_facts s.ring.slots s.ring.enqueue_position s.ring.dequeue_position q s.claims
          s.reader inv.reader_ok there in
      apart_in_ring q p q (omega arith) (omega (arith, inv.slots_ok.room)) (omega arith)
        (omega arith) (λ e. unpublished s.ring.slots q p done seq (sym e))

  pub threads_apart :
      (a b : Option ℕ) (p q : ℕ)
      → a ≢ b
      → position_of s a ≡ some p
      → position_of s b ≡ some q
      → p % ring_capacity ≢ q % ring_capacity
  threads_apart none none p q ne mine yours = absurd (ne refl)
  threads_apart none (some j) p q ne mine yours = λ e. reader_apart j q p yours mine (sym e)
  threads_apart (some i) none p q ne mine yours = reader_apart i p q mine yours
  threads_apart (some i) (some j) p q ne mine yours =
      let lo = given_back s.reader s.ring.dequeue_position in
      let room = inv.slots_ok.room in
      let (a, b, seq) = producer_range i p mine in
      let (c, d, seq') = producer_range j q yours in
      apart_in_ring lo p q a (omega arith) c (omega arith)
        (λ e. ne (ap some (inv.unique i j p mine (yours ∙ ap some (sym e)))))

-- In every reachable state, two threads that may each access the slot of a position have different
-- slots: producers between claim and publication, and the reader between finding an event and giving
-- its slot back.
pub slots_are_apart :
    {s : System}
    → Reach s
    → (a b : Option ℕ) (p q : ℕ) → a ≢ b
    → position_of s a ≡ some p
    → position_of s b ≡ some q
    → p % ring_capacity ≢ q % ring_capacity
slots_are_apart {s} reach = threads_apart s (Reach-IsSafe reach)
