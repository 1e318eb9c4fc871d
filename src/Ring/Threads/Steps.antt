-- ===== src/Ring/Threads/Steps.antt =====
-- Every step of the system keeps the invariant.
use apiscope.Prelude.{
  Bool, ap, arith, dec_lt, false, if◌then◌else◌, inl, inr, refl, subst, sym, true, ℕ, ℕ_discrete,
  ◌%◌, ◌+◌, ◌<◌, ◌==◌, ◌∙◌, ◌≡◌, ◌≢◌, ◌≤◌,
}
use apiscope.Protocol.{Event}
use apiscope.Ring.{Slot, numbered, ring_capacity, slot_at}
use apiscope.Ring.Queue.{emittable_size}
use apiscope.Ring.Slots.{HoldsEvent}
use apiscope.Ring.Threads.{
  Producer, Reach, Reader, Step, System, advance, awake, begin, claim, claimed, clear, cleared,
  copied, copy, drained, drop_event, exchange_lost, find, found, idle, later, looping, miss,
  polling, positioned, publish, raise, read_position, read_sequence, release, released_slot, retry,
  seen, set_event, set_fails, setting, start, stop, update, wait, waiting, write,
}
use apiscope.Ring.Threads.Invariant.{
  Inv, IsReader, IsSafe, claim-Inv, given_back, initial-IsSafe, moves-Inv, publish-Inv, unpublished,
  write-Inv,
}
use apiscope.Ring.Threads.Producers.{IsProducer, owned_range, put-IsProducer}
use apiscope.Ring.Threads.Slots.{
  AreSlots, at, next_round, put, release-AreSlots, update_other, update_self,
}

above_of_ne : {a b : ℕ} → a ≤ b → b ≢ a → a + 1 ≤ b
above_of_ne {a} {b} h ne = elim (dec_lt a b) [
  | yes below ↦ omega arith
  | no other ↦ absurd (ne (omega arith))
]

below_of_ne : {p d : ℕ} → p < d + 1 → p ≢ d → p < d
below_of_ne {p} {d} h ne = elim (dec_lt p d) [
  | yes below ↦ below
  | no other ↦ absurd (ne (omega arith))
]

module _ {slots : ℕ → Slot} {enq deq : ℕ} {producers : ℕ → Producer}
    {claims deliveries : ℕ → Event} where
  -- The reader moves on between two reads of the ring.
  rests-Inv :
      (r q : Reader)
      → given_back r deq ≡ deq
      → given_back q deq ≡ deq
      → IsReader slots enq deq claims q
      → Inv slots enq deq producers r claims deliveries
      → Inv slots enq deq producers q claims deliveries
  rests-Inv r q from to ok inv = record {
    slots_ok = subst (λ lo. AreSlots slots lo enq claims) (from ∙ sym to) inv.slots_ok;
    producers_ok = λ i.
        subst (λ lo. IsProducer slots lo enq claims (producers i)) (from ∙ sym to)
          (inv.producers_ok i);
    unique = inv.unique;
    reader_ok = ok;
    delivered = inv.delivered;
  }

  -- A published slot at the position to read holds the event that claimed the position.
  published :
      (r : Reader)
      → given_back r deq ≡ deq
      → Inv slots enq deq producers r claims deliveries
      → (at slots deq).slot_sequence ≡ deq + 1
      → (deq < enq) × HoldsEvent (at slots deq).slot_event (claims deq)
  published r from inv seq = elim (dec_lt deq enq) [
    | no none_left ↦
        absurd (omega (arith, seq, ok.ordered, ok.free deq (omega arith) (omega arith)))
    | yes below ↦ elim (ok.filled deq (omega arith) below) [
      | inl writing ↦ absurd (omega (arith, seq, writing))
      | inr done ↦ (below, done.1)
    ]
  ]
    where
      ok : AreSlots slots deq enq claims
      ok = subst (λ lo. AreSlots slots lo enq claims) from inv.slots_ok

  release-Inv :
      (e : Event)
      → Inv slots enq deq producers (copied e) claims deliveries
      → Inv
          (put slots deq (record (at slots deq) { slot_sequence = deq + ring_capacity }))
          enq
          deq
          producers
          (released_slot e)
          claims
          deliveries
  release-Inv e inv =
      let new : Slot = record (at slots deq) { slot_sequence = deq + ring_capacity } in
      let (below, seq, holds) = inv.reader_ok in
      record {
        slots_ok =
            release-AreSlots inv.slots_ok new below refl (inv.slots_ok.sized (deq % ring_capacity));
        producers_ok = λ i.
            put-IsProducer slots deq enq claims (deq + 1) deq new (producers i) (omega arith)
              (omega arith) below inv.slots_ok.room
              (λ p h.
                let (a, b, c) =
                  owned_range slots deq enq claims (producers i) p (inv.producers_ok i) h in
                let apart : p ≢ deq = λ e. unpublished slots deq p seq c (sym e) in
                (above_of_ne a apart, apart))
              (inv.producers_ok i);
        unique = inv.unique;
        reader_ok = (below, holds);
        delivered = inv.delivered;
      }

  advance-Inv :
      (e : Event)
      → Inv slots enq deq producers (released_slot e) claims deliveries
      → Inv slots enq (deq + 1) producers polling claims (update deliveries deq e)
  advance-Inv e inv = record {
    slots_ok = inv.slots_ok;
    producers_ok = inv.producers_ok;
    unique = inv.unique;
    reader_ok = tt;
    delivered = λ p h. elim (ℕ_discrete p deq) [
      | yes same ↦
          subst (λ k. HoldsEvent (update deliveries deq e k) (claims k)) (sym same)
            (rw (update_self deliveries deq e) inv.reader_ok.1)
      | no other ↦
          rw (update_other deliveries deq e p other) (inv.delivered p (below_of_ne h other))
    ];
  }

-- The facts of producer `i`, given where it stands.
at_place :
    (s : System) (i : ℕ) (q : Producer)
    → IsSafe s
    → s.producers i ≡ q
    → IsProducer s.ring.slots
        (given_back s.reader s.ring.dequeue_position)
        s.ring.enqueue_position
        s.claims
        q
at_place s i q inv here =
    subst
      (IsProducer s.ring.slots (given_back s.reader s.ring.dequeue_position) s.ring.enqueue_position
        s.claims)
      here (inv.producers_ok i)

pub at_reader :
    (s : System) (r : Reader)
    → IsSafe s
    → s.reader ≡ r
    → Inv s.ring.slots s.ring.enqueue_position s.ring.dequeue_position s.producers r s.claims
        s.deliveries
at_reader s r inv here =
    subst
      (λ q.
        Inv s.ring.slots s.ring.enqueue_position s.ring.dequeue_position s.producers q s.claims
          s.deliveries)
      here inv

-- A sequence that was the position read belongs to a free slot or to a claimed one.
seen_room :
    (s : System)
    → IsSafe s
    → (p : ℕ) → p ≤ s.ring.enqueue_position
    → (slot_at s.ring p).slot_sequence ≡ p
    → p < given_back s.reader s.ring.dequeue_position + ring_capacity
seen_room s inv p below seq =
    let ok = inv.slots_ok in
    let lo = given_back s.reader s.ring.dequeue_position in
    elim (dec_lt p (lo + ring_capacity)) [
      | yes room ↦ room
      | no full ↦
          let round : p ≡ lo + ring_capacity = omega (arith, ok.room) in
          let same : (slot_at s.ring lo).slot_sequence ≡ p =
            ap (λ i. (s.ring.slots i).slot_sequence) (sym (next_round p lo round)) ∙ seq in
          elim (ok.filled lo (omega arith) (omega (arith, ok.room))) [
            | inl writing ↦ absurd (omega (arith, same, writing))
            | inr done ↦ absurd (omega (arith, same, done.0))
          ]
    ]

raised :
    (s : System)
    → IsSafe s
    → (i : ℕ) (b : Bool)
    → Inv s.ring.slots s.ring.enqueue_position s.ring.dequeue_position
        (update s.producers i (if b then setting else idle))
        s.reader
        s.claims
        s.deliveries
raised s inv i true = moves-Inv inv i setting tt refl
raised s inv i false = moves-Inv inv i idle tt refl

pub Step-IsSafe : {s t : System} → Step s t → IsSafe s → IsSafe t
Step-IsSafe {s} (begin i e here fine full) inv =
    moves-Inv inv i (looping (numbered s.ring e)) (emittable_size e fine, full) refl
Step-IsSafe {s} (read_position i e here) inv =
    moves-Inv inv i (positioned e s.ring.enqueue_position)
      (at_place s i (looping e) inv here, omega arith) refl
Step-IsSafe {s} (read_sequence i e p here) inv =
    let (fits, below) = at_place s i (positioned e p) inv here in
    moves-Inv inv i (seen e p (slot_at s.ring p).slot_sequence)
      (fits, below, seen_room s inv p below) refl
Step-IsSafe (drop_event i e p q here full) inv = moves-Inv inv i idle tt refl
Step-IsSafe {s} (retry i e p q here late) inv =
    moves-Inv inv i (looping e) (at_place s i (seen e p q) inv here).0 refl
Step-IsSafe {s} (exchange_lost i e p here lost) inv =
    moves-Inv inv i (looping e) (at_place s i (seen e p p) inv here).0 refl
Step-IsSafe {s} (claim i e p here won) inv =
    let (fits, below, room) = at_place s i (seen e p p) inv here in
    subst
      (λ k.
        Inv s.ring.slots (k + 1) s.ring.dequeue_position (update s.producers i (claimed e k))
          s.reader (update s.claims k e) s.deliveries)
      won (claim-Inv inv i e fits (omega (arith, room refl, won)))
Step-IsSafe (write i e p here) inv = write-Inv inv i e p here
Step-IsSafe (publish i e p here) inv = publish-Inv inv i e p here
Step-IsSafe {s} (raise i here) inv = raised s inv i (s.ring.wake_pending == 0)
Step-IsSafe (set_event i here) inv = moves-Inv inv i idle tt refl
Step-IsSafe (set_fails i here) inv = moves-Inv inv i idle tt refl
Step-IsSafe {s} (find (inl here) seq) inv =
    let from = at_reader s polling inv here in
    rests-Inv polling found refl refl ((published polling refl from seq).0, seq) from
Step-IsSafe {s} (find (inr here) seq) inv =
    let from = at_reader s cleared inv here in
    rests-Inv cleared found refl refl ((published cleared refl from seq).0, seq) from
Step-IsSafe {s} (copy here) inv =
    let from = at_reader s found inv here in
    let (below, seq) = from.reader_ok in
    rests-Inv found (copied (slot_at s.ring s.ring.dequeue_position).slot_event) refl refl
      (below, seq, (published found refl from seq).1) from
Step-IsSafe {s} (release e here) inv = release-Inv e (at_reader s (copied e) inv here)
Step-IsSafe {s} (advance e here) inv = advance-Inv e (at_reader s (released_slot e) inv here)
Step-IsSafe {s} (miss here empty) inv =
    rests-Inv polling drained refl refl tt (at_reader s polling inv here)
Step-IsSafe {s} (clear here) inv =
    rests-Inv drained cleared refl refl tt (at_reader s drained inv here)
Step-IsSafe {s} (wait here empty) inv =
    rests-Inv cleared waiting refl refl tt (at_reader s cleared inv here)
Step-IsSafe {s} (awake here signal) inv =
    rests-Inv waiting polling refl refl tt (at_reader s waiting inv here)
Step-IsSafe {s} (stop here) inv =
    rests-Inv waiting polling refl refl tt (at_reader s waiting inv here)

pub Reach-IsSafe : {s : System} → Reach s → IsSafe s
Reach-IsSafe start = initial-IsSafe
Reach-IsSafe (later r st) = Step-IsSafe st (Reach-IsSafe r)
