-- ===== src/Ring/Threads/Invariant.antt =====
-- The invariant of the ring under any number of producers and one reader.
use apiscope.Prelude.{
  ap, arith, inl, inr, length, length-replicate, none, refl, some, subst, sym, ℕ, ℕ_discrete, ◌%◌,
  ◌+◌, ◌<◌, ◌∙◌, ◌≡◌, ◌≢◌, ◌≤◌,
}
use apiscope.Protocol.{Event, payload_bytes}
use apiscope.Ring.{Slot, copy_event, ring_capacity}
use apiscope.Ring.Slots.{HoldsEvent, copy_event-HoldsEvent, length-copy_event}
use apiscope.Ring.Threads.{
  Producer, Reader, System, claimed, cleared, copied, drained, found, initial_system, polling,
  released_slot, update, waiting, waking, written,
}
use apiscope.Ring.Threads.Producers.{
  Fits, IsOwn, IsProducer, claim-IsProducer, owned, owned_range, put-IsProducer, update-all,
}
use apiscope.Ring.Threads.Slots.{
  AreSlots, IsFilled, at, at-put_other, at-put_self, claim-AreSlots, ne_of_lt, put, put-AreSlots,
  update_other, update_self,
}

-- The positions whose slots the reader has given back.
abbrev pub given_back : Reader → ℕ → ℕ
given_back polling d = d
given_back found d = d
given_back (copied e) d = d
given_back (released_slot e) d = d + 1
given_back drained d = d
given_back cleared d = d
given_back waiting d = d

-- What the reader has found at the position it reads.
abbrev pub IsReader : (ℕ → Slot) → ℕ → ℕ → (ℕ → Event) → Reader → Type 0
IsReader slots enq deq claims polling = Unit {0}
IsReader slots enq deq claims found = (deq < enq) × ((at slots deq).slot_sequence ≡ deq + 1)
IsReader slots enq deq claims (copied e) =
    (deq < enq) × ((at slots deq).slot_sequence ≡ deq + 1) × HoldsEvent e (claims deq)
IsReader slots enq deq claims (released_slot e) = (deq < enq) × HoldsEvent e (claims deq)
IsReader slots enq deq claims drained = Unit {0}
IsReader slots enq deq claims cleared = Unit {0}
IsReader slots enq deq claims waiting = Unit {0}

pub record Inv (slots : ℕ → Slot) (enq deq : ℕ) (producers : ℕ → Producer) (reader : Reader)
    (claims deliveries : ℕ → Event) : Type 0 where
  pub slots_ok : AreSlots slots (given_back reader deq) enq claims
  pub producers_ok : (i : ℕ) → IsProducer slots (given_back reader deq) enq claims (producers i)
  pub unique : (i j p : ℕ) → owned (producers i) ≡ some p → owned (producers j) ≡ some p → i ≡ j
  pub reader_ok : IsReader slots enq deq claims reader
  pub delivered : (p : ℕ) → p < deq → HoldsEvent (deliveries p) (claims p)

abbrev pub IsSafe : System → Type 0
IsSafe s =
    Inv s.ring.slots s.ring.enqueue_position s.ring.dequeue_position s.producers s.reader s.claims
      s.deliveries

pub initial-IsSafe : IsSafe initial_system
initial-IsSafe = record {
  slots_ok = record {
    ordered = omega arith;
    room = omega arith;
    filled = λ p a b. absurd (omega arith);
    free = λ p a b. omega arith;
    sized = λ i. length-replicate {A = ℕ} payload_bytes 0;
  };
  producers_ok = λ i. tt;
  unique = λ i j p h k. absurd (cc);
  reader_ok = tt;
  delivered = λ p h. absurd (omega arith);
}

-- Positions are given back only after they have been claimed, and one before the reader advances.
pub given_back_range :
    (reader : Reader) (deq : ℕ) → (deq ≤ given_back reader deq) × (given_back reader deq ≤ deq + 1)
given_back_range polling deq = (omega arith, omega arith)
given_back_range found deq = (omega arith, omega arith)
given_back_range (copied e) deq = (omega arith, omega arith)
given_back_range (released_slot e) deq = (omega arith, omega arith)
given_back_range drained deq = (omega arith, omega arith)
given_back_range cleared deq = (omega arith, omega arith)
given_back_range waiting deq = (omega arith, omega arith)

-- A claim of position `enq`, and a write to the slot of another position, leave the reader's facts.
claim-IsReader :
    (slots : ℕ → Slot) (enq deq : ℕ) (claims : ℕ → Event) (e : Event) (reader : Reader)
    → IsReader slots enq deq claims reader
    → IsReader slots (enq + 1) deq (update claims enq e) reader
claim-IsReader slots enq deq claims e polling ok = tt
claim-IsReader slots enq deq claims e found ok = (omega (arith, ok.0), ok.1)
claim-IsReader slots enq deq claims e (copied f) ok =
    (omega (arith, ok.0), ok.1, rw (update_other claims enq e deq (ne_of_lt ok.0)) ok.2)
claim-IsReader slots enq deq claims e (released_slot f) ok =
    (omega (arith, ok.0), rw (update_other claims enq e deq (ne_of_lt ok.0)) ok.1)
claim-IsReader slots enq deq claims e drained ok = tt
claim-IsReader slots enq deq claims e cleared ok = tt
claim-IsReader slots enq deq claims e waiting ok = tt

pub unpublished :
    (slots : ℕ → Slot) (deq p : ℕ)
    → (at slots deq).slot_sequence ≡ deq + 1
    → (at slots p).slot_sequence ≡ p
    → deq ≢ p
unpublished slots deq p h k = λ e. absurd (omega (arith, ap (λ i. (at slots i).slot_sequence) e))

-- The position that a producer owns after an update.
owned_self :
    (f : ℕ → Producer) (i j p : ℕ) (q : Producer)
    → j ≡ i
    → owned (update f i q j) ≡ some p
    → owned q ≡ some p
owned_self f i j p q same h =
    sym (ap (λ k. owned (update f i q k)) same ∙ ap owned (update_self f i q)) ∙ h

owned_other :
    (f : ℕ → Producer) (i j p : ℕ) (q : Producer)
    → j ≢ i
    → owned (update f i q j) ≡ some p
    → owned (f j) ≡ some p
owned_other f i j p q other h = sym (ap owned (update_other f i q j other)) ∙ h

put-IsReader :
    (slots : ℕ → Slot) (enq deq : ℕ) (claims : ℕ → Event) (p : ℕ) (slot : Slot) (reader : Reader)
    → given_back reader deq ≤ p
    → p < enq
    → enq ≤ given_back reader deq + ring_capacity
    → (at slots p).slot_sequence ≡ p
    → IsReader slots enq deq claims reader
    → IsReader (put slots p slot) enq deq claims reader
put-IsReader slots enq deq claims p slot polling a b c seq ok = tt
put-IsReader slots enq deq claims p slot found a b c seq ok = (
  ok.0,
  rw
      (at-put_other slots deq p slot deq (omega arith) (omega arith) a (omega arith)
        (unpublished slots deq p ok.1 seq))
      ok.1,
)
put-IsReader slots enq deq claims p slot (copied f) a b c seq ok = (
  ok.0,
  rw
      (at-put_other slots deq p slot deq (omega arith) (omega arith) a (omega arith)
        (unpublished slots deq p ok.1 seq))
      ok.1,
  ok.2,
)
put-IsReader slots enq deq claims p slot (released_slot f) a b c seq ok = ok
put-IsReader slots enq deq claims p slot drained a b c seq ok = tt
put-IsReader slots enq deq claims p slot cleared a b c seq ok = tt
put-IsReader slots enq deq claims p slot waiting a b c seq ok = tt

module _ {slots : ℕ → Slot} {enq deq : ℕ} {producers : ℕ → Producer} {reader : Reader}
    {claims deliveries : ℕ → Event}
    (inv : Inv slots enq deq producers reader claims deliveries) where
  unique-update :
      (i : ℕ) (q : Producer)
      → ((j p : ℕ) → owned q ≡ some p → owned (producers j) ≡ some p → j ≡ i)
      → (j k p : ℕ) → owned (update producers i q j) ≡ some p
      → owned (update producers i q k) ≡ some p
      → j ≡ k
  unique-update i q alone j k p h1 h2 = elim (ℕ_discrete j i) [
    | yes a ↦ elim (ℕ_discrete k i) [
      | yes b ↦ a ∙ sym b
      | no b ↦
          a
          ∙ sym (alone k p (owned_self producers i j p q a h1) (owned_other producers i k p q b h2))
    ]
    | no a ↦ elim (ℕ_discrete k i) [
      | yes b ↦
          alone j p (owned_self producers i k p q b h2) (owned_other producers i j p q a h1) ∙ sym b
      | no b ↦
          inv.unique j k p (owned_other producers i j p q a h1) (owned_other producers i k p q b h2)
    ]
  ]

  -- A step of producer `i` that changes no slot, position or claim.
  pub moves-Inv :
      (i : ℕ) (q : Producer)
      → IsProducer slots (given_back reader deq) enq claims q
      → owned q ≡ none
      → Inv slots enq deq (update producers i q) reader claims deliveries
  moves-Inv i q ok none_owned = record {
    slots_ok = inv.slots_ok;
    producers_ok =
        update-all (IsProducer slots (given_back reader deq) enq claims) producers i q ok
          (λ j ne. inv.producers_ok j);
    unique = unique-update i q (λ j p h k. absurd (cc));
    reader_ok = inv.reader_ok;
    delivered = inv.delivered;
  }

  pub claim-Inv :
      (i : ℕ) (e : Event)
      → Fits e
      → enq < given_back reader deq + ring_capacity
      → Inv slots
          (enq + 1)
          deq
          (update producers i (claimed e enq))
          reader
          (update claims enq e)
          deliveries
  claim-Inv i e fits below =
      let lo = given_back reader deq in
      let own : IsOwn slots lo (enq + 1) (update claims enq e) e enq = (
        fits,
        inv.slots_ok.ordered,
        omega arith,
        inv.slots_ok.free enq (omega arith) below,
        update_self claims enq e,
      ) in
      record {
        slots_ok = claim-AreSlots inv.slots_ok e below;
        producers_ok =
            update-all (IsProducer slots lo (enq + 1) (update claims enq e)) producers i
              (claimed e enq) own
              (λ j ne. claim-IsProducer slots lo enq claims e (producers j) (inv.producers_ok j));
        unique = unique-update i (claimed e enq) (λ j p same h.
            let e : enq ≡ p = cc in
            absurd (
              omega (
                arith,
                (owned_range slots lo enq claims (producers j) p (inv.producers_ok j) h).1,
              )));
        reader_ok = claim-IsReader slots enq deq claims e reader inv.reader_ok;
        delivered = λ p h.
            rw
              (update_other claims enq e p
                (ne_of_lt (omega (arith, (given_back_range reader deq).0, inv.slots_ok.ordered))))
              (inv.delivered p h);
      }

  -- A write to the slot of a position that producer `i` owns.
  put-Inv :
      (i p : ℕ) (q : Producer) (slot : Slot)
      → owned (producers i) ≡ some p
      → IsFilled slot p (claims p)
      → length slot.slot_event.payload ≡ payload_bytes
      → IsProducer (put slots p slot) (given_back reader deq) enq claims q
      → ((r : ℕ) → owned q ≡ some r → p ≡ r)
      → Inv (put slots p slot) enq deq (update producers i q) reader claims deliveries
  put-Inv i p q slot mine filled full ok keeps =
      let lo = given_back reader deq in
      let (above, below, seq) =
        owned_range slots lo enq claims (producers i) p (inv.producers_ok i) mine in
      record {
        slots_ok = put-AreSlots inv.slots_ok p slot above below filled full;
        producers_ok =
            update-all (IsProducer (put slots p slot) lo enq claims) producers i q ok (λ j ne.
              put-IsProducer slots lo enq claims lo p slot (producers j) (omega arith) above below
                inv.slots_ok.room
                (λ r h. (
                  (owned_range slots lo enq claims (producers j) r (inv.producers_ok j) h).0,
                  λ e. ne (inv.unique j i p (h ∙ ap some e) mine),
                ))
                (inv.producers_ok j));
        unique =
            unique-update i q (λ j r h k. inv.unique j i p (k ∙ ap some (sym (keeps r h))) mine);
        reader_ok =
            put-IsReader slots enq deq claims p slot reader above below inv.slots_ok.room seq
              inv.reader_ok;
        delivered = inv.delivered;
      }

  pub write-Inv :
      (i : ℕ) (e : Event) (p : ℕ)
      → producers i ≡ claimed e p
      → Inv
          (put slots p (record (at slots p) {
            slot_event = copy_event (at slots p).slot_event e e.header.size;
          }))
          enq
          deq
          (update producers i (written e p))
          reader
          claims
          deliveries
  write-Inv i e p here =
      let lo = given_back reader deq in
      let new : Slot = record (at slots p) {
        slot_event = copy_event (at slots p).slot_event e e.header.size;
      } in
      let (fits, above, below, seq, claim_is) =
        subst (IsProducer slots lo enq claims) here (inv.producers_ok i) in
      let full = inv.slots_ok.sized (p % ring_capacity) in
      let stored = at-put_self slots p new in
      put-Inv i p (written e p) new (ap owned here) (inl seq)
        (length-copy_event (at slots p).slot_event e e.header.size fits.0 full fits.1)
        (
          (fits, above, below, rw (stored) seq, claim_is),
          rw (stored) (copy_event-HoldsEvent (at slots p).slot_event e fits.0 full fits.1),
        )
        (λ r h. cc)

  pub publish-Inv :
      (i : ℕ) (e : Event) (p : ℕ)
      → producers i ≡ written e p
      → Inv
          (put slots p (record (at slots p) { slot_sequence = p + 1 }))
          enq
          deq
          (update producers i waking)
          reader
          claims
          deliveries
  publish-Inv i e p here =
      let lo = given_back reader deq in
      let ok = subst (IsProducer slots lo enq claims) here (inv.producers_ok i) in
      put-Inv i p waking (record (at slots p) { slot_sequence = p + 1 }) (ap owned here)
        (inr (refl, rw (ok.0.4) ok.1)) (inv.slots_ok.sized (p % ring_capacity)) tt
        (λ r h. absurd (cc))
