-- ===== src/Ring/Slots.antt =====
-- Slots of the ring, one of which changes.
use apiscope.Prelude.{
  ==_refl, Bool-cases, Bytes, List, [], ap, arith, drop, false, inl, inr, length, length-append,
  length-drop, length-take, refl, suc, take, zero, ℕ, ◌%◌, ◌++◌, ◌+◌, ◌-◌, ◌<◌, ◌==◌, ◌∷◌, ◌≡◌, ◌≤◌,
}
use apiscope.Memory.Laws.{custom_mem_cpy_lem}
use apiscope.Protocol.{Event, event_header_bytes, payload_bytes, trace_max_event_bytes}
use apiscope.Ring.{Slot, copy_event, ring_capacity, store_slot}

-- What a slot holds of an event: its header and its bytes up to the event's size.
abbrev pub HoldsEvent : Event → Event → Type 0
HoldsEvent stored e =
    (stored.header ≡ e.header)
    × (take (e.header.size - event_header_bytes) stored.payload
        ≡ take (e.header.size - event_header_bytes) e.payload)

-- The events of a queue, in the slots from a position on.
abbrev pub AreStored : (ℕ → Slot) → ℕ → List Event → Type 0
AreStored slots position [] = Unit {0}
AreStored slots position (e ∷ queue) =
    ((slots (position % ring_capacity)).slot_sequence ≡ position + 1)
    × HoldsEvent (slots (position % ring_capacity)).slot_event e
    × AreStored slots (position + 1) queue

pub store_slot_other :
    (slots : ℕ → Slot) (p q : ℕ) (slot : Slot)
    → p < q
    → q < p + ring_capacity
    → store_slot slots (q % ring_capacity) slot (p % ring_capacity) ≡ slots (p % ring_capacity)
store_slot_other slots p q slot below near = rw (ne) refl
  where
    ne : (p % ring_capacity == q % ring_capacity) ≡ false
    ne = ground arith

pub store_slot_above :
    (slots : ℕ → Slot) (p q : ℕ) (slot : Slot)
    → q < p
    → p < q + ring_capacity
    → store_slot slots (q % ring_capacity) slot (p % ring_capacity) ≡ slots (p % ring_capacity)
store_slot_above slots p q slot above near = rw (ne) refl
  where
    ne : (p % ring_capacity == q % ring_capacity) ≡ false
    ne = ground arith

pub AreStored-store_slot :
    (slots : ℕ → Slot) (p q : ℕ) (slot : Slot) (queue : List Event)
    → p + length queue ≤ q
    → q < p + ring_capacity
    → AreStored slots p queue
    → AreStored (store_slot slots (q % ring_capacity) slot) p queue
AreStored-store_slot slots p q slot [] fits near s = tt
AreStored-store_slot slots p q slot (e ∷ queue) fits near s =
    rw (store_slot_other slots p q slot (omega arith) near)
      (s.0, s.1, AreStored-store_slot slots (p + 1) q slot queue (omega arith) (omega arith) s.2)

pub AreStored-snoc :
    (slots : ℕ → Slot) (p q : ℕ) (queue : List Event) (e : Event)
    → q ≡ p + length queue
    → AreStored slots p queue
    → (slots (q % ring_capacity)).slot_sequence ≡ q + 1
    → HoldsEvent (slots (q % ring_capacity)).slot_event e
    → AreStored slots p (queue ++ e ∷ [])
AreStored-snoc slots p q [] e at_end s h holds =
    let at_p : p ≡ q = omega arith in rw (at_p) ((h, holds, tt))
AreStored-snoc slots p q (g ∷ queue) e at_end s h holds =
    (s.0, s.1, AreStored-snoc slots (p + 1) q queue e (omega arith) s.2 h holds)

pub store_slot_same : (slots : ℕ → Slot) (i : ℕ) (slot : Slot) → store_slot slots i slot i ≡ slot
store_slot_same slots i slot = rw (==_refl i) refl

pub copy_event-payload :
    (dest src : Event) (size : ℕ)
    → size ≤ trace_max_event_bytes
    → length dest.payload ≡ payload_bytes
    → length src.payload ≡ payload_bytes
    → (copy_event dest src size).payload
      ≡ take (size - event_header_bytes) src.payload
        ++ drop (size - event_header_bytes) dest.payload
unfolding copy_event
copy_event-payload dest src size small d s =
    custom_mem_cpy_lem dest.payload src.payload (size - event_header_bytes) (omega arith)
      (omega arith)

take_taken : (n : ℕ) (xs ys : Bytes) → n ≤ length xs → take n (take n xs ++ ys) ≡ take n xs
take_taken zero xs ys h = refl
take_taken (suc n) [] ys h = absurd (omega arith)
take_taken (suc n) (x ∷ xs) ys h = ap (◌∷◌ x) (take_taken n xs ys (omega arith))

pub copy_event-HoldsEvent :
    (dest src : Event)
    → src.header.size ≤ trace_max_event_bytes
    → length dest.payload ≡ payload_bytes
    → length src.payload ≡ payload_bytes
    → HoldsEvent (copy_event dest src src.header.size) src
unfolding copy_event
copy_event-HoldsEvent dest src small d s = (
  refl,
  rw (copy_event-payload dest src src.header.size small d s)
      (take_taken (src.header.size - event_header_bytes) src.payload _ (omega arith)),
)

pub length-copy_event :
    (dest src : Event) (size : ℕ)
    → size ≤ trace_max_event_bytes
    → length dest.payload ≡ payload_bytes
    → length src.payload ≡ payload_bytes
    → length (copy_event dest src size).payload ≡ payload_bytes
length-copy_event dest src size small d s =
    let n = size - event_header_bytes in
    rw (copy_event-payload dest src size small d s) (
      omega (
        arith,
        length-append (take n src.payload) (drop n dest.payload),
        length-take {A = ℕ} n src.payload,
        length-drop {A = ℕ} n dest.payload,
      ))

pub store_slot-sized :
    (slots : ℕ → Slot) (j : ℕ) (slot : Slot)
    → ((i : ℕ) → length (slots i).slot_event.payload ≡ payload_bytes)
    → length slot.slot_event.payload ≡ payload_bytes
    → (i : ℕ) → length (store_slot slots j slot i).slot_event.payload ≡ payload_bytes
store_slot-sized slots j slot old new i = elim (Bool-cases (i == j)) [
  | inl eq ↦ rw (eq) new
  | inr eq ↦ rw (eq) (old i)
]
