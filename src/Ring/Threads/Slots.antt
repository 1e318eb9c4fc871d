-- ===== src/Ring/Threads/Slots.antt =====
-- The slots of the ring between the positions given back and the positions claimed.
use apiscope.Prelude.{
  ==_refl, ap, arith, dec_lt, false, inl, length, refl, subst, sym, ℕ, ℕ_discrete, ◌%◌, ◌+◌, ◌<◌,
  ◌==◌, ◌∙◌, ◌≡◌, ◌≢◌, ◌≤◌, ◌⊎◌,
}
use apiscope.Protocol.{Event, payload_bytes}
use apiscope.Ring.{Slot, ring_capacity, store_slot}
use apiscope.Ring.Slots.{HoldsEvent, store_slot-sized, store_slot_same}
use apiscope.Ring.Threads.{update}

pub update_self {ℓ} : {A : Type ℓ} (f : ℕ → A) (i : ℕ) (a : A) → update f i a i ≡ a
update_self f i a = rw (==_refl i) refl

pub update_other {ℓ} :
    {A : Type ℓ} (f : ℕ → A) (i : ℕ) (a : A) (j : ℕ) → j ≢ i → update f i a j ≡ f j
update_other f i a j ne = rw (apart) refl
  where
    apart : (j == i) ≡ false
    apart = ground arith

pub ne_of_lt : {a b : ℕ} → a < b → a ≢ b
ne_of_lt h = λ e. absurd (omega arith)

pub ne_of_gt : {a b : ℕ} → b < a → a ≢ b
ne_of_gt h = λ e. absurd (omega arith)

abbrev pub at : (ℕ → Slot) → ℕ → Slot
at slots p = slots (p % ring_capacity)

abbrev pub put : (ℕ → Slot) → ℕ → Slot → ℕ → Slot
put slots p slot = store_slot slots (p % ring_capacity) slot

pub at-put_self : (slots : ℕ → Slot) (p : ℕ) (slot : Slot) → at (put slots p slot) p ≡ slot
at-put_self slots p slot = store_slot_same slots (p % ring_capacity) slot

pub at-put_other :
    (slots : ℕ → Slot) (p q : ℕ) (slot : Slot) (lo : ℕ)
    → lo ≤ p
    → p < lo + ring_capacity
    → lo ≤ q
    → q < lo + ring_capacity
    → p ≢ q
    → at (put slots q slot) p ≡ at slots p
at-put_other slots p q slot lo a b c d ne = rw (apart) refl
  where
    apart : (p % ring_capacity == q % ring_capacity) ≡ false
    apart = ground arith

pub next_round : (q p : ℕ) → q ≡ p + ring_capacity → q % ring_capacity ≡ p % ring_capacity
next_round q p h = omega arith

-- A claimed position is still being written, or holds the event that claimed it.
abbrev pub IsFilled : Slot → ℕ → Event → Type 0
IsFilled slot p e =
    (slot.slot_sequence ≡ p) ⊎ ((slot.slot_sequence ≡ p + 1) × HoldsEvent slot.slot_event e)

-- Positions from `lo` to `hi` are claimed, those from `hi` to a ring's size above `lo` are free.
pub record AreSlots (slots : ℕ → Slot) (lo hi : ℕ) (claims : ℕ → Event) : Type 0 where
  pub ordered : lo ≤ hi
  pub room : hi ≤ lo + ring_capacity
  pub filled : (p : ℕ) → lo ≤ p → p < hi → IsFilled (at slots p) p (claims p)
  pub free : (p : ℕ) → hi ≤ p → p < lo + ring_capacity → (at slots p).slot_sequence ≡ p
  pub sized : (i : ℕ) → length (slots i).slot_event.payload ≡ payload_bytes

module _ {slots : ℕ → Slot} {lo hi : ℕ} {claims : ℕ → Event}
    (ok : AreSlots slots lo hi claims) where
  pub claim-AreSlots :
      (e : Event) → hi < lo + ring_capacity → AreSlots slots lo (hi + 1) (update claims hi e)
  claim-AreSlots e below = record {
    ordered = omega (arith, ok.ordered);
    room = omega arith;
    filled = λ p a b. elim (dec_lt p hi) [
      | yes old ↦ rw (update_other claims hi e p (ne_of_lt old)) (ok.filled p a old)
      | no new ↦ let here : p ≡ hi = omega arith in inl (ok.free p (omega arith) (omega arith))
    ];
    free = λ p a b. ok.free p (omega arith) b;
    sized = ok.sized;
  }

  -- Another value for the slot of a claimed position.
  pub put-AreSlots :
      (p : ℕ) (slot : Slot)
      → lo ≤ p
      → p < hi
      → IsFilled slot p (claims p)
      → length slot.slot_event.payload ≡ payload_bytes
      → AreSlots (put slots p slot) lo hi claims
  put-AreSlots p slot above below new full = record {
    ordered = ok.ordered;
    room = ok.room;
    filled = λ q a b. elim (ℕ_discrete q p) [
      | yes same ↦
          subst (λ i. IsFilled (at (put slots p slot) i) i (claims i)) (sym same)
            (rw (at-put_self slots p slot) new)
      | no other ↦
          rw
            (at-put_other slots q p slot lo a (omega (arith, ok.room)) above
              (omega (arith, ok.room)) other)
            (ok.filled q a b)
    ];
    free = λ q a b.
        rw
          (at-put_other slots q p slot lo (omega (arith, ok.ordered)) b above
            (omega (arith, ok.room)) (ne_of_gt (omega arith)))
          (ok.free q a b);
    sized = store_slot-sized slots (p % ring_capacity) slot ok.sized full;
  }

  -- The first claimed position is given back.
  pub release-AreSlots :
      (slot : Slot)
      → lo < hi
      → slot.slot_sequence ≡ lo + ring_capacity
      → length slot.slot_event.payload ≡ payload_bytes
      → AreSlots (put slots lo slot) (lo + 1) hi claims
  release-AreSlots slot some_claim next full = record {
    ordered = omega arith;
    room = omega (arith, ok.room);
    filled = λ q a b.
        rw
          (at-put_other slots q lo slot lo (omega arith) (omega (arith, ok.room)) (omega arith)
            (omega arith) (ne_of_gt (omega arith)))
          (ok.filled q (omega arith) b);
    free = λ q a b. elim (dec_lt q (lo + ring_capacity)) [
      | yes near ↦
          rw
            (at-put_other slots q lo slot lo (omega arith) near (omega arith) (omega arith)
              (ne_of_gt (omega (arith, ok.ordered))))
            (ok.free q a near)
      | no far ↦
          let at_end : q ≡ lo + ring_capacity = omega arith in
          ap (λ x. x.slot_sequence)
            (ap (store_slot slots (lo % ring_capacity) slot) (next_round q lo at_end)
              ∙ at-put_self slots lo slot)
          ∙ next
          ∙ sym at_end
    ];
    sized = store_slot-sized slots (lo % ring_capacity) slot ok.sized full;
  }
