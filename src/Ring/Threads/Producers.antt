-- ===== src/Ring/Threads/Producers.antt =====
-- What the locals of a producer say about the ring, and what the steps of others leave of it.
use apiscope.Prelude.{
  Option, arith, length, none, refl, some, subst, sym, ℕ, ℕ_discrete, ◌+◌, ◌<◌, ◌∙◌, ◌≡◌, ◌≢◌, ◌≤◌,
}
use apiscope.Protocol.{Event, payload_bytes, trace_max_event_bytes}
use apiscope.Ring.{Slot, ring_capacity}
use apiscope.Ring.Slots.{HoldsEvent}
use apiscope.Ring.Threads.{
  Producer, claimed, idle, looping, positioned, seen, setting, update, waking, written,
}
use apiscope.Ring.Threads.Slots.{at, at-put_other, ne_of_lt, put, update_other, update_self}

-- An event that fits a slot.
abbrev pub Fits : Event → Type 0
Fits e = (e.header.size ≤ trace_max_event_bytes) × (length e.payload ≡ payload_bytes)

-- The position that a producer has claimed and not yet published.
abbrev pub owned : Producer → Option ℕ
owned idle = none
owned (looping e) = none
owned (positioned e p) = none
owned (seen e p q) = none
owned (claimed e p) = some p
owned (written e p) = some p
owned waking = none
owned setting = none

-- The slot of a claimed position that its owner has not published.
abbrev pub IsOwn : (ℕ → Slot) → ℕ → ℕ → (ℕ → Event) → Event → ℕ → Type 0
IsOwn slots lo hi claims e p =
    Fits e × (lo ≤ p) × (p < hi) × ((at slots p).slot_sequence ≡ p) × (claims p ≡ e)

abbrev pub IsProducer : (ℕ → Slot) → ℕ → ℕ → (ℕ → Event) → Producer → Type 0
IsProducer slots lo hi claims idle = Unit {0}
IsProducer slots lo hi claims (looping e) = Fits e
IsProducer slots lo hi claims (positioned e p) = Fits e × (p ≤ hi)
IsProducer slots lo hi claims (seen e p q) = Fits e × (p ≤ hi) × (q ≡ p → p < lo + ring_capacity)
IsProducer slots lo hi claims (claimed e p) = IsOwn slots lo hi claims e p
IsProducer slots lo hi claims (written e p) =
    IsOwn slots lo hi claims e p × HoldsEvent (at slots p).slot_event e
IsProducer slots lo hi claims waking = Unit {0}
IsProducer slots lo hi claims setting = Unit {0}

module _ (slots : ℕ → Slot) (lo hi : ℕ) (claims : ℕ → Event) where
  pub owned_range :
      (q : Producer) (p : ℕ)
      → IsProducer slots lo hi claims q
      → owned q ≡ some p
      → (lo ≤ p) × (p < hi) × ((at slots p).slot_sequence ≡ p)
  owned_range idle p ok h = absurd (cc)
  owned_range (looping e) p ok h = absurd (cc)
  owned_range (positioned e q) p ok h = absurd (cc)
  owned_range (seen e q r) p ok h = absurd (cc)
  owned_range (claimed e q) p ok h =
      let same : q ≡ p = cc in
      subst (λ i. (lo ≤ i) × (i < hi) × ((at slots i).slot_sequence ≡ i)) same (ok.1, ok.2, ok.3)
  owned_range (written e q) p ok h =
      let same : q ≡ p = cc in
      subst (λ i. (lo ≤ i) × (i < hi) × ((at slots i).slot_sequence ≡ i)) same
        (ok.0.1, ok.0.2, ok.0.3)
  owned_range waking p ok h = absurd (cc)
  owned_range setting p ok h = absurd (cc)

  -- A claim of position `hi` by another.
  pub claim-IsProducer :
      (e : Event) (q : Producer)
      → IsProducer slots lo hi claims q
      → IsProducer slots lo (hi + 1) (update claims hi e) q
  claim-IsProducer e idle ok = tt
  claim-IsProducer e (looping f) ok = ok
  claim-IsProducer e (positioned f p) ok = (ok.0, omega (arith, ok.1))
  claim-IsProducer e (seen f p r) ok = (ok.0, omega (arith, ok.1), ok.2)
  claim-IsProducer e (claimed f p) ok =
      (ok.0, ok.1, omega (arith, ok.2), ok.3, update_other claims hi e p (ne_of_lt ok.2) ∙ ok.4)
  claim-IsProducer e (written f p) ok = (
    (
      ok.0.0,
      ok.0.1,
      omega (arith, ok.0.2),
      ok.0.3,
      update_other claims hi e p (ne_of_lt ok.0.2) ∙ ok.0.4,
    ),
    ok.1,
  )
  claim-IsProducer e waking ok = tt
  claim-IsProducer e setting ok = tt

  -- A write to the slot of a claimed position that another owns, or that has been published, after
  -- which `lo'` positions are given back.
  pub put-IsProducer :
      (lo' i : ℕ) (slot : Slot) (q : Producer)
      → lo ≤ lo'
      → lo ≤ i
      → i < hi
      → hi ≤ lo + ring_capacity
      → ((p : ℕ) → owned q ≡ some p → (lo' ≤ p) × (p ≢ i))
      → IsProducer slots lo hi claims q
      → IsProducer (put slots i slot) lo' hi claims q
  put-IsProducer lo' i slot idle grows above below room apart ok = tt
  put-IsProducer lo' i slot (looping f) grows above below room apart ok = ok
  put-IsProducer lo' i slot (positioned f p) grows above below room apart ok = ok
  put-IsProducer lo' i slot (seen f p r) grows above below room apart ok =
      (ok.0, ok.1, λ same. omega (arith, ok.2 same))
  put-IsProducer lo' i slot (claimed f p) grows above below room apart ok =
      let (a, ne) = apart p refl in
      let kept = at-put_other slots p i slot lo ok.1 (omega (arith, ok.2)) above (omega arith) ne in
      (ok.0, a, ok.2, rw (kept) ok.3, ok.4)
  put-IsProducer lo' i slot (written f p) grows above below room apart ok =
      let (a, ne) = apart p refl in
      let kept =
        at-put_other slots p i slot lo ok.0.1 (omega (arith, ok.0.2)) above (omega arith) ne in
      ((ok.0.0, a, ok.0.2, rw (kept) ok.0.3, ok.0.4), rw (kept) ok.1)
  put-IsProducer lo' i slot waking grows above below room apart ok = tt
  put-IsProducer lo' i slot setting grows above below room apart ok = tt

-- A family after an update, where the others keep what they had.
pub update-all :
    (P : Producer → Type 0) (f : ℕ → Producer) (i : ℕ) (q : Producer)
    → P q
    → ((j : ℕ) → j ≢ i → P (f j))
    → (j : ℕ) → P (update f i q j)
update-all P f i q new old j = elim (ℕ_discrete j i) [
  | yes same ↦ subst (λ k. P (update f i q k)) (sym same) (rw (update_self f i q) new)
  | no other ↦ rw (update_other f i q j other) (old j other)
]
