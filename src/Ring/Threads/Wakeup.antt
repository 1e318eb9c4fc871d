-- ===== src/Ring/Threads/Wakeup.antt =====
-- The wake event: `wakePending`, and what a reader that waits may rely on.
use apiscope.Prelude.{
  Bool, ap, arith, false, if◌then◌else◌, inl, inr, refl, sym, true, ℕ, ℕ_discrete, ◌%◌, ◌+◌, ◌<◌,
  ◌==◌, ◌∙◌, ◌≡◌, ◌≢◌, ◌⊎◌,
}
use apiscope.Ring.{Slot, copy_event, numbered, ring_capacity, slot_at, store_slot}
use apiscope.Ring.Threads.{
  Producer, Reach, Reader, Step, System, advance, awake, begin, claim, claimed, clear, cleared,
  copied, copy, drained, drop_event, exchange_lost, find, found, idle, later, looping, miss,
  polling, positioned, publish, raise, read_position, read_sequence, release, released_slot, retry,
  seen, set_event, set_fails, setting, start, stop, update, wait, waiting, waking, write, written,
}
use apiscope.Ring.Threads.Slots.{at, at-put_self, put, update_other, update_self}

-- Some producer stands at a place.
abbrev pub SomeAt : (ℕ → Producer) → Producer → Type 0
SomeAt f q = (i : ℕ) × (f i ≡ q)

pub record IsHeard (slots : ℕ → Slot) (deq wake : ℕ) (signalled : Bool) (producers : ℕ → Producer)
    (reader : Reader) (failures : ℕ) : Type 0 where
  pub pending :
      (reader ≡ cleared) ⊎ (reader ≡ waiting)
      → wake ≢ 0
      → (signalled ≡ true) ⊎ (SomeAt producers setting ⊎ (0 < failures))
  pub reported :
      reader ≡ waiting
      → (at slots deq).slot_sequence ≡ deq + 1
      → (wake ≢ 0) ⊎ (SomeAt producers waking ⊎ (0 < failures))

abbrev pub IsAudible : System → Type 0
IsAudible s =
    IsHeard s.ring.slots s.ring.dequeue_position s.ring.wake_pending s.signalled s.producers
      s.reader s.set_failures

-- A thread that stands at `q` still stands there after another has moved.
still_there :
    (f : ℕ → Producer) (i : ℕ) (p q : Producer) → f i ≢ q → SomeAt f q → SomeAt (update f i p) q
still_there f i p q ne (j, h) = (j, update_other f i p j (λ same. ne (ap f (sym same) ∙ h)) ∙ h)

busy-IsHeard :
    {slots : ℕ → Slot} {deq wake : ℕ} {signalled : Bool} {producers : ℕ → Producer} {failures : ℕ}
    (r : Reader)
    → r ≢ cleared
    → r ≢ waiting
    → IsHeard slots deq wake signalled producers r failures
busy-IsHeard r a b = record {
  pending = λ h. elim h [ inl c ↦ absurd (a c) | inr w ↦ absurd (b w) ];
  reported = λ h. absurd (b h);
}

module _ {slots : ℕ → Slot} {deq wake : ℕ} {signalled : Bool} {producers : ℕ → Producer}
    {reader : Reader} {failures : ℕ} where
  module _ (heard : IsHeard slots deq wake signalled producers reader failures) where
    -- A producer that is not about to report an event moves.
    moves-IsHeard :
        (slots' : ℕ → Slot) (i : ℕ) (q : Producer)
        → producers i ≢ waking
        → producers i ≢ setting
        → (at slots' deq).slot_sequence ≡ (at slots deq).slot_sequence
        → IsHeard slots' deq wake signalled (update producers i q) reader failures
    moves-IsHeard slots' i q not_waking not_setting same = record {
      pending = λ r w. elim (heard.pending r w) [
        | inl signal ↦ inl signal
        | inr (inl at_set) ↦ inr (inl (still_there producers i q setting not_setting at_set))
        | inr (inr failed) ↦ inr (inr failed)
      ];
      reported = λ r seq. elim (heard.reported r (sym same ∙ seq)) [
        | inl raised ↦ inl raised
        | inr (inl at_wake) ↦ inr (inl (still_there producers i q waking not_waking at_wake))
        | inr (inr failed) ↦ inr (inr failed)
      ];
    }

    publish-IsHeard :
        (slots' : ℕ → Slot) (i : ℕ)
        → producers i ≢ setting
        → IsHeard slots' deq wake signalled (update producers i waking) reader failures
    publish-IsHeard slots' i not_setting = record {
      pending = λ r w. elim (heard.pending r w) [
        | inl signal ↦ inl signal
        | inr (inl at_set) ↦ inr (inl (still_there producers i waking setting not_setting at_set))
        | inr (inr failed) ↦ inr (inr failed)
      ];
      reported = λ r seq. inr (inl (i, update_self producers i waking));
    }

    raise-IsHeard :
        (i : ℕ) (b : Bool)
        → producers i ≢ setting
        → (wake == 0) ≡ b
        → IsHeard slots deq 1 signalled
            (update producers i (if b then setting else idle))
            reader
            failures
    raise-IsHeard i true not_setting was = record {
      pending = λ r w. inr (inl (i, update_self producers i setting));
      reported = λ r seq. inl (λ zero. absurd (omega arith));
    }
    raise-IsHeard i false not_setting was = record {
      pending = λ r w. elim (heard.pending r (λ zero. ground arith)) [
        | inl signal ↦ inl signal
        | inr (inl at_set) ↦ inr (inl (still_there producers i idle setting not_setting at_set))
        | inr (inr failed) ↦ inr (inr failed)
      ];
      reported = λ r seq. inl (λ zero. absurd (omega arith));
    }

    set_event-IsHeard :
        (i : ℕ)
        → producers i ≢ waking
        → IsHeard slots deq wake true (update producers i idle) reader failures
    set_event-IsHeard i not_waking = record {
      pending = λ r w. inl refl;
      reported = λ r seq. elim (heard.reported r seq) [
        | inl raised ↦ inl raised
        | inr (inl at_wake) ↦ inr (inl (still_there producers i idle waking not_waking at_wake))
        | inr (inr failed) ↦ inr (inr failed)
      ];
    }

    wait-IsHeard :
        reader ≡ cleared
        → (at slots deq).slot_sequence ≢ deq + 1
        → IsHeard slots deq wake signalled producers waiting failures
    wait-IsHeard here empty = record {
      pending = λ r w. heard.pending (inl here) w;
      reported = λ r seq. absurd (empty seq);
    }

failed-IsHeard :
    {slots : ℕ → Slot} {deq wake : ℕ} {signalled : Bool} (producers : ℕ → Producer)
    {reader : Reader} (failures : ℕ)
    → IsHeard slots deq wake signalled producers reader (failures + 1)
failed-IsHeard producers failures = record {
  pending = λ r w. inr (inr (omega arith));
  reported = λ r seq. inr (inr (omega arith));
}

clear-IsHeard :
    {slots : ℕ → Slot} {deq : ℕ} {signalled : Bool} {producers : ℕ → Producer} {failures : ℕ}
    → IsHeard slots deq 0 signalled producers cleared failures
clear-IsHeard = record { pending = λ r w. absurd (w refl); reported = λ r. absurd (cc) }

-- The write of an event leaves the sequences.
written-sequence :
    (slots : ℕ → Slot) (p deq : ℕ) (new : Slot)
    → new.slot_sequence ≡ (at slots p).slot_sequence
    → (at (put slots p new) deq).slot_sequence ≡ (at slots deq).slot_sequence
written-sequence slots p deq new kept =
    elim (ℕ_discrete (deq % ring_capacity) (p % ring_capacity)) [
      | yes same ↦
          ap (λ i. (store_slot slots (p % ring_capacity) new i).slot_sequence) same
          ∙ ap (λ x. x.slot_sequence) (at-put_self slots p new)
          ∙ kept
          ∙ ap (λ i. (slots i).slot_sequence) (sym same)
      | no other ↦
          let apart : (deq % ring_capacity == p % ring_capacity) ≡ false = ground arith in
          rw (apart) refl
    ]

pub Step-IsAudible : {s t : System} → Step s t → IsAudible s → IsAudible t
Step-IsAudible {s} (begin i e here fine full) heard =
    moves-IsHeard heard s.ring.slots i (looping (numbered s.ring e)) (λ h. absurd (cc))
      (λ h. absurd (cc)) refl
Step-IsAudible {s} (read_position i e here) heard =
    moves-IsHeard heard s.ring.slots i (positioned e s.ring.enqueue_position) (λ h. absurd (cc))
      (λ h. absurd (cc)) refl
Step-IsAudible {s} (read_sequence i e p here) heard =
    moves-IsHeard heard s.ring.slots i (seen e p (slot_at s.ring p).slot_sequence)
      (λ h. absurd (cc)) (λ h. absurd (cc)) refl
Step-IsAudible {s} (drop_event i e p q here full) heard =
    moves-IsHeard heard s.ring.slots i idle (λ h. absurd (cc)) (λ h. absurd (cc)) refl
Step-IsAudible {s} (retry i e p q here late) heard =
    moves-IsHeard heard s.ring.slots i (looping e) (λ h. absurd (cc)) (λ h. absurd (cc)) refl
Step-IsAudible {s} (exchange_lost i e p here lost) heard =
    moves-IsHeard heard s.ring.slots i (looping e) (λ h. absurd (cc)) (λ h. absurd (cc)) refl
Step-IsAudible {s} (claim i e p here won) heard =
    moves-IsHeard heard s.ring.slots i (claimed e p) (λ h. absurd (cc)) (λ h. absurd (cc)) refl
Step-IsAudible {s} (write i e p here) heard =
    moves-IsHeard heard
      (put s.ring.slots p (record (slot_at s.ring p) {
        slot_event = copy_event (slot_at s.ring p).slot_event e e.header.size;
      }))
      i (written e p) (λ h. absurd (cc)) (λ h. absurd (cc))
      (written-sequence s.ring.slots p s.ring.dequeue_position
        (record (slot_at s.ring p) {
          slot_event = copy_event (slot_at s.ring p).slot_event e e.header.size;
        })
        refl)
Step-IsAudible {s} (publish i e p here) heard =
    publish-IsHeard heard (put s.ring.slots p (record (slot_at s.ring p) { slot_sequence = p + 1 }))
      i (λ h. absurd (cc))
Step-IsAudible {s} (raise i here) heard =
    raise-IsHeard heard i (s.ring.wake_pending == 0) (λ h. absurd (cc)) refl
Step-IsAudible (set_event i here) heard = set_event-IsHeard heard i (λ h. absurd (cc))
Step-IsAudible {s} (set_fails i here) heard =
    failed-IsHeard (update s.producers i idle) s.set_failures
Step-IsAudible (find here seq) heard = busy-IsHeard found (λ h. absurd (cc)) (λ h. absurd (cc))
Step-IsAudible {s} (copy here) heard =
    busy-IsHeard (copied (slot_at s.ring s.ring.dequeue_position).slot_event) (λ h. absurd (cc))
      (λ h. absurd (cc))
Step-IsAudible (release e here) heard =
    busy-IsHeard (released_slot e) (λ h. absurd (cc)) (λ h. absurd (cc))
Step-IsAudible (advance e here) heard = busy-IsHeard polling (λ h. absurd (cc)) (λ h. absurd (cc))
Step-IsAudible (miss here empty) heard = busy-IsHeard drained (λ h. absurd (cc)) (λ h. absurd (cc))
Step-IsAudible (clear here) heard = clear-IsHeard
Step-IsAudible (wait here empty) heard = wait-IsHeard heard here empty
Step-IsAudible (awake here signal) heard =
    busy-IsHeard polling (λ h. absurd (cc)) (λ h. absurd (cc))
Step-IsAudible (stop here) heard = busy-IsHeard polling (λ h. absurd (cc)) (λ h. absurd (cc))

Reach-IsAudible : {s : System} → Reach s → IsAudible s
Reach-IsAudible start = busy-IsHeard polling (λ h. absurd (cc)) (λ h. absurd (cc))
Reach-IsAudible (later r st) = Step-IsAudible st (Reach-IsAudible r)

-- In every reachable state in which the reader waits while the next event is published, and no call
-- of NtSetEvent has failed, the wake event is signalled, or a producer has published an event and
-- has yet to look at `wakePending`, or a producer has found it clear and has yet to set the event.
pub wake_not_lost :
    {s : System}
    → Reach s
    → s.reader ≡ waiting
    → (slot_at s.ring s.ring.dequeue_position).slot_sequence ≡ s.ring.dequeue_position + 1
    → s.set_failures ≡ 0
    → (s.signalled ≡ true) ⊎ (SomeAt s.producers waking ⊎ SomeAt s.producers setting)
wake_not_lost reach here seq none_failed =
    let heard = Reach-IsAudible reach in
    elim (heard.reported here seq) [
      | inl up ↦ elim (heard.pending (inr here) up) [
        | inl signal ↦ inl signal
        | inr (inl at_set) ↦ inr (inr at_set)
        | inr (inr failed) ↦ absurd (omega arith)
      ]
      | inr (inl at_wake) ↦ inr (inl at_wake)
      | inr (inr failed) ↦ absurd (omega arith)
    ]
