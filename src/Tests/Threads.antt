-- ===== src/Tests/Threads.antt =====
-- An event of NtClose that one thread emits while the reader polls, or waits.
use apiscope.Prelude.{
  arith, codes, inl, length, refl, replicate, some, true, ℕ, ◌%◌, ◌+◌, ◌<◌, ◌≡◌, ◌≢◌, ◌≤◌, ◌⊎◌,
}
use apiscope.Memory.{custom_mem_cpy, custom_mem_set}
use apiscope.Protocol.{Event, payload_bytes}
use apiscope.Ring.{initial_ring, is_emittable, numbered, ring_capacity}
use apiscope.Ring.Slots.{HoldsEvent}
use apiscope.Ring.Threads.{
  Reach, System, advance, awake, begin, claim, clear, copy, find, later, miss, publish, raise,
  read_position, read_sequence, release, set_event, setting, start, wait, waking, write,
}
use apiscope.Ring.Threads.Safety.{reads_the_claims, slots_are_apart}
use apiscope.Ring.Threads.Wakeup.{SomeAt, wake_not_lost}
use apiscope.Transport.{
  get_bounded_string_length, initialize_trace_event, is_identifier_char, is_valid_identifier,
  start_event, string_index, zero_header,
}

abbrev event : Event
event =
    (initialize_trace_event 7 9
      (record { header = zero_header; payload = replicate payload_bytes 0 })
      (some (codes "ntdll.dll")) (some (codes "NtClose"))).0

abbrev sent : Event
sent = numbered initial_ring event

event-is_emittable : is_emittable event ≡ true
unfolding initialize_trace_event is_valid_identifier get_bounded_string_length string_index
    is_identifier_char start_event custom_mem_cpy custom_mem_set
event-is_emittable = refl

event-full : length event.payload ≡ payload_bytes
unfolding initialize_trace_event is_valid_identifier get_bounded_string_length string_index
    is_identifier_char start_event custom_mem_cpy custom_mem_set
event-full = refl

-- The reader has waited since before the thread published its event.
abbrev told : (s : System) × Reach s
told = (
  _,
  later
      (later
        (later
          (later
            (later
              (later
                (later (later (later start (miss refl (λ h. absurd (omega arith)))) (clear refl))
                  (wait refl (λ h. absurd (omega arith))))
                (begin 0 event refl event-is_emittable event-full))
              (read_position 0 sent refl))
            (read_sequence 0 sent 0 refl))
          (claim 0 sent 0 refl refl))
        (write 0 sent 0 refl))
      (publish 0 sent 0 refl),
)

wake_not_lost_example :
    (told.0.signalled ≡ true) ⊎ (SomeAt told.0.producers waking ⊎ SomeAt told.0.producers setting)
wake_not_lost_example = wake_not_lost told.1 refl refl refl

-- The reader reads the event.
abbrev read : (s : System) × Reach s
read = (
  _,
  later
      (later
        (later
          (later (later (later (later told.1 (raise 0 refl)) (set_event 0 refl)) (awake refl refl))
            (find (inl refl) refl))
          (copy refl))
        (release _ refl))
      (advance _ refl),
)

reads_the_claims_example :
    ((p : ℕ) → p < 1 → HoldsEvent (read.0.deliveries p) (read.0.claims p))
    × (read.0.ring.dequeue_position ≤ read.0.ring.enqueue_position)
    × (read.0.ring.enqueue_position ≤ read.0.ring.dequeue_position + ring_capacity + 1)
reads_the_claims_example = reads_the_claims read.1

-- A second thread has claimed a position beside the first.
abbrev both : (s : System) × Reach s
both = (
  _,
  later
      (later
        (later
          (later
            (later
              (later
                (later (later start (begin 0 event refl event-is_emittable event-full))
                  (read_position 0 sent refl))
                (read_sequence 0 sent 0 refl))
              (claim 0 sent 0 refl refl))
            (begin 1 event refl event-is_emittable event-full))
          (read_position 1 (numbered (record initial_ring { event_sequence = 1 }) event) refl))
        (read_sequence 1 (numbered (record initial_ring { event_sequence = 1 }) event) 1 refl))
      (claim 1 (numbered (record initial_ring { event_sequence = 1 }) event) 1 refl refl),
)

slots_are_apart_example : 0 % ring_capacity ≢ 1 % ring_capacity
slots_are_apart_example = slots_are_apart both.1 (some 0) (some 1) 0 1 (λ e. absurd (cc)) refl refl
