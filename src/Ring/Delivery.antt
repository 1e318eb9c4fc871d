-- ===== src/Ring/Delivery.antt =====
-- An event's way through the ring, from the hook that emits it to the tracer's checks.
use apiscope.Prelude.{
  Bool, Option, [], ap, arith, drop, leb, length, length-append, some, sym, take, take-append,
  take-append-drop, true, ℕ, ◌&&◌, ◌++◌, ◌+◌, ◌-◌, ◌==◌, ◌∙◌, ◌∷◌, ◌≡◌, ◌≤◌,
}
use apiscope.Encoding.{Encodes, encode}
use apiscope.Encoding.Holds.{Holds}
use apiscope.Encoding.Layout.{length-encode}
use apiscope.Encoding.Parse.{parse_trace_event-Encodes}
use apiscope.Encoding.Valid.{IsValid}
use apiscope.Protocol.{
  Event, event_header_bytes, payload_bytes, trace_event_magic, trace_event_version,
  trace_max_event_bytes,
}
use apiscope.Renderer.Parse.{Parsed, parse_trace_event}
use apiscope.Ring.{Ring, emit_trace_event, emitted, is_emittable, numbered, try_read_ring}
use apiscope.Ring.Queue.{IsQueue, emit_trace_event-IsQueue, try_read_ring-IsQueue}
use apiscope.Ring.Slots.{HoldsEvent}

-- EmitTraceEvent's tests let every event pass that holds a valid record.
pub Holds-is_emittable : (e : Event) → Holds e → is_emittable e ≡ true
Holds-is_emittable e (p, held, valid) =
    tests _ _ _ _ (held.magic_is) (held.version_is)
      (omega (arith, held.size_is, held.module_is, held.api_is, length-encode p))
      (omega (
        arith,
        held.size_is,
        held.payload_size,
        ap length held.payload_is,
        length-append (encode p) held.free,
      ))
  where
    tests :
        (m v n s : ℕ)
        → m ≡ trace_event_magic
        → v ≡ trace_event_version
        → event_header_bytes + n ≤ s
        → s ≤ trace_max_event_bytes
        → (m == trace_event_magic
            && v == trace_event_version
            && leb (event_header_bytes + n) s
            && leb s trace_max_event_bytes)
          ≡ true
    tests m v n s p q h k = ground arith

-- The bytes up to an event's size are all that its record needs.
HoldsEvent-Encodes :
    (stored e : Event) (p : Parsed)
    → HoldsEvent stored e
    → length stored.payload ≡ payload_bytes
    → Encodes e p
    → Encodes stored p
HoldsEvent-Encodes stored e p same sized held =
    let n = e.header.size - event_header_bytes in
    let n_is : n ≡ length (encode p) = omega (arith, held.size_is) in
    let begins : take n e.payload ≡ encode p =
      rw (held.payload_is, n_is) (take-append (encode p) held.free) in
    record {
      free = drop n stored.payload;
      payload_is =
          sym (take-append-drop n stored.payload)
          ∙ ap (λ xs. xs ++ drop n stored.payload) (same.1 ∙ begins);
      payload_size = sized;
      magic_is = ap (λ h. h.magic) same.0 ∙ held.magic_is;
      version_is = ap (λ h. h.version) same.0 ∙ held.version_is;
      size_is = ap (λ h. h.size) same.0 ∙ held.size_is;
      count_is = ap (λ h. h.field_count) same.0 ∙ held.count_is;
      module_is = ap (λ h. h.module_name_length) same.0 ∙ held.module_is;
      api_is = ap (λ h. h.api_name_length) same.0 ∙ held.api_is;
    }

numbered-Encodes :
    (ring : Ring) (e : Event) (p : Parsed) → Encodes e p → Encodes (numbered ring e) p
numbered-Encodes ring e p held = record {
  free = held.free;
  payload_is = held.payload_is;
  payload_size = held.payload_size;
  magic_is = held.magic_is;
  version_is = held.version_is;
  size_is = held.size_is;
  count_is = held.count_is;
  module_is = held.module_is;
  api_is = held.api_is;
}

-- What the tracer reads of a ring whose first event holds a record is checked and parsed to it.
abbrev pub IsDelivered : Ring → Parsed → Type 0
IsDelivered ring p =
    (stored : Event) × (next : Ring) × (try_read_ring ring ≡ some (stored, next))
    × (parse_trace_event stored stored.header.size ≡ some p)

-- An event that holds a valid record, emitted to an empty ring: EmitTraceEvent stores it, TryReadRing reads
-- it, and ParseTraceEvent of what it reads returns the record.
pub emit_trace_event-try_read_ring :
    (wake_event : Option Bool) (ring : Ring) (e : Event) (p : Parsed)
    → IsQueue ring []
    → Encodes e p
    → IsValid p
    → (next : Ring) × (emit_trace_event wake_event (some ring) e ≡ emitted next)
      × IsDelivered next p
emit_trace_event-try_read_ring wake_event ring e p is_queue held valid =
    let (next, done, next_queue) =
      (emit_trace_event-IsQueue wake_event ring [] e is_queue
          (Holds-is_emittable e (p, held, valid)) held.payload_size).0
        (omega arith) in
    let (stored, last, read, same, sized, last_queue) =
      try_read_ring-IsQueue next (numbered ring e ∷ []) next_queue in
    (
      next,
      done,
      (
        stored,
        last,
        read,
        parse_trace_event-Encodes
            (HoldsEvent-Encodes stored (numbered ring e) p same sized
              (numbered-Encodes ring e p held))
            valid,
      ),
    )
