-- ===== src/Tests/Ring.antt =====
-- Events of NtClose on their way through a new ring.
use apiscope.Prelude.{[], arith, codes, none, refl, replicate, some, true, ◌∷◌, ◌≡◌}
use apiscope.Encoding.{Encodes}
use apiscope.Encoding.Valid.{IsValid}
use apiscope.Memory.{custom_mem_cpy, custom_mem_set}
use apiscope.Protocol.{Event, payload_bytes}
use apiscope.Renderer.Parse.{Parsed, is_valid_identifier_bytes}
use apiscope.Ring.{Ring, emit_trace_event, emitted, initial_ring, numbered, with_event}
use apiscope.Ring.Delivery.{Holds-is_emittable, IsDelivered, emit_trace_event-try_read_ring}
use apiscope.Ring.Queue.{
  IsQueue, IsServed, emit_trace_event-IsQueue, filled-IsQueue, initial_ring-IsQueue,
  try_read_ring-IsQueue,
}
use apiscope.Transport.{
  get_bounded_string_length, initialize_trace_event, is_identifier_char, is_valid_identifier,
  start_event, string_index, zero_header,
}

abbrev opened : Event
opened =
    (initialize_trace_event 7 9
      (record { header = zero_header; payload = replicate payload_bytes 0 })
      (some (codes "ntdll.dll")) (some (codes "NtClose"))).0

abbrev record_of : Parsed
record_of = record { module_name = codes "ntdll.dll"; api_name = codes "NtClose"; fields = [] }

opened-Encodes : Encodes opened record_of
unfolding initialize_trace_event is_valid_identifier get_bounded_string_length string_index
    is_identifier_char start_event custom_mem_cpy custom_mem_set
opened-Encodes = record {
  free = replicate 976 0;
  payload_is = refl;
  payload_size = refl;
  magic_is = refl;
  version_is = refl;
  size_is = refl;
  count_is = refl;
  module_is = refl;
  api_is = refl;
}

record_of-IsValid : IsValid record_of
unfolding is_valid_identifier_bytes is_identifier_char
record_of-IsValid = record { module_valid = refl; api_valid = refl; fields_valid = tt }

emit_trace_event-try_read_ring_example :
    (next : Ring) × (emit_trace_event (some true) (some initial_ring) opened ≡ emitted next)
    × IsDelivered next record_of
emit_trace_event-try_read_ring_example =
    emit_trace_event-try_read_ring (some true) initial_ring opened record_of initial_ring-IsQueue
      opened-Encodes record_of-IsValid

emit_trace_event-IsQueue_example :
    (next : Ring) × (emit_trace_event none (some initial_ring) opened ≡ emitted next)
    × IsQueue next (numbered initial_ring opened ∷ [])
emit_trace_event-IsQueue_example =
    (emit_trace_event-IsQueue none initial_ring [] opened initial_ring-IsQueue
        (Holds-is_emittable opened (record_of, opened-Encodes, record_of-IsValid))
        opened-Encodes.payload_size).0
      (omega arith)

stored-IsQueue : IsQueue (with_event none initial_ring opened) (numbered initial_ring opened ∷ [])
stored-IsQueue =
    filled-IsQueue none initial_ring [] opened initial_ring-IsQueue (omega arith)
      (omega (arith, opened-Encodes.size_is)) opened-Encodes.payload_size

try_read_ring-IsQueue_example :
    IsServed (with_event none initial_ring opened) (numbered initial_ring opened ∷ [])
try_read_ring-IsQueue_example =
    try_read_ring-IsQueue (with_event none initial_ring opened) (numbered initial_ring opened ∷ [])
      stored-IsQueue
