-- ===== src/Transport.antt =====
-- apiscope-hooks/trace_transport.cpp, lines 25 to 193: names, fields and the start of an event. The
-- functions take the event by value and return it; no caller passes a null event. A C string is the
-- list of its bytes from the pointer on, `none` for a null pointer.
pub mod Capture
pub mod Names
use apiscope.Prelude.{
  Bool, Bytes, List, Option, [], all, bit_or, drop, false, guard, if◌then◌else◌, is_zero, le_bytes,
  le_value, leb, ltb, none, not, some, suc, take, true, zero, ℕ, ◌%◌, ◌&&◌, ◌*◌, ◌+◌, ◌-◌, ◌==◌,
  ◌>>=◌, ◌>>◌, ◌^◌, ◌||◌, ◌∷◌,
}
use apiscope.Memory.{byte, copy_at, custom_mem_cmp, custom_mem_set, rest}
use apiscope.Protocol.{
  Event, FieldHeader, Header, event_header_bytes, field_header_bytes, field_header_memory,
  flag_field_error, flag_truncated, payload_bytes, trace_event_magic, trace_event_version,
  trace_max_api_name_bytes, trace_max_event_bytes, trace_max_field_name_bytes,
  trace_max_module_name_bytes, type_boolean, type_int32, type_int64, type_pointer, type_status,
  type_uint32, type_uint64,
}

-- `while (index <= maximum && value[index]) ++index`, with `left` rounds to go.
unfoldable pub string_index : ℕ → Bytes → ℕ
string_index zero value = 0
string_index (suc left) value = if byte value == 0 then 0 else suc (string_index left (rest value))

-- `GetBoundedStringLength`
unfoldable pub get_bounded_string_length : Option Bytes → ℕ → Option ℕ
get_bounded_string_length none maximum = none
get_bounded_string_length (some value) maximum =
    let index = string_index (suc maximum) value in
    if index == 0 || ltb maximum index then none else some (index % 256)

abbrev pub is_lower : ℕ → Bool
is_lower c = leb b'a' c && leb c b'z'

abbrev pub is_upper : ℕ → Bool
is_upper c = leb b'A' c && leb c b'Z'

abbrev pub is_digit : ℕ → Bool
is_digit c = leb b'0' c && leb c b'9'

-- A character of a field name behind its first.
unfoldable pub is_field_char : ℕ → Bool
is_field_char c = is_lower c || is_digit c || c == b'_'

-- A character of a module's or a function's name.
unfoldable pub is_identifier_char : Bool → ℕ → Bool
is_identifier_char module_name c =
    is_lower c || is_upper c || is_digit c || c == b'_' || (module_name && (c == b'.' || c == b'-'))

-- The characters at a pointer that has been found not to be null.
abbrev pub c_string : Option Bytes → Bytes
c_string none = []
c_string (some value) = value

-- `IsValidFieldName`: the length that it stores, or `none` where it fails.
unfoldable pub is_valid_field_name : Option Bytes → Option ℕ
is_valid_field_name name = do
  size ← get_bounded_string_length name trace_max_field_name_bytes
  guard (is_lower (byte (c_string name)))
  guard (all is_field_char (take (size - 1) (rest (c_string name))))
  some size

-- `IsValidIdentifier`
unfoldable pub is_valid_identifier : Option Bytes → ℕ → Bool → Option ℕ
is_valid_identifier name maximum module_name = do
  size ← get_bounded_string_length name maximum
  guard (all (is_identifier_char module_name) (take size (c_string name)))
  some size

-- `TraceNameBytes`
abbrev pub trace_name_bytes : Event → ℕ
trace_name_bytes e = e.header.module_name_length + e.header.api_name_length

-- The field header in the four bytes at a pointer.
unfoldable pub read_field_header : Bytes → FieldHeader
read_field_header cursor = record {
  tag = byte cursor;
  name_length = byte (rest cursor);
  value_size = le_value (take 2 (rest (rest cursor)));
}

-- The loop of `HasTraceField`: `count` fields left, from `cursor` on.
unfoldable pub has_field_from : ℕ → Bytes → Bytes → ℕ → Bool
has_field_from zero cursor name size = false
has_field_from (suc count) cursor name size =
    let field = read_field_header cursor in
    let value = drop field_header_bytes cursor in
    if field.name_length == size && is_zero (custom_mem_cmp value name size)
    then true
    else has_field_from count (drop (field.name_length + field.value_size) value) name size

-- `HasTraceField`
unfoldable pub has_trace_field : Event → Bytes → ℕ → Bool
has_trace_field e name size =
    has_field_from e.header.field_count (drop (trace_name_bytes e) e.payload) name size

-- `event->header.flags |= flag`
abbrev pub set_flag : ℕ → Event → Event
set_flag flag e = record e { header = record (e.header) { flags = bit_or e.header.flags flag } }

-- The tests on the header that `AppendTraceField` makes.
abbrev pub is_broken_header : Event → Bool
is_broken_header e =
    not (e.header.magic == trace_event_magic)
    || not (e.header.version == trace_event_version)
    || ltb e.header.size (event_header_bytes + trace_name_bytes e)
    || ltb trace_max_event_bytes e.header.size

-- The payload with a field header, a name and a value copied to `cursor`.
unfoldable pub put_field : Bytes → ℕ → FieldHeader → Bytes → Bytes → Bytes
put_field payload cursor field name value =
    copy_at
      (copy_at (copy_at payload cursor (field_header_memory field) field_header_bytes)
        (cursor + field_header_bytes) name field.name_length)
      (cursor + field_header_bytes + field.name_length) value field.value_size

-- `AppendTraceField` behind its checks of the header and of the name.
unfoldable pub append_checked : Event → ℕ → Bytes → ℕ → Bytes → ℕ → Event × Bool
append_checked e tag name name_length value value_size =
    let required = field_header_bytes + name_length + value_size in
    if ltb trace_max_event_bytes (e.header.size + required)
    then (set_flag flag_truncated e, false)
    else (
      record {
        header = record (e.header) {
          size = (e.header.size + required) % 2 ^ 16;
          field_count = (e.header.field_count + 1) % 2 ^ 16;
        };
        payload =
            put_field e.payload (e.header.size - event_header_bytes)
              (record { tag = tag; name_length = name_length; value_size = value_size }) name value;
      },
      true,
    )

-- `AppendTraceField`
unfoldable pub append_trace_field : Event → ℕ → Option Bytes → Option Bytes → ℕ → Event × Bool
append_trace_field e tag name none value_size = (set_flag flag_field_error e, false)
append_trace_field e tag name (some value) value_size =
    if is_broken_header e
    then (set_flag flag_field_error e, false)
    else elim (is_valid_field_name name) [
      | none ↦ (set_flag flag_field_error e, false)
      | some size ↦
          if has_trace_field e (c_string name) size
          then (set_flag flag_field_error e, false)
          else append_checked e tag (c_string name) size value value_size
    ]

-- `SharedSystemTime`, as one round of the loop of `GetSystemTime100nsFast` reads it.
pub record TimeSample : Type 0 where
  pub high_1 : ℕ
  pub low : ℕ
  pub high_2 : ℕ

-- `GetSystemTime100nsFast` over the rounds that it reads: `none` while it still waits.
unfoldable pub get_system_time : List TimeSample → Option ℕ
get_system_time [] = none
get_system_time (s ∷ samples) =
    if s.high_1 == s.high_2 then some (s.high_1 * 2 ^ 32 + s.low) else get_system_time samples

abbrev pub zero_header : Header
zero_header = record {
  magic = 0;
  version = 0;
  size = 0;
  flags = 0;
  field_count = 0;
  sequence = 0;
  timestamp = 0;
  thread_id = 0;
  module_name_length = 0;
  api_name_length = 0;
}

-- `InitializeTraceEvent` behind its checks; `payload` is zero.
unfoldable pub start_event : ℕ → ℕ → Bytes → Bytes → ℕ → Bytes → ℕ → Event
start_event thread_id timestamp payload module_name module_length api_name api_length = record {
  header = record {
    magic = trace_event_magic;
    version = trace_event_version;
    size = (event_header_bytes + module_length + api_length) % 2 ^ 16;
    flags = 0;
    field_count = 0;
    sequence = 0;
    timestamp = timestamp;
    thread_id = thread_id;
    module_name_length = module_length;
    api_name_length = api_length;
  };
  payload = copy_at (copy_at payload 0 module_name module_length) module_length api_name api_length;
}

-- `InitializeTraceEvent`. The thread's id and the time are what the two fast readers return.
unfoldable pub initialize_trace_event : ℕ → ℕ → Event → Option Bytes → Option Bytes → Event × Bool
initialize_trace_event thread_id timestamp e module_name api_name =
    let payload = custom_mem_set e.payload 0 payload_bytes in
    let blank : Event = record { header = zero_header; payload = payload } in
    elim (is_valid_identifier module_name trace_max_module_name_bytes true) [
      | none ↦ (set_flag flag_field_error blank, false)
      | some module_length ↦ elim (is_valid_identifier api_name trace_max_api_name_bytes false) [
        | none ↦ (set_flag flag_field_error blank, false)
        | some api_length ↦ (
          start_event thread_id timestamp payload (c_string module_name) module_length
              (c_string api_name) api_length,
          true,
        )
      ]
    ]

-- `AddTracePointer`
unfoldable pub add_trace_pointer : Event → Option Bytes → ℕ → Event × Bool
add_trace_pointer e name value = append_trace_field e type_pointer name (some (le_bytes 8 value)) 8

-- `AddTraceUInt32`
unfoldable pub add_trace_uint32 : Event → Option Bytes → ℕ → Event × Bool
add_trace_uint32 e name value = append_trace_field e type_uint32 name (some (le_bytes 4 value)) 4

-- `AddTraceUInt64`
unfoldable pub add_trace_uint64 : Event → Option Bytes → ℕ → Event × Bool
add_trace_uint64 e name value = append_trace_field e type_uint64 name (some (le_bytes 8 value)) 8

-- `AddTraceInt32`, of the value's bit pattern
unfoldable pub add_trace_int32 : Event → Option Bytes → ℕ → Event × Bool
add_trace_int32 e name value = append_trace_field e type_int32 name (some (le_bytes 4 value)) 4

-- `AddTraceInt64`, of the value's bit pattern
unfoldable pub add_trace_int64 : Event → Option Bytes → ℕ → Event × Bool
add_trace_int64 e name value = append_trace_field e type_int64 name (some (le_bytes 8 value)) 8

-- `AddTraceBoolean`
unfoldable pub add_trace_boolean : Event → Option Bytes → Bool → Event × Bool
add_trace_boolean e name value =
    append_trace_field e type_boolean name (some ((if value then 1 else 0) ∷ [])) 1

-- `AddTraceStatus`, of the status's bit pattern
unfoldable pub add_trace_status : Event → Option Bytes → ℕ → Event × Bool
add_trace_status e name value = append_trace_field e type_status name (some (le_bytes 4 value)) 4
