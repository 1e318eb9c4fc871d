-- ===== src/Renderer/Parse.antt =====
-- apiscope/trace_renderer.cpp, lines 22 to 26, 183 to 337 and 393 to 395: how a received event is
-- taken apart. A cursor is an offset into the payload; a pointer is the bytes from it on.
use apiscope.Prelude.{
  Bool, Bytes, List, Option, [], all, bytes_eq, drop, false, guard, if◌then◌else◌, le_value, leb,
  ltb, none, not, some, suc, take, true, zero, ℕ, ◌%◌, ◌&&◌, ◌++◌, ◌+◌, ◌-◌, ◌==◌, ◌>>=◌, ◌>>◌,
  ◌||◌, ◌∷◌,
}
use apiscope.Memory.{byte, rest}
use apiscope.Protocol.{
  Event, bytes_header_bytes, event_header_bytes, field_header_bytes, trace_event_magic,
  trace_event_version, trace_max_api_name_bytes, trace_max_buffer_bytes, trace_max_event_bytes,
  trace_max_field_name_bytes, trace_max_module_name_bytes, trace_max_string_bytes, type_boolean,
  type_bytes, type_int32, type_int64, type_pointer, type_status, type_uint32, type_uint64,
  type_wide_string,
}
use apiscope.Transport.{
  is_field_char, is_identifier_char, is_lower, read_field_header, trace_name_bytes,
}

-- `TraceFieldView`: the header's sizes are the lengths of the name and of the value, and the value
-- is the bytes that its pointer and its size delimit.
pub record FieldView : Type 0 where
  pub tag : ℕ
  pub name : Bytes
  pub value : Bytes

-- `IsValidIdentifier` of bytes with a length
unfoldable pub is_valid_identifier_bytes : Bytes → ℕ → Bool → Bool
is_valid_identifier_bytes name size module_name =
    let maximum = if module_name then trace_max_module_name_bytes else trace_max_api_name_bytes in
    if size == 0 || ltb maximum size
    then false
    else all (is_identifier_char module_name) (take size name)

-- `IsValidFieldName` of bytes with a length
unfoldable pub is_valid_field_name_bytes : Bytes → ℕ → Bool
is_valid_field_name_bytes name size =
    if size == 0 || ltb trace_max_field_name_bytes size
    then false
    else if not (is_lower (byte name))
    then false
    else all is_field_char (take (size - 1) (rest name))

-- `ReadUInt32`
unfoldable pub read_uint32 : Bytes → ℕ
read_uint32 value = le_value (take 4 value)

-- `ReadUInt64`
unfoldable pub read_uint64 : Bytes → ℕ
read_uint64 value = le_value (take 8 value)

-- `TraceBytesHeader`
pub record BytesHeader : Type 0 where
  pub requested : ℕ
  pub captured : ℕ
  pub capture_status : ℕ

-- `ReadBytesHeader`
unfoldable pub read_bytes_header : Bytes → BytesHeader
unfolding read_uint32
read_bytes_header value = record {
  requested = read_uint32 value;
  captured = read_uint32 (drop 4 value);
  capture_status = read_uint32 (drop 8 value);
}

-- `HasExpectedValueSize`
unfoldable pub has_expected_value_size : ℕ → Bytes → ℕ → Bool
has_expected_value_size tag value value_size =
    if tag == type_pointer || tag == type_uint64 || tag == type_int64
    then value_size == 8
    else if tag == type_uint32 || tag == type_status || tag == type_int32
    then value_size == 4
    else if tag == type_boolean
    then value_size == 1 && (byte value == 0 || byte value == 1)
    else if tag == type_bytes
    then (if ltb value_size bytes_header_bytes
        then false
        else let bytes = read_bytes_header value in
          leb bytes.captured trace_max_buffer_bytes
          && leb bytes.captured bytes.requested
          && value_size == bytes_header_bytes + bytes.captured)
    else if tag == type_wide_string
    then value_size % 2 == 0 && leb value_size trace_max_string_bytes
    else true

-- The test for a name that an earlier field has.
unfoldable pub is_name_used : List FieldView → Bytes → Bool
is_name_used [] name = false
is_name_used (f ∷ fields) name = bytes_eq name f.name || is_name_used fields name

-- One round of the loop over the fields: the new cursor and the field.
unfoldable pub parse_field : Bytes → ℕ → ℕ → List FieldView → Option (ℕ × FieldView)
parse_field payload stop cursor parsed = do
  guard (leb field_header_bytes (stop - cursor))
  let field = read_field_header (drop cursor payload)
  let name_at = cursor + field_header_bytes
  guard (leb (field.name_length + field.value_size) (stop - name_at))
  guard (is_valid_field_name_bytes (drop name_at payload) field.name_length)
  let name = take field.name_length (drop name_at payload)
  guard (not (is_name_used parsed name))
  let value_at = name_at + field.name_length
  guard (has_expected_value_size field.tag (drop value_at payload) field.value_size)
  some (
    value_at + field.value_size,
    record { tag = field.tag; name = name; value = take field.value_size (drop value_at payload) },
  )

-- The loop over the fields: `count` to go, behind `parsed`.
unfoldable pub parse_fields : Bytes → ℕ → ℕ → ℕ → List FieldView → Option (ℕ × List FieldView)
parse_fields payload stop zero cursor parsed = some (cursor, parsed)
parse_fields payload stop (suc count) cursor parsed =
    elim (parse_field payload stop cursor parsed) [
      | none ↦ none
      | some (next, field) ↦ parse_fields payload stop count next (parsed ++ field ∷ [])
    ]

-- What `ParseTraceEvent` stores through its three pointers.
pub record Parsed : Type 0 where
  pub module_name : Bytes
  pub api_name : Bytes
  pub fields : List FieldView

-- `ParseTraceEvent`
unfoldable pub parse_trace_event : Event → ℕ → Option Parsed
parse_trace_event e bytes_received = do
  guard (leb event_header_bytes bytes_received)
  guard (e.header.magic == trace_event_magic)
  guard (e.header.version == trace_event_version)
  guard (e.header.size == bytes_received)
  guard (leb e.header.size trace_max_event_bytes)
  guard (leb (event_header_bytes + trace_name_bytes e) e.header.size)
  guard (is_valid_identifier_bytes e.payload e.header.module_name_length true)
  let api_at = drop e.header.module_name_length e.payload
  guard (is_valid_identifier_bytes api_at e.header.api_name_length false)
  let stop = e.header.size - event_header_bytes
  (cursor, fields) ← parse_fields e.payload stop e.header.field_count (trace_name_bytes e) []
  guard (cursor == stop)
  some (record {
    module_name = take e.header.module_name_length e.payload;
    api_name = take e.header.api_name_length api_at;
    fields = fields;
  })

-- `IsValidTraceEvent`
unfoldable pub is_valid_trace_event : Event → ℕ → Bool
is_valid_trace_event e bytes_received = elim (parse_trace_event e bytes_received) [
  | none ↦ false
  | some parsed ↦ true
]
