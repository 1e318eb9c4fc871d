-- ===== src/Renderer/Jsonl.antt =====
-- src/apiscope/trace_renderer.cpp: the JSON form of an event.
use apiscope.Prelude.{
  Bytes, List, Option, [], codes, drop, false, if◌then◌else◌, none, not, some, take, ℕ, ◌++◌, ◌==◌,
  ◌∷◌,
}
use apiscope.Memory.{byte}
use apiscope.Protocol.{
  Event, bytes_header_bytes, flag_field_error, flag_truncated, type_boolean, type_bytes, type_int32,
  type_int64, type_pointer, type_status, type_uint32, type_uint64, type_wide_string,
}
use apiscope.Renderer.Format.{
  SystemTime, format_pointer, format_status, format_timestamp, has_flag, hex_bytes, json_escape,
  preview_text, signed_string, true_or_false, wide_to_utf8,
}
use apiscope.Renderer.Parse.{
  FieldView, Parsed, parse_trace_event, read_bytes_header, read_uint32, read_uint64,
}
use apiscope.Stats.{to_string}

abbrev pub json_schema_version : ℕ
json_schema_version = 1

abbrev pub quoted : Bytes → Bytes
quoted text = b'"' ∷ text ++ b'"' ∷ []

-- A member of an object: a name that needs no escape, and a value.
abbrev pub member : Bytes → Bytes → Bytes
member name value = quoted name ++ b':' ∷ value

module _ (file_time_to_system_time : ℕ → Option SystemTime)
    (wide_char_to_multi_byte : List ℕ → Bytes) where
  abbrev pub render_bytes_json : Bytes → Bytes
  render_bytes_json value =
      let bytes = read_bytes_header value in
      let preview = take bytes.captured (drop bytes_header_bytes value) in
      codes "{"
      ++ member (codes "type") (quoted (codes "bytes"))
      ++ codes ","
      ++ member (codes "requested") (to_string bytes.requested)
      ++ codes ","
      ++ member (codes "captured") (to_string bytes.captured)
      ++ codes ","
      ++ member (codes "status") (quoted (format_status bytes.capture_status))
      ++ codes ","
      ++ member (codes "hex") (quoted (hex_bytes false preview))
      ++ codes ","
      ++ member (codes "ascii") (quoted (json_escape (preview_text preview)))
      ++ codes "}"

  -- The value of a field.
  unfoldable pub render_value_json : ℕ → Bytes → Bytes
  render_value_json tag value =
      if tag == type_pointer
      then quoted (format_pointer (read_uint64 value))
      else if tag == type_uint64
      then to_string (read_uint64 value)
      else if tag == type_uint32
      then to_string (read_uint32 value)
      else if tag == type_int32
      then signed_string 32 (read_uint32 value)
      else if tag == type_int64
      then signed_string 64 (read_uint64 value)
      else if tag == type_boolean
      then true_or_false (not (byte value == 0))
      else if tag == type_status
      then quoted (format_status (read_uint32 value))
      else if tag == type_wide_string
      then quoted (json_escape (wide_to_utf8 wide_char_to_multi_byte value))
      else if tag == type_bytes
      then render_bytes_json value
      else codes "{"
        ++ member (codes "type") (quoted (codes "unknown_" ++ to_string tag))
        ++ codes ","
        ++ member (codes "hex") (quoted (hex_bytes false value))
        ++ codes "}"

  unfoldable pub render_fields_json : List FieldView → Bytes
  render_fields_json [] = []
  render_fields_json (field ∷ []) = member field.name (render_value_json field.tag field.value)
  render_fields_json (field ∷ (next ∷ fields)) =
      member field.name (render_value_json field.tag field.value)
      ++ codes ","
      ++ render_fields_json (next ∷ fields)

  -- The members of an event's object before its hook.
  unfoldable pub render_header_json : Event → Parsed → Bytes
  render_header_json e parsed =
      codes "{"
      ++ member (codes "schema_version") (to_string json_schema_version)
      ++ codes ","
      ++ member (codes "sequence") (to_string e.header.sequence)
      ++ codes ","
      ++ member (codes "timestamp")
          (quoted (format_timestamp file_time_to_system_time e.header.timestamp))
      ++ codes ","
      ++ member (codes "timestamp_100ns") (to_string e.header.timestamp)
      ++ codes ","
      ++ member (codes "thread_id") (to_string e.header.thread_id)
      ++ codes ","
      ++ member (codes "module") (quoted (json_escape parsed.module_name))
      ++ codes ","
      ++ member (codes "api") (quoted (json_escape parsed.api_name))
      ++ codes ","

  -- The object of an event, without its last two brackets and the end of its line.
  unfoldable pub render_open_object : Event → Parsed → Bytes
  render_open_object e parsed =
      render_header_json e parsed
      ++ member (codes "hook")
          (quoted (json_escape (parsed.module_name ++ codes "!" ++ parsed.api_name)))
      ++ codes ","
      ++ member (codes "truncated") (true_or_false (has_flag e flag_truncated))
      ++ codes ","
      ++ member (codes "field_error") (true_or_false (has_flag e flag_field_error))
      ++ codes ","
      ++ member (codes "fields") (codes "{" ++ render_fields_json parsed.fields)

  unfoldable pub render_object : Event → Parsed → Bytes
  render_object e parsed = render_open_object e parsed ++ codes "}}"

  -- `RenderTraceEventJsonl`
  unfoldable pub render_trace_event_jsonl : Event → Bytes
  render_trace_event_jsonl e = elim (parse_trace_event e e.header.size) [
    | none ↦ []
    | some parsed ↦ render_object e parsed ++ 10 ∷ []
  ]
