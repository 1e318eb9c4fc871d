-- ===== src/Renderer/Text.antt =====
-- src/apiscope/trace_renderer.cpp: the text form of an event.
use apiscope.Prelude.{
  Bool, Bytes, List, Option, [], codes, drop, if◌then◌else◌, length, ltb, none, not, replicate,
  some, take, true, ℕ, ◌++◌, ◌+◌, ◌-◌, ◌==◌, ◌^◌, ◌∷◌,
}
use apiscope.Memory.{byte}
use apiscope.Protocol.{
  Event, bytes_header_bytes, flag_field_error, flag_truncated, type_boolean, type_bytes, type_int32,
  type_int64, type_pointer, type_status, type_uint32, type_uint64, type_wide_string,
}
use apiscope.Renderer.Format.{
  SystemTime, format_pointer, format_status, format_timestamp, has_flag, hex_bytes, preview_text,
  signed_string, true_or_false, wide_to_utf8,
}
use apiscope.Renderer.Parse.{
  FieldView, parse_trace_event, read_bytes_header, read_uint32, read_uint64,
}
use apiscope.Stats.{to_string}

-- `PutColor`
abbrev pub put_color : Bool → Bytes → Bytes
put_color use_color code = if use_color then code else []

abbrev pub color_reset : Bytes
color_reset = 27 ∷ codes "[0m"

abbrev pub color_api : Bytes
color_api = 27 ∷ codes "[36;1m"

abbrev pub color_ok : Bytes
color_ok = 27 ∷ codes "[32m"

abbrev pub color_error : Bytes
color_error = 27 ∷ codes "[31m"

abbrev pub color_path : Bytes
color_path = 27 ∷ codes "[32m"

abbrev pub color_dim : Bytes
color_dim = 27 ∷ codes "[2m"

abbrev pub maximum : ℕ → ℕ → ℕ
maximum a b = if ltb a b then b else a

-- The loop of `TextLabelWidth`
unfoldable pub label_width_of : List FieldView → ℕ → ℕ
label_width_of [] width = width
label_width_of (field ∷ fields) width =
    let named = maximum width (length field.name) in
    let next =
      if field.tag == type_bytes
      then maximum (maximum named (length field.name + 6)) (length field.name + 7)
      else named in
    label_width_of fields next

-- `TextLabelWidth`
unfoldable pub text_label_width : List FieldView → Event → ℕ
text_label_width fields e =
    let of_fields = label_width_of fields 9 in
    let truncated = if has_flag e flag_truncated then maximum of_fields 9 else of_fields in
    if has_flag e flag_field_error then maximum truncated 11 else truncated

-- `RenderTextLabel`
unfoldable pub render_text_label : Bytes → ℕ → Bytes
render_text_label name width =
    codes "    " ++ name ++ replicate (width - length name) b' ' ++ codes ": "

-- The color of a status, which is an error when its sign bit is set.
abbrev pub status_color : ℕ → Bytes
status_color status = if ltb status (2 ^ 31) then color_ok else color_error

abbrev pub new_line : Bytes
new_line = 10 ∷ []

-- `RenderBytesText`
unfoldable pub render_bytes_text : FieldView → ℕ → Bool → Bytes
render_bytes_text field width use_color =
    let bytes = read_bytes_header field.value in
    let preview = take bytes.captured (drop bytes_header_bytes field.value) in
    let is_truncated = ltb bytes.captured bytes.requested in
    render_text_label (field.name ++ codes "_hex") width
    ++ hex_bytes true preview
    ++ (if is_truncated then codes " ..." else [])
    ++ new_line
    ++ render_text_label (field.name ++ codes "_ascii") width
    ++ preview_text preview
    ++ (if is_truncated then codes "..." else [])
    ++ new_line
    ++ render_text_label (field.name ++ codes "_size") width
    ++ to_string bytes.captured
    ++ codes " of "
    ++ to_string bytes.requested
    ++ codes " bytes"
    ++ new_line
    ++ render_text_label (field.name ++ codes "_status") width
    ++ put_color use_color (status_color bytes.capture_status)
    ++ format_status bytes.capture_status
    ++ put_color use_color color_reset
    ++ new_line

module _ (file_time_to_system_time : ℕ → Option SystemTime)
    (wide_char_to_multi_byte : List ℕ → Bytes) where
  -- The value of a field that is not a buffer.
  unfoldable pub render_value_text : FieldView → Bool → Bytes
  render_value_text field use_color =
      let tag = field.tag in
      let status = read_uint32 field.value in
      if tag == type_pointer
      then format_pointer (read_uint64 field.value)
      else if tag == type_uint32
      then to_string (read_uint32 field.value)
      else if tag == type_uint64
      then to_string (read_uint64 field.value)
      else if tag == type_int32
      then signed_string 32 (read_uint32 field.value)
      else if tag == type_int64
      then signed_string 64 (read_uint64 field.value)
      else if tag == type_boolean
      then true_or_false (not (byte field.value == 0))
      else if tag == type_status
      then put_color use_color (status_color status)
        ++ format_status status
        ++ put_color use_color color_reset
      else if tag == type_wide_string
      then put_color use_color color_path
        ++ wide_to_utf8 wide_char_to_multi_byte field.value
        ++ put_color use_color color_reset
      else codes "type_" ++ to_string tag ++ codes " " ++ hex_bytes true field.value

  unfoldable pub render_field_text : FieldView → ℕ → Bool → Bytes
  render_field_text field width use_color =
      if field.tag == type_bytes
      then render_bytes_text field width use_color
      else render_text_label field.name width ++ render_value_text field use_color ++ new_line

  unfoldable pub render_fields_text : List FieldView → ℕ → Bool → Bytes
  render_fields_text [] width use_color = []
  render_fields_text (field ∷ fields) width use_color =
      render_field_text field width use_color ++ render_fields_text fields width use_color

  -- A line of the header.
  abbrev pub dim_line : Bytes → ℕ → Bool → Bytes → Bytes
  dim_line name width use_color value =
      render_text_label name width
      ++ put_color use_color color_dim
      ++ value
      ++ put_color use_color color_reset
      ++ new_line

  -- A line of a flag that is set.
  abbrev pub flag_line : Event → ℕ → Bytes → ℕ → Bytes
  flag_line e flag name width =
      if has_flag e flag then render_text_label name width ++ codes "true" ++ new_line else []

  -- `RenderTraceEventText`
  unfoldable pub render_trace_event_text : Event → Bool → Bytes
  render_trace_event_text e use_color = elim (parse_trace_event e e.header.size) [
    | none ↦ []
    | some parsed ↦
        let width = text_label_width parsed.fields e in
        new_line
        ++ codes "[*] "
        ++ put_color use_color color_api
        ++ parsed.module_name
        ++ codes "!"
        ++ parsed.api_name
        ++ put_color use_color color_reset
        ++ codes " ----------"
        ++ new_line
        ++ dim_line (codes "timestamp") width use_color
            (format_timestamp file_time_to_system_time e.header.timestamp)
        ++ dim_line (codes "thread_id") width use_color (to_string e.header.thread_id)
        ++ dim_line (codes "sequence") width use_color (to_string e.header.sequence)
        ++ render_fields_text parsed.fields width use_color
        ++ flag_line e flag_truncated (codes "truncated") width
        ++ flag_line e flag_field_error (codes "field_error") width
  ]
