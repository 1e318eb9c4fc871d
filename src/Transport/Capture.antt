-- ===== src/Transport/Capture.antt =====
-- apiscope-hooks/trace_transport.cpp, lines 11 to 12 and 225 to 328: previews of the traced
-- process's own memory. An address is a number, 0 for a null pointer.
use apiscope.Prelude.{
  Bool, Bytes, Option, [], codes, drop, if◌then◌else◌, le_bytes, le_value, length, ltb, none, not,
  replicate, some, take, ℕ, ◌%◌, ◌&&◌, ◌*◌, ◌++◌, ◌+◌, ◌/◌, ◌==◌, ◌^◌, ◌||◌, ◌∷◌,
}
use apiscope.Protocol.{
  Event, bytes_header_bytes, flag_truncated, nt_success, trace_max_buffer_bytes,
  trace_max_string_bytes, type_bytes, type_wide_string,
}
use apiscope.Transport.{add_trace_pointer, append_trace_field, set_flag}

abbrev pub status_not_configured : ℕ
status_not_configured = 0xC0000184

abbrev pub status_read_failed : ℕ
status_read_failed = 0xC0000001

-- What a call of NtReadVirtualMemory returns and the bytes that it has written to the destination.
pub record Reply : Type 0 where
  pub status : ℕ
  pub captured : ℕ
  pub bytes : Bytes

-- The system call behind `TransportNtReadVirtualMemory`: an address and a length.
abbrev pub ReadMemory : Type 0
ReadMemory = ℕ → ℕ → Reply

-- A destination buffer after a call that wrote `bytes` to its start.
abbrev pub written : Bytes → Bytes → Bytes
written dest bytes = bytes ++ drop (length bytes) dest

-- `InvokeSelfRead`; no caller passes a null destination.
unfoldable pub invoke_self_read : Option ReadMemory → ℕ → ℕ → Reply
invoke_self_read none source size = record {
  status = status_not_configured;
  captured = 0;
  bytes = [];
}
invoke_self_read (some read_memory) source size =
    if source == 0 || size == 0
    then record { status = status_not_configured; captured = 0; bytes = [] }
    else read_memory source size

-- `SafeReadSelf`: the status and the destination afterwards.
unfoldable pub safe_read_self : Option ReadMemory → Bytes → ℕ → ℕ → ℕ × Bytes
safe_read_self read_memory dest source size =
    let reply = invoke_self_read read_memory source size in
    let status =
      if nt_success reply.status && not (reply.captured == size)
      then status_read_failed
      else reply.status in
    (status, written dest reply.bytes)

-- `TraceBytesValue`
pub record BytesValue : Type 0 where
  pub requested : ℕ
  pub captured : ℕ
  pub capture_status : ℕ
  pub bytes : Bytes

abbrev pub bytes_value_memory : BytesValue → Bytes
bytes_value_memory v =
    le_bytes 4 v.requested ++ (le_bytes 4 v.captured ++ (le_bytes 4 v.capture_status ++ v.bytes))

-- `CaptureTraceBuffer`
unfoldable pub capture_trace_buffer : Option ReadMemory → ℕ → ℕ → BytesValue
capture_trace_buffer read_memory buffer size =
    let zeros = replicate trace_max_buffer_bytes 0 in
    if buffer == 0 || size == 0
    then record { requested = size; captured = 0; capture_status = 0; bytes = zeros }
    else let capture_length =
        if ltb size trace_max_buffer_bytes then size else trace_max_buffer_bytes in
      let reply = invoke_self_read read_memory buffer capture_length in
      record {
        requested = size;
        captured = if ltb reply.captured capture_length then reply.captured else capture_length;
        capture_status = reply.status;
        bytes = written zeros reply.bytes;
      }

-- `AddTraceBufferPreview`
unfoldable pub add_trace_buffer_preview :
    Option ReadMemory → Event → Option Bytes → ℕ → ℕ → Event × Bool
add_trace_buffer_preview read_memory e name buffer size =
    let preview = capture_trace_buffer read_memory buffer size in
    append_trace_field e type_bytes name (some (bytes_value_memory preview))
      ((bytes_header_bytes + preview.captured) % 2 ^ 16)

-- `AddTraceWideString`: the value is the bytes of its UTF-16 units, two for each.
unfoldable pub add_trace_wide_string : Event → Option Bytes → Option Bytes → ℕ → Event × Bool
add_trace_wide_string e name none char_count =
    append_trace_field e type_wide_string name (some (0 ∷ 0 ∷ [])) 0
add_trace_wide_string e name (some value) char_count =
    if ltb (trace_max_string_bytes / 2) char_count
    then append_trace_field (set_flag flag_truncated e) type_wide_string name (some value)
        (trace_max_string_bytes / 2 * 2 % 2 ^ 16)
    else append_trace_field e type_wide_string name (some value) (char_count * 2 % 2 ^ 16)

-- `AddTraceUnicodeString`. A UNICODE_STRING has its length in the first two bytes, and the address
-- of its text in the last eight of sixteen.
unfoldable pub add_trace_unicode_string :
    Option ReadMemory → Event → Option Bytes → ℕ → Event × Bool
add_trace_unicode_string read_memory e name unicode_string =
    let (status, header) = safe_read_self read_memory (replicate 16 0) unicode_string 16 in
    if unicode_string == 0 || not (nt_success status)
    then add_trace_wide_string e name none 0
    else let even = le_value (take 2 header) / 2 * 2 in
      let too_long = ltb trace_max_string_bytes even in
      let byte_length = if too_long then trace_max_string_bytes else even in
      let flagged = if too_long then set_flag flag_truncated e else e in
      let text = le_value (take 8 (drop 8 header)) in
      let (text_status, buffer) =
        safe_read_self read_memory (replicate trace_max_string_bytes 0) text byte_length in
      if text == 0 || byte_length == 0 || not (nt_success text_status)
      then add_trace_wide_string flagged name none 0
      else add_trace_wide_string flagged name (some buffer) (byte_length / 2)

abbrev pub root_directory_name : Bytes
root_directory_name = codes "root_directory"

-- `AddTraceObjectPath`. OBJECT_ATTRIBUTES has `RootDirectory` at 8 and `ObjectName` at 16 of 48.
unfoldable pub add_trace_object_path : Option ReadMemory → Event → Option Bytes → ℕ → Event × Bool
add_trace_object_path read_memory e name object_attributes =
    let (status, header) = safe_read_self read_memory (replicate 48 0) object_attributes 48 in
    if object_attributes == 0 || not (nt_success status)
    then add_trace_wide_string e name none 0
    else let root_directory = le_value (take 8 (drop 8 header)) in
      let rooted =
        if root_directory == 0
        then e
        else (add_trace_pointer e (some root_directory_name) root_directory).0 in
      add_trace_unicode_string read_memory rooted name (le_value (take 8 (drop 16 header)))
