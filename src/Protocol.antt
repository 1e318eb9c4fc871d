-- ===== src/Protocol.antt =====
-- src/include/trace_protocol.h and src/include/trace_ring.h: sizes, tags and the layout of `TraceEvent`, a
-- header of 32 bytes as a record and the payload as the list of its 992 bytes.
use apiscope.Prelude.{Bool, Bytes, le_bytes, ltb, ℕ, ◌^◌, ◌∷◌}

abbrev pub trace_event_magic : ℕ
trace_event_magic = 0x53495041

abbrev pub trace_event_version : ℕ
trace_event_version = 6

-- `TRACE_MAX_EVENT_BYTES`, also `sizeof(TraceEvent)`
abbrev pub trace_max_event_bytes : ℕ
trace_max_event_bytes = 1024

abbrev pub trace_max_module_name_bytes : ℕ
trace_max_module_name_bytes = 63

abbrev pub trace_max_api_name_bytes : ℕ
trace_max_api_name_bytes = 63

abbrev pub trace_max_field_name_bytes : ℕ
trace_max_field_name_bytes = 63

abbrev pub trace_max_buffer_bytes : ℕ
trace_max_buffer_bytes = 64

abbrev pub trace_max_string_bytes : ℕ
trace_max_string_bytes = 512

-- `sizeof(TraceEventHeader)`
abbrev pub event_header_bytes : ℕ
event_header_bytes = 32

-- `sizeof(TraceFieldHeader)`
abbrev pub field_header_bytes : ℕ
field_header_bytes = 4

-- `sizeof(TraceBytesHeader)`
abbrev pub bytes_header_bytes : ℕ
bytes_header_bytes = 12

-- `sizeof(TraceEvent::payload)`
abbrev pub payload_bytes : ℕ
payload_bytes = 992

-- `TraceEventFlags`
abbrev pub flag_truncated : ℕ
flag_truncated = 1

abbrev pub flag_field_error : ℕ
flag_field_error = 2

-- `TraceFieldType`
abbrev pub type_pointer : ℕ
type_pointer = 1

abbrev pub type_uint32 : ℕ
type_uint32 = 2

abbrev pub type_uint64 : ℕ
type_uint64 = 3

abbrev pub type_status : ℕ
type_status = 4

abbrev pub type_bytes : ℕ
type_bytes = 5

abbrev pub type_int32 : ℕ
type_int32 = 6

abbrev pub type_int64 : ℕ
type_int64 = 7

abbrev pub type_boolean : ℕ
type_boolean = 8

abbrev pub type_wide_string : ℕ
type_wide_string = 9

-- `TraceEventHeader`, less `reserved`, which nothing reads
pub record Header : Type 0 where
  pub magic : ℕ
  pub version : ℕ
  pub size : ℕ
  pub flags : ℕ
  pub field_count : ℕ
  pub sequence : ℕ
  pub timestamp : ℕ
  pub thread_id : ℕ
  pub module_name_length : ℕ
  pub api_name_length : ℕ

-- `TraceEvent`
pub record Event : Type 0 where
  pub header : Header
  pub payload : Bytes

-- `TraceFieldHeader`
pub record FieldHeader : Type 0 where
  pub tag : ℕ
  pub name_length : ℕ
  pub value_size : ℕ

-- The four bytes of a field header in memory.
abbrev pub field_header_memory : FieldHeader → Bytes
field_header_memory h = h.tag ∷ h.name_length ∷ le_bytes 2 h.value_size

-- NT_SUCCESS of a status given as its 32-bit pattern.
abbrev pub nt_success : ℕ → Bool
nt_success status = ltb status (2 ^ 31)
