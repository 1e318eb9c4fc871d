-- ===== src/Handlers.antt =====
-- apiscope-hooks/hooks/: the nine handlers that stand in for API functions. Each makes an event,
-- calls the original through its trampoline, adds what the original has answered and emits the
-- event. A pointer is its address; the original is what it returns and leaves in memory.
use Prim.Native.String.{String}
pub mod Valid
use apiscope.Prelude.{
  Bytes, List, Option, [], codes, if◌then◌else◌, ltb, not, some, ℕ, ◌&&◌, ◌++◌, ◌==◌, ◌∷◌,
}
use apiscope.Encoding.Calls.{
  Call, buffer_preview, object_path, pointer, run_calls, status, uint32, unicode_string,
}
use apiscope.Protocol.{Event, nt_success}
use apiscope.Transport.{initialize_trace_event}
use apiscope.Transport.Capture.{ReadMemory}

-- What one call meets: the fields that InitializeTraceEvent fills in from outside, the stack that
-- the event comes to stand on, the memory before and after the original, and its result.
pub record Situation : Type 0 where
  pub thread_id : ℕ
  pub timestamp : ℕ
  pub stack : Event
  pub before : Option ReadMemory
  pub after : Option ReadMemory
  pub result : ℕ

abbrev pub named : String → Option Bytes
named s = some (codes s)

-- `*handle` behind the original: null where the original fails or there is no place for it.
abbrev pub opened_handle : Situation → ℕ → ℕ → ℕ
opened_handle s place stored = if nt_success s.result && not (place == 0) then stored else 0

-- The event that a handler emits: its calls before the original, and those behind it.
unfoldable pub traced : Situation → String → String → List Call → List Call → Event
traced s module_name api_name first later =
    let started =
      initialize_trace_event s.thread_id s.timestamp s.stack (named module_name) (named api_name) in
    run_calls s.after (run_calls s.before started.0 first) later

-- `BCryptOpenAlgorithmProviderHandler`
unfoldable pub bcrypt_open_algorithm_provider : Situation → ℕ → ℕ → ℕ → ℕ → Event
bcrypt_open_algorithm_provider s algorithm algorithm_id implementation flags =
    traced s "bcrypt.dll" "BCryptOpenAlgorithmProvider"
      (pointer (named "algorithm") algorithm
        ∷ pointer (named "algorithm_id") algorithm_id
        ∷ pointer (named "implementation") implementation
        ∷ uint32 (named "flags") flags
        ∷ [])
      (status (named "result") s.result ∷ [])

-- `NtCloseHandler`
unfoldable pub nt_close : Situation → ℕ → Event
nt_close s handle =
    traced s "ntdll.dll" "NtClose" (pointer (named "handle") handle ∷ [])
      (status (named "result") s.result ∷ [])

-- The arguments of `NtCreateFile` that its handler reads.
pub record CreateFile : Type 0 where
  pub file_handle : ℕ
  pub desired_access : ℕ
  pub object_attributes : ℕ
  pub io_status_block : ℕ
  pub allocation_size : ℕ
  pub file_attributes : ℕ
  pub share_access : ℕ
  pub create_disposition : ℕ
  pub create_options : ℕ
  pub ea_buffer : ℕ
  pub ea_length : ℕ

-- `NtCreateFileHandler`, with what the original stores at `FileHandle`
unfoldable pub nt_create_file : Situation → CreateFile → ℕ → Event
nt_create_file s a stored =
    traced s "ntdll.dll" "NtCreateFile"
      (uint32 (named "desired_access") a.desired_access
        ∷ object_path (named "path") a.object_attributes
        ∷ pointer (named "io_status_block") a.io_status_block
        ∷ pointer (named "allocation_size") a.allocation_size
        ∷ uint32 (named "file_attributes") a.file_attributes
        ∷ uint32 (named "share_access") a.share_access
        ∷ uint32 (named "create_disposition") a.create_disposition
        ∷ uint32 (named "create_options") a.create_options
        ∷ pointer (named "ea_buffer") a.ea_buffer
        ∷ uint32 (named "ea_length") a.ea_length
        ∷ [])
      (pointer (named "file_handle") (opened_handle s a.file_handle stored)
        ∷ status (named "result") s.result
        ∷ [])

-- `NtOpenFileHandler`
unfoldable pub nt_open_file : Situation → ℕ → ℕ → ℕ → ℕ → ℕ → ℕ → ℕ → Event
nt_open_file s file_handle desired_access object_attributes io_status_block share_access
      open_options stored =
    traced s "ntdll.dll" "NtOpenFile"
      (uint32 (named "desired_access") desired_access
        ∷ object_path (named "path") object_attributes
        ∷ pointer (named "io_status_block") io_status_block
        ∷ uint32 (named "share_access") share_access
        ∷ uint32 (named "open_options") open_options
        ∷ [])
      (pointer (named "file_handle") (opened_handle s file_handle stored)
        ∷ status (named "result") s.result
        ∷ [])

-- `NtOpenKeyHandler`
unfoldable pub nt_open_key : Situation → ℕ → ℕ → ℕ → ℕ → Event
nt_open_key s key_handle desired_access object_attributes stored =
    traced s "ntdll.dll" "NtOpenKey"
      (uint32 (named "desired_access") desired_access
        ∷ object_path (named "path") object_attributes
        ∷ [])
      (pointer (named "key_handle") (opened_handle s key_handle stored)
        ∷ status (named "result") s.result
        ∷ [])

-- `NtQueryValueKeyHandler`
unfoldable pub nt_query_value_key : Situation → ℕ → ℕ → ℕ → ℕ → Event
nt_query_value_key s key_handle value_name info_class size =
    traced s "ntdll.dll" "NtQueryValueKey"
      (pointer (named "key_handle") key_handle
        ∷ unicode_string (named "value_name") value_name
        ∷ uint32 (named "info_class") info_class
        ∷ uint32 (named "length") size
        ∷ [])
      (status (named "result") s.result ∷ [])

-- `NtSetValueKeyHandler`
unfoldable pub nt_set_value_key : Situation → ℕ → ℕ → ℕ → ℕ → ℕ → Event
nt_set_value_key s key_handle value_name kind data_ data_size =
    traced s "ntdll.dll" "NtSetValueKey"
      (pointer (named "key_handle") key_handle
        ∷ unicode_string (named "value_name") value_name
        ∷ uint32 (named "type") kind
        ∷ uint32 (named "data_size") data_size
        ∷ buffer_preview (named "data") data_ data_size
        ∷ [])
      (status (named "result") s.result ∷ [])

-- The arguments of `NtReadFile` and `NtWriteFile`
pub record Transfer : Type 0 where
  pub file_handle : ℕ
  pub event : ℕ
  pub apc_routine : ℕ
  pub apc_context : ℕ
  pub io_status_block : ℕ
  pub buffer : ℕ
  pub size : ℕ
  pub byte_offset : ℕ
  pub key : ℕ

-- The nine calls that the two handlers have in common.
abbrev pub transfer_calls : Transfer → List Call
transfer_calls a =
    pointer (named "file_handle") a.file_handle
    ∷ pointer (named "event") a.event
    ∷ pointer (named "apc_routine") a.apc_routine
    ∷ pointer (named "apc_context") a.apc_context
    ∷ pointer (named "io_status_block") a.io_status_block
    ∷ pointer (named "buffer_address") a.buffer
    ∷ uint32 (named "length") a.size
    ∷ pointer (named "byte_offset") a.byte_offset
    ∷ pointer (named "key") a.key
    ∷ []

-- `NtReadFileHandler`, with the `Information` that the original leaves in the status block
unfoldable pub nt_read_file : Situation → Transfer → ℕ → Event
nt_read_file s a information = traced s "ntdll.dll" "NtReadFile" (transfer_calls a) (
    if nt_success s.result && not (a.io_status_block == 0)
    then buffer_preview (named "buffer") a.buffer
        (if ltb information a.size then information else a.size)
      ∷ status (named "result") s.result
      ∷ []
    else status (named "result") s.result ∷ [])

-- `NtWriteFileHandler`
unfoldable pub nt_write_file : Situation → Transfer → Event
nt_write_file s a =
    traced s "ntdll.dll" "NtWriteFile"
      (transfer_calls a ++ buffer_preview (named "buffer") a.buffer a.size ∷ [])
      (status (named "result") s.result ∷ [])
