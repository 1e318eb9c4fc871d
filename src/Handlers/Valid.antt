-- ===== src/Handlers/Valid.antt =====
-- What the nine handlers emit.
use Prim.Native.String.{String}
use apiscope.Prelude.{
  Bool, List, [], arith, false, if◌then◌else◌, length, ltb, not, refl, true, ℕ, ◌&&◌, ◌<◌, ◌==◌,
  ◌^◌, ◌∷◌, ◌≡◌,
}
use apiscope.Encoding.Calls.{AreValidCalls, Call, buffer_preview, run_calls-Holds, status}
use apiscope.Encoding.Holds.{Holds}
use apiscope.Encoding.Parse.{parse_trace_event-Encodes}
use apiscope.Encoding.Start.{started-Holds}
use apiscope.Handlers.{
  CreateFile, Situation, Transfer, bcrypt_open_algorithm_provider, named, nt_close, nt_create_file,
  nt_open_file, nt_open_key, nt_query_value_key, nt_read_file, nt_set_value_key, nt_write_file,
  traced,
}
use apiscope.Protocol.{Event, nt_success, payload_bytes}
use apiscope.Renderer.Parse.{is_valid_trace_event}
use apiscope.Transport.{
  get_bounded_string_length, initialize_trace_event, is_identifier_char, is_valid_identifier,
  string_index,
}

-- A handler's event holds a valid record, for any names that InitializeTraceEvent accepts.
traced-Holds :
    (s : Situation) (module_name api_name : String) (first later : List Call)
    → length s.stack.payload ≡ payload_bytes
    → (initialize_trace_event s.thread_id s.timestamp s.stack
        (named module_name)
        (named api_name)).1
      ≡ true
    → AreValidCalls first
    → AreValidCalls later
    → Holds (traced s module_name api_name first later)
unfolding traced
traced-Holds s module_name api_name first later sized started ok ok_later =
    run_calls-Holds s.after later ok_later (
      run_calls-Holds s.before first ok (
        started-Holds s.thread_id s.timestamp s.stack (named module_name) (named api_name) sized
          started))

bcrypt_open_algorithm_provider-Holds :
    (s : Situation) (algorithm algorithm_id implementation flags : ℕ)
    → length s.stack.payload ≡ payload_bytes
    → Holds (bcrypt_open_algorithm_provider s algorithm algorithm_id implementation flags)
unfolding bcrypt_open_algorithm_provider initialize_trace_event is_valid_identifier
    get_bounded_string_length string_index is_identifier_char
bcrypt_open_algorithm_provider-Holds s algorithm algorithm_id implementation flags sized =
    traced-Holds s "bcrypt.dll" "BCryptOpenAlgorithmProvider" _ _ sized refl _ _

nt_close-Holds :
    (s : Situation) (handle : ℕ)
    → length s.stack.payload ≡ payload_bytes
    → Holds (nt_close s handle)
unfolding nt_close initialize_trace_event is_valid_identifier get_bounded_string_length string_index
    is_identifier_char
nt_close-Holds s handle sized = traced-Holds s "ntdll.dll" "NtClose" _ _ sized refl _ _

nt_create_file-Holds :
    (s : Situation) (a : CreateFile) (stored : ℕ)
    → length s.stack.payload ≡ payload_bytes
    → Holds (nt_create_file s a stored)
unfolding nt_create_file initialize_trace_event is_valid_identifier get_bounded_string_length
    string_index is_identifier_char
nt_create_file-Holds s a stored sized = traced-Holds s "ntdll.dll" "NtCreateFile" _ _ sized refl _ _

nt_open_file-Holds :
    (s : Situation)
    (file_handle desired_access object_attributes io_status_block share_access open_options
      stored : ℕ)
    → length s.stack.payload ≡ payload_bytes
    → Holds (
        nt_open_file s file_handle desired_access object_attributes io_status_block share_access
          open_options stored)
unfolding nt_open_file initialize_trace_event is_valid_identifier get_bounded_string_length
    string_index is_identifier_char
nt_open_file-Holds s file_handle desired_access object_attributes io_status_block share_access
      open_options stored sized =
    traced-Holds s "ntdll.dll" "NtOpenFile" _ _ sized refl _ _

nt_open_key-Holds :
    (s : Situation) (key_handle desired_access object_attributes stored : ℕ)
    → length s.stack.payload ≡ payload_bytes
    → Holds (nt_open_key s key_handle desired_access object_attributes stored)
unfolding nt_open_key initialize_trace_event is_valid_identifier get_bounded_string_length
    string_index is_identifier_char
nt_open_key-Holds s key_handle desired_access object_attributes stored sized =
    traced-Holds s "ntdll.dll" "NtOpenKey" _ _ sized refl _ _

nt_query_value_key-Holds :
    (s : Situation) (key_handle value_name info_class size : ℕ)
    → length s.stack.payload ≡ payload_bytes
    → Holds (nt_query_value_key s key_handle value_name info_class size)
unfolding nt_query_value_key initialize_trace_event is_valid_identifier get_bounded_string_length
    string_index is_identifier_char
nt_query_value_key-Holds s key_handle value_name info_class size sized =
    traced-Holds s "ntdll.dll" "NtQueryValueKey" _ _ sized refl _ _

nt_set_value_key-Holds :
    (s : Situation) (key_handle value_name kind data_ data_size : ℕ)
    → length s.stack.payload ≡ payload_bytes
    → data_size < 2 ^ 32
    → Holds (nt_set_value_key s key_handle value_name kind data_ data_size)
unfolding nt_set_value_key initialize_trace_event is_valid_identifier get_bounded_string_length
    string_index is_identifier_char
nt_set_value_key-Holds s key_handle value_name kind data_ data_size sized small =
    traced-Holds s "ntdll.dll" "NtSetValueKey" _ _ sized refl (ground (arith, small)) _

nt_write_file-Holds :
    (s : Situation) (a : Transfer)
    → length s.stack.payload ≡ payload_bytes
    → a.size < 2 ^ 32
    → Holds (nt_write_file s a)
unfolding nt_write_file initialize_trace_event is_valid_identifier get_bounded_string_length
    string_index is_identifier_char
nt_write_file-Holds s a sized small =
    traced-Holds s "ntdll.dll" "NtWriteFile" _ _ sized refl (ground (arith, small)) _

read_calls-AreValidCalls :
    (b : Bool) (buffer information size result : ℕ)
    → size < 2 ^ 32
    → AreValidCalls (
        if b
        then buffer_preview
            (named "buffer")
            buffer
            (if ltb information size then information else size)
          ∷ status (named "result") result
          ∷ []
        else status (named "result") result ∷ [])
read_calls-AreValidCalls true buffer information size result small =
    (ground (arith, small), (tt, tt))
read_calls-AreValidCalls false buffer information size result small = _

nt_read_file-Holds :
    (s : Situation) (a : Transfer) (information : ℕ)
    → length s.stack.payload ≡ payload_bytes
    → a.size < 2 ^ 32
    → Holds (nt_read_file s a information)
unfolding nt_read_file initialize_trace_event is_valid_identifier get_bounded_string_length
    string_index is_identifier_char
nt_read_file-Holds s a information sized small =
    traced-Holds s "ntdll.dll" "NtReadFile" _ _ sized refl _ (
      read_calls-AreValidCalls (nt_success s.result && not (a.io_status_block == 0)) a.buffer
        information a.size s.result small)

-- The events that the handlers emit, each for any arguments that its types allow.
pub data Emitted (s : Situation) : Event → Type 0 where
  opens_algorithm :
      (algorithm algorithm_id implementation flags : ℕ)
      → Emitted s (bcrypt_open_algorithm_provider s algorithm algorithm_id implementation flags)
  closes : (handle : ℕ) → Emitted s (nt_close s handle)
  creates_file : (a : CreateFile) (stored : ℕ) → Emitted s (nt_create_file s a stored)
  opens_file :
      (file_handle desired_access object_attributes io_status_block share_access open_options
        stored : ℕ)
      → Emitted s (
          nt_open_file s file_handle desired_access object_attributes io_status_block share_access
            open_options stored)
  opens_key :
      (key_handle desired_access object_attributes stored : ℕ)
      → Emitted s (nt_open_key s key_handle desired_access object_attributes stored)
  queries_value :
      (key_handle value_name info_class size : ℕ)
      → Emitted s (nt_query_value_key s key_handle value_name info_class size)
  sets_value :
      (key_handle value_name kind data_ data_size : ℕ)
      → data_size < 2 ^ 32
      → Emitted s (nt_set_value_key s key_handle value_name kind data_ data_size)
  reads_file :
      (a : Transfer) (information : ℕ) → a.size < 2 ^ 32 → Emitted s (nt_read_file s a information)
  writes_file : (a : Transfer) → a.size < 2 ^ 32 → Emitted s (nt_write_file s a)

pub Emitted-Holds :
    (s : Situation) {e : Event} → length s.stack.payload ≡ payload_bytes → Emitted s e → Holds e
Emitted-Holds s sized (opens_algorithm algorithm algorithm_id implementation flags) =
    bcrypt_open_algorithm_provider-Holds s algorithm algorithm_id implementation flags sized
Emitted-Holds s sized (closes handle) = nt_close-Holds s handle sized
Emitted-Holds s sized (creates_file a stored) = nt_create_file-Holds s a stored sized
Emitted-Holds s sized (opens_file f d o i sh op st) = nt_open_file-Holds s f d o i sh op st sized
Emitted-Holds s sized (opens_key k d o st) = nt_open_key-Holds s k d o st sized
Emitted-Holds s sized (queries_value k v i n) = nt_query_value_key-Holds s k v i n sized
Emitted-Holds s sized (sets_value k v t d n small) = nt_set_value_key-Holds s k v t d n sized small
Emitted-Holds s sized (reads_file a i small) = nt_read_file-Holds s a i sized small
Emitted-Holds s sized (writes_file a small) = nt_write_file-Holds s a sized small

-- IsValidTraceEvent accepts the event of every handler, whatever the arguments, the memory before
-- and after the original and its result are, if the sizes are ULONGs.
pub Emitted-is_valid_trace_event :
    (s : Situation) (e : Event)
    → length s.stack.payload ≡ payload_bytes
    → Emitted s e
    → is_valid_trace_event e e.header.size ≡ true
unfolding is_valid_trace_event
Emitted-is_valid_trace_event s e sized emitted =
    let (p, held, valid) = Emitted-Holds s sized emitted in
    rw (parse_trace_event-Encodes held valid, is_valid_trace_event) refl
