-- ===== src/Encoding/Calls.antt =====
-- The eleven `AddTrace…` functions of trace_transport.cpp keep an event well-formed, whatever they
-- are called with and whatever the traced process's memory answers.
use apiscope.Prelude.{
  Bool, Bytes, List, Option, [], arith, drop, false, if◌then◌else◌, le_value, length, ltb, none,
  refl, replicate, some, take, true, ℕ, ◌%◌, ◌*◌, ◌+◌, ◌/◌, ◌<◌, ◌^◌, ◌∷◌, ◌≡◌, ◌≤◌,
}
use apiscope.Encoding.Holds.{
  HasChars, Holds, append_trace_field-Holds, number-Holds, set_flag-Holds, wide_string-Holds,
}
use apiscope.Encoding.Parse.{parse_trace_event-Encodes}
use apiscope.Encoding.Preview.{capture_bounds, length-written, preview_typed}
use apiscope.Encoding.Start.{started-Holds}
use apiscope.Protocol.{
  Event, bytes_header_bytes, flag_truncated, payload_bytes, type_boolean, type_bytes, type_int32,
  type_int64, type_pointer, type_status, type_uint32, type_uint64,
}
use apiscope.Renderer.Parse.{has_expected_value_size, is_valid_trace_event}
use apiscope.Transport.{
  add_trace_boolean, add_trace_int32, add_trace_int64, add_trace_pointer, add_trace_status,
  add_trace_uint32, add_trace_uint64, initialize_trace_event, set_flag,
}
use apiscope.Transport.Capture.{
  ReadMemory, add_trace_buffer_preview, add_trace_object_path, add_trace_unicode_string,
  add_trace_wide_string, bytes_value_memory, capture_trace_buffer, invoke_self_read,
  root_directory_name, safe_read_self,
}

-- One call of an `AddTrace…` function, with its arguments.
pub data Call : Type 0 where
  pointer uint32 uint64 int32 int64 status : Option Bytes → ℕ → Call
  boolean : Option Bytes → Bool → Call
  buffer_preview : Option Bytes → ℕ → ℕ → Call
  wide_string : Option Bytes → Option Bytes → ℕ → Call
  unicode_string object_path : Option Bytes → ℕ → Call

-- What the types of the arguments promise: a length is a ULONG, and a string has its characters.
abbrev pub IsValidCall : Call → Type 0
IsValidCall (buffer_preview name buffer size) = size < 2 ^ 32
IsValidCall (wide_string name value char_count) = HasChars value char_count
IsValidCall call = Unit {0}

abbrev pub AreValidCalls : List Call → Type 0
AreValidCalls [] = Unit {0}
AreValidCalls (call ∷ calls) = IsValidCall call × AreValidCalls calls

module _ (read_memory : Option ReadMemory) where
  pub run_call : Event → Call → Event × Bool
  run_call e (pointer name value) = add_trace_pointer e name value
  run_call e (uint32 name value) = add_trace_uint32 e name value
  run_call e (uint64 name value) = add_trace_uint64 e name value
  run_call e (int32 name value) = add_trace_int32 e name value
  run_call e (int64 name value) = add_trace_int64 e name value
  run_call e (status name value) = add_trace_status e name value
  run_call e (boolean name value) = add_trace_boolean e name value
  run_call e (buffer_preview name buffer size) =
      add_trace_buffer_preview read_memory e name buffer size
  run_call e (wide_string name value char_count) = add_trace_wide_string e name value char_count
  run_call e (unicode_string name address) = add_trace_unicode_string read_memory e name address
  run_call e (object_path name address) = add_trace_object_path read_memory e name address

  pub run_calls : Event → List Call → Event
  unfolding run_call
  run_calls e [] = e
  run_calls e (call ∷ calls) = run_calls (run_call e call).0 calls

buffer_preview-Holds :
    (read_memory : Option ReadMemory) (name : Option Bytes) (buffer size : ℕ) {e : Event}
    → size < 2 ^ 32
    → Holds e
    → Holds (add_trace_buffer_preview read_memory e name buffer size).0
unfolding add_trace_buffer_preview
buffer_preview-Holds read_memory name buffer size small held =
    let v = capture_trace_buffer read_memory buffer size in
    let b = capture_bounds read_memory buffer size in
    let typed = preview_typed v (omega arith) b.0 b.1 b.3 in
    append_trace_field-Holds type_bytes name (bytes_value_memory v)
      ((bytes_header_bytes + v.captured) % 2 ^ 16) typed.0 typed.1 held

-- A branch of the source that returns an event.
if-Holds :
    (test : Bool) (x y : Event × Bool) → Holds x.0 → Holds y.0 → Holds (if test then x else y).0
if-Holds true x y h k = h
if-Holds false x y h k = k

if_event-Holds : (test : Bool) (x y : Event) → Holds x → Holds y → Holds (if test then x else y)
if_event-Holds true x y h k = h
if_event-Holds false x y h k = k

length-safe_read_self :
    (read_memory : Option ReadMemory) (dest : Bytes) (source size : ℕ)
    → length dest ≤ length (safe_read_self read_memory dest source size).1
unfolding safe_read_self
length-safe_read_self read_memory dest source size =
    length-written dest (invoke_self_read read_memory source size).bytes

capped : (n : ℕ) → (if ltb 512 (n / 2 * 2) then 512 else n / 2 * 2) ≤ 512
capped n = ground arith

unicode_string-Holds :
    (read_memory : Option ReadMemory) (name : Option Bytes) (address : ℕ) {e : Event}
    → Holds e
    → Holds (add_trace_unicode_string read_memory e name address).0
unfolding add_trace_unicode_string
unicode_string-Holds read_memory name address {e} held =
    if-Holds _ _ _ (wide_string-Holds name none 0 tt held) (
      if-Holds _ _ _ (wide_string-Holds name none 0 tt flagged) (
        wide_string-Holds name (some buffer) (byte_length / 2) (omega (arith, room, small))
          flagged))
  where
    size : ℕ
    size = le_value (take 2 (safe_read_self read_memory (replicate 16 0) address 16).1)

    byte_length : ℕ
    byte_length = if ltb 512 (size / 2 * 2) then 512 else size / 2 * 2

    text : ℕ
    text = le_value (take 8 (drop 8 (safe_read_self read_memory (replicate 16 0) address 16).1))

    buffer : Bytes
    buffer = (safe_read_self read_memory (replicate 512 0) text byte_length).1

    room : 512 ≤ length buffer
    room = length-safe_read_self read_memory (replicate 512 0) text byte_length

    small : byte_length ≤ 512
    small = capped size

    flagged : Holds (if ltb 512 (size / 2 * 2) then set_flag flag_truncated e else e)
    flagged = if_event-Holds (ltb 512 (size / 2 * 2)) _ _ (set_flag-Holds flag_truncated held) held

pointer-Holds :
    (name : Option Bytes) (value : ℕ) {e : Event}
    → Holds e
    → Holds (add_trace_pointer e name value).0
unfolding add_trace_pointer has_expected_value_size
pointer-Holds name value = number-Holds type_pointer 8 name value refl

object_path-Holds :
    (read_memory : Option ReadMemory) (name : Option Bytes) (address : ℕ) {e : Event}
    → Holds e
    → Holds (add_trace_object_path read_memory e name address).0
unfolding add_trace_object_path
object_path-Holds read_memory name address {e} held =
    if-Holds _ _ _ (wide_string-Holds name none 0 tt held) (
      unicode_string-Holds read_memory name _
        (if_event-Holds _ _ _ held (pointer-Holds (some root_directory_name) _ held)))

boolean-Holds :
    (name : Option Bytes) (value : Bool) {e : Event}
    → Holds e
    → Holds (add_trace_boolean e name value).0
unfolding add_trace_boolean has_expected_value_size
boolean-Holds name true = append_trace_field-Holds type_boolean name (1 ∷ []) 1 (omega arith) refl
boolean-Holds name false = append_trace_field-Holds type_boolean name (0 ∷ []) 1 (omega arith) refl

module _ (read_memory : Option ReadMemory) where
  -- Every `AddTrace…` call leaves an event that holds a valid record, if it was given one.
  pub run_call-Holds :
      {e : Event} (call : Call) → IsValidCall call → Holds e → Holds (run_call read_memory e call).0
  unfolding run_call add_trace_uint32 add_trace_uint64 add_trace_int32 add_trace_int64
      add_trace_status has_expected_value_size
  run_call-Holds (pointer name value) ok = pointer-Holds name value
  run_call-Holds (uint32 name value) ok = number-Holds type_uint32 4 name value refl
  run_call-Holds (uint64 name value) ok = number-Holds type_uint64 8 name value refl
  run_call-Holds (int32 name value) ok = number-Holds type_int32 4 name value refl
  run_call-Holds (int64 name value) ok = number-Holds type_int64 8 name value refl
  run_call-Holds (status name value) ok = number-Holds type_status 4 name value refl
  run_call-Holds (boolean name value) ok = boolean-Holds name value
  run_call-Holds (buffer_preview name buffer size) ok =
      buffer_preview-Holds read_memory name buffer size ok
  run_call-Holds (wide_string name value char_count) ok = wide_string-Holds name value char_count ok
  run_call-Holds (unicode_string name address) ok = unicode_string-Holds read_memory name address
  run_call-Holds (object_path name address) ok = object_path-Holds read_memory name address

  pub run_calls-Holds :
      {e : Event} (calls : List Call)
      → AreValidCalls calls
      → Holds e
      → Holds (run_calls read_memory e calls)
  unfolding run_calls
  run_calls-Holds {e} [] ok held = held
  run_calls-Holds {e} (call ∷ calls) (ok, later) held =
      run_calls-Holds {e = (run_call read_memory e call).0} calls later
        (run_call-Holds call ok held)

  -- An event that `InitializeTraceEvent` has started and any `AddTrace…` calls have extended,
  -- successful or not, is accepted by `IsValidTraceEvent`, whatever the memory answers.
  pub run_calls-is_valid_trace_event :
      (thread_id timestamp : ℕ) (e : Event) (module_name api_name : Option Bytes)
      (calls : List Call)
      → length e.payload ≡ payload_bytes
      → let started = initialize_trace_event thread_id timestamp e module_name api_name in
        started.1 ≡ true
        → AreValidCalls calls
        → let done = run_calls read_memory started.0 calls in
          is_valid_trace_event done done.header.size ≡ true
  unfolding is_valid_trace_event
  run_calls-is_valid_trace_event thread_id timestamp e module_name api_name calls sized started ok =
      let (p, held, valid) =
        run_calls-Holds calls ok
          (started-Holds thread_id timestamp e module_name api_name sized started) in
      rw (parse_trace_event-Encodes held valid, is_valid_trace_event) refl
