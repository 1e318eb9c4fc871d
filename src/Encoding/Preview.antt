-- ===== src/Encoding/Preview.antt =====
-- `CaptureTraceBuffer` of trace_transport.cpp: bounds, and the shape that the checker wants.
use apiscope.Prelude.{
  Bool-cases, Bytes, Option, ap, arith, drop, if◌then◌else◌, inl, inr, le_bytes, le_value, length,
  length-append, length-drop, length-le_bytes, length-take, ltb, refl, replicate, sym, take,
  take-append-drop, true, ℕ, ◌%◌, ◌++◌, ◌+◌, ◌<◌, ◌==◌, ◌^◌, ◌||◌, ◌∙◌, ◌≡◌, ◌≤◌,
}
use apiscope.Encoding.Valid.{read_bytes_header-append}
use apiscope.Protocol.{bytes_header_bytes, trace_max_buffer_bytes, type_bytes}
use apiscope.Renderer.Parse.{has_expected_value_size, read_bytes_header}
use apiscope.Transport.Capture.{
  BytesValue, ReadMemory, bytes_value_memory, capture_trace_buffer, invoke_self_read, written,
}

pub length-written : (dest bytes : Bytes) → length dest ≤ length (written dest bytes)
length-written dest bytes =
    omega (arith, length-append bytes (drop (length bytes) dest), length-drop (length bytes) dest)

-- A preview never holds more than 64 bytes, nor more than were asked for.
pub capture_bounds :
    (read_memory : Option ReadMemory) (buffer size : ℕ)
    → let v = capture_trace_buffer read_memory buffer size in
      (v.captured ≤ 64) × (v.captured ≤ v.requested) × (v.requested ≡ size) × (64 ≤ length v.bytes)
unfolding capture_trace_buffer
capture_bounds read_memory buffer size = elim (Bool-cases (buffer == 0 || size == 0)) [
  | inl none_asked ↦ rw none_asked (omega arith)
  | inr asked ↦ rw asked (
    ground arith,
    ground arith,
    refl,
    length-written (replicate trace_max_buffer_bytes 0)
        (invoke_self_read read_memory buffer
          (if ltb size trace_max_buffer_bytes then size else trace_max_buffer_bytes)).bytes,
  )
]

preview_header :
    (v : BytesValue)
    → v.requested < 2 ^ 32
    → v.captured < 2 ^ 32
    → ((read_bytes_header (bytes_value_memory v)).requested ≡ v.requested)
      × ((read_bytes_header (bytes_value_memory v)).captured ≡ v.captured)
unfolding read_bytes_header le_bytes le_value
preview_header v h k = omega arith

pub preview_typed :
    (v : BytesValue)
    → v.requested < 2 ^ 32
    → v.captured ≤ 64
    → v.captured ≤ v.requested
    → 64 ≤ length v.bytes
    → let size = (bytes_header_bytes + v.captured) % 2 ^ 16 in
      (size ≤ length (bytes_value_memory v))
      × (has_expected_value_size type_bytes (take size (bytes_value_memory v)) size ≡ true)
unfolding has_expected_value_size
preview_typed v asked small within room = (fits, ground (arith, same, preview_header v))
  where
    size : ℕ
    size = (bytes_header_bytes + v.captured) % 2 ^ 16

    fits : size ≤ length (bytes_value_memory v)
    fits = omega (
      arith,
      length-append (le_bytes 4 v.requested)
          (le_bytes 4 v.captured ++ (le_bytes 4 v.capture_status ++ v.bytes)),
      length-append (le_bytes 4 v.captured) (le_bytes 4 v.capture_status ++ v.bytes),
      length-append (le_bytes 4 v.capture_status) v.bytes,
      length-le_bytes 4 v.requested,
      length-le_bytes 4 v.captured,
      length-le_bytes 4 v.capture_status,
    )

    same :
        read_bytes_header (take size (bytes_value_memory v))
        ≡ read_bytes_header (bytes_value_memory v)
    same =
        sym (
          read_bytes_header-append (take size (bytes_value_memory v))
            (drop size (bytes_value_memory v))
            (omega (arith, length-take size (bytes_value_memory v), fits)))
        ∙ ap read_bytes_header (take-append-drop size (bytes_value_memory v))
