-- ===== src/Encoding.antt =====
-- The wire format as a specification: a record of a module, a function and typed fields, the bytes
-- that stand for it, and when an event of the source holds it. The writer (Transport), the checker
-- (Renderer) and the correlator are each proved against this relation.
pub mod Layout
pub mod Append
pub mod Lookup
pub mod Valid
pub mod Parse
pub mod Writer
pub mod Holds
pub mod Preview
pub mod Calls
pub mod Start
use apiscope.Prelude.{Bytes, List, [], length, ◌++◌, ◌+◌, ◌∷◌, ◌≡◌}
use apiscope.Protocol.{
  Event, event_header_bytes, field_header_memory, payload_bytes, trace_event_magic,
  trace_event_version,
}
use apiscope.Renderer.Parse.{FieldView, Parsed}

-- The bytes of one field.
abbrev pub encode_field : FieldView → Bytes
encode_field f =
    field_header_memory
      (record { tag = f.tag; name_length = length f.name; value_size = length f.value })
    ++ (f.name ++ f.value)

abbrev pub encode_fields : List FieldView → Bytes
encode_fields [] = []
encode_fields (f ∷ fields) = encode_field f ++ encode_fields fields

abbrev pub encode : Parsed → Bytes
encode p = p.module_name ++ (p.api_name ++ encode_fields p.fields)

-- The event holds the record: its header is right, and its payload begins with the encoding.
pub record Encodes (e : Event) (p : Parsed) : Type 0 where
  pub free : Bytes
  pub payload_is : e.payload ≡ encode p ++ free
  pub payload_size : length e.payload ≡ payload_bytes
  pub magic_is : e.header.magic ≡ trace_event_magic
  pub version_is : e.header.version ≡ trace_event_version
  pub size_is : e.header.size ≡ event_header_bytes + length (encode p)
  pub count_is : e.header.field_count ≡ length p.fields
  pub module_is : e.header.module_name_length ≡ length p.module_name
  pub api_is : e.header.api_name_length ≡ length p.api_name
