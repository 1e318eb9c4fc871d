-- ===== src/Encoding/Writer.antt =====
-- `AppendTraceField` and `InitializeTraceEvent` of trace_transport.cpp, each on every branch.
use apiscope.Prelude.{
  Bytes, List, Option, [], append-nil, append_assoc, arith, false, length, ltb, none, refl, some,
  take, true, ℕ, ◌++◌, ◌+◌, ◌<◌, ◌∷◌, ◌≡◌, ◌≤◌,
}
use apiscope.Encoding.{Encodes}
use apiscope.Encoding.Append.{add_field, append_checked-Encodes, length-free}
use apiscope.Encoding.Layout.{length-encode}
use apiscope.Encoding.Lookup.{has_trace_field-is_name_used}
use apiscope.Encoding.Valid.{AreValidFields, IsValid, IsValidField}
use apiscope.Protocol.{
  Event, field_header_bytes, flag_field_error, flag_truncated, trace_max_event_bytes,
}
use apiscope.Renderer.Parse.{FieldView, Parsed, is_name_used}
use apiscope.Transport.{
  append_checked, append_trace_field, c_string, has_trace_field, is_broken_header,
  is_valid_field_name, set_flag,
}
use apiscope.Transport.Names.{is_valid_field_name-bytes}

pub set_flag-Encodes :
    {e : Event} {p : Parsed} (flag : ℕ) → Encodes e p → Encodes (set_flag flag e) p
set_flag-Encodes flag held = record {
  free = held.free;
  payload_is = held.payload_is;
  payload_size = held.payload_size;
  magic_is = held.magic_is;
  version_is = held.version_is;
  size_is = held.size_is;
  count_is = held.count_is;
  module_is = held.module_is;
  api_is = held.api_is;
}

Encodes-intact : {e : Event} {p : Parsed} → Encodes e p → is_broken_header e ≡ false
Encodes-intact {e} {p} held = ground (
  arith,
  held.magic_is,
  held.version_is,
  held.size_is,
  held.module_is,
  held.api_is,
  length-encode p,
  length-free held,
)

append_checked-full :
    (e : Event) (tag n v : ℕ) (name value : Bytes)
    → trace_max_event_bytes < e.header.size + (field_header_bytes + n + v)
    → append_checked e tag name n value v ≡ (set_flag flag_truncated e, false)
unfolding append_checked
append_checked-full e tag n v name value full = rw full_test refl
  where
    full_test : ltb trace_max_event_bytes (e.header.size + (field_header_bytes + n + v)) ≡ true
    full_test = ground arith

module _ {e : Event} {p : Parsed} (held : Encodes e p) (tag : ℕ) (name : Option Bytes)
    (value : Bytes) (value_size : ℕ) where
  -- On an event that holds a record, `AppendTraceField` refuses a value that is null, a bad name, and
  -- a name in use, with the flag FieldError, refuses a field that does not fit with the flag Truncated, and changes
  -- nothing else then; any other field it appends.
  pub append_trace_field-branches :
      (n : ℕ)
      → value_size ≤ length value
      → let used = is_name_used p.fields (take n (c_string name)) in
        let room = e.header.size + (field_header_bytes + n + value_size) in
        let f : FieldView = record {
          tag = tag;
          name = take n (c_string name);
          value = take value_size value;
        } in
        let r = append_trace_field e tag name (some value) value_size in
        (is_valid_field_name name ≡ none → r ≡ (set_flag flag_field_error e, false))
        × (is_valid_field_name name ≡ some n
            → used ≡ true
            → r ≡ (set_flag flag_field_error e, false))
        × (is_valid_field_name name ≡ some n
            → used ≡ false
            → trace_max_event_bytes < room
            → r ≡ (set_flag flag_truncated e, false))
        × (is_valid_field_name name ≡ some n
            → used ≡ false
            → room ≤ trace_max_event_bytes
            → (r.1 ≡ true) × Encodes r.0 (add_field p f))
        × (append_trace_field e tag name none value_size ≡ (set_flag flag_field_error e, false))
  unfolding append_trace_field
  append_trace_field-branches n sized = (
    λ bad. rw (intact, bad) refl,
    λ good used. rw (intact, good, found good, used) refl,
    λ good fresh full.
        rw (intact, good, found good, fresh)
          (append_checked-full e tag n value_size (c_string name) value full),
    λ good fresh room.
        rw (intact, good, found good, fresh)
          (append_checked-Encodes held tag n value_size (c_string name) value
            (is_valid_field_name-bytes name good).0 sized room),
    refl,
  )
    where
      intact : is_broken_header e ≡ false
      intact = Encodes-intact held

      found :
          is_valid_field_name name ≡ some n
          → has_trace_field e (c_string name) n ≡ is_name_used p.fields (take n (c_string name))
      found good =
          has_trace_field-is_name_used held (c_string name) n
            (is_valid_field_name-bytes name good).0

AreValidFields-append :
    (earlier fs : List FieldView) (f : FieldView)
    → AreValidFields earlier fs
    → IsValidField f
    → is_name_used (earlier ++ fs) f.name ≡ false
    → AreValidFields earlier (fs ++ f ∷ [])
AreValidFields-append earlier [] f valid valid_field unused =
    (valid_field, rw append-nil at unused, tt)
AreValidFields-append earlier (g ∷ fs) f (valid_g, unused_g, valid) valid_field unused = (
  valid_g,
  unused_g,
  AreValidFields-append (earlier ++ g ∷ []) fs f valid valid_field
      (rw (append_assoc earlier (g ∷ []) fs) unused),
)

-- Appending keeps the record valid, if the field is of its type.
pub add_field-IsValid :
    (p : Parsed) (f : FieldView)
    → IsValid p
    → IsValidField f
    → is_name_used p.fields f.name ≡ false
    → IsValid (add_field p f)
add_field-IsValid p f valid valid_field unused = record {
  module_valid = valid.module_valid;
  api_valid = valid.api_valid;
  fields_valid = AreValidFields-append [] p.fields f valid.fields_valid valid_field unused;
}
