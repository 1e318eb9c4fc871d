-- ===== src/Correlator.antt =====
-- apiscope/trace_correlator.cpp: which path each open handle was opened with. A `std::wstring` is
-- the list of its UTF-16 units, and `handlePaths_` an association list with one entry for a key.
pub mod Table
pub mod Lookup
pub mod Paths
pub mod Branches
pub mod Annotate
use apiscope.Prelude.{
  Bool, Bytes, List, Option, [], bytes_eq, codes, drop, false, guard, if◌then◌else◌, le_value, leb,
  length, ltb, none, not, some, suc, take, true, zero, ℕ, ◌%◌, ◌&&◌, ◌*◌, ◌++◌, ◌+◌, ◌-◌, ◌/◌, ◌==◌,
  ◌>>=◌, ◌>>◌, ◌^◌, ◌∷◌,
}
use apiscope.Memory.{rest}
use apiscope.Protocol.{
  Event, event_header_bytes, field_header_bytes, nt_success, trace_max_event_bytes,
  trace_max_string_bytes, type_pointer, type_status, type_wide_string,
}
use apiscope.Transport.{put_field, read_field_header, trace_name_bytes}

abbrev pub Path16 : Type 0
Path16 = List ℕ

-- The UTF-16 units in memory, and back.
unfoldable pub wide_memory : Path16 → Bytes
wide_memory [] = []
wide_memory (u ∷ us) = u % 256 ∷ (u / 256 ∷ wide_memory us)

unfoldable pub wide_units : Bytes → Path16
wide_units [] = []
wide_units (low ∷ []) = []
wide_units (low ∷ (high ∷ bytes)) = (low + 256 * high) ∷ wide_units bytes

-- `FieldRef`: the value is the bytes that its pointer and its size delimit.
pub record FieldRef : Type 0 where
  pub tag : ℕ
  pub value : Bytes

-- The loop of `FindField`: `count` fields left, from the offset `cursor` on.
unfoldable pub find_field_from : Bytes → ℕ → ℕ → ℕ → Bytes → Option FieldRef
find_field_from payload stop zero cursor name = none
find_field_from payload stop (suc count) cursor name =
    let field = read_field_header (drop cursor payload) in
    let name_at = cursor + field_header_bytes in
    let next = name_at + (field.name_length + field.value_size) in
    let later = find_field_from payload stop count next name in
    if ltb stop name_at
    then none
    else if ltb stop next
    then none
    else if field.name_length == length name
        && bytes_eq (take (length name) (drop name_at payload)) name
    then some (record {
      tag = field.tag;
      value = take field.value_size (drop (name_at + field.name_length) payload);
    })
    else later

-- `FindField`
unfoldable pub find_field : Event → Bytes → Option FieldRef
find_field e name =
    find_field_from e.payload (e.header.size - event_header_bytes) e.header.field_count
      (trace_name_bytes e) name

-- `ReadHandle`
unfoldable pub read_handle : Event → Bytes → Option ℕ
read_handle e name = do
  ref ← find_field e name
  guard (ref.tag == type_pointer)
  guard (length ref.value == 8)
  some (le_value ref.value)

-- `ReadWideString`
unfoldable pub read_wide_string : Event → Bytes → Option Path16
read_wide_string e name = do
  ref ← find_field e name
  guard (ref.tag == type_wide_string)
  some (wide_units ref.value)

-- `EventSucceeded`
unfoldable pub event_succeeded : Event → Bool
event_succeeded e = elim (find_field e (codes "result")) [
  | none ↦ true
  | some ref ↦
      if ref.tag == type_status && length ref.value == 4
      then nt_success (le_value ref.value)
      else true
]

-- `AppendWideString`, with an event that is not null.
unfoldable pub append_wide_string : Event → Bytes → Path16 → Event × Bool
append_wide_string e name value =
    let byte_length =
      if ltb trace_max_string_bytes (length value * 2)
      then trace_max_string_bytes
      else length value * 2 in
    let required = field_header_bytes + length name + byte_length in
    if ltb trace_max_event_bytes (e.header.size + required) then (e, false) else (
      record {
        header = record (e.header) {
          size = (e.header.size + required) % 2 ^ 16;
          field_count = (e.header.field_count + 1) % 2 ^ 16;
        };
        payload =
            put_field e.payload (e.header.size - event_header_bytes)
              (record {
                tag = type_wide_string;
                name_length = length name % 256;
                value_size = byte_length % 2 ^ 16;
              })
              name (wide_memory value);
      },
      true,
    )

-- `a || b` of two readers of a handle.
abbrev pub or_else : Option ℕ → Option ℕ → Option ℕ
or_else none b = b
or_else (some a) b = some a

-- `FindObjectHandle`
unfoldable pub find_object_handle : Event → Option ℕ
find_object_handle e =
    or_else (read_handle e (codes "file_handle"))
      (or_else (read_handle e (codes "key_handle")) (read_handle e (codes "handle")))

abbrev pub max_tracked_handles : ℕ
max_tracked_handles = 65536

-- `handlePaths_`
abbrev pub HandlePaths : Type 0
HandlePaths = List (ℕ × Path16)

unfoldable pub find_path : ℕ → HandlePaths → Option Path16
find_path h [] = none
find_path h ((k, p) ∷ table) = if k == h then some p else find_path h table

-- `handlePaths_[handle] = path`
unfoldable pub set_path : ℕ → Path16 → HandlePaths → HandlePaths
set_path h p [] = (h, p) ∷ []
set_path h p ((k, q) ∷ table) = if k == h then (h, p) ∷ table else (k, q) ∷ set_path h p table

-- `handlePaths_.erase(handle)`
unfoldable pub erase_path : ℕ → HandlePaths → HandlePaths
erase_path h [] = []
erase_path h ((k, q) ∷ table) = if k == h then table else (k, q) ∷ erase_path h table

-- `path.front() == L'\\'` of a path that may be empty
abbrev pub starts_with_separator : Path16 → Bool
starts_with_separator [] = false
starts_with_separator (c ∷ cs) = c == b'\\'

-- `base.back() == L'\\'` of a path that may be empty
abbrev pub ends_with_separator : Path16 → Bool
ends_with_separator [] = false
ends_with_separator (c ∷ []) = c == b'\\'
ends_with_separator (c ∷ (d ∷ cs)) = ends_with_separator (d ∷ cs)

-- The relative open of `Observe`: lines 130 to 138.
unfoldable pub resolve_path : Path16 → Path16 → Path16
resolve_path base path =
    let base_sep = ends_with_separator base in
    let rel_sep = starts_with_separator path in
    if base_sep && rel_sep
    then base ++ rest path
    else if not base_sep && not rel_sep
    then (base ++ b'\\' ∷ []) ++ path
    else base ++ path

-- The path that `Observe` records for an event that names `path`.
unfoldable pub observed_path : HandlePaths → Event → Path16 → Path16
observed_path table e path = elim (read_handle e (codes "root_directory")) [
  | none ↦ path
  | some root ↦
      if root == 0
      then path
      else elim (find_path root table) [ none ↦ path | some base ↦ resolve_path base path ]
]

-- What makes an event a source: a path, a handle that is not null, and success.
unfoldable pub source_of : Event → Option (ℕ × Path16)
source_of e = do
  path ← read_wide_string e (codes "path")
  guard (ltb 0 (length path))
  handle ← find_object_handle e
  guard (not (handle == 0))
  guard (event_succeeded e)
  some (handle, path)

-- `HandlePathTracker::Observe`
unfoldable pub observe : HandlePaths → Event → HandlePaths
observe table e = elim (source_of e) [
  | none ↦ table
  | some (handle, path) ↦
      set_path handle (observed_path table e path)
        (if leb max_tracked_handles (length table) then [] else table)
]

-- `HandlePathTracker::Annotate`, with an event that is not null.
unfoldable pub annotate : HandlePaths → Event → Event
annotate table e = elim (find_field e (codes "path")) [
  | some ref ↦ e
  | none ↦ elim (find_object_handle e) [
    | none ↦ e
    | some handle ↦ if handle == 0 then e else elim (find_path handle table) [
      | none ↦ e
      | some path ↦ (append_wide_string e (codes "path") path).0
    ]
  ]
]

-- `HandlePathTracker::Evict`
unfoldable pub evict : HandlePaths → Event → HandlePaths
evict table e = elim (read_handle e (codes "handle")) [
  | none ↦ table
  | some handle ↦ if not (handle == 0) && event_succeeded e then erase_path handle table else table
]
