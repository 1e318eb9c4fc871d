-- ===== src/Tests/Wire.antt =====
-- Events of NtClose and NtReadFile, built as their hooks build them.
use Prim.Native.String.{String}
use apiscope.Prelude.{
  Bool, Bytes, List, Option, [], arith, bytes_eq, codes, false, le_bytes, le_value, length,
  length-le_bytes, length-replicate, none, refl, replicate, some, take, true, ℕ, ◌++◌, ◌∷◌, ◌≡◌,
}
use apiscope.Correlator.{
  HandlePaths, annotate, event_succeeded, evict, find_field, find_object_handle, find_path, observe,
  read_handle, read_wide_string, resolve_path, wide_units,
}
use apiscope.Correlator.Annotate.{annotate-Holds, annotate-branches}
use apiscope.Correlator.Lookup.{find_field-find_view, find_view}
use apiscope.Correlator.Paths.{resolve_path_lem}
use apiscope.Correlator.Table.{
  IsOpen, IsTracker, find_path-evict, find_path-observe, observe-evict-IsTracker,
}
use apiscope.Encoding.{Encodes}
use apiscope.Encoding.Append.{add_field}
use apiscope.Encoding.Calls.{Call, pointer, run_calls, run_calls-is_valid_trace_event, status}
use apiscope.Encoding.Holds.{Holds}
use apiscope.Encoding.Lookup.{has_trace_field-is_name_used}
use apiscope.Encoding.Parse.{parse_trace_event-Encodes}
use apiscope.Encoding.Start.{initialize_trace_event-branches}
use apiscope.Encoding.Valid.{IsValid}
use apiscope.Encoding.Writer.{add_field-IsValid, append_trace_field-branches}
use apiscope.Protocol.{Event, payload_bytes, type_pointer, type_wide_string}
use apiscope.Renderer.Parse.{
  Parsed, has_expected_value_size, is_name_used, is_valid_field_name_bytes, is_valid_trace_event,
  parse_trace_event,
}
use apiscope.Transport.{
  append_trace_field, get_bounded_string_length, has_trace_field, initialize_trace_event,
  is_field_char, is_identifier_char, is_valid_field_name, is_valid_identifier, string_index,
  zero_header,
}

abbrev blank : Event
blank = record { header = zero_header; payload = replicate payload_bytes 0 }

abbrev text : String → Option Bytes
text s = some (codes s)

abbrev closed : Event
closed = (initialize_trace_event 7 9 blank (text "ntdll.dll") (text "NtClose")).0

abbrev close_calls : List Call
close_calls =
    pointer (text "handle") 140 ∷ status (text "result") 0 ∷ pointer (text "handle") 1 ∷ []

closed_starts : (initialize_trace_event 7 9 blank (text "ntdll.dll") (text "NtClose")).1 ≡ true
unfolding initialize_trace_event is_valid_identifier get_bounded_string_length string_index
    is_identifier_char
closed_starts = refl

run_calls-is_valid_trace_event_example :
    is_valid_trace_event
      (run_calls none closed close_calls)
      (run_calls none closed close_calls).header.size
    ≡ true
run_calls-is_valid_trace_event_example =
    run_calls-is_valid_trace_event none 7 9 blank (text "ntdll.dll") (text "NtClose") close_calls
      (length-replicate {A = ℕ} payload_bytes 0) closed_starts (tt, (tt, (tt, tt)))

abbrev closed_record : Parsed
closed_record = record { module_name = codes "ntdll.dll"; api_name = codes "NtClose"; fields = [] }

named : is_valid_identifier (text "ntdll.dll") 63 true ≡ some 9
unfolding is_valid_identifier get_bounded_string_length string_index is_identifier_char
named = refl

called : is_valid_identifier (text "NtClose") 63 false ≡ some 7
unfolding is_valid_identifier get_bounded_string_length string_index is_identifier_char
called = refl

blank_size : length blank.payload ≡ payload_bytes
blank_size = length-replicate {A = ℕ} payload_bytes 0

initialize_trace_event-branches_example :
    (initialize_trace_event 7 9 blank (text "ntdll.dll") (text "NtClose")).1 ≡ true
initialize_trace_event-branches_example =
    ((initialize_trace_event-branches 7 9 blank (text "ntdll.dll") (text "NtClose") blank_size).0 9
      7 named called).0

closed_holds : Encodes closed closed_record
closed_holds =
    ((initialize_trace_event-branches 7 9 blank (text "ntdll.dll") (text "NtClose") blank_size).0 9
      7 named called).1

closed-IsValid : IsValid closed_record
closed-IsValid =
    ((initialize_trace_event-branches 7 9 blank (text "ntdll.dll") (text "NtClose") blank_size).0 9
      7 named called).2

handle_name : is_valid_field_name (text "handle") ≡ some 6
unfolding is_valid_field_name get_bounded_string_length string_index is_field_char
handle_name = refl

abbrev handle_record : Parsed
handle_record =
    add_field closed_record
      (record { tag = type_pointer; name = codes "handle"; value = take 8 (le_bytes 8 140) })

abbrev handled : Event × Bool
handled = append_trace_field closed type_pointer (text "handle") (some (le_bytes 8 140)) 8

append_trace_field-branches_example : (handled.1 ≡ true) × Encodes handled.0 handle_record
unfolding is_name_used
append_trace_field-branches_example =
    (append_trace_field-branches closed_holds type_pointer (text "handle") (le_bytes 8 140) 8 6
        (omega (arith, length-le_bytes 8 140))).3
      handle_name refl (omega (arith, closed_holds.size_is))

handle_holds : Encodes handled.0 handle_record
unfolding is_name_used
handle_holds =
    ((append_trace_field-branches closed_holds type_pointer (text "handle") (le_bytes 8 140) 8 6
        (omega (arith, length-le_bytes 8 140))).3
      handle_name refl (omega (arith, closed_holds.size_is))).1

parse_trace_event-Encodes_example : parse_trace_event closed closed.header.size ≡ some closed_record
parse_trace_event-Encodes_example = parse_trace_event-Encodes closed_holds closed-IsValid

has_trace_field-is_name_used_example :
    has_trace_field handled.0 (codes "handle") 6
    ≡ is_name_used handle_record.fields (codes "handle")
has_trace_field-is_name_used_example =
    has_trace_field-is_name_used handle_holds (codes "handle") 6 (omega arith)

find_field-find_view_example :
    find_field handled.0 (codes "handle") ≡ find_view handle_record.fields (codes "handle")
find_field-find_view_example = find_field-find_view handle_holds (codes "handle")

abbrev read_table : HandlePaths
read_table = (140, codes "a.txt") ∷ (8, codes "b") ∷ []

unknown_handle : find_object_handle closed ≡ none
unfolding find_object_handle read_handle find_view
unknown_handle =
    rw
      (
        find_field-find_view closed_holds (codes "file_handle"),
        find_field-find_view closed_holds (codes "key_handle"),
        find_field-find_view closed_holds (codes "handle"),
      )
      refl

annotate-branches_example : annotate read_table closed ≡ closed
annotate-branches_example =
    (annotate-branches read_table closed_holds 140 (codes "a.txt")).1 unknown_handle

handle-IsValid : IsValid handle_record
unfolding is_valid_field_name_bytes is_field_char has_expected_value_size is_name_used le_bytes
handle-IsValid = add_field-IsValid closed_record _ closed-IsValid (refl, refl) refl

annotate-Holds_example : Holds (annotate read_table handled.0)
annotate-Holds_example = annotate-Holds read_table handle_holds handle-IsValid

observe-evict-IsTracker_example :
    IsTracker (observe read_table closed) × IsTracker (evict read_table closed)
unfolding find_path
observe-evict-IsTracker_example =
    observe-evict-IsTracker read_table closed
      (record { unique = (refl, (refl, tt)); bounded = omega arith })

handle_read : read_handle handled.0 (codes "handle") ≡ some 140
unfolding read_handle find_view bytes_eq le_bytes le_value
handle_read = rw (find_field-find_view handle_holds (codes "handle"), read_handle) refl

close_succeeded : event_succeeded handled.0 ≡ true
unfolding event_succeeded find_view bytes_eq
close_succeeded = rw (find_field-find_view handle_holds (codes "result"), event_succeeded) refl

find_path-evict_example : find_path 140 (evict read_table handled.0) ≡ none
unfolding find_path
find_path-evict_example =
    find_path-evict read_table handled.0 140 140 (refl, (refl, tt)) handle_read (omega arith)
      close_succeeded

-- An open of "ab" that returned the handle 140.
abbrev opened_record : Parsed
opened_record = add_field handle_record (record {
  tag = type_wide_string;
  name = codes "path";
  value = take 4 (b'a' ∷ 0 ∷ b'b' ∷ 0 ∷ []);
})

abbrev opened : Event × Bool
opened =
    append_trace_field handled.0 type_wide_string (text "path") (some (b'a' ∷ 0 ∷ b'b' ∷ 0 ∷ [])) 4

path_name : is_valid_field_name (text "path") ≡ some 4
unfolding is_valid_field_name get_bounded_string_length string_index is_field_char
path_name = refl

opened_holds : Encodes opened.0 opened_record
unfolding is_name_used bytes_eq le_bytes
opened_holds =
    ((append_trace_field-branches handle_holds type_wide_string (text "path")
        (b'a' ∷ 0 ∷ b'b' ∷ 0 ∷ []) 4 4 (omega arith)).3
      path_name refl (omega (arith, handle_holds.size_is, length-le_bytes 8 140))).1

opened_succeeded : event_succeeded opened.0 ≡ true
unfolding event_succeeded find_view bytes_eq
opened_succeeded = rw (find_field-find_view opened_holds (codes "result"), event_succeeded) refl

opened_IsOpen : IsOpen opened.0 140 (codes "ab")
unfolding read_wide_string find_object_handle read_handle find_view bytes_eq le_bytes le_value
    wide_units
opened_IsOpen = record {
  names = rw (find_field-find_view opened_holds (codes "path"), read_wide_string) refl;
  some_char = refl;
  has_handle =
      rw
        (
          find_field-find_view opened_holds (codes "file_handle"),
          find_field-find_view opened_holds (codes "key_handle"),
          find_field-find_view opened_holds (codes "handle"),
          find_object_handle,
          read_handle,
        )
        refl;
  not_null = refl;
}

opened_rootless : read_handle opened.0 (codes "root_directory") ≡ none
unfolding read_handle find_view bytes_eq
opened_rootless = rw (find_field-find_view opened_holds (codes "root_directory"), read_handle) refl

find_path-observe_example : find_path 140 (observe read_table opened.0) ≡ some (codes "ab")
find_path-observe_example =
    (find_path-observe read_table opened.0 140 (codes "ab") opened_IsOpen).1 opened_succeeded
      opened_rootless 140

resolve_path_lem_example :
    resolve_path (codes "C:\\dir\\") (codes "\\x") ≡ codes "C:\\dir" ++ (b'\\' ∷ codes "x")
resolve_path_lem_example = resolve_path_lem (codes "C:\\dir\\") (codes "\\x")
