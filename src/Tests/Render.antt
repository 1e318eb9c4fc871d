-- ===== src/Tests/Render.antt =====
-- Text of the renderer at concrete inputs.
use apiscope.Prelude.{
  Bytes, List, Option, [], codes, none, refl, replicate, some, ℕ, ◌++◌, ◌∷◌, ◌≡◌,
}
use apiscope.Protocol.{Event, payload_bytes}
use apiscope.Renderer.Escape.{json_escape-read_string, plain, read_string}
use apiscope.Renderer.Format.{
  SystemTime, format_status, hex_digits, hex_status, json_escape, name_in,
}
use apiscope.Renderer.Parse.{Parsed}
use apiscope.Transport.{initialize_trace_event, zero_header}

abbrev no_time : ℕ → Option SystemTime
no_time timestamp = none

-- The conversion of characters below 128.
abbrev narrow : List ℕ → Bytes
narrow units = units

abbrev blank : Event
blank = record { header = zero_header; payload = replicate payload_bytes 0 }

abbrev event : Event
event = (initialize_trace_event 7 9 blank (some (codes "ntdll.dll")) (some (codes "NtClose"))).0

abbrev event_record : Parsed
event_record = record { module_name = codes "ntdll.dll"; api_name = codes "NtClose"; fields = [] }

json_escape-read_string_example :
    read_string plain (json_escape (codes "a\\b" ++ 1 ∷ []) ++ b'"' ∷ codes ",")
    ≡ some (codes "a\\b" ++ 1 ∷ [], codes ",")
json_escape-read_string_example = json_escape-read_string (codes "a\\b" ++ 1 ∷ []) (codes ",")

first_status : format_status 0xC0000022 ≡ codes "STATUS_ACCESS_DENIED (0xC0000022)"
unfolding format_status name_in hex_status hex_digits
first_status = refl

first_escape : json_escape (34 ∷ 10 ∷ 31 ∷ []) ≡ codes "\\\"\\n\\u001f"
unfolding json_escape hex_digits
first_escape = refl
