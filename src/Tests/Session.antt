-- ===== src/Tests/Session.antt =====
-- A run of the reader and the writer of a session on one event.
use apiscope.Prelude.{
  Bytes, List, Option, [], arith, codes, false, length-replicate, none, refl, replicate, some, true,
  ℕ, ◌∷◌, ◌≡◌,
}
use apiscope.Cli.{jsonl}
use apiscope.Encoding.Calls.{pointer, run_calls, run_calls-is_valid_trace_event}
use apiscope.Protocol.{Event, payload_bytes}
use apiscope.Renderer.Format.{SystemTime}
use apiscope.Renderer.Parse.{is_valid_trace_event}
use apiscope.Session.{
  Pipeline, Reached, Settings, View, Writer, append_to, finish_reader, finish_writer, onward,
  queue_event, started, take_event, write_event,
}
use apiscope.Session.Complete.{Reached-IsInStep, output_file-finished}
use apiscope.Session.Written.{IsInStep, text_of, valid_of, with_paths}
use apiscope.Transport.{
  get_bounded_string_length, initialize_trace_event, is_identifier_char, is_valid_identifier,
  string_index, zero_header,
}

abbrev no_time : ℕ → Option SystemTime
no_time timestamp = none

abbrev narrow : List ℕ → Bytes
narrow units = units

abbrev lines_only : Settings
lines_only = record {
  quiet = true;
  footer_enabled = false;
  color_enabled = false;
  output_format = jsonl;
}

abbrev no_view : View
no_view = record { dropped_count = 0; rate = 0; duration = 0; width = 80 }

abbrev started_close : Event
started_close =
    (initialize_trace_event 7 9
      (record { header = zero_header; payload = replicate payload_bytes 0 })
      (some (codes "ntdll.dll")) (some (codes "NtClose"))).0

abbrev close_event : Event
close_event = run_calls none started_close (pointer (some (codes "handle")) 0x2C ∷ [])

close_starts :
    (initialize_trace_event 7 9
      (record { header = zero_header; payload = replicate payload_bytes 0 })
      (some (codes "ntdll.dll"))
      (some (codes "NtClose"))).1
    ≡ true
unfolding initialize_trace_event is_valid_identifier get_bounded_string_length string_index
    is_identifier_char
close_starts = refl

close_is_valid : is_valid_trace_event close_event close_event.header.size ≡ true
close_is_valid =
    run_calls-is_valid_trace_event none 7 9
      (record { header = zero_header; payload = replicate payload_bytes 0 })
      (some (codes "ntdll.dll")) (some (codes "NtClose"))
      (pointer (some (codes "handle")) 0x2C ∷ []) (length-replicate {A = ℕ} payload_bytes 0)
      close_starts (tt, tt)

abbrev first_writer : Writer
first_writer = record {
  handle_paths = [];
  trace_stats = record { events = 0; dropped = 0; per_hook = [] };
  footer_drawn = false;
  footer_line = [];
  console = [];
  output_file = some [];
}

abbrev ended : Pipeline
ended = record {
  event_queue = [];
  reader_finished = true;
  writer_finished = true;
  writer = write_event no_time narrow lines_only no_view close_event first_writer;
  events_read = close_event ∷ [];
}

-- The reader queues the event and ends; the writer writes it and ends.
ended-Reached : Reached no_time narrow lines_only (some []) ended
ended-Reached =
    onward
      (onward
        (onward (onward started (queue_event close_event refl close_is_valid (omega arith)))
          (finish_reader refl))
        (take_event no_view close_event [] refl refl))
      (finish_writer refl refl refl)

Reached-IsInStep_example : IsInStep no_time narrow lines_only (some []) ended
Reached-IsInStep_example = Reached-IsInStep no_time narrow lines_only (some []) ended-Reached

output_file-finished_example :
    ended.writer.output_file
    ≡ append_to
        (some [])
        (text_of no_time narrow lines_only (with_paths [] (valid_of (close_event ∷ []))))
output_file-finished_example =
    output_file-finished no_time narrow lines_only (some []) ended-Reached refl
