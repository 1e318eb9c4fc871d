-- ===== src/Session.antt =====
-- The queue between ReaderLoop and WriterLoop of src/apiscope/trace_session.cpp, and what the writer
-- does with an event. The two threads and the footer's are steps in any order; a step is what a
-- thread does under a lock, or on its own. What a footer shows of the ring, the clock and the
-- console is given with the step that rebuilds it.
pub mod Written
pub mod Complete
use apiscope.Prelude.{
  Bool, Bytes, List, Option, [], codes, drop, false, if◌then◌else◌, length, ltb, none, replicate,
  some, take, true, ℕ, ◌&&◌, ◌++◌, ◌-◌, ◌<◌, ◌==◌, ◌∷◌, ◌≡◌,
}
use apiscope.Cli.{OutputFormat, jsonl, text}
use apiscope.Correlator.{HandlePaths, annotate, evict, observe}
use apiscope.Protocol.{Event}
use apiscope.Renderer.Format.{SystemTime}
use apiscope.Renderer.Jsonl.{render_trace_event_jsonl}
use apiscope.Renderer.Parse.{is_valid_trace_event}
use apiscope.Renderer.Text.{render_trace_event_text}
use apiscope.Stats.{TraceStats, format_status_line, record_event}

-- The options of a session.
pub record Settings : Type 0 where
  pub quiet : Bool
  pub footer_enabled : Bool
  pub color_enabled : Bool
  pub output_format : OutputFormat

-- What RebuildFooterLine finds: the count of dropped events, the rate, the duration and the width.
pub record View : Type 0 where
  pub dropped_count : ℕ
  pub rate : ℕ
  pub duration : ℕ
  pub width : ℕ

-- What the writer keeps, with the bytes on the console and in the output file, if it is open.
pub record Writer : Type 0 where
  pub handle_paths : HandlePaths
  pub trace_stats : TraceStats
  pub footer_drawn : Bool
  pub footer_line : Bytes
  pub console : Bytes
  pub output_file : Option Bytes

-- `TraceSession::CurrentHookName`
unfoldable pub current_hook_name : Event → Bytes
current_hook_name e =
    take e.header.module_name_length e.payload
    ++ b'!' ∷ take e.header.api_name_length (drop e.header.module_name_length e.payload)

-- What is written to a file that may be open.
abbrev pub append_to : Option Bytes → Bytes → Option Bytes
append_to none added = none
append_to (some old) added = some (old ++ added)

abbrev pub print : Writer → Bytes → Writer
print w shown = record w { console = w.console ++ shown }

-- `TraceSession::EraseFooter`
unfoldable pub erase_footer : Writer → Writer
erase_footer w =
    if w.footer_drawn then record (print w (13 ∷ (27 ∷ codes "[K"))) { footer_drawn = false } else w

-- `TraceSession::RebuildFooterLine`
unfoldable pub rebuild_footer_line : Settings → View → Writer → Writer
rebuild_footer_line settings view w =
    let counted = record (w.trace_stats) { dropped = view.dropped_count } in
    let line = format_status_line counted view.rate view.duration view.width in
    record w {
      trace_stats = counted;
      footer_line =
          if settings.color_enabled && ltb (length line) view.width
          then line ++ replicate (view.width - length line) b' '
          else line;
    }

-- `TraceSession::DrawFooter`
unfoldable pub draw_footer : Settings → View → Writer → Writer
draw_footer settings view w =
    let shown = if length w.footer_line == 0 then rebuild_footer_line settings view w else w in
    let line =
      if settings.color_enabled
      then (27 ∷ codes "[7m") ++ shown.footer_line ++ 27 ∷ codes "[0m"
      else shown.footer_line in
    record (print shown (13 ∷ (line ++ 27 ∷ codes "[K"))) { footer_drawn = true }

module _ (file_time_to_system_time : ℕ → Option SystemTime)
    (wide_char_to_multi_byte : List ℕ → Bytes) (settings : Settings) where
  -- The form of an event in the output file.
  unfoldable pub render_output : Event → Bytes
  render_output e = elim settings.output_format [
    | jsonl ↦ render_trace_event_jsonl file_time_to_system_time wide_char_to_multi_byte e
    | text ↦ render_trace_event_text file_time_to_system_time wide_char_to_multi_byte e false
  ]

  -- The console in `RenderEvent`.
  unfoldable pub show_event : View → Event → Writer → Writer
  show_event view e w =
      let erased = if settings.footer_enabled then erase_footer w else w in
      let printed = print erased (
        render_trace_event_text file_time_to_system_time wide_char_to_multi_byte e
          settings.color_enabled) in
      if settings.quiet
      then w
      else if settings.footer_enabled
      then draw_footer settings view printed
      else printed

  -- `TraceSession::RenderEvent`
  unfoldable pub render_event : View → Event → Writer → Writer
  render_event view e w =
      let counted = record w { trace_stats = record_event w.trace_stats (current_hook_name e) } in
      let shown = show_event view e counted in
      record shown { output_file = append_to shown.output_file (render_output e) }

  -- The body of `WriterLoop` after it has taken an event.
  unfoldable pub write_event : View → Event → Writer → Writer
  write_event view e w =
      let observed = observe w.handle_paths e in
      let annotated = annotate observed e in
      render_event view annotated (record w { handle_paths = evict observed annotated })

abbrev pub trace_event_queue_capacity : ℕ
trace_event_queue_capacity = 16384

-- The two threads, with the events that `queueEvent` was called with.
pub record Pipeline : Type 0 where
  pub event_queue : List Event
  pub reader_finished : Bool
  pub writer_finished : Bool
  pub writer : Writer
  pub events_read : List Event

module _ (file_time_to_system_time : ℕ → Option SystemTime)
    (wide_char_to_multi_byte : List ℕ → Bytes) (settings : Settings) where
  pub data PipelineStep (s : Pipeline) : Pipeline → Type 0 where
    ignore_event :
        (e : Event)
        → s.reader_finished ≡ false
        → is_valid_trace_event e e.header.size ≡ false
        → PipelineStep s (record s { events_read = s.events_read ++ e ∷ [] })
    queue_event :
        (e : Event)
        → s.reader_finished ≡ false
        → is_valid_trace_event e e.header.size ≡ true
        → length s.event_queue < trace_event_queue_capacity
        → PipelineStep s (record s {
          event_queue = s.event_queue ++ e ∷ [];
          events_read = s.events_read ++ e ∷ [];
        })
    finish_reader : s.reader_finished ≡ false → PipelineStep s (record s { reader_finished = true })
    take_event :
        (view : View) (e : Event) (queue : List Event)
        → s.writer_finished ≡ false
        → s.event_queue ≡ e ∷ queue
        → PipelineStep s (record s {
          event_queue = queue;
          writer =
              write_event file_time_to_system_time wide_char_to_multi_byte settings view e s.writer;
        })
    finish_writer :
        s.writer_finished ≡ false
        → s.event_queue ≡ []
        → s.reader_finished ≡ true
        → PipelineStep s (record s { writer_finished = true })
    refresh_footer :
        (view : View)
        → settings.footer_enabled ≡ true
        → PipelineStep s (record s {
          writer = draw_footer settings view (rebuild_footer_line settings view s.writer);
        })

  -- What a session comes to from an output file, with nothing read.
  pub data Reached (file : Option Bytes) : Pipeline → Type 0 where
    started : Reached file (record {
      event_queue = [];
      reader_finished = false;
      writer_finished = false;
      writer = record {
        handle_paths = [];
        trace_stats = record { events = 0; dropped = 0; per_hook = [] };
        footer_drawn = false;
        footer_line = [];
        console = [];
        output_file = file;
      };
      events_read = [];
    })
    onward : {s t : Pipeline} → Reached file s → PipelineStep s t → Reached file t
