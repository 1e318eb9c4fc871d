-- ===== src/Session/Complete.antt =====
-- The file that the reader and the writer of src/apiscope/trace_session.cpp leave.
use apiscope.Prelude.{
  Bytes, List, Option, [], ap, append-nil, append_assoc, arith, false, inl, inr, length,
  length-append, refl, sym, true, ℕ, ◌++◌, ◌<◌, ◌∙◌, ◌∷◌, ◌≡◌,
}
use apiscope.Correlator.{annotate, observe}
use apiscope.Protocol.{Event}
use apiscope.Renderer.Format.{SystemTime}
use apiscope.Renderer.Parse.{is_valid_trace_event}
use apiscope.Session.{
  Pipeline, PipelineStep, Reached, Settings, View, append_to, draw_footer, finish_reader,
  finish_writer, ignore_event, onward, queue_event, rebuild_footer_line, refresh_footer,
  render_output, started, take_event, trace_event_queue_capacity, write_event,
}
use apiscope.Session.Written.{
  IsInStep, Keeps-trans, append_to-++, append_to-nil, draw_footer-Keeps, known_after,
  known_after_all, known_after_all-snoc, rebuild_footer_line-Keeps, text_of, text_of-snoc, valid_of,
  valid_of-snoc, with_paths, with_paths-snoc, write_event-file, write_event-paths,
}

module _ (file_time_to_system_time : ℕ → Option SystemTime)
    (wide_char_to_multi_byte : List ℕ → Bytes) (settings : Settings) (file : Option Bytes) where
  abbrev InStep : Pipeline → Type 0
  InStep s = IsInStep file_time_to_system_time wide_char_to_multi_byte settings file s

  abbrev output : Event → Bytes
  output = render_output file_time_to_system_time wide_char_to_multi_byte settings

  abbrev text_for : List Event → Bytes
  text_for = text_of file_time_to_system_time wide_char_to_multi_byte settings

  -- An event with the path that those before it give.
  abbrev annotated : List Event → Event → Event
  annotated events e = annotate (observe (known_after_all [] events) e) e

  -- The reader is at work, so the writer has not ended.
  unfinished : (s : Pipeline) → InStep s → s.reader_finished ≡ false → s.writer_finished ≡ false
  unfinished s inv at_work = elim inv.drained [
    | inl writing ↦ writing
    | inr (empty, ended) ↦ absurd (cc)
  ]

  ignore-IsInStep :
      (s : Pipeline) (e : Event)
      → InStep s
      → is_valid_trace_event e e.header.size ≡ false
      → InStep (record s { events_read = s.events_read ++ e ∷ [] })
  ignore-IsInStep s e inv refused = record {
    in_order =
        inv.in_order
        ∙ sym (valid_of-snoc e s.events_read ∙ rw (refused) (append-nil (valid_of s.events_read)));
    taken = inv.taken;
    fits = inv.fits;
    paths_known = inv.paths_known;
    file_holds = inv.file_holds;
    drained = inv.drained;
  }

  queue-IsInStep :
      (s : Pipeline) (e : Event)
      → InStep s
      → s.reader_finished ≡ false
      → is_valid_trace_event e e.header.size ≡ true
      → length s.event_queue < trace_event_queue_capacity
      → InStep (record s {
        event_queue = s.event_queue ++ e ∷ [];
        events_read = s.events_read ++ e ∷ [];
      })
  queue-IsInStep s e inv at_work accepted room = record {
    in_order =
        sym (append_assoc inv.taken s.event_queue (e ∷ []))
        ∙ ap (λ events. events ++ e ∷ []) inv.in_order
        ∙ sym (valid_of-snoc e s.events_read ∙ rw (accepted) refl);
    fits = omega (arith, length-append s.event_queue (e ∷ []));
    drained = inl (unfinished s inv at_work);
    taken = inv.taken;
    paths_known = inv.paths_known;
    file_holds = inv.file_holds;
  }

  take-IsInStep :
      (s : Pipeline) (view : View) (e : Event) (queue : List Event)
      → InStep s
      → s.writer_finished ≡ false
      → s.event_queue ≡ e ∷ queue
      → InStep (record s {
        event_queue = queue;
        writer =
            write_event file_time_to_system_time wide_char_to_multi_byte settings view e s.writer;
      })
  take-IsInStep s view e queue inv writing first = record {
    taken = inv.taken ++ e ∷ [];
    in_order =
        append_assoc inv.taken (e ∷ []) queue
        ∙ ap (λ events. inv.taken ++ events) (sym first)
        ∙ inv.in_order;
    fits = omega (arith, ap length first, inv.fits);
    paths_known =
        write_event-paths file_time_to_system_time wide_char_to_multi_byte settings view e s.writer
        ∙ ap (λ paths. known_after paths e) inv.paths_known
        ∙ sym (known_after_all-snoc [] e inv.taken);
    file_holds =
        write_event-file file_time_to_system_time wide_char_to_multi_byte settings view e s.writer
        ∙ ap (λ paths. append_to s.writer.output_file (output (annotate (observe paths e) e)))
            inv.paths_known
        ∙ ap (λ old. append_to old (output (annotated inv.taken e))) inv.file_holds
        ∙ append_to-++ file (text_for (with_paths [] inv.taken)) (output (annotated inv.taken e))
        ∙ ap (append_to file) (
            sym (
              text_of-snoc file_time_to_system_time wide_char_to_multi_byte settings
                (annotated inv.taken e) (with_paths [] inv.taken)))
        ∙ ap (λ events. append_to file (text_for events)) (sym (with_paths-snoc [] e inv.taken));
    drained = inl writing;
  }

  footer-IsInStep :
      (s : Pipeline) (view : View)
      → InStep s
      → InStep (record s {
        writer = draw_footer settings view (rebuild_footer_line settings view s.writer);
      })
  footer-IsInStep s view inv =
      let kept =
        Keeps-trans s.writer (rebuild_footer_line settings view s.writer)
          (draw_footer settings view (rebuild_footer_line settings view s.writer))
          (rebuild_footer_line-Keeps settings view s.writer)
          (draw_footer-Keeps settings view (rebuild_footer_line settings view s.writer)) in
      record {
        file_holds = kept.0 ∙ inv.file_holds;
        paths_known = kept.1 ∙ inv.paths_known;
        taken = inv.taken;
        in_order = inv.in_order;
        fits = inv.fits;
        drained = inv.drained;
      }

  PipelineStep-IsInStep :
      {s t : Pipeline}
      → InStep s
      → PipelineStep file_time_to_system_time wide_char_to_multi_byte settings s t
      → InStep t
  PipelineStep-IsInStep {s} inv (ignore_event e at_work refused) = ignore-IsInStep s e inv refused
  PipelineStep-IsInStep {s} inv (queue_event e at_work accepted room) =
      queue-IsInStep s e inv at_work accepted room
  PipelineStep-IsInStep {s} inv (finish_reader at_work) = record {
    drained = inl (unfinished s inv at_work);
    taken = inv.taken;
    in_order = inv.in_order;
    fits = inv.fits;
    paths_known = inv.paths_known;
    file_holds = inv.file_holds;
  }
  PipelineStep-IsInStep {s} inv (take_event view e queue writing first) =
      take-IsInStep s view e queue inv writing first
  PipelineStep-IsInStep {s} inv (finish_writer writing empty ended) = record {
    drained = inr (empty, ended);
    taken = inv.taken;
    in_order = inv.in_order;
    fits = inv.fits;
    paths_known = inv.paths_known;
    file_holds = inv.file_holds;
  }
  PipelineStep-IsInStep {s} inv (refresh_footer view enabled) = footer-IsInStep s view inv

  -- In every state that the reader, the writer and the footer reach by steps in any order, the
  -- writer has taken the first of the events that IsValidTraceEvent accepted, in the order of their
  -- reading, the rest are queued, at most as many as the queue may hold, and the output file has
  -- got the text of those taken, each with the path that the ones before it give.
  pub Reached-IsInStep :
      {s : Pipeline}
      → Reached file_time_to_system_time wide_char_to_multi_byte settings file s
      → IsInStep file_time_to_system_time wide_char_to_multi_byte settings file s
  Reached-IsInStep started = record {
    taken = [];
    in_order = refl;
    fits = omega arith;
    paths_known = refl;
    file_holds = sym (append_to-nil file);
    drained = inl refl;
  }
  Reached-IsInStep (onward before step) = PipelineStep-IsInStep (Reached-IsInStep before) step

  -- Once the writer has ended, the output file has got the text of every event read that
  -- IsValidTraceEvent accepted, once each and in the order of their reading, with the path that the
  -- ones before it give.
  pub output_file-finished :
      {s : Pipeline}
      → Reached file_time_to_system_time wide_char_to_multi_byte settings file s
      → s.writer_finished ≡ true
      → s.writer.output_file
        ≡ append_to file (
            text_of file_time_to_system_time wide_char_to_multi_byte settings
              (with_paths [] (valid_of s.events_read)))
  output_file-finished {s} reached ended =
      let inv = Reached-IsInStep reached in
      elim inv.drained [
        | inl writing ↦ absurd (cc)
        | inr (empty, done) ↦
            inv.file_holds
            ∙ ap (λ events. append_to file (text_for (with_paths [] events)))
                (sym (append-nil inv.taken)
                  ∙ ap (λ queue. inv.taken ++ queue) (sym empty)
                  ∙ inv.in_order)
      ]
