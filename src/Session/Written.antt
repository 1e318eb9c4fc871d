-- ===== src/Session/Written.antt =====
-- What the writer of src/apiscope/trace_session.cpp has put into the output file.
-- The events that `queueEvent` accepts.
use apiscope.Prelude.{
  Bool, Bool-cases, Bytes, List, Option, [], ap, append-nil, append_assoc, false, if◌then◌else◌,
  inl, inr, length, none, refl, some, sym, true, ℕ, ◌++◌, ◌==◌, ◌∙◌, ◌∷◌, ◌≡◌, ◌≤◌, ◌⊎◌,
}
use apiscope.Correlator.{HandlePaths, annotate, evict, observe}
use apiscope.Protocol.{Event}
use apiscope.Renderer.Format.{SystemTime}
use apiscope.Renderer.Parse.{is_valid_trace_event}
use apiscope.Renderer.Text.{render_trace_event_text}
use apiscope.Session.{
  Pipeline, Settings, View, Writer, append_to, current_hook_name, draw_footer, erase_footer, print,
  rebuild_footer_line, render_event, render_output, show_event, trace_event_queue_capacity,
  write_event,
}
use apiscope.Stats.{record_event}

abbrev pub valid_of : List Event → List Event
valid_of [] = []
valid_of (e ∷ events) =
    if is_valid_trace_event e e.header.size then e ∷ valid_of events else valid_of events

pub valid_of-snoc :
    (e : Event) (events : List Event)
    → valid_of (events ++ e ∷ [])
      ≡ valid_of events ++ (if is_valid_trace_event e e.header.size then e ∷ [] else [])
valid_of-snoc e [] = refl
valid_of-snoc e (d ∷ events) = elim (Bool-cases (is_valid_trace_event d d.header.size)) [
  | inl accepted ↦ rw (accepted, valid_of-snoc e events) refl
  | inr refused ↦ rw (refused, valid_of-snoc e events) refl
]

pub append_to-++ :
    (file : Option Bytes) (a b : Bytes) → append_to (append_to file a) b ≡ append_to file (a ++ b)
append_to-++ none a b = refl
append_to-++ (some old) a b = ap some (append_assoc old a b)

pub append_to-nil : (file : Option Bytes) → append_to file [] ≡ file
append_to-nil none = refl
append_to-nil (some old) = ap some (append-nil old)

-- The paths known after an event.
abbrev pub known_after : HandlePaths → Event → HandlePaths
known_after paths e = evict (observe paths e) (annotate (observe paths e) e)

abbrev pub known_after_all : HandlePaths → List Event → HandlePaths
known_after_all paths [] = paths
known_after_all paths (e ∷ events) = known_after_all (known_after paths e) events

-- Events with the paths that the tracker adds to each from those before it.
abbrev pub with_paths : HandlePaths → List Event → List Event
with_paths paths [] = []
with_paths paths (e ∷ events) =
    annotate (observe paths e) e ∷ with_paths (known_after paths e) events

pub known_after_all-snoc :
    (paths : HandlePaths) (e : Event) (events : List Event)
    → known_after_all paths (events ++ e ∷ []) ≡ known_after (known_after_all paths events) e
known_after_all-snoc paths e [] = refl
known_after_all-snoc paths e (d ∷ events) = known_after_all-snoc (known_after paths d) e events

pub with_paths-snoc :
    (paths : HandlePaths) (e : Event) (events : List Event)
    → with_paths paths (events ++ e ∷ [])
      ≡ with_paths paths events ++ annotate (observe (known_after_all paths events) e) e ∷ []
with_paths-snoc paths e [] = refl
with_paths-snoc paths e (d ∷ events) =
    ap (λ more. annotate (observe paths d) d ∷ more)
      (with_paths-snoc (known_after paths d) e events)

module _ (file_time_to_system_time : ℕ → Option SystemTime)
    (wide_char_to_multi_byte : List ℕ → Bytes) (settings : Settings) where
  -- The text of events, one after the other.
  abbrev pub text_of : List Event → Bytes
  text_of [] = []
  text_of (e ∷ events) =
      render_output file_time_to_system_time wide_char_to_multi_byte settings e ++ text_of events

  pub text_of-snoc :
      (e : Event) (events : List Event)
      → text_of (events ++ e ∷ [])
        ≡ text_of events
          ++ render_output file_time_to_system_time wide_char_to_multi_byte settings e
  text_of-snoc e [] =
      append-nil (render_output file_time_to_system_time wide_char_to_multi_byte settings e)
  text_of-snoc e (d ∷ events) =
      ap (λ more. render_output file_time_to_system_time wide_char_to_multi_byte settings d ++ more)
        (text_of-snoc e events)
      ∙ sym (
          append_assoc (render_output file_time_to_system_time wide_char_to_multi_byte settings d)
            (text_of events)
            (render_output file_time_to_system_time wide_char_to_multi_byte settings e))

-- A writer with the same output file and paths.
abbrev pub Keeps : Writer → Writer → Type 0
Keeps v w = (w.output_file ≡ v.output_file) × (w.handle_paths ≡ v.handle_paths)

if-Keeps : (b : Bool) (w x y : Writer) → Keeps w x → Keeps w y → Keeps w (if b then x else y)
if-Keeps true w x y kept other = kept
if-Keeps false w x y other kept = kept

pub Keeps-trans : (v w x : Writer) → Keeps v w → Keeps w x → Keeps v x
Keeps-trans v w x (file, paths) (file_, paths_) = (file_ ∙ file, paths_ ∙ paths)

erase_footer-Keeps : (w : Writer) → Keeps w (erase_footer w)
unfolding erase_footer
erase_footer-Keeps w = if-Keeps w.footer_drawn w _ _ (refl, refl) (refl, refl)

pub rebuild_footer_line-Keeps :
    (settings : Settings) (view : View) (w : Writer) → Keeps w (rebuild_footer_line settings view w)
unfolding rebuild_footer_line
rebuild_footer_line-Keeps settings view w = (refl, refl)

pub draw_footer-Keeps :
    (settings : Settings) (view : View) (w : Writer) → Keeps w (draw_footer settings view w)
unfolding draw_footer
draw_footer-Keeps settings view w =
    if-Keeps (length w.footer_line == 0) w (rebuild_footer_line settings view w) w
      (rebuild_footer_line-Keeps settings view w) (refl, refl)

module _ (file_time_to_system_time : ℕ → Option SystemTime)
    (wide_char_to_multi_byte : List ℕ → Bytes) (settings : Settings) where
  show_event-Keeps :
      (view : View) (e : Event) (w : Writer)
      → Keeps w (show_event file_time_to_system_time wide_char_to_multi_byte settings view e w)
  unfolding show_event
  show_event-Keeps view e w =
      let erased = if settings.footer_enabled then erase_footer w else w in
      let printed = print erased (
        render_trace_event_text file_time_to_system_time wide_char_to_multi_byte e
          settings.color_enabled) in
      let kept : Keeps w erased =
        if-Keeps settings.footer_enabled w (erase_footer w) w (erase_footer-Keeps w) (refl, refl) in
      if-Keeps settings.quiet w w
        (if settings.footer_enabled then draw_footer settings view printed else printed)
        (refl, refl)
        (if-Keeps settings.footer_enabled w (draw_footer settings view printed) printed
          (Keeps-trans w printed (draw_footer settings view printed) kept
            (draw_footer-Keeps settings view printed))
          kept)

  -- The writer in RenderEvent, before it shows the event.
  abbrev counted : Event → Writer → Writer
  counted e w = record w {
    handle_paths = known_after w.handle_paths e;
    trace_stats =
        record_event w.trace_stats (current_hook_name (annotate (observe w.handle_paths e) e));
  }

  pub write_event-file :
      (view : View) (e : Event) (w : Writer)
      → (write_event file_time_to_system_time wide_char_to_multi_byte settings view e w).output_file
        ≡ append_to w.output_file (
            render_output file_time_to_system_time wide_char_to_multi_byte settings
              (annotate (observe w.handle_paths e) e))
  unfolding write_event render_event
  write_event-file view e w =
      ap
        (λ file. append_to file (
          render_output file_time_to_system_time wide_char_to_multi_byte settings
            (annotate (observe w.handle_paths e) e)))
        (show_event-Keeps view (annotate (observe w.handle_paths e) e) (counted e w)).0

  pub write_event-paths :
      (view : View) (e : Event) (w : Writer)
      → (write_event file_time_to_system_time wide_char_to_multi_byte settings view e
          w).handle_paths
        ≡ known_after w.handle_paths e
  unfolding write_event render_event
  write_event-paths view e w =
      (show_event-Keeps view (annotate (observe w.handle_paths e) e) (counted e w)).1

  -- The writer has taken the first of the events accepted, in order, and the rest are queued.
  pub record IsInStep (file : Option Bytes) (s : Pipeline) : Type 0 where
    pub taken : List Event
    pub in_order : taken ++ s.event_queue ≡ valid_of s.events_read
    pub fits : length s.event_queue ≤ trace_event_queue_capacity
    pub paths_known : s.writer.handle_paths ≡ known_after_all [] taken
    pub file_holds :
        s.writer.output_file
        ≡ append_to file (
            text_of file_time_to_system_time wide_char_to_multi_byte settings (with_paths [] taken))
    pub drained : (s.writer_finished ≡ false) ⊎ (s.event_queue ≡ []) × (s.reader_finished ≡ true)
