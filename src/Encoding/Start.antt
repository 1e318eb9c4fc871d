-- ===== src/Encoding/Start.antt =====
-- `InitializeTraceEvent` of trace_transport.cpp.
use apiscope.Prelude.{
  Bool, Bool-cases, Bytes, Option, Option-cases, [], ap, append-nil, append_assoc, ap₂, arith, drop,
  false, inl, inr, leb, length, length-append, length-drop, length-take, none, refl, some, sym,
  take, take-append-drop, true, ℕ, ◌%◌, ◌++◌, ◌+◌, ◌^◌, ◌∙◌, ◌≡◌, ◌≤◌, ◌⊎◌,
}
use apiscope.Encoding.{Encodes}
use apiscope.Encoding.Holds.{Holds}
use apiscope.Encoding.Valid.{IsValid, is_valid_identifier_bytes-take}
use apiscope.Memory.{copy_at, custom_mem_set}
use apiscope.Memory.Laws.{copy_at_lem, length-custom_mem_set}
use apiscope.Protocol.{Event, event_header_bytes, flag_field_error, payload_bytes}
use apiscope.Renderer.Parse.{Parsed, is_valid_trace_event, parse_trace_event}
use apiscope.Ring.{Ring, emit_trace_event, is_known_header, refused}
use apiscope.Transport.{
  append_trace_field, c_string, initialize_trace_event, is_valid_identifier, set_flag, start_event,
  zero_header,
}
use apiscope.Transport.Names.{is_valid_identifier-bytes}

-- The two copies of `InitializeTraceEvent` put the names at the payload's start.
start_payload :
    (payload name name_tail api api_tail : Bytes)
    → length name + length api ≤ length payload
    → copy_at
        (copy_at payload 0 (name ++ name_tail) (length name))
        (length name)
        (api ++ api_tail)
        (length api)
      ≡ name ++ (api ++ drop (length api) (drop (length name) payload))
start_payload payload name name_tail api api_tail room =
    ap (λ x. copy_at (copy_at x 0 (name ++ name_tail) m) m (api ++ api_tail) a) cut
    ∙ ap (λ x. copy_at x m (api ++ api_tail) a)
        (copy_at_lem [] (take m payload) (old_api ++ behind) name name_tail 0 m refl
          (omega (arith, length-take m payload)) refl)
    ∙ copy_at_lem name old_api behind api api_tail m a refl
        (omega (arith, length-take a (drop m payload), length-drop m payload)) refl
  where
    m : ℕ
    m = length name

    a : ℕ
    a = length api

    old_api : Bytes
    old_api = take a (drop m payload)

    behind : Bytes
    behind = drop a (drop m payload)

    cut : payload ≡ take m payload ++ (old_api ++ behind)
    cut = simp take-append-drop

start_event-Encodes :
    (thread_id timestamp : ℕ) (payload name api : Bytes) (m a : ℕ)
    → length payload ≡ payload_bytes
    → m ≤ 63
    → a ≤ 63
    → m ≤ length name
    → a ≤ length api
    → Encodes
        (start_event thread_id timestamp payload name m api a)
        (record { module_name = take m name; api_name = take a api; fields = [] })
unfolding start_event
start_event-Encodes thread_id timestamp payload name api m a sized hm ha lm la = record {
  free = drop (length (take a api)) (drop (length (take m name)) payload);
  payload_is = started ∙ regroup;
  payload_size = omega (
    arith,
    ap length started,
    length-append (take m name) (take a api ++ behind),
    length-append (take a api) behind,
    length-drop (length (take a api)) (drop (length (take m name)) payload),
    length-drop (length (take m name)) payload,
    m_size,
    a_size,
    sized,
  );
  magic_is = refl;
  version_is = refl;
  size_is = size_is;
  count_is = refl;
  module_is = sym m_size;
  api_is = sym a_size;
}
  where
    m_size : length (take m name) ≡ m
    m_size = omega (arith, length-take m name)

    a_size : length (take a api) ≡ a
    a_size = omega (arith, length-take a api)

    started :
        copy_at (copy_at payload 0 name m) m api a
        ≡ take m name
          ++ (take a api ++ drop (length (take a api)) (drop (length (take m name)) payload))
    started =
        ap₂ (λ x y. copy_at (copy_at payload 0 x m) m y a) (sym (take-append-drop m name))
          (sym (take-append-drop a api))
        ∙ ap₂
            (λ x y.
              copy_at (copy_at payload 0 (take m name ++ drop m name) x) x
                (take a api ++ drop a api) y)
            (sym m_size) (sym a_size)
        ∙ start_payload payload (take m name) (drop m name) (take a api) (drop a api)
            (omega (arith, m_size, a_size))

    behind : Bytes
    behind = drop (length (take a api)) (drop (length (take m name)) payload)

    size_is : (32 + m + a) % 2 ^ 16 ≡ 32 + length (take m name ++ (take a api ++ []))
    size_is = omega (
      arith,
      m_size,
      a_size,
      length-append (take m name) (take a api ++ []),
      length-append (take a api) [],
    )

    regroup : take m name ++ (take a api ++ behind) ≡ (take m name ++ (take a api ++ [])) ++ behind
    regroup = simp (append_assoc, append-nil)

initialize-started :
    (thread_id timestamp : ℕ) (e : Event) (module_name api_name : Option Bytes) (m a : ℕ)
    → is_valid_identifier module_name 63 true ≡ some m
    → is_valid_identifier api_name 63 false ≡ some a
    → initialize_trace_event thread_id timestamp e module_name api_name ≡ (
      start_event thread_id timestamp
          (custom_mem_set e.payload 0 payload_bytes)
          (c_string module_name)
          m
          (c_string api_name)
          a,
      true,
    )
unfolding initialize_trace_event
initialize-started thread_id timestamp e module_name api_name m a named called =
    rw (named, called, initialize_trace_event) refl

initialize-refused :
    (thread_id timestamp : ℕ) (e : Event) (module_name api_name : Option Bytes)
    → (is_valid_identifier module_name 63 true ≡ none)
      ⊎ (is_valid_identifier api_name 63 false ≡ none)
    → initialize_trace_event thread_id timestamp e module_name api_name ≡ (
      set_flag flag_field_error
          (record { header = zero_header; payload = custom_mem_set e.payload 0 payload_bytes }),
      false,
    )
unfolding initialize_trace_event
initialize-refused thread_id timestamp e module_name api_name (inl bad) =
    rw (bad, initialize_trace_event) refl
initialize-refused thread_id timestamp e module_name api_name (inr bad) =
    elim (Option-cases (is_valid_identifier module_name 63 true)) [
      | inl none_named ↦ rw (none_named, initialize_trace_event) refl
      | inr (m, named) ↦ rw (named, bad, initialize_trace_event) refl
    ]

-- The event that a refused name leaves, with a payload.
abbrev refused_event : Bytes → Event
refused_event payload =
    set_flag flag_field_error (record { header = zero_header; payload = payload })

refused-is_valid_trace_event :
    (payload : Bytes) (bytes_received : ℕ)
    → is_valid_trace_event (refused_event payload) bytes_received ≡ false
unfolding is_valid_trace_event parse_trace_event
refused-is_valid_trace_event payload bytes_received =
    elim (Bool-cases (leb event_header_bytes bytes_received)) [
      | inl long ↦ rw (long, is_valid_trace_event) refl
      | inr short ↦ rw (short, is_valid_trace_event) refl
    ]

refused-append_trace_field :
    (payload : Bytes) (tag : ℕ) (name value : Option Bytes) (value_size : ℕ)
    → append_trace_field (refused_event payload) tag name value value_size
      ≡ (refused_event payload, false)
unfolding append_trace_field
refused-append_trace_field payload tag name none value_size = refl
refused-append_trace_field payload tag name (some value) value_size = refl

refused-emit_trace_event :
    (payload : Bytes) (wake_event : Option Bool) (ring : Option Ring)
    → emit_trace_event wake_event ring (refused_event payload) ≡ refused
unfolding emit_trace_event
refused-emit_trace_event payload wake_event none = refl
refused-emit_trace_event payload wake_event (some ring) =
    elim (Bool-cases (is_known_header ring.ring_header)) [
      | inl known ↦ rw (known) refl
      | inr unknown ↦ rw (unknown) refl
    ]

-- Whatever the event held, a successful start makes it hold the record of the two names, with no
-- field, no flag, and the thread and the time that were read; a name that is refused leaves an event
-- of zeros with the flag FieldError, which IsValidTraceEvent accepts at no size, to which
-- AppendTraceField adds nothing, and which EmitTraceEvent refuses.
pub initialize_trace_event-branches :
    (thread_id timestamp : ℕ) (e : Event) (module_name api_name : Option Bytes)
    → length e.payload ≡ payload_bytes
    → let r = initialize_trace_event thread_id timestamp e module_name api_name in
      ((m a : ℕ)
        → is_valid_identifier module_name 63 true ≡ some m
        → is_valid_identifier api_name 63 false ≡ some a
        → let p : Parsed = record {
          module_name = take m (c_string module_name);
          api_name = take a (c_string api_name);
          fields = [];
        } in
          (r.1 ≡ true)
          × Encodes r.0 p
          × IsValid p
          × (r.0.header.flags ≡ 0)
          × (r.0.header.thread_id ≡ thread_id)
          × (r.0.header.timestamp ≡ timestamp))
      × (is_valid_identifier module_name 63 true ≡ none
            ⊎ is_valid_identifier api_name 63 false ≡ none
          → (r.1 ≡ false)
            × (r.0.header ≡ record zero_header { flags = flag_field_error })
            × ((bytes_received : ℕ) → is_valid_trace_event r.0 bytes_received ≡ false)
            × ((tag : ℕ) (name value : Option Bytes) (value_size : ℕ)
                → append_trace_field r.0 tag name value value_size ≡ (r.0, false))
            × ((wake_event : Option Bool) (ring : Option Ring)
                → emit_trace_event wake_event ring r.0 ≡ refused))
unfolding start_event
initialize_trace_event-branches thread_id timestamp e module_name api_name sized = (
  λ m a named called.
      rw (initialize-started thread_id timestamp e module_name api_name m a named called) (
        refl,
        start_event-Encodes thread_id timestamp (custom_mem_set e.payload 0 payload_bytes)
            (c_string module_name) (c_string api_name) m a
            (length-custom_mem_set e.payload 0 payload_bytes ∙ sized)
            (is_valid_identifier-bytes module_name true named).0
            (is_valid_identifier-bytes api_name false called).0
            (is_valid_identifier-bytes module_name true named).1
            (is_valid_identifier-bytes api_name false called).1,
        record {
          module_valid =
              is_valid_identifier_bytes-take (c_string module_name) m true
                (is_valid_identifier-bytes module_name true named).1
              ∙ (is_valid_identifier-bytes module_name true named).2;
          api_valid =
              is_valid_identifier_bytes-take (c_string api_name) a false
                (is_valid_identifier-bytes api_name false called).1
              ∙ (is_valid_identifier-bytes api_name false called).2;
          fields_valid = tt;
        },
        refl,
        refl,
        refl,
      ),
  λ bad.
      let blank = custom_mem_set e.payload 0 payload_bytes in
      rw (initialize-refused thread_id timestamp e module_name api_name bad) (
        refl,
        refl,
        refused-is_valid_trace_event blank,
        refused-append_trace_field blank,
        refused-emit_trace_event blank,
      ),
)

-- A started event holds a valid record.
pub started-Holds :
    (thread_id timestamp : ℕ) (e : Event) (module_name api_name : Option Bytes)
    → length e.payload ≡ payload_bytes
    → (initialize_trace_event thread_id timestamp e module_name api_name).1 ≡ true
    → Holds (initialize_trace_event thread_id timestamp e module_name api_name).0
started-Holds thread_id timestamp e module_name api_name sized started =
    let branches =
      initialize_trace_event-branches thread_id timestamp e module_name api_name sized in
    elim (Option-cases (is_valid_identifier module_name 63 true)) [
      | inl bad ↦ absurd (cc (branches.1 (inl bad)).0)
      | inr (m, named) ↦ elim (Option-cases (is_valid_identifier api_name 63 false)) [
        | inl bad ↦ absurd (cc (branches.1 (inr bad)).0)
        | inr (a, called) ↦ let done = branches.0 m a named called in (_, done.1, done.2)
      ]
    ]
