-- ===== src/Encoding/Parse.antt =====
-- `ParseTraceEvent` of trace_renderer.cpp against the wire format.
use apiscope.Prelude.{
  ==_refl, Bytes, List, [], ap, append-nil, append_assoc, ap₂, arith, drop, drop-append, false, leb,
  length, length-append, refl, some, suc, sym, take, take-append, true, ℕ, ◌++◌, ◌+◌, ◌-◌, ◌<◌,
  ◌==◌, ◌∙◌, ◌∷◌, ◌≡◌, ◌≤◌,
}
use apiscope.Encoding.{Encodes, encode, encode_field, encode_fields}
use apiscope.Encoding.Append.{length-free}
use apiscope.Encoding.Layout.{length-encode, length-encode_field, read_field_header-memory}
use apiscope.Encoding.Lookup.{field_cuts}
use apiscope.Encoding.Valid.{
  AreValidFields, IsValid, IsValidField, has_expected_value_size-append,
  is_valid_field_name_bytes-append, is_valid_identifier_bytes-append,
}
use apiscope.Protocol.{
  Event, FieldHeader, event_header_bytes, field_header_bytes, field_header_memory,
  trace_event_magic, trace_event_version, trace_max_event_bytes,
}
use apiscope.Renderer.Parse.{
  FieldView, Parsed, is_name_used, is_valid_identifier_bytes, parse_field, parse_fields,
  parse_trace_event,
}
use apiscope.Transport.{trace_name_bytes}

-- One round of the parser's loop, where the payload from `cursor` on is a valid field's bytes.
parse_field-at :
    (payload : Bytes) (cursor stop : ℕ) (f : FieldView) (post : Bytes) (parsed : List FieldView)
    → drop cursor payload
      ≡ field_header_memory
          (record { tag = f.tag; name_length = length f.name; value_size = length f.value })
        ++ (f.name ++ (f.value ++ post))
    → drop (cursor + 4) payload ≡ f.name ++ (f.value ++ post)
    → drop (cursor + 4 + length f.name) payload ≡ f.value ++ post
    → cursor + 4 + length f.name + length f.value ≤ stop
    → length f.value < 65536
    → IsValidField f
    → is_name_used parsed f.name ≡ false
    → parse_field payload stop cursor parsed ≡ some (cursor + 4 + length f.name + length f.value, f)
unfolding parse_field
parse_field-at payload cursor stop f post parsed at_header at_name at_value room small
      (named, sized) unused =
    rw (
      at_header,
      read_field_header-memory header (f.name ++ (f.value ++ post)) small,
      at_name,
      at_value,
      header_fits,
      field_fits,
      is_valid_field_name_bytes-append f.name (f.value ++ post),
      named,
      take-append f.name (f.value ++ post),
      unused,
      has_expected_value_size-append f.tag f.value post,
      sized,
      take-append f.value post,
    )
  where
    header : FieldHeader
    header = record { tag = f.tag; name_length = length f.name; value_size = length f.value }

    header_fits : leb field_header_bytes (stop - cursor) ≡ true
    header_fits = ground arith

    field_fits : leb (length f.name + length f.value) (stop - (cursor + 4)) ≡ true
    field_fits = ground arith

-- The same, behind the bytes `pre` of the payload.
parse_field-encode_field :
    (pre : Bytes) (f : FieldView) (post : Bytes) (parsed : List FieldView) (stop : ℕ)
    → length pre + length (encode_field f) ≤ stop
    → length f.value < 65536
    → IsValidField f
    → is_name_used parsed f.name ≡ false
    → parse_field (pre ++ (encode_field f ++ post)) stop (length pre) parsed
      ≡ some (length (pre ++ encode_field f), f)
parse_field-encode_field pre f post parsed stop room small valid unused =
    let cuts = field_cuts pre f post in
    parse_field-at (pre ++ (encode_field f ++ post)) (length pre) stop f post parsed cuts.0 cuts.1
      cuts.2 (omega (arith, length-encode_field f)) small valid unused
    ∙ ap (λ n. some (n, f))
        (omega (arith, length-append pre (encode_field f), length-encode_field f))

parse_fields-step :
    (payload : Bytes) (stop count cursor next : ℕ) (earlier : List FieldView) (f : FieldView)
    → parse_field payload stop cursor earlier ≡ some (next, f)
    → parse_fields payload stop (suc count) cursor earlier
      ≡ parse_fields payload stop count next (earlier ++ f ∷ [])
unfolding parse_fields
parse_fields-step payload stop count cursor next earlier f read = rw (read, parse_fields) refl

-- The parser's loop reads encoded valid fields one after the other.
parse_fields-encode_fields :
    (pre : Bytes) (fs : List FieldView) (free : Bytes) (earlier : List FieldView) (stop : ℕ)
    → length pre + length (encode_fields fs) ≤ stop
    → length (encode_fields fs) < 65536
    → AreValidFields earlier fs
    → parse_fields (pre ++ (encode_fields fs ++ free)) stop (length fs) (length pre) earlier
      ≡ some (length pre + length (encode_fields fs), earlier ++ fs)
unfolding parse_fields
parse_fields-encode_fields pre [] free earlier stop room small valid =
    ap₂ (λ n l. some (n, l)) (omega arith) (sym (append-nil earlier))
parse_fields-encode_fields pre (f ∷ fs) free earlier stop room small (valid, unused, later) =
    ap (λ x. parse_fields (pre ++ x) stop (suc (length fs)) (length pre) earlier)
      (append_assoc (encode_field f) (encode_fields fs) free)
    ∙ parse_fields-step _ stop (length fs) (length pre) (length (pre ++ encode_field f)) earlier f (
        parse_field-encode_field pre f (encode_fields fs ++ free) earlier stop
          (omega (arith, sizes)) (omega (arith, sizes, length-encode_field f)) valid unused)
    ∙ ap (λ x. parse_fields x stop (length fs) (length (pre ++ encode_field f)) (earlier ++ f ∷ []))
        (sym (append_assoc pre (encode_field f) (encode_fields fs ++ free)))
    ∙ parse_fields-encode_fields (pre ++ encode_field f) fs free (earlier ++ f ∷ []) stop
        (omega (arith, sizes, length-append pre (encode_field f))) (omega (arith, sizes)) later
    ∙ ap₂ (λ n l. some (n, l)) (omega (arith, sizes, length-append pre (encode_field f)))
        (append_assoc earlier (f ∷ []) fs)
  where
    sizes :
        length (encode_field f ++ encode_fields fs)
        ≡ length (encode_field f) + length (encode_fields fs)
    sizes = length-append (encode_field f) (encode_fields fs)

module _ {e : Event} {p : Parsed} (held : Encodes e p) (valid : IsValid p) where
  payload_is : e.payload ≡ p.module_name ++ (p.api_name ++ (encode_fields p.fields ++ held.free))
  payload_is = held.payload_is ∙ simp append_assoc

  names_payload : e.payload ≡ (p.module_name ++ p.api_name) ++ (encode_fields p.fields ++ held.free)
  names_payload = held.payload_is ∙ simp append_assoc

  fields_parsed :
      parse_fields e.payload
        (e.header.size - event_header_bytes)
        e.header.field_count
        (trace_name_bytes e)
        []
      ≡ some (e.header.size - event_header_bytes, p.fields)
  fields_parsed =
      rw (names_payload, held.count_is, names_size)
        (parse_fields-encode_fields (p.module_name ++ p.api_name) p.fields held.free []
            (e.header.size - event_header_bytes) (omega (arith, sizes))
            (omega (arith, sizes, length-free held)) valid.fields_valid
          ∙ ap (λ n. some (n, p.fields)) (omega (arith, sizes)))
    where
      names_size : trace_name_bytes e ≡ length (p.module_name ++ p.api_name)
      names_size =
          omega (arith, held.module_is, held.api_is, length-append p.module_name p.api_name)

      sizes :
          (e.header.size ≡ 32 + length (encode p))
          × (length (encode p)
              ≡ length (p.module_name ++ p.api_name) + length (encode_fields p.fields))
      sizes = (held.size_is, omega (arith, length-encode p, length-append p.module_name p.api_name))

  module_parsed : is_valid_identifier_bytes e.payload e.header.module_name_length true ≡ true
  module_parsed =
      ap₂ (λ x n. is_valid_identifier_bytes x n true) payload_is held.module_is
      ∙ is_valid_identifier_bytes-append p.module_name _ true
      ∙ valid.module_valid

  api_at :
      drop e.header.module_name_length e.payload
      ≡ p.api_name ++ (encode_fields p.fields ++ held.free)
  api_at = ap₂ drop held.module_is payload_is ∙ drop-append p.module_name _

  api_parsed :
      is_valid_identifier_bytes
        (drop e.header.module_name_length e.payload)
        e.header.api_name_length
        false
      ≡ true
  api_parsed =
      ap₂ (λ x n. is_valid_identifier_bytes x n false) api_at held.api_is
      ∙ is_valid_identifier_bytes-append p.api_name _ false
      ∙ valid.api_valid

  header_parsed :
      (leb event_header_bytes e.header.size ≡ true)
      × ((e.header.magic == trace_event_magic) ≡ true)
      × ((e.header.version == trace_event_version) ≡ true)
      × (leb e.header.size trace_max_event_bytes ≡ true)
      × (leb (event_header_bytes + trace_name_bytes e) e.header.size ≡ true)
  header_parsed = (
    ground (arith, held.size_is),
    ground (arith, held.magic_is),
    ground (arith, held.version_is),
    ground (arith, held.size_is, length-free held),
    ground (arith, held.size_is, held.module_is, held.api_is, length-encode p),
  )

  -- `ParseTraceEvent` of an event that holds a valid record returns that record.
  pub parse_trace_event-Encodes : parse_trace_event e e.header.size ≡ some p
  unfolding parse_trace_event
  parse_trace_event-Encodes =
      rw
        (
          header_parsed.0,
          header_parsed.1,
          header_parsed.2,
          ==_refl e.header.size,
          header_parsed.3,
          header_parsed.4,
          module_parsed,
          api_parsed,
          fields_parsed,
          ==_refl (e.header.size - event_header_bytes),
        )
        (ap₂ (λ m a. some (record { module_name = m; api_name = a; fields = p.fields }))
          (ap₂ take held.module_is payload_is ∙ take-append p.module_name _)
          (ap₂ take held.api_is api_at ∙ take-append p.api_name _))
