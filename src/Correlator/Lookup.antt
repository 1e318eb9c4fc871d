-- ===== src/Correlator/Lookup.antt =====
-- `FindField` of trace_correlator.cpp against the wire format.
use apiscope.Prelude.{
  &&-eq-true, ==_iff, ==_refl, Bytes, List, Option, [], ap, append_assoc, ap₂, arith, bytes_eq,
  bytes_eq_refl, bytes_eq_sound, drop, false, if◌then◌else◌, length, length-append, ltb, none, refl,
  some, suc, sym, take, take-append, true, ℕ, ◌&&◌, ◌++◌, ◌+◌, ◌-◌, ◌<◌, ◌==◌, ◌∙◌, ◌∷◌, ◌≡◌, ◌≤◌,
}
use apiscope.Correlator.{FieldRef, find_field, find_field_from}
use apiscope.Encoding.{Encodes, encode_field, encode_fields}
use apiscope.Encoding.Append.{length-free}
use apiscope.Encoding.Layout.{length-encode, length-encode_field, read_field_header-memory}
use apiscope.Encoding.Lookup.{bool_ext, field_cuts}
use apiscope.Protocol.{Event, event_header_bytes, field_header_memory}
use apiscope.Renderer.Parse.{FieldView, Parsed}
use apiscope.Transport.{trace_name_bytes}

-- The first field of a name, in a record.
unfoldable pub find_view : List FieldView → Bytes → Option FieldRef
find_view [] name = none
find_view (f ∷ fs) name =
    if bytes_eq name f.name
    then some (record { tag = f.tag; value = f.value })
    else find_view fs name

-- The name test of `FindField` at an encoded field.
same_name :
    (field_name tail name : Bytes)
    → (length field_name == length name && bytes_eq (take (length name) (field_name ++ tail)) name)
      ≡ bytes_eq name field_name
same_name field_name tail name =
    bool_ext _ _ (λ both. found (&&-eq-true _ _ both))
      (λ eq. matching (bytes_eq_sound name field_name eq))
  where
    found :
        ((length field_name == length name) ≡ true)
          × (bytes_eq (take (length name) (field_name ++ tail)) name ≡ true)
        → bytes_eq name field_name ≡ true
    found (sizes, same) =
        let e : length field_name ≡ length name = (==_iff _ _).0 sizes in
        let cut : take (length name) (field_name ++ tail) ≡ field_name =
          ap (λ k. take k (field_name ++ tail)) (sym e) ∙ take-append field_name tail in
        rw (← bytes_eq_sound _ _ same, cut) (bytes_eq_refl field_name)

    matching :
        name ≡ field_name
        → (length field_name == length name
            && bytes_eq (take (length name) (field_name ++ tail)) name)
          ≡ true
    matching e =
        rw (e, take-append field_name tail, bytes_eq_refl field_name, ==_refl (length field_name))

-- One round of `FindField`, where the payload from `cursor` on is a field's bytes.
find_field_from-at :
    (payload : Bytes) (cursor stop count : ℕ) (f : FieldView) (post name : Bytes)
    → drop cursor payload
      ≡ field_header_memory
          (record { tag = f.tag; name_length = length f.name; value_size = length f.value })
        ++ (f.name ++ (f.value ++ post))
    → drop (cursor + 4) payload ≡ f.name ++ (f.value ++ post)
    → drop (cursor + 4 + length f.name) payload ≡ f.value ++ post
    → cursor + 4 + length f.name + length f.value ≤ stop
    → length f.value < 65536
    → find_field_from payload stop (suc count) cursor name ≡ (
        if bytes_eq name f.name
        then some (record { tag = f.tag; value = f.value })
        else find_field_from payload stop count
            (cursor + 4 + (length f.name + length f.value))
            name)
unfolding find_field_from
find_field_from-at payload cursor stop count f post name at_header at_name at_value room small =
    rw (
      at_header,
      read_field_header-memory
          (record { tag = f.tag; name_length = length f.name; value_size = length f.value })
          (f.name ++ (f.value ++ post)) small,
      at_name,
      at_value,
      header_fits,
      field_fits,
      same_name f.name (f.value ++ post) name,
      take-append f.value post,
    )
  where
    header_fits : ltb stop (cursor + 4) ≡ false
    header_fits = ground arith

    field_fits : ltb stop (cursor + 4 + (length f.name + length f.value)) ≡ false
    field_fits = ground arith

find_field_from-find_view :
    (pre : Bytes) (fs : List FieldView) (free name : Bytes) (stop : ℕ)
    → length pre + length (encode_fields fs) ≤ stop
    → length (encode_fields fs) < 65536
    → find_field_from (pre ++ (encode_fields fs ++ free)) stop (length fs) (length pre) name
      ≡ find_view fs name
unfolding find_field_from find_view
find_field_from-find_view pre [] free name stop room small = refl
find_field_from-find_view pre (f ∷ fs) free name stop room small =
    let cuts = field_cuts pre f (encode_fields fs ++ free) in
    ap (λ x. find_field_from (pre ++ x) stop (suc (length fs)) (length pre) name)
      (append_assoc (encode_field f) (encode_fields fs) free)
    ∙ find_field_from-at (pre ++ (encode_field f ++ (encode_fields fs ++ free))) (length pre) stop
        (length fs) f (encode_fields fs ++ free) name cuts.0 cuts.1 cuts.2
        (omega (arith, sizes, length-encode_field f)) (omega (arith, sizes, length-encode_field f))
    ∙ ap₂
        (λ x n.
          if bytes_eq name f.name
          then some (record { tag = f.tag; value = f.value })
          else find_field_from x stop (length fs) n name)
        (sym (append_assoc pre (encode_field f) (encode_fields fs ++ free)))
        (omega (arith, length-append pre (encode_field f), length-encode_field f))
    ∙ ap (λ r. if bytes_eq name f.name then some (record { tag = f.tag; value = f.value }) else r)
        (find_field_from-find_view (pre ++ encode_field f) fs free name stop
          (omega (arith, sizes, length-append pre (encode_field f))) (omega (arith, sizes)))
  where
    sizes :
        length (encode_field f ++ encode_fields fs)
        ≡ length (encode_field f) + length (encode_fields fs)
    sizes = length-append (encode_field f) (encode_fields fs)

-- On an event that holds a record, `FindField` returns the type and the value of the record's first
-- field of that name, and fails exactly where the record has none.
pub find_field-find_view :
    {e : Event} {p : Parsed}
    → Encodes e p
    → (name : Bytes) → find_field e name ≡ find_view p.fields name
unfolding find_field
find_field-find_view {e} {p} held name =
    ap₂ (λ x k. find_field_from x (e.header.size - event_header_bytes) k (trace_name_bytes e) name)
      (held.payload_is ∙ simp append_assoc) held.count_is
    ∙ ap
        (λ n.
          find_field_from ((p.module_name ++ p.api_name) ++ (encode_fields p.fields ++ held.free))
            (e.header.size - event_header_bytes) (length p.fields) n name)
        (omega (arith, held.module_is, held.api_is, length-append p.module_name p.api_name))
    ∙ find_field_from-find_view (p.module_name ++ p.api_name) p.fields held.free name
        (e.header.size - event_header_bytes)
        (omega (arith, held.size_is, length-encode p, length-append p.module_name p.api_name))
        (omega (arith, length-encode p, length-free held))
