-- ===== src/Encoding/Append.antt =====
-- `AppendTraceField` of trace_transport.cpp against the wire format.
use apiscope.Prelude.{
  Bytes, List, [], ap, append-nil, append_assoc, ap₂, arith, drop, false, le_bytes, length,
  length-append, length-drop, length-take, ltb, refl, sym, take, take-append-drop, true, ℕ, ◌++◌,
  ◌+◌, ◌-◌, ◌∙◌, ◌∷◌, ◌≡◌, ◌≤◌,
}
use apiscope.Encoding.{Encodes, encode, encode_field}
use apiscope.Encoding.Layout.{
  encode_fields-append, length-encode, length-encode_field, length-encode_fields,
}
use apiscope.Memory.{copy_at}
use apiscope.Memory.Laws.{copy_at_lem}
use apiscope.Protocol.{
  Event, FieldHeader, event_header_bytes, field_header_bytes, field_header_memory, payload_bytes,
  trace_max_event_bytes,
}
use apiscope.Renderer.Parse.{FieldView, Parsed}
use apiscope.Transport.{append_checked, put_field}

-- A record with one more field.
abbrev pub add_field : Parsed → FieldView → Parsed
add_field p f = record p { fields = p.fields ++ f ∷ [] }

module _ (pre old_header old_name old_value post name name_tail value value_tail : Bytes)
    (h : FieldHeader) (header_fits : length old_header ≡ 4)
    (name_fits : length old_name ≡ length name) (value_fits : length old_value ≡ length value)
    (name_size : h.name_length ≡ length name) (value_size : h.value_size ≡ length value) where
  -- The three copies of `AppendTraceField` put the field over the free bytes behind `pre`.
  put_field_lem :
      put_field
        (pre ++ (old_header ++ (old_name ++ (old_value ++ post))))
        (length pre)
        h
        (name ++ name_tail)
        (value ++ value_tail)
      ≡ pre ++ (field_header_memory h ++ (name ++ (value ++ post)))
  unfolding put_field le_bytes
  put_field_lem =
      ap
        (λ x.
          copy_at (copy_at x (length pre + 4) (name ++ name_tail) h.name_length)
            (length pre + 4 + h.name_length) (value ++ value_tail) h.value_size)
        header_copied
      ∙ ap (λ x. copy_at x (length pre + 4 + h.name_length) (value ++ value_tail) h.value_size)
          name_copied
      ∙ value_copied
    where
      memory : Bytes
      memory = field_header_memory h

      header_copied :
          copy_at (pre ++ (old_header ++ (old_name ++ (old_value ++ post)))) (length pre) memory 4
          ≡ (pre ++ memory) ++ (old_name ++ (old_value ++ post))
      header_copied =
          copy_at_lem pre old_header (old_name ++ (old_value ++ post)) memory [] (length pre) 4 refl
            (sym header_fits) refl
          ∙ sym (append_assoc pre memory (old_name ++ (old_value ++ post)))

      name_copied :
          copy_at
            ((pre ++ memory) ++ (old_name ++ (old_value ++ post)))
            (length pre + 4)
            (name ++ name_tail)
            h.name_length
          ≡ ((pre ++ memory) ++ name) ++ (old_value ++ post)
      name_copied =
          copy_at_lem (pre ++ memory) old_name (old_value ++ post) name name_tail (length pre + 4)
            h.name_length (omega (arith, length-append pre memory)) (omega arith) (omega arith)
          ∙ sym (append_assoc (pre ++ memory) name (old_value ++ post))

      value_copied :
          copy_at
            (((pre ++ memory) ++ name) ++ (old_value ++ post))
            (length pre + 4 + h.name_length)
            (value ++ value_tail)
            h.value_size
          ≡ pre ++ (memory ++ (name ++ (value ++ post)))
      value_copied =
          copy_at_lem ((pre ++ memory) ++ name) old_value post value value_tail
            (length pre + 4 + h.name_length) h.value_size
            (omega (arith, length-append (pre ++ memory) name, length-append pre memory))
            (omega arith) (omega arith)
          ∙ append_assoc (pre ++ memory) name (value ++ post)
          ∙ append_assoc pre memory (name ++ (value ++ post))

-- How the payload is cut: behind the encoding, room for a header, a name and a value.
cut_free :
    (free : Bytes) (n v : ℕ)
    → free
      ≡ take 4 free
        ++ (take n (drop 4 free)
            ++ (take v (drop n (drop 4 free)) ++ drop v (drop n (drop 4 free))))
cut_free free n v = simp take-append-drop

pub length-take_of_le {ℓ} :
    {A : Type ℓ} (n : ℕ) (xs : List A) → n ≤ length xs → length (take n xs) ≡ n
length-take_of_le n xs h = omega (arith, length-take n xs)

encode-add_field :
    (p : Parsed) (f : FieldView) → encode (add_field p f) ≡ encode p ++ encode_field f
encode-add_field p f = rw (encode_fields-append p.fields (f ∷ [])) (simp (append_assoc, append-nil))

length-encode-add_field :
    (p : Parsed) (f : FieldView)
    → length (encode (add_field p f)) ≡ length (encode p) + (4 + length f.name + length f.value)
length-encode-add_field p f = omega (
  arith,
  ap length (encode-add_field p f),
  length-append (encode p) (encode_field f),
  length-encode_field f,
)

-- The encoding and the free bytes fill the payload.
pub length-free :
    {e : Event} {p : Parsed} (held : Encodes e p)
    → length (encode p) + length held.free ≡ payload_bytes
length-free {p = p} held =
    omega (arith, held.payload_size, ap length held.payload_is, length-append (encode p) held.free)

module _ {e : Event} {p : Parsed} (held : Encodes e p) (tag n v : ℕ) (name value : Bytes) where
  abbrev taken : FieldView
  taken = record { tag = tag; name = take n name; value = take v value }

  abbrev behind : Bytes
  behind = drop v (drop n (drop 4 held.free))

  put_field-payload :
      n ≤ length name
      → v ≤ length value
      → 4 + n + v ≤ length held.free
      → put_field e.payload
          (e.header.size - event_header_bytes)
          (record { tag = tag; name_length = n; value_size = v })
          name
          value
        ≡ encode (add_field p taken) ++ behind
  put_field-payload named valued room =
      ap₂ (λ x c. put_field x c (record { tag = tag; name_length = n; value_size = v }) name value)
        (held.payload_is ∙ ap (◌++◌ (encode p)) (cut_free held.free n v)) at_end
      ∙ ap₂
          (put_field cut (length (encode p))
            (record { tag = tag; name_length = n; value_size = v }))
          (sym (take-append-drop n name)) (sym (take-append-drop v value))
      ∙ put_field_lem (encode p) (take 4 held.free) (take n (drop 4 held.free))
          (take v (drop n (drop 4 held.free))) behind (take n name) (drop n name) (take v value)
          (drop v value) (record { tag = tag; name_length = n; value_size = v })
          (length-take_of_le 4 held.free (omega arith))
          (omega (arith, length-take {A = ℕ}, length-drop {A = ℕ}))
          (omega (arith, length-take {A = ℕ}, length-drop {A = ℕ}))
          (omega (arith, length-take {A = ℕ}, length-drop {A = ℕ}))
          (omega (arith, length-take {A = ℕ}, length-drop {A = ℕ}))
      ∙ regroup
    where
      cut : Bytes
      cut =
          encode p
          ++ (take 4 held.free
              ++ (take n (drop 4 held.free) ++ (take v (drop n (drop 4 held.free)) ++ behind)))

      at_end : e.header.size - event_header_bytes ≡ length (encode p)
      at_end = omega (arith, held.size_is)

      regroup :
          encode p
            ++ (field_header_memory (record { tag = tag; name_length = n; value_size = v })
                ++ (take n name ++ (take v value ++ behind)))
          ≡ encode (add_field p taken) ++ behind
      regroup =
          ap₂
            (λ a b.
              encode p
              ++ (field_header_memory (record { tag = tag; name_length = a; value_size = b })
                  ++ (take n name ++ (take v value ++ behind))))
            (sym (length-take_of_le n name named)) (sym (length-take_of_le v value valued))
          ∙ rw (encode-add_field p taken) (simp append_assoc)

  put_field-size :
      n ≤ length name
      → v ≤ length value
      → 4 + n + v ≤ length held.free
      → length (
          put_field e.payload
            (e.header.size - event_header_bytes)
            (record { tag = tag; name_length = n; value_size = v })
            name
            value)
        ≡ payload_bytes
  put_field-size named valued room = omega (
    arith,
    ap length (put_field-payload named valued room),
    length-append (encode (add_field p taken)) behind,
    length-encode-add_field p taken,
    length-take_of_le n name named,
    length-take_of_le v value valued,
    length-drop v (drop n (drop 4 held.free)),
    length-drop n (drop 4 held.free),
    length-drop 4 held.free,
    length-free held,
  )

  -- An event that holds a record and has room, a name and a value: `AppendTraceField` succeeds, and
  -- the event then holds the record with the field added.
  pub append_checked-Encodes :
      n ≤ length name
      → v ≤ length value
      → e.header.size + (field_header_bytes + n + v) ≤ trace_max_event_bytes
      → let (e', done) = append_checked e tag name n value v in
        (done ≡ true) × Encodes e' (add_field p taken)
  unfolding append_checked
  append_checked-Encodes named valued room = rw fits (
    refl,
    record {
      free = behind;
      payload_is = put_field-payload named valued (omega (arith, length-free held, held.size_is));
      payload_size = put_field-size named valued (omega (arith, length-free held, held.size_is));
      magic_is = held.magic_is;
      version_is = held.version_is;
      size_is = omega (
        arith,
        held.size_is,
        length-encode-add_field p taken,
        length-free held,
        length-take_of_le n name named,
        length-take_of_le v value valued,
      );
      count_is = omega (
        arith,
        held.count_is,
        length-append p.fields (taken ∷ []),
        length-encode_fields p.fields,
        length-encode p,
        length-free held,
      );
      module_is = held.module_is;
      api_is = held.api_is;
    },
  )
    where
      fits : ltb trace_max_event_bytes (e.header.size + (field_header_bytes + n + v)) ≡ false
      fits = ground arith
