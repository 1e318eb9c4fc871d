-- ===== src/Encoding/Lookup.antt =====
-- `HasTraceField` of trace_transport.cpp against the wire format.
use apiscope.Prelude.{
  &&-eq-true, ==_iff, Bool, Bytes, List, [], ap, append_assoc, ap₂, arith, bytes_eq, bytes_eq_refl,
  bytes_eq_sound, drop, drop-append, false, if◌then◌else◌, is_zero, le_bytes, length, length-append,
  length-le_bytes, length-take, refl, suc, sym, take, take-append, true, ℕ, ◌&&◌, ◌++◌, ◌+◌, ◌<◌,
  ◌==◌, ◌||◌, ◌∙◌, ◌∷◌, ◌≡◌, ◌≤◌,
}
use apiscope.Encoding.{Encodes, encode_field, encode_fields}
use apiscope.Encoding.Append.{length-free}
use apiscope.Encoding.Layout.{length-encode, length-encode_field, read_field_header-memory}
use apiscope.Memory.{custom_mem_cmp}
use apiscope.Memory.Laws.{custom_mem_cmp-zero}
use apiscope.Protocol.{Event, FieldHeader, field_header_memory}
use apiscope.Renderer.Parse.{FieldView, Parsed, is_name_used}
use apiscope.Transport.{has_field_from, has_trace_field, trace_name_bytes}

pub bool_ext : (a b : Bool) → (a ≡ true → b ≡ true) → (b ≡ true → a ≡ true) → a ≡ b
bool_ext true b f g = sym (f refl)
bool_ext false true f g = g refl
bool_ext false false f g = refl

-- The test of one field's name.
same_name :
    (field_name tail name : Bytes) (size : ℕ)
    → size ≤ length name
    → (length field_name == size && is_zero (custom_mem_cmp (field_name ++ tail) name size))
      ≡ bytes_eq (take size name) field_name
same_name field_name tail name size h =
    bool_ext _ _ (λ both. found (&&-eq-true _ _ both)) (λ eq. matching (bytes_eq_sound _ _ eq))
  where
    at_size : length field_name ≡ size → take size (field_name ++ tail) ≡ field_name
    at_size e = ap (λ k. take k (field_name ++ tail)) (sym e) ∙ take-append field_name tail

    found :
        ((length field_name == size) ≡ true)
          × (is_zero (custom_mem_cmp (field_name ++ tail) name size) ≡ true)
        → bytes_eq (take size name) field_name ≡ true
    found (lengths, zeros) =
        let e : length field_name ≡ size = (==_iff _ _).0 lengths in
        let same : take size (field_name ++ tail) ≡ take size name =
          (custom_mem_cmp-zero (field_name ++ tail) name size
              (omega (arith, length-append field_name tail)) h).0
            zeros in
        rw (← same, at_size e) (bytes_eq_refl field_name)

    matching :
        take size name ≡ field_name
        → (length field_name == size && is_zero (custom_mem_cmp (field_name ++ tail) name size))
          ≡ true
    matching e =
        let lengths : length field_name ≡ size =
          omega (arith, ap length e, length-take size name) in
        let zeros : is_zero (custom_mem_cmp (field_name ++ tail) name size) ≡ true =
          (custom_mem_cmp-zero (field_name ++ tail) name size
              (omega (arith, length-append field_name tail)) h).1
            (at_size lengths ∙ sym e) in
        rw zeros (ground (arith, (==_iff (length field_name) size).1 lengths))

-- The bytes of a field behind its header, then those of the next fields.
pub encode_field-append :
    (f : FieldView) (tail : Bytes)
    → encode_field f ++ tail
      ≡ field_header_memory
          (record { tag = f.tag; name_length = length f.name; value_size = length f.value })
        ++ (f.name ++ (f.value ++ tail))
encode_field-append f tail = simp append_assoc

pub drop-append-append : (xs ys zs : Bytes) → drop (length xs + length ys) (xs ++ (ys ++ zs)) ≡ zs
drop-append-append xs ys zs =
    ap₂ drop (sym (length-append xs ys)) (sym (append_assoc xs ys zs)) ∙ drop-append (xs ++ ys) zs

-- Where a field's three parts stand in a payload that has it behind `pre`.
pub field_cuts :
    (pre : Bytes) (f : FieldView) (post : Bytes)
    → let payload = pre ++ (encode_field f ++ post) in
      (drop (length pre) payload
        ≡ field_header_memory
            (record { tag = f.tag; name_length = length f.name; value_size = length f.value })
          ++ (f.name ++ (f.value ++ post)))
      × (drop (length pre + 4) payload ≡ f.name ++ (f.value ++ post))
      × (drop (length pre + 4 + length f.name) payload ≡ f.value ++ post)
field_cuts pre f post = (
  drop-append pre (encode_field f ++ post) ∙ encode_field-append f post,
  ap₂ drop behind_header (ap (◌++◌ pre) (encode_field-append f post))
      ∙ drop-append-append pre memory (f.name ++ (f.value ++ post)),
  ap₂ drop behind_name (
        ap (◌++◌ pre) (encode_field-append f post)
        ∙ sym (append_assoc pre memory (f.name ++ (f.value ++ post))))
      ∙ drop-append-append (pre ++ memory) f.name (f.value ++ post),
)
  where
    memory : Bytes
    memory =
        field_header_memory
          (record { tag = f.tag; name_length = length f.name; value_size = length f.value })

    memory_size : length memory ≡ 4
    memory_size = ap (λ n. suc (suc n)) (length-le_bytes 2 (length f.value))

    behind_header : length pre + 4 ≡ length pre + length memory
    behind_header = omega (arith, memory_size)

    behind_name : length pre + 4 + length f.name ≡ length (pre ++ memory) + length f.name
    behind_name = omega (arith, memory_size, length-append pre memory)

drop-field_header_memory :
    (h : FieldHeader) (tail : Bytes) → drop 4 (field_header_memory h ++ tail) ≡ tail
unfolding le_bytes
drop-field_header_memory h tail = refl

if-true : (a b : Bool) → (if a then true else b) ≡ (a || b)
if-true true b = refl
if-true false b = refl

-- One round of the walk, given what the rest of it finds.
has_field_from-step :
    (f : FieldView) (fs : List FieldView) (behind name : Bytes) (size : ℕ)
    → length f.value < 65536
    → size ≤ length name
    → has_field_from (length fs) behind name size ≡ is_name_used fs (take size name)
    → has_field_from (suc (length fs)) (encode_field f ++ behind) name size
      ≡ (bytes_eq (take size name) f.name || is_name_used fs (take size name))
unfolding has_field_from
has_field_from-step f fs behind name size small h ih =
    ap (λ c. has_field_from (suc (length fs)) c name size) (encode_field-append f behind)
    ∙ rw
        (
          read_field_header-memory
              (record { tag = f.tag; name_length = length f.name; value_size = length f.value })
              (f.name ++ (f.value ++ behind)) small,
          drop-field_header_memory
              (record { tag = f.tag; name_length = length f.name; value_size = length f.value })
              (f.name ++ (f.value ++ behind)),
          drop-append-append f.name f.value behind,
          ih,
          same_name f.name (f.value ++ behind) name size h,
        )
        (if-true (bytes_eq (take size name) f.name) (is_name_used fs (take size name)))

-- `HasTraceField` walks the encoded fields and finds exactly the names of theirs.
pub has_field_from-is_name_used :
    (fs : List FieldView) (tail name : Bytes) (size : ℕ)
    → length (encode_fields fs) < 65536
    → size ≤ length name
    → has_field_from (length fs) (encode_fields fs ++ tail) name size
      ≡ is_name_used fs (take size name)
unfolding has_field_from is_name_used
has_field_from-is_name_used [] tail name size small h = refl
has_field_from-is_name_used (f ∷ fs) tail name size small h =
    let lengths = length-append (encode_field f) (encode_fields fs) in
    ap (λ c. has_field_from (suc (length fs)) c name size)
      (append_assoc (encode_field f) (encode_fields fs) tail)
    ∙ has_field_from-step f fs (encode_fields fs ++ tail) name size
        (omega (arith, lengths, length-encode_field f)) h
        (has_field_from-is_name_used fs tail name size (omega (arith, lengths)) h)

-- On an event that holds a record, `HasTraceField` finds exactly the names of the record's fields.
pub has_trace_field-is_name_used :
    {e : Event} {p : Parsed}
    → Encodes e p
    → (name : Bytes) (size : ℕ) → size ≤ length name
    → has_trace_field e name size ≡ is_name_used p.fields (take size name)
unfolding has_trace_field
has_trace_field-is_name_used {e} {p} held name size h =
    ap₂ (λ k c. has_field_from k c name size) held.count_is fields_at
    ∙ has_field_from-is_name_used p.fields held.free name size
        (omega (arith, length-encode p, length-free held)) h
  where
    fields_at : drop (trace_name_bytes e) e.payload ≡ encode_fields p.fields ++ held.free
    fields_at =
        ap₂ drop (ap₂ ◌+◌ held.module_is held.api_is) (held.payload_is ∙ simp append_assoc)
        ∙ drop-append-append p.module_name p.api_name (encode_fields p.fields ++ held.free)
