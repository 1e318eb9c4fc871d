-- ===== src/Encoding/Layout.antt =====
-- Lengths and cuts of encoded fields.
use apiscope.Prelude.{
  Bytes, List, [], ap, append_assoc, arith, le_bytes, le_value, length, length-append, refl, sym,
  ◌*◌, ◌++◌, ◌+◌, ◌<◌, ◌∙◌, ◌∷◌, ◌≡◌, ◌≤◌,
}
use apiscope.Encoding.{encode, encode_field, encode_fields}
use apiscope.Protocol.{FieldHeader, field_header_memory}
use apiscope.Renderer.Parse.{FieldView, Parsed}
use apiscope.Transport.{read_field_header}

pub length-encode_field :
    (f : FieldView) → length (encode_field f) ≡ 4 + length f.name + length f.value
unfolding le_bytes
length-encode_field f = omega (arith, length-append f.name f.value)

pub encode_fields-append :
    (fs gs : List FieldView) → encode_fields (fs ++ gs) ≡ encode_fields fs ++ encode_fields gs
encode_fields-append [] gs = refl
encode_fields-append (f ∷ fs) gs =
    ap (◌++◌ (encode_field f)) (encode_fields-append fs gs)
    ∙ sym (append_assoc (encode_field f) (encode_fields fs) (encode_fields gs))

-- Every field takes at least its header's four bytes.
pub length-encode_fields : (fs : List FieldView) → 4 * length fs ≤ length (encode_fields fs)
length-encode_fields [] = omega arith
length-encode_fields (f ∷ fs) = omega (
  arith,
  length-encode_fields fs,
  length-append (encode_field f) (encode_fields fs),
  length-encode_field f,
)

pub length-encode :
    (p : Parsed)
    → length (encode p) ≡ length p.module_name + length p.api_name + length (encode_fields p.fields)
length-encode p = omega (
  arith,
  length-append p.module_name (p.api_name ++ encode_fields p.fields),
  length-append p.api_name (encode_fields p.fields),
)

-- A field header in memory is read back.
pub read_field_header-memory :
    (h : FieldHeader) (tail : Bytes)
    → h.value_size < 65536
    → read_field_header (field_header_memory h ++ tail) ≡ h
unfolding read_field_header le_bytes le_value
read_field_header-memory h tail small = ground arith
