-- ===== src/Encoding/Valid.antt =====
-- Which records the wire format admits, and that the checks of trace_renderer.cpp, which are given
-- pointers into the payload, read no byte behind the sizes that they are given.
use apiscope.Prelude.{
  Bool, Bytes, List, [], ap, ap₂, arith, drop, false, length, length-drop, length-take, refl, suc,
  sym, take, take-append, take-append-drop, take_all, true, zero, ℕ, ◌++◌, ◌-◌, ◌∙◌, ◌∷◌, ◌≡◌, ◌≤◌,
}
use apiscope.Memory.{byte}
use apiscope.Renderer.Parse.{
  FieldView, Parsed, has_expected_value_size, is_name_used, is_valid_field_name_bytes,
  is_valid_identifier_bytes, read_bytes_header,
}

pub take-append_le : (n : ℕ) (xs ys : Bytes) → n ≤ length xs → take n (xs ++ ys) ≡ take n xs
take-append_le zero xs ys h = refl
take-append_le (suc n) [] ys h = absurd (omega arith)
take-append_le (suc n) (x ∷ xs) ys h = ap (◌∷◌ x) (take-append_le n xs ys (omega arith))

pub drop-append_le : (n : ℕ) (xs ys : Bytes) → n ≤ length xs → drop n (xs ++ ys) ≡ drop n xs ++ ys
drop-append_le zero xs ys h = refl
drop-append_le (suc n) [] ys h = absurd (omega arith)
drop-append_le (suc n) (x ∷ xs) ys h = drop-append_le n xs ys (omega arith)

-- A field that the checker accepts.
abbrev pub IsValidField : FieldView → Type 0
IsValidField f =
    (is_valid_field_name_bytes f.name (length f.name) ≡ true)
    × (has_expected_value_size f.tag f.value (length f.value) ≡ true)

-- Valid fields whose names differ from one another and from those of `earlier`.
abbrev pub AreValidFields : List FieldView → List FieldView → Type 0
AreValidFields earlier [] = Unit {0}
AreValidFields earlier (f ∷ fs) =
    IsValidField f × (is_name_used earlier f.name ≡ false) × AreValidFields (earlier ++ f ∷ []) fs

pub record IsValid (p : Parsed) : Type 0 where
  pub module_valid : is_valid_identifier_bytes p.module_name (length p.module_name) true ≡ true
  pub api_valid : is_valid_identifier_bytes p.api_name (length p.api_name) false ≡ true
  pub fields_valid : AreValidFields [] p.fields

pub is_valid_field_name_bytes-append :
    (name tail : Bytes)
    → is_valid_field_name_bytes (name ++ tail) (length name)
      ≡ is_valid_field_name_bytes name (length name)
unfolding is_valid_field_name_bytes
is_valid_field_name_bytes-append [] tail = refl
is_valid_field_name_bytes-append (c ∷ name) tail =
    rw (pred-suc, take-append name tail, take_all name)
  where
    pred-suc : suc (length name) - 1 ≡ length name
    pred-suc = omega arith

pub is_valid_field_name_bytes-take :
    (name : Bytes) (n : ℕ)
    → n ≤ length name
    → is_valid_field_name_bytes (take n name) n ≡ is_valid_field_name_bytes name n
is_valid_field_name_bytes-take name n h =
    ap (is_valid_field_name_bytes (take n name)) (sym size)
    ∙ sym (is_valid_field_name_bytes-append (take n name) (drop n name))
    ∙ ap₂ is_valid_field_name_bytes (take-append-drop n name) size
  where
    size : length (take n name) ≡ n
    size = omega (arith, length-take n name)

pub is_valid_identifier_bytes-append :
    (name tail : Bytes) (module_name : Bool)
    → is_valid_identifier_bytes (name ++ tail) (length name) module_name
      ≡ is_valid_identifier_bytes name (length name) module_name
unfolding is_valid_identifier_bytes
is_valid_identifier_bytes-append name tail module_name = rw (take-append name tail, take_all name)

pub is_valid_identifier_bytes-take :
    (name : Bytes) (n : ℕ) (module_name : Bool)
    → n ≤ length name
    → is_valid_identifier_bytes (take n name) (length (take n name)) module_name
      ≡ is_valid_identifier_bytes name n module_name
is_valid_identifier_bytes-take name n module_name h =
    sym (is_valid_identifier_bytes-append (take n name) (drop n name) module_name)
    ∙ ap₂ (λ x k. is_valid_identifier_bytes x k module_name) (take-append-drop n name) size
  where
    size : length (take n name) ≡ n
    size = omega (arith, length-take n name)

pub read_bytes_header-append :
    (value tail : Bytes)
    → 12 ≤ length value
    → read_bytes_header (value ++ tail) ≡ read_bytes_header value
unfolding read_bytes_header
read_bytes_header-append value tail h = rw (
  drop-append_le 4 value tail (omega arith),
  drop-append_le 8 value tail (omega arith),
  take-append_le 4 value tail (omega arith),
  take-append_le 4 (drop 4 value) tail (omega (arith, length-drop 4 value)),
  take-append_le 4 (drop 8 value) tail (omega (arith, length-drop 8 value)),
)

byte-append : (value tail : Bytes) → length value ≡ 1 → byte (value ++ tail) ≡ byte value
byte-append [] tail h = absurd (omega arith)
byte-append (b ∷ value) tail h = refl

pub has_expected_value_size-append :
    (tag : ℕ) (value tail : Bytes)
    → has_expected_value_size tag (value ++ tail) (length value)
      ≡ has_expected_value_size tag value (length value)
unfolding has_expected_value_size
has_expected_value_size-append tag value tail =
    ground (arith, byte-append value tail, read_bytes_header-append value tail)
