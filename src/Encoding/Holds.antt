-- ===== src/Encoding/Holds.antt =====
-- Appending a value of its type keeps an event well-formed.
use apiscope.Prelude.{
  Bool-cases, Bytes, Option, Option-cases, [], ap, arith, dec_le, inl, inr, le_bytes, length,
  length-le_bytes, lt→ltb, none, not-ltb, some, sym, take, take_all, true, ℕ, ◌%◌, ◌*◌, ◌+◌, ◌^◌,
  ◌∙◌, ◌∷◌, ◌≡◌, ◌≤◌,
}
use apiscope.Encoding.{Encodes}
use apiscope.Encoding.Append.{add_field, length-take_of_le}
use apiscope.Encoding.Valid.{IsValid, IsValidField, is_valid_field_name_bytes-take}
use apiscope.Encoding.Writer.{add_field-IsValid, append_trace_field-branches, set_flag-Encodes}
use apiscope.Protocol.{
  Event, field_header_bytes, flag_field_error, flag_truncated, trace_max_event_bytes,
  type_wide_string,
}
use apiscope.Renderer.Parse.{FieldView, Parsed, has_expected_value_size, is_name_used}
use apiscope.Transport.{append_trace_field, c_string, is_valid_field_name, set_flag}
use apiscope.Transport.Capture.{add_trace_wide_string}
use apiscope.Transport.Names.{is_valid_field_name-bytes}

-- The event holds some valid record.
abbrev pub Holds : Event → Type 0
Holds e = (p : Parsed) × Encodes e p × IsValid p

pub set_flag-Holds : {e : Event} (flag : ℕ) → Holds e → Holds (set_flag flag e)
set_flag-Holds flag (p, held, valid) = (p, set_flag-Encodes flag held, valid)

module _ (tag : ℕ) (name : Option Bytes) (value : Bytes) (value_size : ℕ)
    (sized : value_size ≤ length value)
    (typed : has_expected_value_size tag (take value_size value) value_size ≡ true) where
  append_named-Holds :
      {e : Event} (n : ℕ)
      → Holds e
      → is_valid_field_name name ≡ some n
      → Holds (append_trace_field e tag name (some value) value_size).0
  append_named-Holds {e} n (p, held, valid) named =
      let branches = append_trace_field-branches held tag name value value_size n sized in
      elim (Bool-cases (is_name_used p.fields field.name)) [
        | inl used ↦ rw (branches.1 named used) (set_flag-Holds flag_field_error (p, held, valid))
        | inr fresh ↦ elim (dec_le room trace_max_event_bytes) [
          | yes fits ↦ (
            add_field p field,
            (branches.3 named fresh fits).1,
            add_field-IsValid p field valid field_valid fresh,
          )
          | no full ↦
              rw (branches.2 named fresh (omega arith))
                (set_flag-Holds flag_truncated (p, held, valid))
        ]
      ]
    where
      field : FieldView
      field = record { tag = tag; name = take n (c_string name); value = take value_size value }

      room : ℕ
      room = e.header.size + (field_header_bytes + n + value_size)

      field_valid : IsValidField field
      field_valid = (
        rw (length-take_of_le n (c_string name) (is_valid_field_name-bytes name named).0) (
            is_valid_field_name_bytes-take (c_string name) n
              (is_valid_field_name-bytes name named).0
            ∙ (is_valid_field_name-bytes name named).1),
        rw (length-take_of_le value_size value sized) typed,
      )

  -- `AppendTraceField` with a value of its type.
  pub append_trace_field-Holds :
      {e : Event} → Holds e → Holds (append_trace_field e tag name (some value) value_size).0
  append_trace_field-Holds {e} (p, held, valid) = elim (Option-cases (is_valid_field_name name)) [
    | inl bad ↦
        rw ((append_trace_field-branches held tag name value value_size 0 sized).0 bad)
          (set_flag-Holds flag_field_error (p, held, valid))
    | inr (n, named) ↦ append_named-Holds n (p, held, valid) named
  ]

-- A string has the characters that its count promises, in UTF-16 units of two bytes.
abbrev pub HasChars : Option Bytes → ℕ → Type 0
HasChars none char_count = Unit {0}
HasChars (some value) char_count = char_count * 2 ≤ length value

take-le_bytes : (n v : ℕ) → take n (le_bytes n v) ≡ le_bytes n v
take-le_bytes n v =
    ap (λ k. take k (le_bytes n v)) (sym (length-le_bytes n v)) ∙ take_all (le_bytes n v)

pub number-Holds :
    (tag size : ℕ) (name : Option Bytes) (value : ℕ) {e : Event}
    → has_expected_value_size tag (le_bytes size value) size ≡ true
    → Holds e
    → Holds (append_trace_field e tag name (some (le_bytes size value)) size).0
number-Holds tag size name value typed =
    append_trace_field-Holds tag name (le_bytes size value) size
      (omega (arith, length-le_bytes size value)) (rw (take-le_bytes size value) typed)

wide_string_typed :
    (value : Bytes) (n : ℕ)
    → n ≤ 256
    → has_expected_value_size type_wide_string value (n * 2 % 2 ^ 16) ≡ true
unfolding has_expected_value_size
wide_string_typed value n h = ground arith

pub wide_string-Holds :
    (name value : Option Bytes) (char_count : ℕ) {e : Event}
    → HasChars value char_count
    → Holds e
    → Holds (add_trace_wide_string e name value char_count).0
unfolding add_trace_wide_string
wide_string-Holds name none char_count sized held =
    append_trace_field-Holds type_wide_string name (0 ∷ 0 ∷ []) 0 (omega arith)
      (wide_string_typed [] 0 (omega arith)) held
wide_string-Holds name (some value) char_count sized held = elim (dec_le char_count 256) [
  | yes short ↦ rw (not-ltb 256 char_count short) (
      append_trace_field-Holds type_wide_string name value (char_count * 2 % 2 ^ 16) (omega arith)
        (wide_string_typed _ char_count short) held)
  | no long ↦ rw (lt→ltb 256 char_count (omega arith)) (
      append_trace_field-Holds type_wide_string name value (256 * 2 % 2 ^ 16) (omega arith)
        (wide_string_typed _ 256 (omega arith)) (set_flag-Holds flag_truncated held))
]
