-- ===== src/Renderer/FieldNames.antt =====
-- The names of the fields that ParseTraceEvent accepts have no control characters.
use apiscope.Prelude.{
  &&-eq-true, Bool, Bytes, List, Option, Option-cases, [], all, arith, drop, false, guard,
  if◌then◌else◌, inl, inr, leb, ltb, none, not, refl, some, subst, suc, take, true, zero, ℕ, ◌++◌,
  ◌+◌, ◌-◌, ◌==◌, ◌>>◌, ◌||◌, ◌∷◌, ◌≡◌,
}
use apiscope.Protocol.{
  Event, event_header_bytes, field_header_bytes, trace_event_magic, trace_event_version,
  trace_max_event_bytes, trace_max_field_name_bytes,
}
use apiscope.Renderer.Clear.{AreClear, AreClear-cons, AreClear-nil}
use apiscope.Renderer.Parse.{
  FieldView, Parsed, has_expected_value_size, is_name_used, is_valid_field_name_bytes,
  is_valid_identifier_bytes, parse_field, parse_fields, parse_trace_event,
}
use apiscope.Transport.{is_digit, is_field_char, is_lower, read_field_header, trace_name_bytes}

-- A test before the rest of a do block.
guarded {ℓ} :
    {A : Type ℓ} (P : Option A → Type 0) (b : Bool) {rest : Option A}
    → P none
    → (b ≡ true → P rest)
    → P (guard b >> rest)
guarded P true n s = s refl
guarded P false n s = n

field_chars-AreClear : (xs : Bytes) → all is_field_char xs ≡ true → AreClear xs
unfolding is_field_char AreClear
field_chars-AreClear [] h = refl
field_chars-AreClear (x ∷ xs) h =
    let (first, others) =
      &&-eq-true (is_lower x || is_digit x || x == 95) (all is_field_char xs) h in
    AreClear-cons x xs (ground arith) (field_chars-AreClear xs others)

unless : (b x : Bool) → (if b then false else x) ≡ true → (b ≡ false) × (x ≡ true)
unless true x h = absurd (cc)
unless false x h = (refl, h)

not-false : (b : Bool) → not b ≡ false → b ≡ true
not-false true h = refl
not-false false h = absurd (cc)

valid_name-AreClear :
    (name : Bytes) (size : ℕ)
    → is_valid_field_name_bytes name size ≡ true
    → AreClear (take size name)
unfolding is_valid_field_name_bytes
valid_name-AreClear name zero h = AreClear-nil
valid_name-AreClear [] (suc k) h = AreClear-nil
valid_name-AreClear (c ∷ name) (suc k) h =
    let (a, inner) =
      unless (suc k == 0 || ltb trace_max_field_name_bytes (suc k))
        (if not (is_lower c) then false else all is_field_char (take (suc k - 1) name)) h in
    let (b, others) = unless (not (is_lower c)) (all is_field_char (take (suc k - 1) name)) inner in
    let same : suc k - 1 ≡ k = omega arith in
    AreClear-cons c (take k name) (ground (arith, not-false (is_lower c) b)) (
      field_chars-AreClear (take k name)
        (subst (λ n. all is_field_char (take n name) ≡ true) same others))

-- The names of the fields have no control characters.
abbrev pub AreNamed : List FieldView → Type 0
AreNamed [] = Unit {0}
AreNamed (field ∷ fields) = AreClear field.name × AreNamed fields

AreNamed-snoc :
    (fields : List FieldView) (field : FieldView)
    → AreNamed fields
    → AreClear field.name
    → AreNamed (fields ++ field ∷ [])
AreNamed-snoc [] field ok h = (h, tt)
AreNamed-snoc (f ∷ fields) field ok h = (ok.0, AreNamed-snoc fields field ok.1 h)

unfoldable FieldOf : Option (ℕ × FieldView) → Type 0
FieldOf none = Unit {0}
FieldOf (some (cursor, field)) = AreClear field.name

parse_field-FieldOf :
    (payload : Bytes) (stop cursor : ℕ) (parsed : List FieldView)
    → FieldOf (parse_field payload stop cursor parsed)
unfolding parse_field FieldOf
parse_field-FieldOf payload stop cursor parsed =
    let field = read_field_header (drop cursor payload) in
    let name_at = cursor + field_header_bytes in
    let value_at = name_at + field.name_length in
    guarded FieldOf (leb field_header_bytes (stop - cursor)) tt (λ a.
      guarded FieldOf (leb (field.name_length + field.value_size) (stop - name_at)) tt (λ b.
        guarded FieldOf (is_valid_field_name_bytes (drop name_at payload) field.name_length) tt
          (λ valid.
            guarded FieldOf
              (not (is_name_used parsed (take field.name_length (drop name_at payload)))) tt
              (λ c.
                guarded FieldOf
                  (has_expected_value_size field.tag (drop value_at payload) field.value_size) tt
                  (λ d. valid_name-AreClear (drop name_at payload) field.name_length valid)))))

unfoldable FieldsOf : Option (ℕ × List FieldView) → Type 0
FieldsOf none = Unit {0}
FieldsOf (some (cursor, fields)) = AreNamed fields

one_field :
    (cursor : ℕ) (field : FieldView) (o : Option (ℕ × FieldView))
    → o ≡ some (cursor, field)
    → FieldOf o
    → AreClear field.name
unfolding FieldOf
one_field cursor field o h ok = subst FieldOf h ok

parse_fields-FieldsOf :
    (payload : Bytes) (stop count cursor : ℕ) (parsed : List FieldView)
    → AreNamed parsed
    → FieldsOf (parse_fields payload stop count cursor parsed)
unfolding parse_fields FieldsOf
parse_fields-FieldsOf payload stop zero cursor parsed ok = ok
parse_fields-FieldsOf payload stop (suc count) cursor parsed ok =
    elim (Option-cases (parse_field payload stop cursor parsed)) [
      | inl bad ↦ rw (bad, parse_fields) tt
      | inr ((next, field), good) ↦
          rw (good, parse_fields)
            (parse_fields-FieldsOf payload stop count next (parsed ++ field ∷ []) (
              AreNamed-snoc parsed field ok (
                one_field next field (parse_field payload stop cursor parsed) good
                  (parse_field-FieldOf payload stop cursor parsed))))
    ]

named_views :
    (cursor : ℕ) (fields : List FieldView) (o : Option (ℕ × List FieldView))
    → o ≡ some (cursor, fields)
    → FieldsOf o
    → AreNamed fields
unfolding FieldsOf
named_views cursor fields o h ok = subst FieldsOf h ok

unfoldable pub ParsedOf : Option Parsed → Type 0
ParsedOf none = Unit {0}
ParsedOf (some parsed) = AreNamed parsed.fields

pub parse_trace_event-ParsedOf : (e : Event) (size : ℕ) → ParsedOf (parse_trace_event e size)
unfolding parse_trace_event ParsedOf
parse_trace_event-ParsedOf e size =
    let api_at = drop e.header.module_name_length e.payload in
    let stop = e.header.size - event_header_bytes in
    let fields = parse_fields e.payload stop e.header.field_count (trace_name_bytes e) [] in
    guarded ParsedOf (leb event_header_bytes size) tt (λ a.
      guarded ParsedOf (e.header.magic == trace_event_magic) tt (λ b.
        guarded ParsedOf (e.header.version == trace_event_version) tt (λ c.
          guarded ParsedOf (e.header.size == size) tt (λ d.
            guarded ParsedOf (leb e.header.size trace_max_event_bytes) tt (λ f.
              guarded ParsedOf (leb (event_header_bytes + trace_name_bytes e) e.header.size) tt
                (λ g.
                  guarded ParsedOf
                    (is_valid_identifier_bytes e.payload e.header.module_name_length true) tt
                    (λ h.
                      guarded ParsedOf
                        (is_valid_identifier_bytes api_at e.header.api_name_length false) tt
                        (λ i. elim (Option-cases fields) [
                          | inl bad ↦ rw (bad) tt
                          | inr ((cursor, views), good) ↦ rw (good) (
                              guarded ParsedOf (cursor == stop) tt (λ j.
                                named_views cursor views fields good (
                                  parse_fields-FieldsOf e.payload stop e.header.field_count
                                    (trace_name_bytes e) [] tt)))
                        ]))))))))
