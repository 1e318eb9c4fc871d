-- ===== src/Renderer/Shown.antt =====
-- What RenderTraceEventJsonl shows of an event: its hook and its fields.
-- A text that has another in it.
use apiscope.Prelude.{
  Bytes, List, Option, [], ap, append-nil, append_assoc, codes, sym, ℕ, ◌++◌, ◌∙◌, ◌∷◌, ◌≡◌,
}
use apiscope.Protocol.{Event, flag_field_error, flag_truncated}
use apiscope.Renderer.Format.{SystemTime, has_flag, json_escape, true_or_false}
use apiscope.Renderer.Jsonl.{
  member, quoted, render_fields_json, render_header_json, render_open_object, render_value_json,
}
use apiscope.Renderer.Parse.{FieldView, Parsed}

pub IsPart : Bytes → Bytes → Type 0
IsPart part text = (before : Bytes) × (after : Bytes) × (text ≡ before ++ (part ++ after))

whole : (part : Bytes) → IsPart part part
unfolding IsPart
whole part = ([], [], sym (append-nil part))

in_front : (part xs ys : Bytes) → IsPart part xs → IsPart part (xs ++ ys)
unfolding IsPart
in_front part xs ys (before, after, same) = (
  before,
  after ++ ys,
  ap (λ x. x ++ ys) same
      ∙ append_assoc before (part ++ after) ys
      ∙ ap (λ x. before ++ x) (append_assoc part after ys),
)

behind : (part xs ys : Bytes) → IsPart part ys → IsPart part (xs ++ ys)
unfolding IsPart
behind part xs ys (before, after, same) =
    (xs ++ before, after, ap (λ y. xs ++ y) same ∙ sym (append_assoc xs before (part ++ after)))

-- A part with one before it and six behind it.
second_of_eight :
    (h p a b c d e f : Bytes) → IsPart p (((((((h ++ p) ++ a) ++ b) ++ c) ++ d) ++ e) ++ f)
unfolding IsPart
second_of_eight h p a b c d e f = (h, a ++ (b ++ (c ++ (d ++ (e ++ f)))), simp (append_assoc))

-- The member of an object that names the hook.
abbrev pub hook_member : Parsed → Bytes
hook_member parsed =
    member (codes "hook")
      (quoted (json_escape (parsed.module_name ++ codes "!" ++ parsed.api_name)))

module _ (file_time_to_system_time : ℕ → Option SystemTime)
    (wide_char_to_multi_byte : List ℕ → Bytes) where
  abbrev field_member : FieldView → Bytes
  field_member field =
      member field.name
        (render_value_json file_time_to_system_time wide_char_to_multi_byte field.tag field.value)

  -- A text that has the name and the value of each field in it.
  pub AreShown : Bytes → List FieldView → Type 0
  AreShown text [] = Unit {0}
  AreShown text (field ∷ fields) = IsPart (field_member field) text × AreShown text fields

  AreShown-behind :
      (xs ys : Bytes) (fields : List FieldView) → AreShown ys fields → AreShown (xs ++ ys) fields
  unfolding AreShown
  AreShown-behind xs ys [] shown = tt
  AreShown-behind xs ys (field ∷ fields) (first, later) =
      (behind (field_member field) xs ys first, AreShown-behind xs ys fields later)

  render_fields_json-AreShown :
      (fields : List FieldView)
      → AreShown (render_fields_json file_time_to_system_time wide_char_to_multi_byte fields) fields
  unfolding render_fields_json AreShown
  render_fields_json-AreShown [] = tt
  render_fields_json-AreShown (field ∷ []) = (whole (field_member field), tt)
  render_fields_json-AreShown (field ∷ (next ∷ fields)) =
      let start = field_member field ++ codes "," in
      let others =
        render_fields_json file_time_to_system_time wide_char_to_multi_byte (next ∷ fields) in
      (
        in_front (field_member field) start others (
            in_front (field_member field) (field_member field) (codes ",")
              (whole (field_member field))),
        AreShown-behind start others (next ∷ fields) (render_fields_json-AreShown (next ∷ fields)),
      )

  pub render_open_object-hook :
      (e : Event) (parsed : Parsed)
      → IsPart
          (hook_member parsed)
          (render_open_object file_time_to_system_time wide_char_to_multi_byte e parsed)
  unfolding render_open_object
  render_open_object-hook e parsed =
      second_of_eight (render_header_json file_time_to_system_time wide_char_to_multi_byte e parsed)
        (hook_member parsed) (codes ",")
        (member (codes "truncated") (true_or_false (has_flag e flag_truncated))) (codes ",")
        (member (codes "field_error") (true_or_false (has_flag e flag_field_error))) (codes ",")
        (member (codes "fields") (
          codes "{"
          ++ render_fields_json file_time_to_system_time wide_char_to_multi_byte parsed.fields))

  pub render_open_object-AreShown :
      (e : Event) (parsed : Parsed)
      → AreShown
          (render_open_object file_time_to_system_time wide_char_to_multi_byte e parsed)
          parsed.fields
  unfolding render_open_object
  render_open_object-AreShown e parsed =
      AreShown-behind
        (render_header_json file_time_to_system_time wide_char_to_multi_byte e parsed
          ++ hook_member parsed
          ++ codes ","
          ++ member (codes "truncated") (true_or_false (has_flag e flag_truncated))
          ++ codes ","
          ++ member (codes "field_error") (true_or_false (has_flag e flag_field_error))
          ++ codes ",")
        (codes "\"fields\":{"
          ++ render_fields_json file_time_to_system_time wide_char_to_multi_byte parsed.fields)
        parsed.fields
        (AreShown-behind (codes "\"fields\":{")
          (render_fields_json file_time_to_system_time wide_char_to_multi_byte parsed.fields)
          parsed.fields (render_fields_json-AreShown parsed.fields))
