-- ===== src/Renderer/Values.antt =====
-- The JSON forms of values have no control characters.
use apiscope.Prelude.{
  Bool, Bool-cases, Bytes, List, Option, Option-cases, [], all, arith, codes, drop, false, inl, inr,
  ltb, not, refl, take, true, ℕ, ◌%◌, ◌++◌, ◌-◌, ◌==◌, ◌^◌, ◌∷◌, ◌≡◌,
}
use apiscope.Memory.{byte}
use apiscope.Protocol.{
  bytes_header_bytes, type_boolean, type_bytes, type_int32, type_int64, type_pointer, type_status,
  type_uint32, type_uint64, type_wide_string,
}
use apiscope.Renderer.Clear.{
  AreClear, AreClear-cons, AreClear-if, AreClear-nil, format_pointer-AreClear,
  format_status-AreClear, hex_digits-AreClear, is_clear, join, json_escape-AreClear,
  literal-AreClear, to_string-AreClear, zero_filled-AreClear,
}
use apiscope.Renderer.Format.{
  SystemTime, format_timestamp, hex_bytes, preview_text, signed_string, true_or_false, wide_to_utf8,
}
use apiscope.Renderer.Jsonl.{member, quoted, render_bytes_json, render_value_json}
use apiscope.Renderer.Parse.{read_bytes_header, read_uint32, read_uint64}
use apiscope.Stats.{to_string}

pub quoted-AreClear : (text : Bytes) → AreClear text → AreClear (quoted text)
quoted-AreClear text h =
    AreClear-cons 34 (text ++ 34 ∷ []) (omega arith)
      (join text (34 ∷ []) h (literal-AreClear (34 ∷ []) refl))

pub member-AreClear :
    (name value : Bytes) → AreClear name → AreClear value → AreClear (member name value)
member-AreClear name value h k =
    join (quoted name) (58 ∷ value) (quoted-AreClear name h)
      (AreClear-cons 58 value (omega arith) k)

-- A member with a literal name.
pub entry-AreClear :
    (name value : Bytes) → all is_clear name ≡ true → AreClear value → AreClear (member name value)
entry-AreClear name value h k = member-AreClear name value (literal-AreClear name h) k

pub comma : AreClear (codes ",")
comma = literal-AreClear (codes ",") refl

signed_string-AreClear : (width value : ℕ) → AreClear (signed_string width value)
signed_string-AreClear width value =
    AreClear-if (ltb value (2 ^ (width - 1))) (to_string value) (45 ∷ to_string (2 ^ width - value))
      (to_string-AreClear value)
      (AreClear-cons 45 (to_string (2 ^ width - value)) (omega arith)
        (to_string-AreClear (2 ^ width - value)))

pub true_or_false-AreClear : (b : Bool) → AreClear (true_or_false b)
true_or_false-AreClear b =
    AreClear-if b (codes "true") (codes "false") (literal-AreClear (codes "true") refl)
      (literal-AreClear (codes "false") refl)

hex_bytes-AreClear : (spaced : Bool) (bytes : Bytes) → AreClear (hex_bytes spaced bytes)
unfolding hex_bytes
hex_bytes-AreClear spaced [] = AreClear-nil
hex_bytes-AreClear spaced (b ∷ []) = hex_digits-AreClear 65 2 b (omega arith)
hex_bytes-AreClear spaced (b ∷ (c ∷ bytes)) =
    join _ _
      (join _ _ (hex_digits-AreClear 65 2 b (omega arith))
        (AreClear-if spaced (codes " ") [] (literal-AreClear (codes " ") refl) AreClear-nil))
      (hex_bytes-AreClear spaced (c ∷ bytes))

pub format_timestamp-AreClear :
    (file_time_to_system_time : ℕ → Option SystemTime) (timestamp : ℕ)
    → AreClear (format_timestamp file_time_to_system_time timestamp)
unfolding format_timestamp
format_timestamp-AreClear file_time_to_system_time timestamp = elim (Bool-cases (timestamp == 0)) [
  | inl absent ↦ rw (absent, format_timestamp) (literal-AreClear (codes "unavailable") refl)
  | inr present ↦ elim (Option-cases (file_time_to_system_time timestamp)) [
    | inl invalid ↦
        rw (present, invalid, format_timestamp) (literal-AreClear (codes "invalid") refl)
    | inr (time, valid) ↦
        let dash = literal-AreClear (codes "-") refl in
        let colon = literal-AreClear (codes ":") refl in
        rw (present, valid, format_timestamp)
          (join _ _
            (join _ _
              (join _ _
                (join _ _
                  (join _ _
                    (join _ _
                      (join _ _
                        (join _ _
                          (join _ _
                            (join _ _
                              (join _ _
                                (join _ _ (join _ _ (zero_filled-AreClear 4 time.year) dash)
                                  (zero_filled-AreClear 2 time.month))
                                dash)
                              (zero_filled-AreClear 2 time.day))
                            (literal-AreClear (codes "T") refl))
                          (zero_filled-AreClear 2 time.hour))
                        colon)
                      (zero_filled-AreClear 2 time.minute))
                    colon)
                  (zero_filled-AreClear 2 time.second))
                (literal-AreClear (codes ".") refl))
              (zero_filled-AreClear 7 (timestamp % 10000000)))
            (literal-AreClear (codes "Z") refl))
  ]
]

module _ (file_time_to_system_time : ℕ → Option SystemTime)
    (wide_char_to_multi_byte : List ℕ → Bytes) where
  render_bytes_json-AreClear :
      (value : Bytes)
      → AreClear (render_bytes_json file_time_to_system_time wide_char_to_multi_byte value)
  render_bytes_json-AreClear value =
      let bytes = read_bytes_header value in
      let preview = take bytes.captured (drop bytes_header_bytes value) in
      join _ _
        (join _ _
          (join _ _
            (join _ _
              (join _ _
                (join _ _
                  (join _ _
                    (join _ _
                      (join _ _
                        (join _ _
                          (join _ _
                            (join _ _ (literal-AreClear (codes "{") refl) (
                              entry-AreClear (codes "type") _ refl
                                (quoted-AreClear _ (literal-AreClear (codes "bytes") refl))))
                            comma)
                          (entry-AreClear (codes "requested") _ refl
                            (to_string-AreClear bytes.requested)))
                        comma)
                      (entry-AreClear (codes "captured") _ refl
                        (to_string-AreClear bytes.captured)))
                    comma)
                  (entry-AreClear (codes "status") _ refl
                    (quoted-AreClear _ (format_status-AreClear bytes.capture_status))))
                comma)
              (entry-AreClear (codes "hex") _ refl
                (quoted-AreClear _ (hex_bytes-AreClear false preview))))
            comma)
          (entry-AreClear (codes "ascii") _ refl
            (quoted-AreClear _ (json_escape-AreClear (preview_text preview)))))
        (literal-AreClear (codes "}") refl)

  unknown-AreClear :
      (tag : ℕ) (value : Bytes)
      → AreClear (
          codes "{"
          ++ member (codes "type") (quoted (codes "unknown_" ++ to_string tag))
          ++ codes ","
          ++ member (codes "hex") (quoted (hex_bytes false value))
          ++ codes "}")
  unknown-AreClear tag value =
      join _ _
        (join _ _
          (join _ _
            (join _ _ (literal-AreClear (codes "{") refl) (
              entry-AreClear (codes "type") _ refl (
                quoted-AreClear _
                  (join _ _ (literal-AreClear (codes "unknown_") refl) (to_string-AreClear tag)))))
            comma)
          (entry-AreClear (codes "hex") _ refl
            (quoted-AreClear _ (hex_bytes-AreClear false value))))
        (literal-AreClear (codes "}") refl)

  pub render_value_json-AreClear :
      (tag : ℕ) (value : Bytes)
      → AreClear (render_value_json file_time_to_system_time wide_char_to_multi_byte tag value)
  unfolding render_value_json
  render_value_json-AreClear tag value =
      AreClear-if (tag == type_pointer) _ _
        (quoted-AreClear _ (format_pointer-AreClear (read_uint64 value)))
        (AreClear-if (tag == type_uint64) _ _ (to_string-AreClear (read_uint64 value)) (
          AreClear-if (tag == type_uint32) _ _ (to_string-AreClear (read_uint32 value)) (
            AreClear-if (tag == type_int32) _ _ (signed_string-AreClear 32 (read_uint32 value)) (
              AreClear-if (tag == type_int64) _ _ (signed_string-AreClear 64 (read_uint64 value)) (
                AreClear-if (tag == type_boolean) _ _
                  (true_or_false-AreClear (not (byte value == 0)))
                  (AreClear-if (tag == type_status) _ _
                    (quoted-AreClear _ (format_status-AreClear (read_uint32 value)))
                    (AreClear-if (tag == type_wide_string) _ _
                      (quoted-AreClear _
                        (json_escape-AreClear (wide_to_utf8 wide_char_to_multi_byte value)))
                      (AreClear-if (tag == type_bytes) _ _ (render_bytes_json-AreClear value)
                        (unknown-AreClear tag value)))))))))
