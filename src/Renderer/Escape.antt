-- ===== src/Renderer/Escape.antt =====
-- JsonEscape and a reader of JSON strings.
use apiscope.Prelude.{
  Bytes, Option, [], ap, append_assoc, arith, dec_lt, false, if◌then◌else◌, leb, ltb, lt→ltb, none,
  not-ltb, refl, some, subst, sym, true, ℕ, ℕ_discrete, ◌%◌, ◌&&◌, ◌*◌, ◌++◌, ◌+◌, ◌-◌, ◌/◌, ◌<◌,
  ◌==◌, ◌∙◌, ◌∷◌, ◌≡◌, ◌≢◌,
}
use apiscope.Renderer.Format.{escape_byte, hex_digit, hex_digits, json_escape}

-- The value of a hexadecimal digit.
unfoldable pub digit_value : ℕ → Option ℕ
digit_value c =
    if leb b'0' c && leb c b'9'
    then some (c - b'0')
    else if leb b'a' c && leb c b'f'
    then some (c - b'a' + 10)
    else if leb b'A' c && leb c b'F'
    then some (c - b'A' + 10)
    else none

-- What an escape of one letter stands for.
abbrev pub letter_value : ℕ → Option ℕ
letter_value c =
    if c == b'"'
    then some b'"'
    else if c == b'\\'
    then some b'\\'
    else if c == b'/'
    then some b'/'
    else if c == b'b'
    then some 8
    else if c == b'f'
    then some 12
    else if c == b'n'
    then some 10
    else if c == b'r'
    then some 13
    else if c == b't'
    then some 9
    else none

-- A JSON string from behind its opening quote (RFC 8259): its bytes, and what follows its closing
-- quote. Of the escapes by a code point it reads those below 128, which are one byte.
pub data Reading : Type 0 where
  plain : Reading
  escaped : Reading
  code_point : ℕ → ℕ → Reading

abbrev pub with_byte : ℕ → Option (Bytes × Bytes) → Option (Bytes × Bytes)
with_byte c none = none
with_byte c (some (text, behind)) = some (c ∷ text, behind)

unfoldable pub read_string : Reading → Bytes → Option (Bytes × Bytes)
read_string reading [] = none
read_string plain (c ∷ cs) =
    let more = with_byte c (read_string plain cs) in
    let escape = read_string escaped cs in
    if c == b'"'
    then some ([], cs)
    else if c == b'\\'
    then escape
    else if ltb c 0x20
    then none
    else more
read_string escaped (c ∷ cs) =
    let hex = read_string (code_point 4 0) cs in
    let more = read_string plain cs in
    if c == b'u'
    then hex
    else elim (letter_value c) [ none ↦ none | some value ↦ with_byte value more ]
read_string (code_point n value) (c ∷ cs) = elim (digit_value c) [
  | none ↦ none
  | some d ↦
      let code = value * 16 + d in
      let more = read_string (code_point (n - 1) code) cs in
      let text = read_string plain cs in
      if n == 1 then if ltb code 128 then with_byte code text else none else more
]

digit_value-hex_digit : (d : ℕ) → d < 16 → digit_value (hex_digit b'a' d) ≡ some d
unfolding digit_value
digit_value-hex_digit d small = elim (dec_lt d 10) [
  | yes below ↦
      let is_digit : ltb d 10 ≡ true = lt→ltb d 10 below in
      let inside : (leb 48 (48 + d) && leb (48 + d) 57) ≡ true = ground arith in
      rw (is_digit, inside) (ap some (omega arith))
  | no above ↦
      let is_letter : ltb d 10 ≡ false = not-ltb d 10 (omega arith) in
      let outside : (leb 48 (97 + (d - 10)) && leb (97 + (d - 10)) 57) ≡ false = ground arith in
      let inside : (leb 97 (97 + (d - 10)) && leb (97 + (d - 10)) 102) ≡ true = ground arith in
      rw (is_letter, outside, inside) (ap some (omega arith))
]

-- One digit of a code point.
read_digit :
    (n value d x : ℕ) (cs : Bytes)
    → digit_value x ≡ some d
    → n ≢ 1
    → read_string (code_point n value) (x ∷ cs)
      ≡ read_string (code_point (n - 1) (value * 16 + d)) cs
unfolding read_string
read_digit n value d x cs digit ne =
    let more : (n == 1) ≡ false = ground arith in rw (digit, more, read_string) refl

read_last_digit :
    (value d x : ℕ) (cs : Bytes)
    → digit_value x ≡ some d
    → value * 16 + d < 128
    → read_string (code_point 1 value) (x ∷ cs) ≡ with_byte (value * 16 + d) (read_string plain cs)
unfolding read_string
read_last_digit value d x cs digit below =
    rw (digit, lt→ltb (value * 16 + d) 128 below, read_string) refl

-- A control character that has no letter.
control_escape :
    (value : ℕ) (cs : Bytes)
    → value < 32
    → read_string (code_point 4 0) (hex_digits b'a' 4 value ++ cs)
      ≡ with_byte value (read_string plain cs)
unfolding hex_digits
control_escape value cs small =
    let a = value / 16 / 16 / 16 % 16 in
    let b = value / 16 / 16 % 16 in
    let c = value / 16 % 16 in
    let d = value % 16 in
    let first = 0 * 16 + a in
    let second = first * 16 + b in
    let third = second * 16 + c in
    let all_of : third * 16 + d ≡ value = omega arith in
    let digit : (v : ℕ) → digit_value (hex_digit b'a' (v % 16)) ≡ some (v % 16) =
      λ v. digit_value-hex_digit (v % 16) (omega arith) in
    read_digit 4 0 a (hex_digit b'a' a)
      (hex_digit b'a' b ∷ hex_digit b'a' c ∷ hex_digit b'a' d ∷ cs) (digit (value / 16 / 16 / 16))
      (λ e. absurd (omega arith))
    ∙ read_digit 3 first b (hex_digit b'a' b) (hex_digit b'a' c ∷ hex_digit b'a' d ∷ cs)
        (digit (value / 16 / 16)) (λ e. absurd (omega arith))
    ∙ read_digit 2 second c (hex_digit b'a' c) (hex_digit b'a' d ∷ cs) (digit (value / 16))
        (λ e. absurd (omega arith))
    ∙ read_last_digit third d (hex_digit b'a' d) cs (digit value) (omega (arith, all_of))
    ∙ ap (λ v. with_byte v (read_string plain cs)) all_of

test_not : {value : ℕ} (k : ℕ) → value ≢ k → (value == k) ≡ false
test_not k ne = ground arith

unescaped :
    (value : ℕ) (cs : Bytes)
    → value ≢ 34
    → value ≢ 92
    → ltb value 32 ≡ false
    → read_string plain (value ∷ cs) ≡ with_byte value (read_string plain cs)
unfolding read_string
unescaped value cs n34 n92 printed =
    rw (test_not 34 n34, test_not 92 n92, printed, read_string) refl

unnamed :
    (value : ℕ) (cs : Bytes)
    → value ≢ 34
    → value ≢ 92
    → value ≢ 8
    → value ≢ 12
    → value ≢ 10
    → value ≢ 13
    → value ≢ 9
    → read_string plain (escape_byte value ++ cs) ≡ with_byte value (read_string plain cs)
unfolding read_string
unnamed value cs n34 n92 n8 n12 n10 n13 n9 = elim (dec_lt value 32) [
  | yes small ↦
      rw
        (
          test_not 34 n34,
          test_not 92 n92,
          test_not 8 n8,
          test_not 12 n12,
          test_not 10 n10,
          test_not 13 n13,
          test_not 9 n9,
          lt→ltb value 32 small,
        )
        (control_escape value cs small)
  | no big ↦
      let printed : ltb value 32 ≡ false = not-ltb value 32 (omega arith) in
      rw
        (
          test_not 34 n34,
          test_not 92 n92,
          test_not 8 n8,
          test_not 12 n12,
          test_not 10 n10,
          test_not 13 n13,
          test_not 9 n9,
          printed,
        )
        (unescaped value cs n34 n92 printed)
]

-- One character of the escaped text.
escape_byte-read :
    (value : ℕ) (cs : Bytes)
    → read_string plain (escape_byte value ++ cs) ≡ with_byte value (read_string plain cs)
unfolding read_string
escape_byte-read value cs =
    let reads : ℕ → Type 0 =
      λ v. read_string plain (escape_byte v ++ cs) ≡ with_byte v (read_string plain cs) in
    elim (ℕ_discrete value 34) [
      | yes e ↦ subst reads (sym e) refl
      | no n34 ↦ elim (ℕ_discrete value 92) [
        | yes e ↦ subst reads (sym e) refl
        | no n92 ↦ elim (ℕ_discrete value 8) [
          | yes e ↦ subst reads (sym e) refl
          | no n8 ↦ elim (ℕ_discrete value 12) [
            | yes e ↦ subst reads (sym e) refl
            | no n12 ↦ elim (ℕ_discrete value 10) [
              | yes e ↦ subst reads (sym e) refl
              | no n10 ↦ elim (ℕ_discrete value 13) [
                | yes e ↦ subst reads (sym e) refl
                | no n13 ↦ elim (ℕ_discrete value 9) [
                  | yes e ↦ subst reads (sym e) refl
                  | no n9 ↦ unnamed value cs n34 n92 n8 n12 n10 n13 n9
                ]
              ]
            ]
          ]
        ]
      ]
    ]

-- A JSON string of the escaped text of any bytes is read as those bytes, up to its closing quote and
-- no further.
pub json_escape-read_string :
    (text behind : Bytes)
    → read_string plain (json_escape text ++ b'"' ∷ behind) ≡ some (text, behind)
unfolding read_string json_escape
json_escape-read_string [] behind = refl
json_escape-read_string (value ∷ text) behind =
    ap (read_string plain) (append_assoc (escape_byte value) (json_escape text) (b'"' ∷ behind))
    ∙ escape_byte-read value (json_escape text ++ b'"' ∷ behind)
    ∙ ap (with_byte value) (json_escape-read_string text behind)
