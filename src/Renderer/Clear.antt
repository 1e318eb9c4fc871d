-- ===== src/Renderer/Clear.antt =====
-- Text without control characters: what numbers, statuses and escapes are written with.
use apiscope.Prelude.{
  &&-eq-true, Bool, Bool-cases, Bytes, List, Option, Option-cases, [], all, arith, codes, false,
  if◌then◌else◌, inl, inr, leb, length, ltb, none, refl, replicate, some, subst, suc, true, zero, ℕ,
  ◌%◌, ◌++◌, ◌+◌, ◌-◌, ◌/◌, ◌==◌, ◌∷◌, ◌≡◌, ◌≤◌,
}
use apiscope.Renderer.Format.{
  escape_byte, format_pointer, format_status, hex_digit, hex_digits, hex_status, json_escape,
  name_in, status_name, status_names, zero_filled,
}
use apiscope.Stats.{last_digits, reversed, to_string}

abbrev pub is_clear : ℕ → Bool
is_clear c = leb 32 c

unfoldable pub AreClear : Bytes → Type 0
AreClear bytes = all is_clear bytes ≡ true

pub AreClear-append : (xs ys : Bytes) → AreClear xs → AreClear ys → AreClear (xs ++ ys)
unfolding AreClear
AreClear-append [] ys a b = b
AreClear-append (x ∷ xs) ys a b =
    let (first, others) = &&-eq-true (is_clear x) (all is_clear xs) a in
    rw (first) (AreClear-append xs ys others b)

pub AreClear-cons : (x : ℕ) (xs : Bytes) → 32 ≤ x → AreClear xs → AreClear (x ∷ xs)
unfolding AreClear
AreClear-cons x xs a b = let first : leb 32 x ≡ true = ground arith in rw (first) b

pub AreClear-if :
    (b : Bool) (xs ys : Bytes) → AreClear xs → AreClear ys → AreClear (if b then xs else ys)
AreClear-if true xs ys h k = h
AreClear-if false xs ys h k = k

pub AreClear-nil : AreClear []
unfolding AreClear
AreClear-nil = refl

last_digits-AreClear : (fuel value : ℕ) → AreClear (last_digits fuel value)
unfolding last_digits
last_digits-AreClear zero value = AreClear-nil
last_digits-AreClear (suc fuel) value =
    AreClear-cons (48 + value % 10) (if ltb value 10 then [] else last_digits fuel (value / 10))
      (omega arith)
      (AreClear-if (ltb value 10) [] (last_digits fuel (value / 10)) AreClear-nil
        (last_digits-AreClear fuel (value / 10)))

reversed-AreClear : (xs : Bytes) → AreClear xs → AreClear (reversed xs)
unfolding AreClear
reversed-AreClear [] h = refl
reversed-AreClear (x ∷ xs) h =
    let (first, others) = &&-eq-true (is_clear x) (all is_clear xs) h in
    AreClear-append (reversed xs) (x ∷ []) (reversed-AreClear xs others) (rw (first) refl)

pub to_string-AreClear : (value : ℕ) → AreClear (to_string value)
to_string-AreClear value = reversed-AreClear (last_digits 20 value) (last_digits-AreClear 20 value)

pub hex_digits-AreClear : (letter n value : ℕ) → 32 ≤ letter → AreClear (hex_digits letter n value)
unfolding hex_digits
hex_digits-AreClear letter zero value h = AreClear-nil
hex_digits-AreClear letter (suc n) value h =
    AreClear-append (hex_digits letter n (value / 16)) (hex_digit letter (value % 16) ∷ [])
      (hex_digits-AreClear letter n (value / 16) h)
      (AreClear-cons (hex_digit letter (value % 16)) [] (digit-clear (value % 16)) AreClear-nil)
  where
    digit-clear : (d : ℕ) → 32 ≤ hex_digit letter d
    digit-clear d = elim (Bool-cases (ltb d 10)) [
      | inl low ↦ rw (low) (omega arith)
      | inr high ↦ rw (high) (omega arith)
    ]

pub escape_byte-AreClear : (value : ℕ) → AreClear (escape_byte value)
unfolding AreClear
escape_byte-AreClear value = AreClear-if (value == 34) _ _ refl (
    AreClear-if (value == 92) _ _ refl (
      AreClear-if (value == 8) _ _ refl (
        AreClear-if (value == 12) _ _ refl (
          AreClear-if (value == 10) _ _ refl (
            AreClear-if (value == 13) _ _ refl (
              AreClear-if (value == 9) _ _ refl (elim (Bool-cases (ltb value 32)) [
                | inl small ↦ rw (small) (
                    AreClear-append (92 ∷ 117 ∷ []) (hex_digits 97 4 value) refl
                      (hex_digits-AreClear 97 4 value (omega arith)))
                | inr big ↦ rw (big) (AreClear-cons value [] (ground arith) AreClear-nil)
              ])))))))

pub json_escape-AreClear : (text : Bytes) → AreClear (json_escape text)
unfolding json_escape
json_escape-AreClear [] = AreClear-nil
json_escape-AreClear (value ∷ text) =
    AreClear-append (escape_byte value) (json_escape text) (escape_byte-AreClear value)
      (json_escape-AreClear text)

hex_status-AreClear : (status : ℕ) → AreClear (hex_status status)
unfolding hex_status AreClear
hex_status-AreClear status =
    AreClear-append (48 ∷ 120 ∷ []) (hex_digits 65 8 status) refl
      (hex_digits-AreClear 65 8 status (omega arith))

pub format_pointer-AreClear : (pointer : ℕ) → AreClear (format_pointer pointer)
unfolding format_pointer AreClear
format_pointer-AreClear pointer =
    AreClear-append (48 ∷ 120 ∷ []) (hex_digits 65 16 pointer) refl
      (hex_digits-AreClear 65 16 pointer (omega arith))

name_in-AreClear :
    (names : List (ℕ × Bytes)) (status : ℕ)
    → all (λ p. all is_clear p.1) names ≡ true
    → AreClear (elim (name_in names status) [ none ↦ [] | some name ↦ name ])
unfolding name_in AreClear
name_in-AreClear [] status ok = refl
name_in-AreClear ((code, name) ∷ names) status ok =
    let (first, others) = &&-eq-true (all is_clear name) (all (λ p. all is_clear p.1) names) ok in
    elim (Bool-cases (code == status)) [
      | inl here ↦ rw (here, name_in) first
      | inr later ↦ rw (later, name_in) (name_in-AreClear names status others)
    ]

pub literal-AreClear : (text : Bytes) → all is_clear text ≡ true → AreClear text
unfolding AreClear
literal-AreClear text h = h

named_clear :
    (name : Bytes) (o : Option Bytes)
    → o ≡ some name
    → AreClear (elim o [ none ↦ [] | some n ↦ n ])
    → AreClear name
named_clear name o named h = subst (λ p. AreClear (elim p [ none ↦ [] | some n ↦ n ])) named h

zeros-AreClear : (n : ℕ) → AreClear (replicate n 48)
unfolding AreClear
zeros-AreClear zero = refl
zeros-AreClear (suc n) = zeros-AreClear n

-- Two pieces of text.
pub join : (xs ys : Bytes) → AreClear xs → AreClear ys → AreClear (xs ++ ys)
join xs ys h k = AreClear-append xs ys h k

pub format_status-AreClear : (status : ℕ) → AreClear (format_status status)
unfolding format_status
format_status-AreClear status = elim (Option-cases (status_name status)) [
  | inl unnamed ↦ rw (unnamed, format_status) (hex_status-AreClear status)
  | inr (name, named) ↦
      rw (named, format_status)
        (join _ _
          (join _ _
            (join _ _
              (named_clear name (status_name status) named
                (name_in-AreClear status_names status refl))
              (literal-AreClear (codes " (") refl))
            (hex_status-AreClear status))
          (literal-AreClear (codes ")") refl))
]

pub zero_filled-AreClear : (width value : ℕ) → AreClear (zero_filled width value)
zero_filled-AreClear width value =
    AreClear-append (replicate (width - length (to_string value)) 48) (to_string value)
      (zeros-AreClear (width - length (to_string value))) (to_string-AreClear value)
