-- ===== src/Cli/Pid.antt =====
-- Process identifiers on the command line, against the decimal numerals that they are.
use apiscope.Prelude.{
  Bool, Option, [], all, arith, dec_le, false, if◌then◌else◌, length, ltb, none, not, refl, some,
  suc, sym, true, zero, ℕ, ◌&&◌, ◌*◌, ◌+◌, ◌-◌, ◌^◌, ◌∷◌, ◌≡◌, ◌≤◌,
}
use apiscope.Cli.{WideText, parse_digits, parse_process_id}
use apiscope.Transport.{is_digit}

-- Ten to the number of characters.
unfoldable pub scale : WideText → ℕ
scale [] = 1
scale (c ∷ cs) = 10 * scale cs

-- The number that a string of digits stands for.
unfoldable pub decimal : WideText → ℕ
decimal [] = 0
decimal (c ∷ cs) = (c - b'0') * scale cs + decimal cs

-- A nonempty string of digits, of a number from 1 to 2 ^ 32 - 1.
abbrev pub is_process_id : WideText → Bool
is_process_id value =
    ltb 0 (length value)
    && (all is_digit value && (ltb 0 (decimal value) && ltb (decimal value) (2 ^ 32)))

scale_step : (n d s r : ℕ) → (n * 10 + d) * s + r ≡ n * (10 * s) + (d * s + r)
scale_step n d s r = omega arith

scale_pos : (cs : WideText) → 1 ≤ scale cs
unfolding scale
scale_pos [] = omega arith
scale_pos (c ∷ cs) = omega (arith, scale_pos cs)

le_scaled : (n s r : ℕ) → 1 ≤ s → n ≤ n * s + r
le_scaled n zero r h = absurd (omega arith)
le_scaled n (suc s) r h = omega arith

digits_step :
    (d a : Bool) (next total : ℕ) (p : Option ℕ)
    → (next ≤ 4294967295 → p ≡ (if a && ltb total 4294967296 then some total else none))
    → next ≤ total
    → (if not d then none else if ltb 4294967295 next then none else p)
      ≡ (if (d && a) && ltb total 4294967296 then some total else none)
digits_step false a next total p later below = refl
digits_step true a next total p later below = elim (dec_le next 4294967295) [
  | yes h ↦ ground (arith, later h)
  | no h ↦ ground arith
]

pub parse_digits_lem :
    (cs : WideText) (n : ℕ)
    → n ≤ 4294967295
    → parse_digits cs n ≡ (
        if all is_digit cs && ltb (n * scale cs + decimal cs) (2 ^ 32)
        then some (n * scale cs + decimal cs)
        else none)
unfolding parse_digits scale decimal
parse_digits_lem [] n h = ground arith
parse_digits_lem (c ∷ cs) n h = rw (sym (scale_step n (c - b'0') (scale cs) (decimal cs))) (
    digits_step (is_digit c) (all is_digit cs) (n * 10 + (c - b'0'))
      ((n * 10 + (c - b'0')) * scale cs + decimal cs) (parse_digits cs (n * 10 + (c - b'0')))
      (parse_digits_lem cs (n * 10 + (c - b'0')))
      (le_scaled (n * 10 + (c - b'0')) (scale cs) (decimal cs) (scale_pos cs)))

-- ParseProcessId stores the number exactly of the decimal numerals from 1 to 2 ^ 32 - 1.
pub parse_process_id_lem :
    (value : WideText)
    → parse_process_id value ≡ (if is_process_id value then some (decimal value) else none)
unfolding parse_process_id
parse_process_id_lem value = ground (arith, parse_digits_lem value 0)
