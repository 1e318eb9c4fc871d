-- ===== src/Hooks/Jump.antt =====
-- The bytes of the absolute jump.
use apiscope.Prelude.{
  Bytes, Option, [], ap, arith, bytes_eq, drop, get_or, if◌then◌else◌, le_bytes, le_value,
  le_value-le_bytes_4, ltb, none, replicate, some, take, ℕ, ◌%◌, ◌&&◌, ◌*◌, ◌++◌, ◌+◌, ◌/◌, ◌<◌,
  ◌==◌, ◌^◌, ◌∙◌, ◌∷◌, ◌≡◌,
}
use apiscope.Hooks.{jump_code}
use apiscope.Memory.{byte, rest}

-- The stack after `push imm32`, which extends the immediate by its sign to 8 bytes, and after the
-- upper half of those is written over.
abbrev pub pushed : Bytes → Bytes
pushed imm = imm ++ replicate 4 (if ltb (get_or imm 3 0) 128 then 0 else 255)

abbrev pub moved_over : Bytes → Bytes → Bytes
moved_over stack imm = take 4 stack ++ imm

-- Where the processor goes from `push imm32; mov dword [rsp+4], imm32; ret`.
unfoldable pub runs_to : Bytes → Option ℕ
runs_to code =
    if byte code == 0x68
      && (bytes_eq (take 4 (drop 5 code)) (0xC7 ∷ 0x44 ∷ 0x24 ∷ 0x04 ∷ [])
          && byte (drop 13 code) == 0xC3)
    then some (le_value (moved_over (pushed (take 4 (rest code))) (take 4 (drop 9 code))))
    else none

halves :
    (lo hi : ℕ)
    → lo < 2 ^ 32
    → hi < 2 ^ 32
    → le_value (le_bytes 4 lo ++ le_bytes 4 hi) ≡ lo + 2 ^ 32 * hi
unfolding le_bytes le_value
halves lo hi a b = omega (arith, le_value-le_bytes_4 lo a, le_value-le_bytes_4 hi b)

-- The jump goes to its address, whatever follows it.
pub runs_to-jump_code :
    (address : ℕ) (behind : Bytes)
    → address < 2 ^ 64
    → runs_to (jump_code address ++ behind) ≡ some address
unfolding runs_to le_bytes bytes_eq
runs_to-jump_code address behind small = ap some (
    halves (address % 2 ^ 32) (address / 2 ^ 32 % 2 ^ 32) (omega arith) (omega arith) ∙ omega arith)
