-- ===== src/Memory.antt =====
-- src/apiscope/memory_utils.cpp: the byte routines that the injected library carries itself. A
-- pointer is the list of the bytes from it to the end of its object; a read past that end gives 0,
-- which is also the terminator of a C string.
pub mod Laws
use apiscope.Prelude.{
  Bytes, [], drop, if◌then◌else◌, not, pos, sub_ℕ, suc, take, zero, ℕ, ℤ, ◌%◌, ◌&&◌, ◌++◌, ◌==◌,
  ◌∷◌,
}

abbrev pub byte : Bytes → ℕ
byte [] = 0
byte (b ∷ bs) = b

abbrev pub rest : Bytes → Bytes
rest [] = []
rest (b ∷ bs) = bs

-- `CustomStrCmp`
unfoldable pub custom_str_cmp : Bytes → Bytes → ℤ
custom_str_cmp [] right = sub_ℕ 0 (byte right)
custom_str_cmp (l ∷ left) right =
    if not (l == 0) && l == byte right
    then custom_str_cmp left (rest right)
    else sub_ℕ l (byte right)

-- `CustomMemCmp`
unfoldable pub custom_mem_cmp : Bytes → Bytes → ℕ → ℤ
custom_mem_cmp left right zero = pos 0
custom_mem_cmp left right (suc count) =
    if not (byte left == byte right)
    then sub_ℕ (byte left) (byte right)
    else custom_mem_cmp (rest left) (rest right) count

-- `CustomMemCpy`: the bytes from `dest` on, after the copy.
unfoldable pub custom_mem_cpy : Bytes → Bytes → ℕ → Bytes
custom_mem_cpy dest src zero = dest
custom_mem_cpy [] src (suc count) = []
custom_mem_cpy (d ∷ dest) src (suc count) = byte src ∷ custom_mem_cpy dest (rest src) count

-- `CustomMemSet`
unfoldable pub custom_mem_set : Bytes → ℕ → ℕ → Bytes
custom_mem_set dest value zero = dest
custom_mem_set [] value (suc count) = []
custom_mem_set (d ∷ dest) value (suc count) = value % 256 ∷ custom_mem_set dest value count

-- A copy of `count` bytes to the offset `off` of an object.
abbrev pub copy_at : Bytes → ℕ → Bytes → ℕ → Bytes
copy_at object off src count = take off object ++ custom_mem_cpy (drop off object) src count
