-- ===== src/Hooks/Size.antt =====
-- The size of a patch: the loop of CalculatePatchSize ends, and what it counts.
use apiscope.Prelude.{
  &&-eq-true, Bool-cases, Bytes, Option, Option-cases, arith, drop, false, inl, inr, length,
  length-drop, ltb, none, not, not-ltb, refl, some, subst, suc, true, zero, ℕ, ◌&&◌, ◌+◌, ◌<◌, ◌==◌,
  ◌≡◌, ◌≢◌, ◌≤◌, ◌⊎◌,
}
use apiscope.Hooks.{
  DecodedInstruction, count_instructions, enough, is_movable, patch_size, patch_size_of,
}

-- The first `n` bytes are whole instructions that may stand at another address.
pub data IsWhole (decode : Bytes → Option DecodedInstruction) : Bytes → ℕ → Type 0 where
  nothing : {code : Bytes} → IsWhole decode code 0
  instruction :
      {code : Bytes} {n : ℕ} (i : DecodedInstruction)
      → decode code ≡ some i
      → is_movable i ≡ true
      → IsWhole decode (drop i.instruction_length code) n
      → IsWhole decode code (i.instruction_length + n)

-- A decoder reads no instruction past the end of the bytes.
abbrev pub IsBounded : (Bytes → Option DecodedInstruction) → Type 0
IsBounded decode =
    (code : Bytes) (i : DecodedInstruction)
    → decode code ≡ some i
    → i.instruction_length ≤ length code

movable-length : (i : DecodedInstruction) → is_movable i ≡ true → 0 < i.instruction_length
movable-length i h = ground (
  arith,
  &&-eq-true (not (i.instruction_length == 0))
      (not i.has_rip_relative_memory && not i.has_relative_immediate) h,
)

module _ (decode : Bytes → Option DecodedInstruction) where
  count-ends :
      (code : Bytes) (fuel total : ℕ)
      → patch_size ≤ total + fuel
      → (k : ℕ) × (count_instructions decode code (suc fuel) total ≡ some k)
  unfolding count_instructions
  count-ends code zero total h =
      let full : ltb total patch_size ≡ false = not-ltb total patch_size (omega arith) in
      (total, rw (full) refl)
  count-ends code (suc fuel) total h =
      elim (Bool-cases (ltb total patch_size && not (length code == 0))) [
        | inr stop ↦ (total, rw (stop) refl)
        | inl go ↦ elim (Option-cases (decode code)) [
          | inl bad ↦ (0, rw (go, bad) refl)
          | inr (i, good) ↦ elim (Bool-cases (is_movable i)) [
            | inr refused ↦ (0, rw (go, good, refused) refl)
            | inl moved ↦
                let (k, eq) =
                  count-ends (drop i.instruction_length code) fuel (total + i.instruction_length)
                    (omega (arith, movable-length i moved)) in
                (k, rw (go, good, moved) eq)
          ]
        ]
      ]

  abbrev IsCounted : Bytes → ℕ → ℕ → Type 0
  IsCounted code total k = (n : ℕ) × (k ≡ total + n) × (n ≤ length code) × IsWhole decode code n

  CountOf : Bytes → ℕ → Option ℕ → Type 0
  CountOf code total none = Unit {0}
  CountOf code total (some k) = (k ≡ 0) ⊎ IsCounted code total k

  one_more :
      IsBounded decode
      → (code : Bytes) (total : ℕ) (i : DecodedInstruction) (o : Option ℕ) → decode code ≡ some i
      → is_movable i ≡ true
      → CountOf (drop i.instruction_length code) (total + i.instruction_length) o
      → CountOf code total o
  unfolding CountOf
  one_more bounded code total i none good moved c = tt
  one_more bounded code total i (some k) good moved (inl refused) = inl refused
  one_more bounded code total i (some k) good moved (inr (n, same, below, whole)) = inr (
    i.instruction_length + n,
    omega arith,
    omega (arith, bounded code i good, length-drop i.instruction_length code),
    instruction i good moved whole,
  )

  count-CountOf :
      IsBounded decode
      → (code : Bytes) (fuel total : ℕ)
      → CountOf code total (count_instructions decode code fuel total)
  unfolding count_instructions CountOf
  count-CountOf bounded code zero total = tt
  count-CountOf bounded code (suc fuel) total =
      elim (Bool-cases (ltb total patch_size && not (length code == 0))) [
        | inr stop ↦ rw (stop) (inr (0, omega arith, omega arith, nothing))
        | inl go ↦ elim (Option-cases (decode code)) [
          | inl bad ↦ rw (go, bad) (inl refl)
          | inr (i, good) ↦ elim (Bool-cases (is_movable i)) [
            | inr refused ↦ rw (go, good, refused) (inl refl)
            | inl moved ↦
                rw (go, good, moved)
                  (one_more bounded code total i
                    (count_instructions decode (drop i.instruction_length code) fuel
                      (total + i.instruction_length))
                    good moved
                    (count-CountOf bounded (drop i.instruction_length code) fuel
                      (total + i.instruction_length)))
          ]
        ]
      ]

  enough-CountOf :
      (code : Bytes) (o : Option ℕ)
      → CountOf code 0 o
      → enough o ≢ 0
      → (patch_size ≤ enough o) × (enough o ≤ length code) × IsWhole decode code (enough o)
  unfolding CountOf
  enough-CountOf code none c some_size = absurd (some_size refl)
  enough-CountOf code (some k) c some_size = elim (Bool-cases (ltb k patch_size)) [
    | inl short ↦ absurd (some_size (rw (short) refl))
    | inr full ↦ elim c [
      | inl zero_size ↦ absurd (ground arith)
      | inr (n, same, below, whole) ↦
          let counted : n ≡ k = omega arith in
          rw (full) (ground arith, omega arith, subst (IsWhole decode code) counted whole)
    ]
  ]

  -- The size that CalculatePatchSize counts, where it is not 0, is at least the 14 bytes of the jump,
  -- no more than the bytes read, and that of whole instructions, none of which addresses memory from
  -- RIP or has a relative operand, if the decoder reads no instruction past the bytes given.
  pub patch_size_of-IsWhole :
      (code : Bytes)
      → IsBounded decode
      → patch_size_of decode code ≢ 0
      → (patch_size ≤ patch_size_of decode code)
        × (patch_size_of decode code ≤ length code)
        × IsWhole decode code (patch_size_of decode code)
  unfolding patch_size_of
  patch_size_of-IsWhole code bounded some_size =
      enough-CountOf code (count_instructions decode code (suc patch_size) 0)
        (count-CountOf bounded code (suc patch_size) 0) some_size

  -- CalculatePatchSize ends after at most fifteen tests of its loop, whatever the decoder gives.
  pub patch_size_of-ends :
      (code : Bytes) → (k : ℕ) × (count_instructions decode code (suc patch_size) 0 ≡ some k)
  patch_size_of-ends code = count-ends code patch_size 0 (omega arith)
