-- ===== src/Memory/Laws.antt =====
-- What the byte routines of memory_utils.cpp do, in terms of lists.
use apiscope.Prelude.{
  ==_iff, Bool-cases, Bytes, [], ap, ap₂, arith, drop, drop-append, if◌then◌else◌, inl, inr,
  is_zero, length, length-append, refl, replicate, sub_ℕ-eq-zero, suc, take, take-append, true,
  zero, ℕ, ◌%◌, ◌++◌, ◌==◌, ◌↔◌, ◌∙◌, ◌∷◌, ◌≡◌, ◌≤◌,
}
use apiscope.Memory.{
  byte, copy_at, custom_mem_cmp, custom_mem_cpy, custom_mem_set, custom_str_cmp, rest,
}

-- `CustomMemCmp` of two objects of at least `count` bytes is 0 exactly when their first `count`
-- bytes are the same.
pub custom_mem_cmp-zero :
    (xs ys : Bytes) (count : ℕ)
    → count ≤ length xs
    → count ≤ length ys
    → (is_zero (custom_mem_cmp xs ys count) ≡ true) ↔ (take count xs ≡ take count ys)
unfolding custom_mem_cmp
custom_mem_cmp-zero xs ys zero h k = (λ _. refl, λ _. refl)
custom_mem_cmp-zero [] ys (suc n) h k = absurd (omega arith)
custom_mem_cmp-zero (x ∷ xs) [] (suc n) h k = absurd (omega arith)
custom_mem_cmp-zero (x ∷ xs) (y ∷ ys) (suc n) h k =
    let ih = custom_mem_cmp-zero xs ys n (omega arith) (omega arith) in
    elim (Bool-cases (x == y)) [
      | inl e ↦ rw e (λ z. ap₂ ◌∷◌ ((==_iff x y).0 e) (ih.0 z), λ q. ih.1 (ap rest q))
      | inr e ↦
          rw e (
            λ z. absurd (ground (arith, sub_ℕ-eq-zero x y)),
            λ q. absurd (ground (arith, ap byte q)),
          )
    ]

-- The characters of a C string: those before its terminator.
abbrev pub c_chars : Bytes → Bytes
c_chars [] = []
c_chars (c ∷ cs) = if c == 0 then [] else c ∷ c_chars cs

-- `CustomStrCmp` is 0 exactly on equal C strings.
pub custom_str_cmp-zero :
    (xs ys : Bytes) → (is_zero (custom_str_cmp xs ys) ≡ true) ↔ (c_chars xs ≡ c_chars ys)
unfolding custom_str_cmp
custom_str_cmp-zero [] [] = (λ _. refl, λ _. refl)
custom_str_cmp-zero [] (y ∷ ys) = (λ z. ground arith, λ q. ground arith)
custom_str_cmp-zero (x ∷ xs) [] = (λ z. ground arith, λ q. ground arith)
custom_str_cmp-zero (x ∷ xs) (y ∷ ys) = (
  λ z. ground (arith, (custom_str_cmp-zero xs ys).0),
  λ q. ground (arith, (custom_str_cmp-zero xs ys).1),
)

-- `CustomMemCpy` of `count` bytes from a source that has them replaces the first `count` bytes.
pub custom_mem_cpy_lem :
    (dest src : Bytes) (count : ℕ)
    → count ≤ length dest
    → count ≤ length src
    → custom_mem_cpy dest src count ≡ take count src ++ drop count dest
unfolding custom_mem_cpy
custom_mem_cpy_lem dest src zero h k = refl
custom_mem_cpy_lem [] src (suc n) h k = absurd (omega arith)
custom_mem_cpy_lem (d ∷ dest) [] (suc n) h k = absurd (omega arith)
custom_mem_cpy_lem (d ∷ dest) (s ∷ src) (suc n) h k =
    ap (◌∷◌ s) (custom_mem_cpy_lem dest src n (omega arith) (omega arith))

-- Behind the `off` bytes `pre` of an object, a copy replaces the bytes `old` by the source's first
-- ones, and nothing else.
pub copy_at_lem :
    (pre old post src tail : Bytes) (off count : ℕ)
    → off ≡ length pre
    → count ≡ length old
    → count ≡ length src
    → copy_at (pre ++ (old ++ post)) off (src ++ tail) count ≡ pre ++ (src ++ post)
copy_at_lem pre old post src tail off count p q r =
    rw (p, take-append pre (old ++ post), drop-append pre (old ++ post)) (ap (◌++◌ pre) copied)
  where
    copied : custom_mem_cpy (old ++ post) (src ++ tail) count ≡ src ++ post
    copied =
        custom_mem_cpy_lem (old ++ post) (src ++ tail) count (omega (arith, length-append old post))
          (omega (arith, length-append src tail))
        ∙ ap₂ ◌++◌ (ap (λ n. take n (src ++ tail)) r ∙ take-append src tail)
            (ap (λ n. drop n (old ++ post)) q ∙ drop-append old post)

-- `CustomMemSet` of a whole object.
pub custom_mem_set_lem :
    (object : Bytes) (value : ℕ)
    → custom_mem_set object value (length object) ≡ replicate (length object) (value % 256)
unfolding custom_mem_set
custom_mem_set_lem [] value = refl
custom_mem_set_lem (b ∷ object) value = ap (◌∷◌ (value % 256)) (custom_mem_set_lem object value)

pub length-custom_mem_set :
    (object : Bytes) (value count : ℕ) → length (custom_mem_set object value count) ≡ length object
unfolding custom_mem_set
length-custom_mem_set object value zero = refl
length-custom_mem_set [] value (suc n) = refl
length-custom_mem_set (b ∷ object) value (suc n) = ap suc (length-custom_mem_set object value n)
