-- ===== src/Registry/Names.antt =====
-- The names of modules in their normal form.
use apiscope.Prelude.{
  &&-eq-true, Bool, Bytes, [], all, any, ap₂, arith, false, map, not, refl, true, ℕ, ◌&&◌, ◌++◌,
  ◌==◌, ◌∷◌, ◌≡◌,
}
use apiscope.Registry.{base_name, is_path_separator, normalize_module_name, to_lower}

base_name_same : (name : Bytes) → any is_path_separator name ≡ false → base_name name ≡ name
unfolding base_name
base_name_same [] h = refl
base_name_same (c ∷ cs) h = ground (arith)

base_name-append :
    (directory : Bytes) (separator : ℕ) (name : Bytes)
    → is_path_separator separator ≡ true
    → any is_path_separator name ≡ false
    → base_name (directory ++ (separator ∷ name)) ≡ name
unfolding base_name
base_name-append [] separator name p h = rw (h, p) refl
base_name-append (c ∷ directory) separator name p h =
    rw (any-append directory separator name p) (base_name-append directory separator name p h)
  where
    any-append :
        (xs : Bytes) (s : ℕ) (ys : Bytes)
        → is_path_separator s ≡ true
        → any is_path_separator (xs ++ (s ∷ ys)) ≡ true
    any-append [] s ys q = rw (q) refl
    any-append (x ∷ xs) s ys q = ground (arith, any-append xs s ys q)

-- A character that a normal name may have.
abbrev pub is_normal : ℕ → Bool
is_normal c = not (is_path_separator c) && to_lower c == c

to_lower-is_normal : (c : ℕ) → is_path_separator c ≡ false → is_normal (to_lower c) ≡ true
to_lower-is_normal c h = ground arith

lower-is_normal :
    (name : Bytes) → any is_path_separator name ≡ false → all is_normal (map to_lower name) ≡ true
lower-is_normal [] h = refl
lower-is_normal (c ∷ cs) h = ground (arith, to_lower-is_normal c, lower-is_normal cs)

base_name-plain : (name : Bytes) → any is_path_separator (base_name name) ≡ false
unfolding base_name
base_name-plain [] = refl
base_name-plain (c ∷ cs) = ground (arith, base_name-plain cs)

normal_plain : (name : Bytes) → all is_normal name ≡ true → any is_path_separator name ≡ false
normal_plain [] h = refl
normal_plain (c ∷ cs) h = ground (arith, normal_plain cs)

normal_lower : (name : Bytes) → all is_normal name ≡ true → map to_lower name ≡ name
normal_lower [] h = refl
normal_lower (c ∷ cs) h =
    let both = &&-eq-true (is_normal c) (all is_normal cs) h in
    ap₂ ◌∷◌ (lower_same c both.0) (normal_lower cs both.1)
  where
    lower_same : (c : ℕ) → is_normal c ≡ true → to_lower c ≡ c
    lower_same c h = ground arith

-- A normalised name has no separator and no capital, keeps its value when it is normalised again,
-- and does not depend on the directory before the last separator.
pub normalize_module_name_lem :
    (name : Bytes)
    → (all is_normal (normalize_module_name name) ≡ true)
      × (normalize_module_name (normalize_module_name name) ≡ normalize_module_name name)
      × ((directory : Bytes) (separator : ℕ)
          → is_path_separator separator ≡ true
          → any is_path_separator name ≡ false
          → normalize_module_name (directory ++ (separator ∷ name)) ≡ normalize_module_name name)
unfolding normalize_module_name
normalize_module_name_lem name =
    let n = lower-is_normal (base_name name) (base_name-plain name) in
    (
      n,
      rw
          (base_name_same (map to_lower (base_name name))
            (normal_plain (map to_lower (base_name name)) n))
          (normal_lower (map to_lower (base_name name)) n),
      λ directory separator p h.
          rw (base_name-append directory separator name p h, base_name_same name h) refl,
    )
