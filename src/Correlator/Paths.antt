-- ===== src/Correlator/Paths.antt =====
-- How `Observe` of trace_correlator.cpp joins a relative path to its root.
use apiscope.Prelude.{
  Bool-cases, [], ap, append_assoc, ap₂, arith, false, if◌then◌else◌, inl, inr, refl, sym, true,
  ◌++◌, ◌==◌, ◌∙◌, ◌∷◌, ◌≡◌,
}
use apiscope.Correlator.{Path16, ends_with_separator, resolve_path, starts_with_separator}
use apiscope.Memory.{rest}

abbrev strip_end : Path16 → Path16
strip_end [] = []
strip_end (c ∷ []) = if c == b'\\' then [] else c ∷ []
strip_end (c ∷ (d ∷ cs)) = c ∷ strip_end (d ∷ cs)

abbrev strip_start : Path16 → Path16
strip_start [] = []
strip_start (c ∷ cs) = if c == b'\\' then cs else c ∷ cs

strip_end-true :
    (base : Path16) → ends_with_separator base ≡ true → base ≡ strip_end base ++ b'\\' ∷ []
strip_end-true [] h = absurd (cc)
strip_end-true (c ∷ []) h = ground arith
strip_end-true (c ∷ (d ∷ cs)) h = ap (◌∷◌ c) (strip_end-true (d ∷ cs) h)

strip_end-false : (base : Path16) → ends_with_separator base ≡ false → strip_end base ≡ base
strip_end-false [] h = refl
strip_end-false (c ∷ []) h = ground arith
strip_end-false (c ∷ (d ∷ cs)) h = ap (◌∷◌ c) (strip_end-false (d ∷ cs) h)

strip_start-true :
    (path : Path16)
    → starts_with_separator path ≡ true
    → (path ≡ b'\\' ∷ strip_start path) × (rest path ≡ strip_start path)
strip_start-true [] h = absurd (cc)
strip_start-true (c ∷ cs) h = ground arith

strip_start-false : (path : Path16) → starts_with_separator path ≡ false → strip_start path ≡ path
strip_start-false [] h = refl
strip_start-false (c ∷ cs) h = ground arith

-- A resolved path is the root without the separator at its end, if it ends in one, then a separator,
-- and then the relative path without the separator at its start, if it starts with one. So a
-- separator that one of the two has is neither doubled nor dropped, and one that neither has is added;
-- of two or more separators at the root's end or the path's start, all but one stay.
pub resolve_path_lem :
    (base path : Path16) → resolve_path base path ≡ strip_end base ++ (b'\\' ∷ strip_start path)
unfolding resolve_path
resolve_path_lem base path = elim (Bool-cases (ends_with_separator base)) [
  | inl b ↦ elim (Bool-cases (starts_with_separator path)) [
    | inl r ↦
        rw (b, r, resolve_path)
          (ap₂ ◌++◌ (strip_end-true base b) (strip_start-true path r).1
            ∙ append_assoc (strip_end base) (b'\\' ∷ []) (strip_start path))
    | inr r ↦
        rw (b, r, resolve_path)
          (ap₂ ◌++◌ (strip_end-true base b) (sym (strip_start-false path r))
            ∙ append_assoc (strip_end base) (b'\\' ∷ []) (strip_start path))
  ]
  | inr b ↦ elim (Bool-cases (starts_with_separator path)) [
    | inl r ↦
        rw (b, r, resolve_path)
          (ap₂ ◌++◌ (sym (strip_end-false base b)) (strip_start-true path r).0)
    | inr r ↦
        rw (b, r, resolve_path)
          (append_assoc base (b'\\' ∷ []) path
            ∙ ap₂ (λ x y. x ++ b'\\' ∷ y) (sym (strip_end-false base b))
                (sym (strip_start-false path r)))
  ]
]
