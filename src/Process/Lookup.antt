-- ===== src/Process/Lookup.antt =====
-- The lookup of an export by its name.
use apiscope.Prelude.{
  Bytes, Option, ap, arith, false, none, refl, some, subst, suc, sym, true, zero, ℕ, ℕ_discrete,
  ◌+◌, ◌<◌, ◌↔◌, ◌≡◌, ◌≤◌,
}
use apiscope.Process.{
  Exports, ImageFormat, export_at, find_export, get_remote_export, is_named, is_range_within,
  read_exports,
}

-- A range within a buffer, of numbers without a bound.
pub is_range_within_lem :
    (offset size buffer_size : ℕ)
    → (is_range_within offset size buffer_size ≡ true) ↔ (offset + size ≤ buffer_size)
unfolding is_range_within
is_range_within_lem offset size buffer_size = (λ h. ground arith, λ h. ground arith)

module _ (read : ℕ → ℕ → Option Bytes) (image : ImageFormat) (base : ℕ) (exports : Exports)
    (name : Bytes) where
  -- The loop gives the export of the first index with the name.
  pub find_export-first :
      (remaining i j : ℕ)
      → i ≤ j
      → j < i + remaining
      → is_named read image base exports name j ≡ true
      → ((m : ℕ) → i ≤ m → m < j → is_named read image base exports name m ≡ false)
      → find_export read image base exports name remaining i ≡ export_at read image base exports j
  unfolding find_export
  find_export-first zero i j a b named before = absurd (omega arith)
  find_export-first (suc remaining) i j a b named before = elim (ℕ_discrete i j) [
    | yes here ↦
        rw (subst (λ k. is_named read image base exports name k ≡ true) (sym here) named)
          (ap (export_at read image base exports) here)
    | no later ↦ rw (before i (omega arith) (omega arith)) (
        find_export-first remaining (i + 1) j (omega arith) (omega arith) named
          (λ m c d. before m (omega arith) d))
  ]

  pub find_export-none :
      (remaining i : ℕ)
      → ((m : ℕ) → i ≤ m → m < i + remaining → is_named read image base exports name m ≡ false)
      → find_export read image base exports name remaining i ≡ none
  unfolding find_export
  find_export-none zero i before = refl
  find_export-none (suc remaining) i before =
      rw (before i (omega arith) (omega arith))
        (find_export-none remaining (i + 1) (λ m a b. before m (omega arith) (omega arith)))

-- GetRemoteExport of an image whose tables can be read gives what the first index has, whose name
-- can be read and is the one asked for.
pub get_remote_export-first :
    (read : ℕ → ℕ → Option Bytes) (image : ImageFormat) (base : ℕ) (exports : Exports)
    (name : Bytes) (j : ℕ)
    → read_exports read image base ≡ some exports
    → j < exports.name_count
    → is_named read image base exports name j ≡ true
    → ((m : ℕ) → m < j → is_named read image base exports name m ≡ false)
    → get_remote_export read image base name ≡ export_at read image base exports j
unfolding get_remote_export
get_remote_export-first read image base exports name j readable below named before = rw (readable) (
    find_export-first read image base exports name exports.name_count 0 j (omega arith)
      (omega arith) named (λ m a b. before m b))

-- GetRemoteExport gives nothing where no name that can be read is the one asked for.
pub get_remote_export-none :
    (read : ℕ → ℕ → Option Bytes) (image : ImageFormat) (base : ℕ) (exports : Exports)
    (name : Bytes)
    → read_exports read image base ≡ some exports
    → ((m : ℕ) → m < exports.name_count → is_named read image base exports name m ≡ false)
    → get_remote_export read image base name ≡ none
unfolding get_remote_export
get_remote_export-none read image base exports name readable before = rw (readable) (
    find_export-none read image base exports name exports.name_count 0
      (λ m a b. before m (omega arith)))
