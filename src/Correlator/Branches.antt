-- ===== src/Correlator/Branches.antt =====
-- `Annotate` of trace_correlator.cpp, branch by branch.
use apiscope.Prelude.{
  Bool-cases, Bytes, List, Option-cases, [], arith, bytes_eq, codes, false, inl, inr, none, refl,
  some, true, ℕ, ◌==◌, ◌∷◌, ◌≡◌, ◌≢◌,
}
use apiscope.Correlator.{
  FieldRef, HandlePaths, Path16, annotate, append_wide_string, find_field, find_object_handle,
  find_path,
}
use apiscope.Correlator.Lookup.{find_view}
use apiscope.Protocol.{Event}
use apiscope.Renderer.Parse.{FieldView, is_name_used}

pub find_view-unused :
    (fs : List FieldView) (name : Bytes) → is_name_used fs name ≡ false → find_view fs name ≡ none
unfolding find_view is_name_used
find_view-unused [] name h = refl
find_view-unused (f ∷ fs) name h = ground (arith, find_view-unused fs name)

pub find_view-used :
    (fs : List FieldView) (name : Bytes)
    → is_name_used fs name ≡ true
    → (ref : FieldRef) × (find_view fs name ≡ some ref)
unfolding find_view is_name_used
find_view-used [] name h = absurd (cc)
find_view-used (f ∷ fs) name h = elim (Bool-cases (bytes_eq name f.name)) [
  | inl same ↦ (record { tag = f.tag; value = f.value }, rw same refl)
  | inr other ↦ let (ref, seen) = find_view-used fs name (ground arith) in (ref, rw other seen)
]

-- The branches of `Annotate`.
pub annotate_named :
    (table : HandlePaths) (e : Event) (ref : FieldRef)
    → find_field e (codes "path") ≡ some ref
    → annotate table e ≡ e
unfolding annotate
annotate_named table e ref seen = rw (seen, annotate) refl

pub annotate_no_handle :
    (table : HandlePaths) (e : Event) → find_object_handle e ≡ none → annotate table e ≡ e
unfolding annotate
annotate_no_handle table e missing = elim (Option-cases (find_field e (codes "path"))) [
  | inl unseen ↦ rw (unseen, missing, annotate) refl
  | inr (ref, seen) ↦ rw (seen, annotate) refl
]

pub annotate_null :
    (table : HandlePaths) (e : Event) → find_object_handle e ≡ some 0 → annotate table e ≡ e
unfolding annotate
annotate_null table e named = elim (Option-cases (find_field e (codes "path"))) [
  | inl unseen ↦ rw (unseen, named, annotate) refl
  | inr (ref, seen) ↦ rw (seen, annotate) refl
]

pub annotate_unknown :
    (table : HandlePaths) (e : Event) (handle : ℕ)
    → find_object_handle e ≡ some handle
    → find_path handle table ≡ none
    → annotate table e ≡ e
unfolding annotate
annotate_unknown table e handle named unknown = elim (Option-cases (find_field e (codes "path"))) [
  | inl unseen ↦ elim (Bool-cases (handle == 0)) [
    | inl null ↦ rw (unseen, named, null, annotate) refl
    | inr nonzero ↦ rw (unseen, named, nonzero, unknown, annotate) refl
  ]
  | inr (ref, seen) ↦ rw (seen, annotate) refl
]

pub annotate_known :
    (table : HandlePaths) (e : Event) (handle : ℕ) (path : Path16)
    → find_field e (codes "path") ≡ none
    → find_object_handle e ≡ some handle
    → handle ≢ 0
    → find_path handle table ≡ some path
    → annotate table e ≡ (append_wide_string e (codes "path") path).0
unfolding annotate
annotate_known table e handle path unseen named nonzero known =
    rw (unseen, named, not_null, known, annotate) refl
  where
    not_null : (handle == 0) ≡ false
    not_null = ground arith
