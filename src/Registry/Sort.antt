-- ===== src/Registry/Sort.antt =====
-- Sorting by canonical names that differ.
use apiscope.Prelude.{
  Bool-cases, Bytes, List, [], arith, bytes_eq, false, inl, inr, refl, true, ◌++◌, ◌||◌, ◌∙◌, ◌∷◌,
  ◌≡◌,
}
use apiscope.Registry.{HookDefinition, bytes_lt, insert_hook, is_known, sort_hooks}

-- No two hooks have one canonical name.
abbrev pub AreDistinct : List HookDefinition → Type 0
AreDistinct [] = Unit {0}
AreDistinct (h ∷ hooks) = (is_known hooks h.canonical_name ≡ false) × AreDistinct hooks

-- Each canonical name is less than the next.
abbrev pub AreSorted : List HookDefinition → Type 0
AreSorted [] = Unit {0}
AreSorted (h ∷ []) = Unit {0}
AreSorted (h ∷ (g ∷ hooks)) =
    (bytes_lt h.canonical_name g.canonical_name ≡ true) × AreSorted (g ∷ hooks)

pub bytes_eq_symm : (xs ys : Bytes) → bytes_eq xs ys ≡ bytes_eq ys xs
unfolding bytes_eq
bytes_eq_symm [] [] = refl
bytes_eq_symm [] (y ∷ ys) = refl
bytes_eq_symm (x ∷ xs) [] = refl
bytes_eq_symm (x ∷ xs) (y ∷ ys) = ground (arith, bytes_eq_symm xs ys)

pub is_known-snoc :
    (hooks : List HookDefinition) (h : HookDefinition) (name : Bytes)
    → is_known (hooks ++ h ∷ []) name ≡ is_known hooks name || bytes_eq h.canonical_name name
unfolding is_known
is_known-snoc [] h name = ground arith
is_known-snoc (g ∷ hooks) h name = ground (arith, is_known-snoc hooks h name)

pub AreDistinct-snoc :
    (hooks : List HookDefinition) (h : HookDefinition)
    → AreDistinct hooks
    → is_known hooks h.canonical_name ≡ false
    → AreDistinct (hooks ++ h ∷ [])
unfolding is_known
AreDistinct-snoc [] h d fresh = (refl, tt)
AreDistinct-snoc (g ∷ hooks) h d fresh = (
  ground (
    arith,
    is_known-snoc hooks h g.canonical_name,
    bytes_eq_symm g.canonical_name h.canonical_name,
  ),
  AreDistinct-snoc hooks h d.1 (ground arith),
)

bytes_lt_total :
    (xs ys : Bytes) → bytes_lt xs ys ≡ false → bytes_eq xs ys ≡ false → bytes_lt ys xs ≡ true
unfolding bytes_lt bytes_eq
bytes_lt_total [] [] h d = absurd (cc)
bytes_lt_total (x ∷ xs) [] h d = refl
bytes_lt_total [] (y ∷ ys) h d = absurd (cc)
bytes_lt_total (x ∷ xs) (y ∷ ys) h d = ground (arith, bytes_lt_total xs ys)

is_known-insert_hook :
    (h : HookDefinition) (hooks : List HookDefinition) (name : Bytes)
    → is_known (insert_hook h hooks) name ≡ bytes_eq h.canonical_name name || is_known hooks name
unfolding is_known insert_hook
is_known-insert_hook h [] name = refl
is_known-insert_hook h (g ∷ hooks) name =
    elim (Bool-cases (bytes_lt h.canonical_name g.canonical_name)) [
      | inl eq ↦ rw (eq) refl
      | inr eq ↦ rw (eq, is_known-insert_hook h hooks name) (ground arith)
    ]

pub is_known-sort_hooks :
    (hooks : List HookDefinition) (name : Bytes)
    → is_known (sort_hooks hooks) name ≡ is_known hooks name
unfolding is_known sort_hooks
is_known-sort_hooks [] name = refl
is_known-sort_hooks (h ∷ hooks) name =
    rw (is_known-insert_hook h (sort_hooks hooks) name, is_known-sort_hooks hooks name) refl

insert_hook-AreDistinct :
    (h : HookDefinition) (hooks : List HookDefinition)
    → is_known hooks h.canonical_name ≡ false
    → AreDistinct hooks
    → AreDistinct (insert_hook h hooks)
unfolding insert_hook is_known
insert_hook-AreDistinct h [] fresh d = (refl, tt)
insert_hook-AreDistinct h (g ∷ hooks) fresh d =
    elim (Bool-cases (bytes_lt h.canonical_name g.canonical_name)) [
      | inl eq ↦ rw (eq) ((fresh, d))
      | inr eq ↦ rw (eq) (
          (
            ground (
              arith,
              is_known-insert_hook h hooks g.canonical_name,
              bytes_eq_symm g.canonical_name h.canonical_name,
            ),
            insert_hook-AreDistinct h hooks (ground arith) d.1,
          ))
    ]

-- A hook comes before the first of a list.
abbrev IsBefore : HookDefinition → List HookDefinition → Type 0
IsBefore h [] = Unit {0}
IsBefore h (g ∷ hooks) = bytes_lt h.canonical_name g.canonical_name ≡ true

AreSorted-cons :
    (h : HookDefinition) (hooks : List HookDefinition)
    → IsBefore h hooks
    → AreSorted hooks
    → AreSorted (h ∷ hooks)
AreSorted-cons h [] b s = tt
AreSorted-cons h (g ∷ hooks) b s = (b, s)

AreSorted-tail :
    (h : HookDefinition) (hooks : List HookDefinition)
    → AreSorted (h ∷ hooks)
    → IsBefore h hooks × AreSorted hooks
AreSorted-tail h [] s = (tt, tt)
AreSorted-tail h (g ∷ hooks) s = s

insert_hook-IsBefore :
    (g h : HookDefinition) (hooks : List HookDefinition)
    → bytes_lt g.canonical_name h.canonical_name ≡ true
    → IsBefore g hooks
    → IsBefore g (insert_hook h hooks)
unfolding insert_hook
insert_hook-IsBefore g h [] above b = above
insert_hook-IsBefore g h (k ∷ hooks) above b =
    elim (Bool-cases (bytes_lt h.canonical_name k.canonical_name)) [
      | inl eq ↦ rw (eq) above
      | inr eq ↦ rw (eq) b
    ]

insert_hook-AreSorted :
    (h : HookDefinition) (hooks : List HookDefinition)
    → is_known hooks h.canonical_name ≡ false
    → AreSorted hooks
    → AreSorted (insert_hook h hooks)
unfolding insert_hook is_known
insert_hook-AreSorted h [] fresh s = tt
insert_hook-AreSorted h (g ∷ hooks) fresh s =
    elim (Bool-cases (bytes_lt h.canonical_name g.canonical_name)) [
      | inl eq ↦ rw (eq) ((eq, s))
      | inr eq ↦
          let later = AreSorted-tail g hooks s in
          let above =
            bytes_lt_total h.canonical_name g.canonical_name eq
              (ground (arith, bytes_eq_symm h.canonical_name g.canonical_name)) in
          rw (eq) (
            AreSorted-cons g (insert_hook h hooks) (insert_hook-IsBefore g h hooks above later.0)
              (insert_hook-AreSorted h hooks (ground arith) later.1))
    ]

pub sort_hooks-AreSorted :
    (hooks : List HookDefinition)
    → AreDistinct hooks
    → AreDistinct (sort_hooks hooks) × AreSorted (sort_hooks hooks)
unfolding sort_hooks
sort_hooks-AreSorted [] d = (tt, tt)
sort_hooks-AreSorted (h ∷ hooks) d =
    let later = sort_hooks-AreSorted hooks d.1 in
    let fresh = is_known-sort_hooks hooks h.canonical_name ∙ d.0 in
    (
      insert_hook-AreDistinct h (sort_hooks hooks) fresh later.0,
      insert_hook-AreSorted h (sort_hooks hooks) fresh later.1,
    )

pub first_unknown :
    (x : HookDefinition) (xs : List HookDefinition) (h : HookDefinition) (ys : List HookDefinition)
    → is_known (xs ++ (h ∷ ys)) x.canonical_name ≡ false
    → bytes_eq h.canonical_name x.canonical_name ≡ false
unfolding is_known
first_unknown x [] h ys fresh = ground (arith, fresh)
first_unknown x (z ∷ xs) h ys fresh = first_unknown x xs h ys (ground (arith, fresh))
