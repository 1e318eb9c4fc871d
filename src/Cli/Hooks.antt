-- ===== src/Cli/Hooks.antt =====
-- The hooks that the command line selects.
use mathlib.Core.List.{Memᴰ}
use apiscope.Prelude.{
  Bool-cases, Bytes, List, Option, Option-cases, [], append-nil, append_assoc, arith, bytes_eq,
  codes, false, inl, inr, length, none, refl, some, sym, true, ◌++◌, ◌∷◌, ◌≡◌, ◌≤◌,
}
use apiscope.Cli.{
  add_hook, add_hooks, at_least_one, canonical_request, expand_and_validate_hooks, expand_hooks,
}
use apiscope.Registry.{HookDefinition, find_supported_hook, is_known}
use apiscope.Registry.Sort.{AreDistinct, AreDistinct-snoc, bytes_eq_symm, first_unknown}

-- Every hook is one of the others.
abbrev pub AreFrom : List HookDefinition → List HookDefinition → Type 0
AreFrom available [] = Unit {0}
AreFrom available (h ∷ hooks) = Memᴰ h available × AreFrom available hooks

AreFrom-snoc :
    (available hooks : List HookDefinition) (h : HookDefinition)
    → AreFrom available hooks
    → Memᴰ h available
    → AreFrom available (hooks ++ h ∷ [])
AreFrom-snoc available [] h old new = (new, tt)
AreFrom-snoc available (g ∷ hooks) h old new = (old.0, AreFrom-snoc available hooks h old.1 new)

-- The hooks selected so far.
abbrev pub AreSelected : List HookDefinition → List HookDefinition → Type 0
AreSelected available hooks = AreDistinct hooks × AreFrom available hooks

AreSelected-add_hook :
    (available hooks : List HookDefinition) (h : HookDefinition)
    → AreSelected available hooks
    → Memᴰ h available
    → AreSelected available (add_hook hooks h)
unfolding add_hook
AreSelected-add_hook available hooks h s m = elim (Bool-cases (is_known hooks h.canonical_name)) [
  | inl eq ↦ rw (eq) s
  | inr eq ↦ rw (eq) ((AreDistinct-snoc hooks h s.0 eq, AreFrom-snoc available hooks h s.1 m))
]

AreSelected-add_hooks :
    (available hooks more : List HookDefinition)
    → AreSelected available hooks
    → AreFrom available more
    → AreSelected available (add_hooks hooks more)
unfolding add_hooks
AreSelected-add_hooks available hooks [] s m = s
AreSelected-add_hooks available hooks (h ∷ more) s m =
    AreSelected-add_hooks available (add_hook hooks h) more
      (AreSelected-add_hook available hooks h s m.0) m.1

first_found :
    (g h : HookDefinition) (hooks : List HookDefinition) (name : Bytes)
    → bytes_eq g.canonical_name name ≡ true
    → find_supported_hook (g ∷ hooks) name ≡ some h
    → h ≡ g
unfolding find_supported_hook
first_found g h hooks name eq found = ground (arith, eq, found)

later_found :
    (g h : HookDefinition) (hooks : List HookDefinition) (name : Bytes)
    → bytes_eq g.canonical_name name ≡ false
    → find_supported_hook (g ∷ hooks) name ≡ some h
    → find_supported_hook hooks name ≡ some h
unfolding find_supported_hook
later_found g h hooks name eq found = ground (arith, eq, found)

find_supported_hook-Mem :
    (hooks : List HookDefinition) (name : Bytes) (h : HookDefinition)
    → find_supported_hook hooks name ≡ some h
    → Memᴰ h hooks
unfolding find_supported_hook
find_supported_hook-Mem [] name h found = absurd (cc)
find_supported_hook-Mem (g ∷ hooks) name h found =
    elim (Bool-cases (bytes_eq g.canonical_name name)) [
      | inl eq ↦ Memᴰ.head (first_found g h hooks name eq found)
      | inr eq ↦
          Memᴰ.tail (find_supported_hook-Mem hooks name h (later_found g h hooks name eq found))
    ]

AreFrom-there :
    (g : HookDefinition) (available hooks : List HookDefinition)
    → AreFrom available hooks
    → AreFrom (g ∷ available) hooks
AreFrom-there g available [] s = tt
AreFrom-there g available (h ∷ hooks) s = (Memᴰ.tail s.0, AreFrom-there g available hooks s.1)

AreFrom-refl : (hooks : List HookDefinition) → AreFrom hooks hooks
AreFrom-refl [] = tt
AreFrom-refl (h ∷ hooks) = (Memᴰ.head refl, AreFrom-there h hooks hooks (AreFrom-refl hooks))

pub expand_hooks-AreSelected :
    (available : List HookDefinition) (requested : List Bytes) (hooks : List HookDefinition)
    → AreSelected available hooks
    → AreSelected available (expand_hooks available requested hooks).0
unfolding expand_hooks
expand_hooks-AreSelected available [] hooks s = s
expand_hooks-AreSelected available (name ∷ others) hooks s =
    elim (Bool-cases (bytes_eq name (codes "all"))) [
      | inl eq ↦ rw (eq) (
          expand_hooks-AreSelected available others (add_hooks hooks available)
            (AreSelected-add_hooks available hooks available s (AreFrom-refl available)))
      | inr eq ↦ elim (Option-cases (canonical_request name)) [
        | inl bad ↦ rw (eq, bad) s
        | inr (canonical, good) ↦ elim (Option-cases (find_supported_hook available canonical)) [
          | inl missing ↦ rw (eq, good, missing) s
          | inr (h, found) ↦
              rw (eq, good, found)
                (expand_hooks-AreSelected available others (add_hook hooks h) (
                  AreSelected-add_hook available hooks h s
                    (find_supported_hook-Mem available canonical h found)))
        ]
      ]
    ]

at_least_one-nonempty :
    (hooks : List HookDefinition) (message : Option Bytes)
    → (at_least_one (hooks, message)).1 ≡ none
    → 1 ≤ length (at_least_one (hooks, message)).0
at_least_one-nonempty hooks (some m) none_left = absurd (cc)
at_least_one-nonempty [] none none_left = absurd (cc)
at_least_one-nonempty (h ∷ hooks) none none_left = omega arith

at_least_one_same :
    (hooks : List HookDefinition) (message : Option Bytes)
    → (at_least_one (hooks, message)).0 ≡ hooks
at_least_one_same hooks (some m) = refl
at_least_one_same [] none = refl
at_least_one_same (h ∷ hooks) none = refl

-- ExpandAndValidateHooks of options without hooks: the hooks are available ones, no two of one canonical
-- name, and where there is no message there is at least one.
pub expand_and_validate_hooks-AreSelected :
    (available : List HookDefinition) (requested : List Bytes)
    → AreSelected available (expand_and_validate_hooks available requested).0
      × ((expand_and_validate_hooks available requested).1 ≡ none
          → 1 ≤ length (expand_and_validate_hooks available requested).0)
unfolding expand_and_validate_hooks
expand_and_validate_hooks-AreSelected available requested =
    let r = expand_hooks available requested [] in
    (
      rw (at_least_one_same r.0 r.1) (expand_hooks-AreSelected available requested [] (tt, tt)),
      at_least_one-nonempty r.0 r.1,
    )

is_known-append :
    (xs : List HookDefinition) (h : HookDefinition) (ys : List HookDefinition)
    → AreDistinct (xs ++ (h ∷ ys))
    → is_known xs h.canonical_name ≡ false
unfolding is_known
is_known-append [] h ys d = refl
is_known-append (x ∷ xs) h ys d = ground (
  arith,
  is_known-append xs h ys d.1,
  first_unknown x xs h ys d.0,
  bytes_eq_symm x.canonical_name h.canonical_name,
)

add_hooks_distinct :
    (hooks available : List HookDefinition)
    → AreDistinct (hooks ++ available)
    → add_hooks hooks available ≡ hooks ++ available
unfolding add_hooks add_hook
add_hooks_distinct hooks [] d = sym (append-nil hooks)
add_hooks_distinct hooks (h ∷ available) d =
    rw
      (
        is_known-append hooks h available d,
        add_hooks_distinct (hooks ++ h ∷ []) available
            (rw (append_assoc hooks (h ∷ []) available) d),
      )
      (append_assoc hooks (h ∷ []) available)

-- `all` selects every available hook, in the order of the list.
expand_and_validate_hooks-all :
    (available : List HookDefinition)
    → AreDistinct available
    → 1 ≤ length available
    → expand_and_validate_hooks available (codes "all" ∷ []) ≡ (available, none)
unfolding expand_and_validate_hooks expand_hooks bytes_eq
expand_and_validate_hooks-all [] d some_hook = absurd (omega arith)
expand_and_validate_hooks-all (h ∷ hooks) d some_hook =
    rw (add_hooks_distinct [] (h ∷ hooks) d) refl
