-- ===== src/Registry/Discover.antt =====
-- The hooks that DiscoverHooks finds.
use apiscope.Prelude.{
  &&-eq-true, Bool, Bool-cases, Bytes, List, Option, Option-cases, [], all, arith, bytes_eq_refl,
  codes, false, inl, inr, none, not, refl, some, true, ◌&&◌, ◌++◌, ◌||◌, ◌∷◌, ◌≡◌,
}
use apiscope.Registry.{
  Descriptor, HookDefinition, discover_from, discover_hooks, find_supported_hook, has_prefix,
  insert_hook, is_known, read_descriptor, sort_hooks,
}
use apiscope.Registry.Sort.{
  AreDistinct, AreDistinct-snoc, AreSorted, bytes_eq_symm, first_unknown, sort_hooks-AreSorted,
}

-- What the hooks found so far are: distinct, and with the two exports that they need.
abbrev pub AreFound : (Bytes → Bool) → List HookDefinition → Type 0
AreFound is_exported hooks =
    AreDistinct hooks
    × (all (λ h. is_exported h.handler_export && is_exported h.trampoline_export) hooks ≡ true)

all-snoc :
    (p : HookDefinition → Bool) (hooks : List HookDefinition) (h : HookDefinition)
    → all p hooks ≡ true
    → p h ≡ true
    → all p (hooks ++ h ∷ []) ≡ true
all-snoc p [] h old new = rw (new) refl
all-snoc p (g ∷ hooks) h old new = ground (arith, all-snoc p hooks h)

all-insert_hook :
    (p : HookDefinition → Bool) (h : HookDefinition) (hooks : List HookDefinition)
    → p h ≡ true
    → all p hooks ≡ true
    → all p (insert_hook h hooks) ≡ true
unfolding insert_hook
all-insert_hook p h [] new old = rw (new) refl
all-insert_hook p h (g ∷ hooks) new old = ground (arith, all-insert_hook p h hooks)

all-sort_hooks :
    (p : HookDefinition → Bool) (hooks : List HookDefinition)
    → all p hooks ≡ true
    → all p (sort_hooks hooks) ≡ true
unfolding sort_hooks
all-sort_hooks p [] h = refl
all-sort_hooks p (g ∷ hooks) h =
    let both = &&-eq-true (p g) (all p hooks) h in
    all-insert_hook p g (sort_hooks hooks) both.0 (all-sort_hooks p hooks both.1)

abbrev FoundAll : (Bytes → Bool) → Option (List HookDefinition) → Type 0
FoundAll is_exported none = Unit {0}
FoundAll is_exported (some hooks) = AreFound is_exported hooks

accepted :
    (known handler trampoline : Bool)
    → (known || not handler || not trampoline) ≡ false
    → (known ≡ false) × ((handler && trampoline) ≡ true)
accepted true h t eq = absurd (cc)
accepted false true true eq = (refl, refl)
accepted false true false eq = absurd (cc)
accepted false false t eq = absurd (cc)

discover_from-AreFound :
    (is_exported : Bytes → Bool) (hooks : List HookDefinition)
    (exports : List (Bytes × Option Descriptor))
    → AreFound is_exported hooks
    → FoundAll is_exported (discover_from is_exported hooks exports)
unfolding discover_from
discover_from-AreFound is_exported hooks [] f = f
discover_from-AreFound is_exported hooks ((name, d) ∷ exports) f =
    elim (Bool-cases (has_prefix name (codes "ApiScopeHook_"))) [
      | inr eq ↦ rw (eq, discover_from) (discover_from-AreFound is_exported hooks exports f)
      | inl eq ↦ elim (Option-cases (read_descriptor d)) [
        | inl bad ↦ rw (eq, bad, discover_from) tt
        | inr (h, good) ↦
            elim (Bool-cases (
              is_known hooks h.canonical_name
              || not (is_exported h.handler_export)
              || not (is_exported h.trampoline_export))) [
                | inl refused ↦ rw (eq, good, refused, discover_from) tt
                | inr kept ↦
                    let a = accepted _ _ _ kept in
                    rw (eq, good, kept, discover_from)
                      (discover_from-AreFound is_exported (hooks ++ h ∷ []) exports
                        ((AreDistinct-snoc hooks h f.0 a.0, all-snoc _ hooks h f.1 a.1)))
              ]
      ]
    ]

sorted-AreFound :
    (is_exported : Bytes → Bool) (found : Option (List HookDefinition))
    → FoundAll is_exported found
    → AreFound is_exported (elim found [ none ↦ [] | some hooks ↦ sort_hooks hooks ])
      × AreSorted (elim found [ none ↦ [] | some hooks ↦ sort_hooks hooks ])
sorted-AreFound is_exported none f = ((tt, refl), tt)
sorted-AreFound is_exported (some hooks) f =
    let s = sort_hooks-AreSorted hooks f.0 in ((s.0, all-sort_hooks _ hooks f.1), s.1)

-- The hooks that DiscoverHooks returns have canonical names that differ and are sorted, and the
-- library exports the handler and the trampoline of each.
pub discover_hooks-AreFound :
    (is_exported : Bytes → Bool) (exports : List (Bytes × Option Descriptor))
    → AreFound is_exported (discover_hooks is_exported exports)
      × AreSorted (discover_hooks is_exported exports)
unfolding discover_hooks
discover_hooks-AreFound is_exported exports =
    sorted-AreFound is_exported (discover_from is_exported [] exports)
      (discover_from-AreFound is_exported [] exports ((tt, refl)))

-- FindSupportedHook finds every hook of a list without duplicates by its canonical name.
pub find_supported_hook_lem :
    (before : List HookDefinition) (h : HookDefinition) (behind : List HookDefinition)
    → AreDistinct (before ++ (h ∷ behind))
    → find_supported_hook (before ++ (h ∷ behind)) h.canonical_name ≡ some h
unfolding find_supported_hook
find_supported_hook_lem [] h behind d = rw (bytes_eq_refl h.canonical_name) refl
find_supported_hook_lem (g ∷ before) h behind d =
    rw (bytes_eq_symm g.canonical_name h.canonical_name, first_unknown g before h behind d.0)
      (find_supported_hook_lem before h behind d.1)
