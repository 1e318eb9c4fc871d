-- ===== src/Debug/Modules.antt =====
-- The newest module of a name.
use apiscope.Prelude.{
  ==_refl, Bool, Bool-cases, Bytes, List, Option, [], any, ap, arith, bytes_eq, false,
  if◌then◌else◌, inl, inr, ltb, none, refl, some, subst, true, ℕ, ◌==◌, ◌||◌, ◌∷◌, ◌≡◌, ◌≢◌, ◌≤◌,
  ◌⊎◌,
}
use apiscope.Debug.{ModuleRecord, find_module, find_newest, newer, without_module}

-- A module of the name that is at least as new as every module of the name in a list.
abbrev pub IsNewest : Bytes → List ModuleRecord → ModuleRecord → Type 0
IsNewest name [] m = Unit {0}
IsNewest name (k ∷ modules) m =
    (bytes_eq k.module_name name ≡ true → k.generation ≤ m.generation) × IsNewest name modules m

-- At least as new as the one found before.
abbrev IsAsNew : Option ModuleRecord → ModuleRecord → Type 0
IsAsNew none m = Unit {0}
IsAsNew (some k) m = k.generation ≤ m.generation

newer-IsAsNew :
    (m : ModuleRecord) (newest : Option ModuleRecord)
    → (m.generation ≤ (newer m newest).generation) × IsAsNew newest (newer m newest)
newer-IsAsNew m none = (omega arith, tt)
newer-IsAsNew m (some k) = elim (Bool-cases (ltb k.generation m.generation)) [
  | inl later ↦ rw (later) (omega arith, ground arith)
  | inr older ↦ rw (older) (ground arith, omega arith)
]

IsAsNew-trans :
    (newest : Option ModuleRecord) (k m : ModuleRecord)
    → IsAsNew newest k
    → k.generation ≤ m.generation
    → IsAsNew newest m
IsAsNew-trans none k m h g = tt
IsAsNew-trans (some r) k m h g = omega arith

-- One of the modules of the name.
abbrev pub IsOneOf : Bytes → List ModuleRecord → ModuleRecord → Type 0
IsOneOf name [] m = ⊥
IsOneOf name (k ∷ modules) m =
    ((k ≡ m) × (bytes_eq k.module_name name ≡ true)) ⊎ IsOneOf name modules m

-- The module found before, or one of the name.
abbrev IsFound : Bytes → List ModuleRecord → Option ModuleRecord → ModuleRecord → Type 0
IsFound name modules newest m = (newest ≡ some m) ⊎ IsOneOf name modules m

newer-is :
    (k : ModuleRecord) (newest : Option ModuleRecord) (m : ModuleRecord)
    → newer k newest ≡ m
    → (k ≡ m) ⊎ (newest ≡ some m)
newer-is k none m h = inl h
newer-is k (some r) m h = elim (Bool-cases (ltb r.generation k.generation)) [
  | inl later ↦ inl (subst (λ b. (if b then k else r) ≡ m) later h)
  | inr older ↦ inr (ap some (subst (λ b. (if b then k else r) ≡ m) older h))
]

some_injective : {a b : ModuleRecord} → some a ≡ some b → a ≡ b
some_injective h = cc

module _ (name : Bytes) where
  passed_by :
      (k : ModuleRecord) (modules : List ModuleRecord) (newest : Option ModuleRecord)
      (m : ModuleRecord) (b : Bool)
      → bytes_eq k.module_name name ≡ b
      → find_newest name (k ∷ modules) newest ≡ some m
      → find_newest name modules (if b then some (newer k newest) else newest) ≡ some m
  unfolding find_newest
  passed_by k modules newest m b e h =
      subst (λ c. find_newest name modules (if c then some (newer k newest) else newest) ≡ some m) e
        h

  find_newest-IsNewest :
      (modules : List ModuleRecord) (newest : Option ModuleRecord) (m : ModuleRecord)
      → find_newest name modules newest ≡ some m
      → IsNewest name modules m × IsAsNew newest m × IsFound name modules newest m
  unfolding find_newest
  find_newest-IsNewest [] none m h = absurd (cc)
  find_newest-IsNewest [] (some k) m h =
      let same : k ≡ m = some_injective h in (tt, omega (arith, ap (λ r. r.generation) same), inl h)
  find_newest-IsNewest (k ∷ modules) newest m h = elim (Bool-cases (bytes_eq k.module_name name)) [
    | inr other ↦
        let ok =
          find_newest-IsNewest modules newest m (passed_by k modules newest m false other h) in
        (
          ((λ e. absurd (cc)), ok.0),
          ok.1,
          elim ok.2 [ inl before ↦ inl before | inr one ↦ inr (inr one) ],
        )
    | inl named ↦
        let ok =
          find_newest-IsNewest modules (some (newer k newest)) m
            (passed_by k modules newest m true named h) in
        let (as_k, as_newest) = newer-IsAsNew k newest in
        (
          ((λ e. omega (arith, as_k, ok.1)), ok.0),
          IsAsNew-trans newest (newer k newest) m as_newest ok.1,
          elim ok.2 [
            | inl before ↦ elim (newer-is k newest m (some_injective before)) [
              | inl this ↦ inr (inl (this, named))
              | inr that ↦ inl that
            ]
            | inr one ↦ inr (inr one)
          ],
        )
  ]

  -- FindModule gives a module of the name, and one at least as new as every other of the name.
  pub find_module-IsNewest :
      (modules : List ModuleRecord) (m : ModuleRecord)
      → find_module modules name ≡ some m
      → IsOneOf name modules m × IsNewest name modules m
  find_module-IsNewest modules m h =
      let ok = find_newest-IsNewest modules none m h in
      (elim ok.2 [ inl before ↦ absurd (cc) | inr one ↦ one ], ok.0)

-- Some module has the base.
abbrev pub has_base : ℕ → List ModuleRecord → Bool
has_base base modules = any (λ m. m.module_base == base) modules

pub IsOneOf-has_base :
    (name : Bytes) (modules : List ModuleRecord) (m : ModuleRecord)
    → IsOneOf name modules m
    → has_base m.module_base modules ≡ true
IsOneOf-has_base name [] m one = absurd one
IsOneOf-has_base name (k ∷ modules) m (inl here) =
    let same : (k.module_base == m.module_base) ≡ true =
      subst (λ b. (k.module_base == b) ≡ true) (ap (λ r. r.module_base) here.0)
        (==_refl k.module_base) in
    rw (same) refl
IsOneOf-has_base name (k ∷ modules) m (inr later) =
    or_right (k.module_base == m.module_base) (IsOneOf-has_base name modules m later)
  where
    or_right : {b : Bool} (a : Bool) → b ≡ true → (a || b) ≡ true
    or_right true h = refl
    or_right false h = h

-- The other bases stay when one is erased.
pub has_base-without_module :
    (base b : ℕ) (modules : List ModuleRecord)
    → b ≢ base
    → has_base b modules ≡ true
    → has_base b (without_module base modules) ≡ true
unfolding without_module
has_base-without_module base b [] ne h = h
has_base-without_module base b (m ∷ modules) ne h = elim (Bool-cases (m.module_base == base)) [
  | inl erased ↦
      let other : (m.module_base == b) ≡ false = ground arith in
      rw (erased) (
        has_base-without_module base b modules ne
          (subst (λ c. (c || has_base b modules) ≡ true) other h))
  | inr stays ↦ elim (Bool-cases (m.module_base == b)) [
    | inl this ↦ rw (stays, this) refl
    | inr that ↦
        rw (stays, that)
          (has_base-without_module base b modules ne
            (subst (λ c. (c || has_base b modules) ≡ true) that h))
  ]
]

-- No module has an erased base.
pub without_module-none :
    (base : ℕ) (modules : List ModuleRecord) → has_base base (without_module base modules) ≡ false
unfolding without_module
without_module-none base [] = refl
without_module-none base (m ∷ modules) = elim (Bool-cases (m.module_base == base)) [
  | inl erased ↦ rw (erased) (without_module-none base modules)
  | inr stays ↦ rw (stays, stays) (without_module-none base modules)
]
