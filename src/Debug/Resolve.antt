-- ===== src/Debug/Resolve.antt =====
-- The chains of forwarders that ResolveExportAddress follows.
use apiscope.Prelude.{
  Bool-cases, Bytes, List, Option, Option-cases, [], any, arith, bytes_eq, false, inl, inr, none,
  refl, some, subst, suc, true, zero, ℕ, ℕ_discrete, ◌==◌, ◌∷◌, ◌≡◌, ◌≢◌,
}
use apiscope.Debug.{
  ModuleRecord, ResolveResult, failed, find_module, forwarder_depth, full_name, identity_of,
  pending, read_forwarder, resolve_export_address, resolve_hook_address, resolved,
}
use apiscope.Debug.Modules.{IsNewest, IsOneOf, IsOneOf-has_base, find_module-IsNewest, has_base}
use apiscope.Process.{RemoteExport}
use apiscope.Registry.{HookDefinition}

module _ (exports : ℕ → Bytes → Option RemoteExport) (modules : List ModuleRecord) where
  -- A chain of at most `n` exports, each of a newest module of its name, leads to the address: all but
  -- the last forward to the next, and the last has the address in the module with the base.
  pub data LeadsTo (address base : ℕ) : ℕ → Bytes → Bytes → Type 0 where
    here :
        {n : ℕ} {name export_name : Bytes} (m : ModuleRecord) (remote : RemoteExport)
        → IsOneOf (full_name name) modules m
        → IsNewest (full_name name) modules m
        → exports m.module_base export_name ≡ some remote
        → remote.address ≢ 0
        → remote.address ≡ address
        → m.module_base ≡ base
        → LeadsTo address base (suc n) name export_name
    forwarded :
        {n : ℕ} {name export_name : Bytes} (m : ModuleRecord) (remote : RemoteExport)
        (next_name next_export : Bytes)
        → IsOneOf (full_name name) modules m
        → IsNewest (full_name name) modules m
        → exports m.module_base export_name ≡ some remote
        → remote.address ≡ 0
        → read_forwarder remote.forwarder ≡ some (next_name, next_export)
        → LeadsTo address base n next_name next_export
        → LeadsTo address base (suc n) name export_name

  unfoldable ResultOf : ℕ → Bytes → Bytes → ResolveResult → Type 0
  ResultOf left name export_name (resolved address base) =
      LeadsTo address base left name export_name
  ResultOf left name export_name pending = Unit {0}
  ResultOf left name export_name failed = Unit {0}

  onward :
      (left : ℕ) (name export_name : Bytes) (m : ModuleRecord) (remote : RemoteExport)
      (parts : Bytes × Bytes) (result : ResolveResult)
      → find_module modules (full_name name) ≡ some m
      → exports m.module_base export_name ≡ some remote
      → remote.address ≡ 0
      → read_forwarder remote.forwarder ≡ some parts
      → ResultOf left parts.0 parts.1 result
      → ResultOf (suc left) name export_name result
  unfolding ResultOf
  onward left name export_name m remote parts (resolved address base) found has none_here splits c =
      let (one, newest) = find_module-IsNewest (full_name name) modules m found in
      forwarded m remote parts.0 parts.1 one newest has none_here splits c
  onward left name export_name m remote parts pending found has none_here splits c = tt
  onward left name export_name m remote parts failed found has none_here splits c = tt

  resolve_export_address-ResultOf :
      (left : ℕ) (name export_name : Bytes) (visited : List Bytes)
      → ResultOf left name export_name
          (resolve_export_address exports modules left name export_name visited)
  unfolding resolve_export_address ResultOf
  resolve_export_address-ResultOf zero name export_name visited = tt
  resolve_export_address-ResultOf (suc left) name export_name visited =
      let identity = identity_of (full_name name) export_name in
      elim (Bool-cases (any (bytes_eq identity) visited)) [
        | inl again ↦ rw (again) tt
        | inr fresh ↦ elim (Option-cases (find_module modules (full_name name))) [
          | inl absent ↦ rw (fresh, absent) tt
          | inr (m, found) ↦ elim (Option-cases (exports m.module_base export_name)) [
            | inl missing ↦ rw (fresh, found, missing) tt
            | inr (remote, has) ↦ elim (ℕ_discrete remote.address 0) [
              | no there ↦
                  let test : (remote.address == 0) ≡ false = ground arith in
                  let (one, newest) = find_module-IsNewest (full_name name) modules m found in
                  rw (fresh, found, has, test) (here m remote one newest has there refl refl)
              | yes none_here ↦
                  let test : (remote.address == 0) ≡ true = ground arith in
                  elim (Option-cases (read_forwarder remote.forwarder)) [
                    | inl unsupported ↦ rw (fresh, found, has, test, unsupported) tt
                    | inr (parts, splits) ↦
                        rw (fresh, found, has, test, splits)
                          (onward left name export_name m remote parts
                            (resolve_export_address exports modules left parts.0 parts.1
                              (identity ∷ visited))
                            found has none_here splits
                            (resolve_export_address-ResultOf left parts.0 parts.1
                              (identity ∷ visited)))
                  ]
            ]
          ]
        ]
      ]

  unfoldable HookResult : HookDefinition → Option (ℕ × ResolveResult) → Type 0
  HookResult definition none = Unit {0}
  HookResult definition (some (source, result)) =
      ResultOf forwarder_depth definition.module_name definition.export_name result
      × ((m : ModuleRecord) × (m.module_base ≡ source)
          × IsOneOf definition.module_name modules m
          × IsNewest definition.module_name modules m)

  one-IsNewest :
      (name : Bytes) (m : ModuleRecord)
      → find_module modules name ≡ some m
      → (k : ModuleRecord) × (k.module_base ≡ m.module_base)
        × IsOneOf name modules k
        × IsNewest name modules k
  one-IsNewest name m found =
      let (one, newest) = find_module-IsNewest name modules m found in (m, refl, one, newest)

  resolve_hook_address-HookResult :
      (definition : HookDefinition)
      → HookResult definition (resolve_hook_address exports modules definition)
  unfolding resolve_hook_address HookResult
  resolve_hook_address-HookResult definition =
      elim (Option-cases (find_module modules definition.module_name)) [
        | inl absent ↦ rw (absent) tt
        | inr (m, found) ↦ rw (found) (
          resolve_export_address-ResultOf forwarder_depth definition.module_name
              definition.export_name [],
          one-IsNewest definition.module_name m found,
        )
      ]

  -- The address that ResolveHookAddress resolves is that at the end of a chain of at most eight
  -- exports, from the export of the hook over forwarders, each in a newest module of its name; the
  -- source is the base of a newest module of the hook's own name.
  pub resolve_hook_address-LeadsTo :
      (definition : HookDefinition) (source address base : ℕ)
      → resolve_hook_address exports modules definition ≡ some (source, resolved address base)
      → LeadsTo address base forwarder_depth definition.module_name definition.export_name
        × ((m : ModuleRecord) × (m.module_base ≡ source)
            × IsOneOf definition.module_name modules m
            × IsNewest definition.module_name modules m)
  unfolding HookResult ResultOf
  resolve_hook_address-LeadsTo definition source address base h =
      subst (HookResult definition) h (resolve_hook_address-HookResult definition)

  -- The module of a resolved address is loaded.
  pub LeadsTo-has_base :
      (address base n : ℕ) (name export_name : Bytes)
      → LeadsTo address base n name export_name
      → has_base base modules ≡ true
  LeadsTo-has_base address base n name export_name (here m remote one newest has there a same) =
      subst (λ b. has_base b modules ≡ true) same (IsOneOf-has_base (full_name name) modules m one)
  LeadsTo-has_base address base (suc n) name export_name
        (forwarded m remote next_name next_export one newest has none_here splits chain) =
      LeadsTo-has_base address base n next_name next_export chain

  abbrev pub IsLoaded : ResolveResult → Type 0
  IsLoaded (resolved address base) = has_base base modules ≡ true
  IsLoaded pending = Unit {0}
  IsLoaded failed = Unit {0}

  ResultOf-IsLoaded :
      (name export_name : Bytes) (result : ResolveResult)
      → ResultOf forwarder_depth name export_name result
      → IsLoaded result
  unfolding ResultOf
  ResultOf-IsLoaded name export_name (resolved address base) chain =
      LeadsTo-has_base address base forwarder_depth name export_name chain
  ResultOf-IsLoaded name export_name pending chain = tt
  ResultOf-IsLoaded name export_name failed chain = tt

  pub resolve_hook_address-IsLoaded :
      (definition : HookDefinition) (source : ℕ) (result : ResolveResult)
      → resolve_hook_address exports modules definition ≡ some (source, result)
      → (has_base source modules ≡ true) × IsLoaded result
  unfolding HookResult
  resolve_hook_address-IsLoaded definition source result h =
      let (chain, (m, same, one, newest)) =
        subst (HookResult definition) h (resolve_hook_address-HookResult definition) in
      (
        subst (λ b. has_base b modules ≡ true) same
            (IsOneOf-has_base definition.module_name modules m one),
        ResultOf-IsLoaded definition.module_name definition.export_name result chain,
      )
