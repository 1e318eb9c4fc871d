-- ===== src/Debug/Unload.antt =====
-- The hooks that the unloading of a module takes.
use apiscope.Prelude.{
  Bool-cases, Bytes, List, Option, [], ap, arith, false, if◌then◌else◌, inl, inr, refl, subst, sym,
  ||-eq-false, ℕ, ◌==◌, ◌||◌, ◌∷◌, ◌≡◌,
}
use apiscope.Debug.{
  ModuleRecord, Session, SessionHook, handle_unload_dll, remove_hooks, without_module,
}
use apiscope.Debug.Install.{AreInstalled, AreLoaded, IsApart, IsKept}
use apiscope.Debug.Modules.{has_base, has_base-without_module, without_module-none}
use apiscope.Hooks.{Windows, ZydisInstruction, release_unloaded_hook, unhook_function}
use apiscope.Process.{ImageFormat}

module _ {S : Type 0} (windows : Windows S) (zydis : Bytes → Option ZydisInstruction)
    (image : ImageFormat) (base : ℕ) where
  -- The hooks that were neither found from the module nor in it, in their order.
  abbrev pub staying : List SessionHook → List SessionHook
  staying [] = []
  staying (hook ∷ hooks) =
      let rest = staying hooks in
      if hook.target_module_base == base || hook.source_module_base == base
      then rest
      else hook ∷ rest

  remove_hooks-staying :
      (s : S) (hooks : List SessionHook)
      → (remove_hooks windows zydis image base s hooks).1 ≡ staying hooks
  unfolding remove_hooks
  remove_hooks-staying s [] = refl
  remove_hooks-staying s (hook ∷ hooks) =
      let next =
        if hook.target_module_base == base
        then (release_unloaded_hook windows s hook.installed).1
        else if hook.source_module_base == base
        then (unhook_function windows s hook.installed).1
        else s in
      elim (Bool-cases (hook.target_module_base == base || hook.source_module_base == base)) [
        | inl taken ↦ rw (taken) (remove_hooks-staying next hooks)
        | inr kept ↦ rw (kept) (ap (λ hs. hook ∷ hs) (remove_hooks-staying next hooks))
      ]

  staying-IsApart :
      (h : SessionHook) (hooks : List SessionHook) → IsApart h hooks → IsApart h (staying hooks)
  staying-IsApart h [] ok = tt
  staying-IsApart h (hook ∷ hooks) ok =
      elim (Bool-cases (hook.target_module_base == base || hook.source_module_base == base)) [
        | inl taken ↦ rw (taken) (staying-IsApart h hooks ok.2)
        | inr kept ↦ rw (kept) (ok.0, ok.1, staying-IsApart h hooks ok.2)
      ]

  staying-AreInstalled :
      (hooks : List SessionHook) → AreInstalled hooks → AreInstalled (staying hooks)
  staying-AreInstalled [] ok = tt
  staying-AreInstalled (hook ∷ hooks) ok =
      elim (Bool-cases (hook.target_module_base == base || hook.source_module_base == base)) [
        | inl taken ↦ rw (taken) (staying-AreInstalled hooks ok.1)
        | inr kept ↦ rw (kept) (staying-IsApart hook hooks ok.0, staying-AreInstalled hooks ok.1)
      ]

  staying-AreLoaded :
      (modules : List ModuleRecord) (hooks : List SessionHook)
      → AreLoaded modules hooks
      → AreLoaded (without_module base modules) (staying hooks)
  staying-AreLoaded modules [] ok = tt
  staying-AreLoaded modules (hook ∷ hooks) ok =
      elim (Bool-cases (hook.target_module_base == base || hook.source_module_base == base)) [
        | inl taken ↦ rw (taken) (staying-AreLoaded modules hooks ok.2)
        | inr kept ↦
            let (target, source) =
              ||-eq-false (hook.target_module_base == base) (hook.source_module_base == base)
                kept in
            rw (kept) (
              has_base-without_module base hook.source_module_base modules
                  (λ e. ground (arith, source)) ok.0,
              has_base-without_module base hook.target_module_base modules
                  (λ e. ground (arith, target)) ok.1,
              staying-AreLoaded modules hooks ok.2,
            )
      ]

  -- HandleUnloadDll takes the hooks that were found from the module or in it and no others, erases
  -- the module, and keeps the session's hooks different and in loaded modules.
  pub handle_unload_dll-IsKept :
      (session : Session S)
      → IsKept windows zydis image session
      → IsKept windows zydis image (handle_unload_dll windows zydis image base session)
        × ((handle_unload_dll windows zydis image base session).installed_hooks
            ≡ staying session.installed_hooks)
        × (has_base base (handle_unload_dll windows zydis image base session).modules ≡ false)
  unfolding handle_unload_dll IsKept
  handle_unload_dll-IsKept session ok =
      let same = remove_hooks-staying session.process session.installed_hooks in
      (
        (
          subst AreInstalled (sym same) (staying-AreInstalled session.installed_hooks ok.0),
          subst (AreLoaded (without_module base session.modules)) (sym same)
              (staying-AreLoaded session.modules session.installed_hooks ok.1),
        ),
        same,
        without_module-none base session.modules,
      )
