-- ===== src/Hooks/Remove.antt =====
-- What UnhookFunction leaves in the memory of the traced process.
use apiscope.Prelude.{
  Bool, Bool-cases, Option-cases, ap, inl, inr, le_bytes, length, length-le_bytes, not, subst, sym,
  true, ℕ, ◌==◌, ◌||◌, ◌∙◌, ◌≡◌,
}
use apiscope.Hooks.{InstalledHook, Windows, is_some, page_execute_readwrite, unhook_function}
use apiscope.Hooks.Memory.{
  AreApart, IsDocumented, IsOutside, IsOutside-second, bytes_at, bytes_at-agree,
}
use apiscope.Hooks.Patch.{Kept, Wrote, Wrote-after, Wrote-other, Wrote-self}

module _ {S : Type 0} (windows : Windows S) (content : S → ℕ → ℕ) (granted : ℕ)
    (doc : IsDocumented windows content granted) where
  -- The function's bytes are the preserved ones, and the variable is empty.
  pub record IsRestored (s s' : S) (hook : InstalledHook) : Type 0 where
    pub restored :
        bytes_at (content s') hook.original_function (length hook.original_bytes)
        ≡ hook.original_bytes
    pub emptied : bytes_at (content s') hook.trampoline_slot 8 ≡ le_bytes 8 0
    pub kept :
        (x : ℕ)
        → IsOutside x hook.original_function (length hook.original_bytes)
        → IsOutside x hook.trampoline_slot 8
        → IsOutside x hook.trampoline_address granted
        → content s' x ≡ content s x

  unfoldable pub IsUnhooked : S → InstalledHook → Bool × S → Type 0
  IsUnhooked s hook r = r.0 ≡ true → IsRestored s r.1 hook

  module _ (s : S) (hook : InstalledHook)
      (slot_away : AreApart hook.original_function
        (length hook.original_bytes)
        hook.trampoline_slot
        8)
      (function_apart : AreApart hook.original_function
        (length hook.original_bytes)
        hook.trampoline_address
        granted)
      (slot_apart : AreApart hook.trampoline_slot 8 hook.trampoline_address granted) where
    IsRestored-by :
        (s1 s2 s3 : S)
        → Wrote windows content granted doc s s1 hook.original_function hook.original_bytes
        → Kept windows content granted doc s1 s2
        → Wrote windows content granted doc s2 s3 hook.trampoline_slot (le_bytes 8 0)
        → IsRestored s (windows.virtual_free s3 hook.trampoline_address).1 hook
    IsRestored-by s1 s2 s3 wrote same emptied =
        let s4 = (windows.virtual_free s3 hook.trampoline_address).1 in
        let zeros : length (le_bytes 8 0) ≡ 8 = length-le_bytes 8 0 in
        let size = length hook.original_bytes in
        let slot_only : (x : ℕ) → IsOutside x hook.trampoline_slot 8 → content s3 x ≡ content s1 x =
          λ x out.
            Wrote-other windows content granted doc s2 s3 hook.trampoline_slot (le_bytes 8 0)
              emptied x (subst (IsOutside x hook.trampoline_slot) (sym zeros) out)
            ∙ same x in
        record {
          restored =
              bytes_at-agree (content s4) (content s1) hook.original_function size (λ x h k.
                doc.frees s3 hook.trampoline_address x (
                  IsOutside-second x hook.original_function size hook.trampoline_address granted
                    function_apart h k)
                ∙ slot_only x (
                    IsOutside-second x hook.original_function size hook.trampoline_slot 8 slot_away
                      h k))
              ∙ Wrote-self windows content granted doc s s1 hook.original_function
                  hook.original_bytes wrote;
          emptied =
              bytes_at-agree (content s4) (content s3) hook.trampoline_slot 8 (λ x h k.
                doc.frees s3 hook.trampoline_address x (
                  IsOutside-second x hook.trampoline_slot 8 hook.trampoline_address granted
                    slot_apart h k))
              ∙ ap (bytes_at (content s3) hook.trampoline_slot) (sym zeros)
              ∙ Wrote-self windows content granted doc s2 s3 hook.trampoline_slot (le_bytes 8 0)
                  emptied;
          kept = λ x a b c.
              doc.frees s3 hook.trampoline_address x c
              ∙ slot_only x b
              ∙ Wrote-other windows content granted doc s s1 hook.original_function
                  hook.original_bytes wrote x a;
        }

    pub unhook_function-IsUnhooked : IsUnhooked s hook (unhook_function windows s hook)
    unfolding unhook_function IsUnhooked
    unhook_function-IsUnhooked =
        let function = hook.original_function in
        let size = length hook.original_bytes in
        let opened = windows.virtual_protect s function size page_execute_readwrite in
        elim (Bool-cases (
          function == 0
          || (hook.trampoline_address == 0 || (hook.trampoline_slot == 0 || size == 0)))) [
            | inl empty ↦ rw (empty, unhook_function) (λ h. absurd (cc))
            | inr usable ↦ elim (Option-cases opened.0) [
              | inl closed ↦ rw (usable, closed, unhook_function) (λ h. absurd (cc))
              | inr (old, allowed) ↦
                  let restored =
                    windows.write_process_memory opened.1 function hook.original_bytes in
                  let closed = windows.virtual_protect restored.1 function size old in
                  let flushed = windows.flush_instruction_cache closed.1 function size in
                  let cleared =
                    windows.write_process_memory flushed.1 hook.trampoline_slot (le_bytes 8 0) in
                  elim (Bool-cases restored.0) [
                    | inr failed ↦ rw (usable, allowed, failed, unhook_function) (λ h. absurd (cc))
                    | inl done ↦ elim (Bool-cases (not (is_some closed.0) || not flushed.0)) [
                      | inl failed ↦
                          rw (usable, allowed, done, failed, unhook_function) (λ h. absurd (cc))
                      | inr fine ↦ elim (Bool-cases cleared.0) [
                        | inr failed ↦
                            rw (usable, allowed, done, fine, failed, unhook_function)
                              (λ h. absurd (cc))
                        | inl emptied ↦
                            rw (usable, allowed, done, fine, emptied, unhook_function)
                              (λ h.
                                IsRestored-by restored.1 flushed.1 cleared.1
                                  (Wrote-after windows content granted doc s opened.1 function
                                    hook.original_bytes
                                    (doc.protects s function size page_execute_readwrite) done)
                                  (λ x.
                                    doc.flushes closed.1 function size x
                                    ∙ doc.protects restored.1 function size old x)
                                  (doc.writes flushed.1 hook.trampoline_slot (le_bytes 8 0)
                                    emptied))
                      ]
                    ]
                  ]
            ]
          ]
