-- ===== src/Hooks/Patch.antt =====
-- What PatchFunction leaves in the memory of the traced process.
use apiscope.Prelude.{
  Bool, Bool-cases, Bytes, Option-cases, ap, arith, drop, false, inl, inr, le_bytes, length,
  length-append, length-drop, length-replicate, replicate, true, ℕ, ◌++◌, ◌∙◌, ◌≡◌, ◌≤◌, ◌⊎◌,
}
use apiscope.Hooks.{
  Windows, is_some, jump_code, page_execute_readwrite, patch_code, patch_function, patch_size,
}
use apiscope.Hooks.Memory.{
  IsDocumented, IsOutside, bytes_at, bytes_at-agree, bytes_at-stored, stored, stored-agree,
  stored_outside,
}
use apiscope.Memory.Laws.{custom_mem_cpy_lem}

-- The whole patch: the jump, and one-byte instructions up to the size.
pub patch_code-jump :
    (address size : ℕ)
    → patch_size ≤ size
    → patch_code address size ≡ jump_code address ++ drop patch_size (replicate size 0x90)
unfolding le_bytes
patch_code-jump address size big =
    custom_mem_cpy_lem (replicate size 0x90) (jump_code address) patch_size
      (omega (arith, length-replicate {A = ℕ} size 0x90)) (omega arith)

pub length-patch_code :
    (address size : ℕ) → patch_size ≤ size → length (patch_code address size) ≡ size
unfolding le_bytes
length-patch_code address size big =
    ap length (patch_code-jump address size big)
    ∙ length-append (jump_code address) (drop patch_size (replicate size 0x90))
    ∙ omega (
      arith,
      length-drop {A = ℕ} patch_size (replicate size 0x90),
      length-replicate {A = ℕ} size 0x90,
    )

module _ {S : Type 0} (windows : Windows S) (content : S → ℕ → ℕ) (granted : ℕ)
    (doc : IsDocumented windows content granted) where
  -- A state with the same bytes, and one with bytes written over.
  abbrev pub Kept : S → S → Type 0
  Kept s s' = (x : ℕ) → content s' x ≡ content s x

  abbrev pub Wrote : S → S → ℕ → Bytes → Type 0
  Wrote s s' a bytes = (x : ℕ) → content s' x ≡ stored (content s) a bytes x

  pub Wrote-other :
      (s s' : S) (a : ℕ) (bytes : Bytes)
      → Wrote s s' a bytes
      → (x : ℕ) → IsOutside x a (length bytes)
      → content s' x ≡ content s x
  Wrote-other s s' a bytes w x out = w x ∙ stored_outside (content s) a bytes x out

  pub Wrote-self :
      (s s' : S) (a : ℕ) (bytes : Bytes)
      → Wrote s s' a bytes
      → bytes_at (content s') a (length bytes) ≡ bytes
  Wrote-self s s' a bytes w =
      bytes_at-agree (content s') (stored (content s) a bytes) a (length bytes) (λ x h k. w x)
      ∙ bytes_at-stored (content s) a bytes

  -- A write in a state with the same bytes.
  pub Wrote-after :
      (s s' : S) (a : ℕ) (bytes : Bytes)
      → Kept s s'
      → (windows.write_process_memory s' a bytes).0 ≡ true
      → Wrote s (windows.write_process_memory s' a bytes).1 a bytes
  Wrote-after s s' a bytes kept done =
      λ x. doc.writes s' a bytes done x ∙ stored-agree (content s') (content s) a bytes x (kept x)

  -- PatchFunction writes the patch where it succeeds; where it fails it may have written it.
  unfoldable pub IsPatch : S → ℕ → Bytes → Bool × S → Type 0
  IsPatch s function code (b, s') =
      (b ≡ true → Wrote s s' function code) × (b ≡ false → Kept s s' ⊎ Wrote s s' function code)

  pub patch_function-IsPatch :
      (s : S) (function address size : ℕ)
      → IsPatch s function
          (patch_code address size)
          (patch_function windows s function address size)
  unfolding patch_function IsPatch
  patch_function-IsPatch s function address size =
      let code = patch_code address size in
      let opened = windows.virtual_protect s function size page_execute_readwrite in
      let same = doc.protects s function size page_execute_readwrite in
      elim (Option-cases opened.0) [
        | inl refused ↦ rw (refused, patch_function) (λ h. absurd (cc), λ h. inl same)
        | inr (old, allowed) ↦
            let written = windows.write_process_memory opened.1 function code in
            let closed = windows.virtual_protect written.1 function size old in
            let flushed = windows.flush_instruction_cache closed.1 function size in
            let protected = doc.protects written.1 function size old in
            elim (Bool-cases written.0) [
              | inr failed ↦
                  let kept : Kept s closed.1 =
                    λ x. protected x ∙ doc.write_fails opened.1 function code failed x ∙ same x in
                  rw (allowed, failed, patch_function) (λ h. absurd (cc), λ h. inl kept)
              | inl done ↦
                  let wrote : Wrote s written.1 function code =
                    Wrote-after s opened.1 function code same done in
                  let on_close : Wrote s closed.1 function code = λ x. protected x ∙ wrote x in
                  elim (Bool-cases (is_some closed.0)) [
                    | inr left_open ↦
                        rw (allowed, done, left_open, patch_function)
                          (λ h. absurd (cc), λ h. inr on_close)
                    | inl shut ↦
                        let on_flush : Wrote s flushed.1 function code =
                          λ x. doc.flushes closed.1 function size x ∙ on_close x in
                        rw (allowed, done, shut, patch_function) (λ h. on_flush, λ h. inr on_flush)
                  ]
            ]
      ]
