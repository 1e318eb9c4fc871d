-- ===== src/Hooks/Bypass.antt =====
-- The trampolines that CreateBypassTrampoline makes.
use apiscope.Prelude.{
  Bool, Bool-cases, Bytes, Option, Option-cases, ap, arith, false, inl, inr, le_bytes, length,
  length-append, none, refl, some, subst, sym, true, ℕ, ℕ_discrete, ◌%◌, ◌++◌, ◌+◌, ◌<◌, ◌==◌, ◌^◌,
  ◌∙◌, ◌≡◌, ◌≢◌, ◌≤◌,
}
use apiscope.Hooks.{
  RemoteTrampoline, Windows, ZydisInstruction, calculate_patch_size, create_bypass_trampoline,
  create_trampoline, decode_instruction_64, is_some, jump_code, page_execute_read, patch_size,
  patch_size_of, trampoline_size,
}
use apiscope.Hooks.Memory.{
  AreApart, IsDocumented, IsOutside, IsOutside-less, IsOutside-second, bytes_at, bytes_at-agree,
  length-bytes_at,
}
use apiscope.Hooks.Patch.{Wrote-other, Wrote-self}
use apiscope.Hooks.Size.{IsBounded, IsWhole, patch_size_of-IsWhole}

module _ {S : Type 0} (windows : Windows S) (content : S → ℕ → ℕ) (granted : ℕ)
    (doc : IsDocumented windows content granted) where
  -- Nothing outside the region at `t` has changed.
  abbrev pub KeptBut : S → S → ℕ → Type 0
  KeptBut s s' t = (x : ℕ) → IsOutside x t granted → content s' x ≡ content s x

  -- The instructions displaced, and the jump to those behind them.
  abbrev pub trampoline_code : Bytes → ℕ → ℕ → Bytes
  trampoline_code original function size = original ++ jump_code ((function + size) % 2 ^ 64)

  unfoldable pub IsCreated : S → ℕ → ℕ → ℕ → Bool × S → Type 0
  IsCreated s function t size r =
      KeptBut s r.1 t
      × (r.0 ≡ true
          → bytes_at (content r.1) t (size + patch_size)
            ≡ trampoline_code (bytes_at (content s) function size) function size)

  length-trampoline_code :
      (memory : ℕ → ℕ) (function size : ℕ)
      → length (trampoline_code (bytes_at memory function size) function size) ≡ size + patch_size
  unfolding le_bytes
  length-trampoline_code memory function size =
      length-append (bytes_at memory function size) (jump_code ((function + size) % 2 ^ 64))
      ∙ omega (arith, length-bytes_at memory function size)

  create_trampoline-IsCreated :
      (s : S) (function t size : ℕ)
      → size + patch_size ≤ granted
      → IsCreated s function t size (create_trampoline windows s function t size)
  unfolding create_trampoline IsCreated
  create_trampoline-IsCreated s function t size fits =
      elim (Option-cases (windows.read_process_memory s function size)) [
        | inl unread ↦ rw (unread, create_trampoline) (λ x out. refl, λ h. absurd (cc))
        | inr (original, readable) ↦
            let old = bytes_at (content s) function size in
            let from : original ≡ old = doc.reads s function size original readable in
            let code = trampoline_code original function size in
            let written = windows.write_process_memory s t code in
            let total = size + patch_size in
            let closed = windows.virtual_protect written.1 t total page_execute_read in
            let flushed = windows.flush_instruction_cache closed.1 t total in
            let protected = doc.protects written.1 t total page_execute_read in
            elim (Bool-cases written.0) [
              | inr failed ↦
                  rw (readable, failed, create_trampoline)
                    (λ x out. doc.write_fails s t code failed x, λ h. absurd (cc))
              | inl done ↦
                  let size_is : length code ≡ total =
                    ap (λ o. length (trampoline_code o function size)) from
                    ∙ length-trampoline_code (content s) function size in
                  let wrote = doc.writes s t code done in
                  let kept : KeptBut s written.1 t = λ x out.
                    Wrote-other windows content granted doc s written.1 t code wrote x (
                      subst (IsOutside x t) (sym size_is)
                        (IsOutside-less x t granted (size + patch_size) fits out)) in
                  let kept_closed : KeptBut s closed.1 t = λ x out. protected x ∙ kept x out in
                  let holds : bytes_at (content flushed.1) t total
                      ≡ trampoline_code old function size =
                    bytes_at-agree (content flushed.1) (content written.1) t total
                      (λ x h k. doc.flushes closed.1 t total x ∙ protected x)
                    ∙ ap (bytes_at (content written.1) t) (sym size_is)
                    ∙ Wrote-self windows content granted doc s written.1 t code wrote
                    ∙ ap (λ o. trampoline_code o function size) from in
                  elim (Bool-cases (is_some closed.0)) [
                    | inr left_open ↦
                        rw (readable, done, left_open, create_trampoline)
                          (kept_closed, λ h. absurd (cc))
                    | inl shut ↦
                        rw (readable, done, shut, create_trampoline)
                          (λ x out. doc.flushes closed.1 t total x ∙ kept_closed x out, λ h. holds)
                  ]
            ]
      ]

  abbrev pub IsReadable : S → ℕ → Type 0
  IsReadable s x = (bytes : Bytes) × (windows.read_process_memory s x 1 ≡ some bytes)

  -- Decoded instructions end within the bytes given.
  module _ (zydis : Bytes → Option ZydisInstruction)
      (bounded : IsBounded (decode_instruction_64 zydis)) where
    -- A trampoline for `function`, in a region of its own.
    pub record IsTrampoline (s s' : S) (function : ℕ) (t : RemoteTrampoline) : Type 0 where
      pub big : patch_size ≤ t.patch_bytes
      pub small : t.patch_bytes ≤ 32
      pub whole :
          IsWhole (decode_instruction_64 zydis) (bytes_at (content s) function 32) t.patch_bytes
      pub apart :
          (a n : ℕ) (bytes : Bytes)
          → 0 < n
          → windows.read_process_memory s a n ≡ some bytes
          → AreApart a n t.trampoline granted
      pub function_apart : AreApart function 32 t.trampoline granted
      pub kept : KeptBut s s' t.trampoline
      pub holds :
          bytes_at (content s') t.trampoline (t.patch_bytes + patch_size)
          ≡ trampoline_code (bytes_at (content s) function t.patch_bytes) function t.patch_bytes

    unfoldable pub IsMade : S → ℕ → Option RemoteTrampoline × S → Type 0
    IsMade s function (none, s') = (x : ℕ) → IsReadable s x → content s' x ≡ content s x
    IsMade s function (some t, s') = IsTrampoline s s' function t

    size_facts :
        (s : S) (function : ℕ)
        → calculate_patch_size windows zydis s function ≢ 0
        → (patch_size ≤ calculate_patch_size windows zydis s function)
          × (calculate_patch_size windows zydis s function ≤ 32)
          × IsWhole
              (decode_instruction_64 zydis)
              (bytes_at (content s) function 32)
              (calculate_patch_size windows zydis s function)
          × ((bytes : Bytes) × (windows.read_process_memory s function 32 ≡ some bytes))
    unfolding calculate_patch_size
    size_facts s function some_size =
        elim (Option-cases (windows.read_process_memory s function 32)) [
          | inl unread ↦ absurd (some_size (rw (unread, calculate_patch_size) refl))
          | inr (code, readable) ↦
              let decode = decode_instruction_64 zydis in
              let memory = bytes_at (content s) function 32 in
              let same : calculate_patch_size windows zydis s function
                  ≡ patch_size_of decode memory =
                rw (readable, calculate_patch_size)
                  (ap (patch_size_of decode) (doc.reads s function 32 code readable)) in
              let (big, small, whole) =
                patch_size_of-IsWhole decode memory bounded (λ e. some_size (same ∙ e)) in
              (
                omega arith,
                omega (arith, length-bytes_at (content s) function 32),
                subst (IsWhole decode memory) (sym same) whole,
                (code, readable),
              )
        ]

    pub create_bypass_trampoline-IsMade :
        (s : S) (function : ℕ)
        → IsMade s function (create_bypass_trampoline windows zydis s function)
    unfolding create_bypass_trampoline IsMade IsCreated
    create_bypass_trampoline-IsMade s function =
        let size = calculate_patch_size windows zydis s function in
        let given = windows.virtual_alloc s trampoline_size in
        elim (ℕ_discrete size 0) [
          | yes refused ↦
              let test : (size == 0) ≡ true = ground arith in
              rw (test, create_bypass_trampoline) (λ x readable. refl)
          | no some_size ↦
              let test : (size == 0) ≡ false = ground arith in
              elim (Option-cases given.0) [
                | inl nowhere ↦
                    rw (test, nowhere, create_bypass_trampoline)
                      (λ x readable. doc.fails_to_allocate s nowhere x)
                | inr (t, at) ↦
                    let (big, small, whole, (first, readable)) = size_facts s function some_size in
                    let created = create_trampoline windows given.1 function t size in
                    let fits : size + patch_size ≤ granted = omega (arith, doc.granted_size) in
                    let ok = create_trampoline-IsCreated given.1 function t size fits in
                    let kept : KeptBut s created.1 t =
                      λ x out. ok.0 x out ∙ doc.allocates s t at x out in
                    let away : AreApart function 32 t granted =
                      doc.fresh s t function 32 first (omega arith) at readable in
                    elim (Bool-cases created.0) [
                      | inr failed ↦
                          rw (test, at, failed, create_bypass_trampoline)
                            (λ x read_before.
                              let out =
                                IsOutside-second x x 1 t granted
                                  (doc.fresh s t x 1 read_before.0 (omega arith) at read_before.1)
                                  (omega arith) (omega arith) in
                              doc.frees created.1 t x out ∙ kept x out)
                      | inl done ↦
                          rw (test, at, done, create_bypass_trampoline)
                            (record {
                              big = big;
                              small = small;
                              whole = whole;
                              apart = λ a n bytes some_byte. doc.fresh s t a n bytes some_byte at;
                              function_apart = away;
                              kept = kept;
                              holds =
                                  ok.1 done
                                  ∙ ap (λ o. trampoline_code o function size)
                                      (bytes_at-agree (content given.1) (content s) function size
                                        (λ x h k. doc.allocates s t at x (
                                          IsOutside-second x function 32 t granted away h
                                            (omega arith))));
                            })
                    ]
              ]
        ]
