-- ===== src/Hooks/Install.antt =====
-- What HookFunction leaves in the memory of the traced process.
use apiscope.Prelude.{
  Bool, Bool-cases, Bytes, Option, Option-cases, ap, arith, false, inl, inr, le_bytes, length,
  length-le_bytes, none, refl, some, subst, sym, true, ℕ, ◌+◌, ◌<◌, ◌∙◌, ◌≡◌, ◌≤◌, ◌⊎◌,
}
use apiscope.Hooks.{
  InstalledHook, RemoteTrampoline, Windows, ZydisInstruction, decode_instruction_64, finish_hook,
  patch_code, patch_function, patch_size,
}
use apiscope.Hooks.Bypass.{IsMade, IsReadable, IsTrampoline, trampoline_code}
use apiscope.Hooks.Memory.{
  AreApart, IsDocumented, IsOutside, IsOutside-first, IsOutside-less, IsOutside-second, bytes_at,
  bytes_at-agree, length-bytes_at, stored, stored-agree, stored_outside,
}
use apiscope.Hooks.Patch.{
  IsPatch, Wrote, Wrote-other, Wrote-self, length-patch_code, patch_function-IsPatch,
}
use apiscope.Hooks.Size.{IsBounded, IsWhole}

module _ {S : Type 0} (windows : Windows S) (content : S → ℕ → ℕ) (granted : ℕ)
    (doc : IsDocumented windows content granted) (zydis : Bytes → Option ZydisInstruction)
    (bounded : IsBounded (decode_instruction_64 zydis)) where
  -- A hook of `function` that goes to `handler`: the function begins with the jump, the instructions
  -- displaced stand in the trampoline before a jump to those that follow them, the variable at `slot`
  -- holds the trampoline's address, and the hook has what it takes to restore the function.
  pub record IsInstalled (s s' : S) (function handler slot : ℕ) (hook : InstalledHook)
      : Type 0 where
    pub size : ℕ
    pub size_is : length hook.original_bytes ≡ size
    pub function_is : hook.original_function ≡ function
    pub slot_is : hook.trampoline_slot ≡ slot
    pub big : patch_size ≤ size
    pub small : size ≤ 32
    pub whole : IsWhole (decode_instruction_64 zydis) (bytes_at (content s) function 32) size
    pub preserved : hook.original_bytes ≡ bytes_at (content s) function size
    pub function_apart : AreApart function 32 hook.trampoline_address granted
    pub slot_apart : AreApart slot 8 hook.trampoline_address granted
    pub patched : bytes_at (content s') function size ≡ patch_code handler size
    pub pointed : bytes_at (content s') slot 8 ≡ le_bytes 8 hook.trampoline_address
    pub detour :
        bytes_at (content s') hook.trampoline_address (size + patch_size)
        ≡ trampoline_code windows content granted doc hook.original_bytes function size
    pub kept :
        (x : ℕ)
        → IsOutside x function size
        → IsOutside x slot 8
        → IsOutside x hook.trampoline_address granted
        → content s' x ≡ content s x

  -- Without a hook, what could be read is as it was, but for the variable at `slot`, or also but for
  -- the patch.
  abbrev pub IsRefused : S → S → ℕ → ℕ → ℕ → Type 0
  IsRefused s s' function handler slot =
      ((x : ℕ)
        → IsReadable windows content granted doc s x
        → IsOutside x slot 8
        → content s' x ≡ content s x)
      ⊎ ((size : ℕ) × (patch_size ≤ size)
          × (size ≤ 32)
          × ((x : ℕ)
              → IsReadable windows content granted doc s x
              → IsOutside x slot 8
              → content s' x ≡ stored (content s) function (patch_code handler size) x))

  unfoldable pub HookOf : S → ℕ → ℕ → ℕ → Option InstalledHook × S → Type 0
  HookOf s function handler slot (none, s') = IsRefused s s' function handler slot
  HookOf s function handler slot (some hook, s') = IsInstalled s s' function handler slot hook

  module _ (s : S) (function handler slot : ℕ) (name : Bytes)
      (slot_away : AreApart function 32 slot 8)
      (slot_readable : (old : Bytes) × (windows.read_process_memory s slot 8 ≡ some old)) where
    -- A write to the variable at `slot` leaves the rest.
    slot_write :
        (s1 : S) (address : ℕ) (x : ℕ)
        → IsOutside x slot 8
        → content (windows.write_process_memory s1 slot (le_bytes 8 address)).1 x ≡ content s1 x
    slot_write s1 address x out =
        let bytes = le_bytes 8 address in
        elim (Bool-cases (windows.write_process_memory s1 slot bytes).0) [
          | inl done ↦
              doc.writes s1 slot bytes done x
              ∙ stored_outside (content s1) slot bytes x
                  (subst (IsOutside x slot) (sym (length-le_bytes 8 address)) out)
          | inr failed ↦ doc.write_fails s1 slot bytes failed x
        ]

    IsPatch-refused :
        (code : Bytes) (r : Bool × S) (s1 : S)
        → r.0 ≡ false
        → IsPatch windows content granted doc s1 function code r
        → IsPatch windows content granted doc s1 function code (false, r.1)
    unfolding IsPatch
    IsPatch-refused code r s1 refused patch = (λ h. absurd (cc), λ h. patch.1 refused)

    IsPatch-active :
        (code : Bytes) (r : Bool × S) (s1 : S)
        → r.0 ≡ true
        → IsPatch windows content granted doc s1 function code r
        → Wrote windows content granted doc s1 r.1 function code
    unfolding IsPatch
    IsPatch-active code r s1 active patch = patch.0 active

    module _ (s1 : S) (t : RemoteTrampoline)
        (made : IsTrampoline windows content granted doc zydis bounded s s1 function t) where
      away : (x : ℕ) → IsReadable windows content granted doc s x → IsOutside x t.trampoline granted
      away x readable =
          IsOutside-second x x 1 t.trampoline granted
            (made.apart x 1 readable.0 (omega arith) readable.1) (omega arith) (omega arith)

      -- What the failed attempts leave once the trampoline is freed.
      freed :
          (s2 : S) (x : ℕ)
          → IsReadable windows content granted doc s x
          → content (windows.virtual_free s2 t.trampoline).1 x ≡ content s2 x
      freed s2 x readable = doc.frees s2 t.trampoline x (away x readable)

      abbrev pointing : Bool × S
      pointing = windows.write_process_memory s1 slot (le_bytes 8 t.trampoline)

      let_go :
          (s2 : S)
          → IsPatch windows content granted doc pointing.1 function
              (patch_code handler t.patch_bytes)
              (false, s2)
          → IsRefused s
              (windows.virtual_free
                (windows.write_process_memory s2 slot (le_bytes 8 0)).1
                t.trampoline).1
              function
              handler
              slot
      unfolding IsPatch
      let_go s2 patch =
          let before : (x : ℕ)
              → IsReadable windows content granted doc s x
              → IsOutside x slot 8
              → content pointing.1 x ≡ content s x =
            λ x readable out. slot_write s1 t.trampoline x out ∙ made.kept x (away x readable) in
          let behind : (x : ℕ)
              → IsReadable windows content granted doc s x
              → IsOutside x slot 8
              → content
                  (windows.virtual_free (windows.write_process_memory s2 slot (le_bytes 8 0)).1
                    t.trampoline).1
                  x
                ≡ content s2 x =
            λ x readable out.
              freed (windows.write_process_memory s2 slot (le_bytes 8 0)).1 x readable
              ∙ slot_write s2 0 x out in
          elim (patch.1 refl) [
            | inl kept ↦
                inl (λ x readable out. behind x readable out ∙ kept x ∙ before x readable out)
            | inr wrote ↦ inr (
              t.patch_bytes,
              made.big,
              made.small,
              λ x readable out.
                  behind x readable out
                  ∙ wrote x
                  ∙ stored-agree (content pointing.1) (content s) function
                      (patch_code handler t.patch_bytes) x (before x readable out),
            )
          ]

      installed :
          (s2 : S) (bytes : Bytes)
          → windows.read_process_memory s1 function t.patch_bytes ≡ some bytes
          → pointing.0 ≡ true
          → Wrote windows content granted doc pointing.1 s2 function
              (patch_code handler t.patch_bytes)
          → IsInstalled s s2 function handler slot (record {
            hook_name = name;
            original_function = function;
            trampoline_address = t.trampoline;
            trampoline_slot = slot;
            original_bytes = bytes;
          })
      installed s2 bytes readable done wrote =
          let size = t.patch_bytes in
          let code = patch_code handler size in
          let code_size : length code ≡ size = length-patch_code handler size made.big in
          let bytes_are : bytes ≡ bytes_at (content s) function size =
            doc.reads s1 function size bytes readable
            ∙ bytes_at-agree (content s1) (content s) function size (λ x h k. made.kept x (
                IsOutside-second x function 32 t.trampoline granted made.function_apart h
                  (omega (arith, made.small)))) in
          let beside : (x : ℕ) → IsOutside x function size → content s2 x ≡ content pointing.1 x =
            λ x out.
              Wrote-other windows content granted doc pointing.1 s2 function code wrote x
                (subst (IsOutside x function) (sym code_size) out) in
          let slot_apart : AreApart slot 8 t.trampoline granted =
            made.apart slot 8 slot_readable.0 (omega arith) slot_readable.1 in
          record {
            size = size;
            size_is = ap length bytes_are ∙ length-bytes_at (content s) function size;
            function_is = refl;
            slot_is = refl;
            big = made.big;
            small = made.small;
            whole = made.whole;
            preserved = bytes_are;
            function_apart = made.function_apart;
            slot_apart = slot_apart;
            patched =
                ap (bytes_at (content s2) function) (sym code_size)
                ∙ Wrote-self windows content granted doc pointing.1 s2 function code wrote;
            pointed =
                bytes_at-agree (content s2) (content pointing.1) slot 8 (λ x h k. beside x (
                  IsOutside-less x function 32 size made.small
                    (IsOutside-first x function 32 slot 8 slot_away h k)))
                ∙ ap (bytes_at (content pointing.1) slot) (sym (length-le_bytes 8 t.trampoline))
                ∙ Wrote-self windows content granted doc s1 pointing.1 slot
                    (le_bytes 8 t.trampoline) (doc.writes s1 slot (le_bytes 8 t.trampoline) done);
            detour =
                bytes_at-agree (content s2) (content s1) t.trampoline (size + patch_size) (λ x h k.
                  let within : x < t.trampoline + granted =
                    omega (arith, made.small, doc.granted_size) in
                  beside x (
                    IsOutside-less x function 32 size made.small (
                      IsOutside-first x function 32 t.trampoline granted made.function_apart h
                        within))
                  ∙ slot_write s1 t.trampoline x
                      (IsOutside-first x slot 8 t.trampoline granted slot_apart h within))
                ∙ made.holds
                ∙ ap (λ o. trampoline_code windows content granted doc o function size)
                    (sym bytes_are);
            kept = λ x a b c. beside x a ∙ slot_write s1 t.trampoline x b ∙ made.kept x c;
          }

      finish-HookOf :
          HookOf s function handler slot
            (finish_hook windows zydis function handler slot name (some t, s1))
      unfolding finish_hook HookOf
      finish-HookOf = elim (Option-cases (windows.read_process_memory s1 function t.patch_bytes)) [
        | inl unread ↦
            rw (unread, finish_hook)
              (inl (λ x readable out. freed s1 x readable ∙ made.kept x (away x readable)))
        | inr (bytes, readable) ↦
            let patched = patch_function windows pointing.1 function handler t.patch_bytes in
            let patch =
              patch_function-IsPatch windows content granted doc pointing.1 function handler
                t.patch_bytes in
            elim (Bool-cases pointing.0) [
              | inr failed ↦
                  rw (readable, failed, finish_hook)
                    (inl (λ x before out.
                      freed pointing.1 x before
                      ∙ slot_write s1 t.trampoline x out
                      ∙ made.kept x (away x before)))
              | inl done ↦ elim (Bool-cases patched.0) [
                | inr refused ↦
                    rw (readable, done, refused, finish_hook)
                      (let_go patched.1 (
                        IsPatch-refused (patch_code handler t.patch_bytes) patched pointing.1
                          refused patch))
                | inl active ↦
                    rw (readable, done, active, finish_hook)
                      (installed patched.1 bytes readable done (
                        IsPatch-active (patch_code handler t.patch_bytes) patched pointing.1 active
                          patch))
              ]
            ]
      ]

    pub hooked :
        (r : Option RemoteTrampoline × S)
        → IsMade windows content granted doc zydis bounded s function r
        → HookOf s function handler slot (finish_hook windows zydis function handler slot name r)
    unfolding IsMade HookOf finish_hook
    hooked (none, s1) kept = inl (λ x readable out. kept x readable)
    hooked (some t, s1) made = finish-HookOf s1 t made
