-- ===== src/Correlator/Annotate.antt =====
-- `Annotate` of trace_correlator.cpp against the wire format.
use apiscope.Prelude.{
  Bool-cases, Option-cases, [], ap, arith, codes, dec_le, false, if◌then◌else◌, inl, inr, length,
  ltb, lt→ltb, none, not-ltb, refl, some, take, true, ℕ, ℕ_discrete, ◌%◌, ◌*◌, ◌+◌, ◌<◌, ◌∙◌, ◌∷◌,
  ◌≡◌, ◌≢◌, ◌≤◌,
}
use apiscope.Correlator.{
  HandlePaths, Path16, annotate, append_wide_string, find_object_handle, find_path, wide_memory,
}
use apiscope.Correlator.Branches.{
  annotate_known, annotate_named, annotate_no_handle, annotate_null, annotate_unknown,
  find_view-unused, find_view-used,
}
use apiscope.Correlator.Lookup.{find_field-find_view}
use apiscope.Encoding.{Encodes}
use apiscope.Encoding.Append.{add_field, append_checked-Encodes, length-take_of_le}
use apiscope.Encoding.Holds.{Holds}
use apiscope.Encoding.Valid.{IsValid, IsValidField}
use apiscope.Encoding.Writer.{add_field-IsValid}
use apiscope.Protocol.{Event, type_wide_string}
use apiscope.Renderer.Parse.{
  FieldView, Parsed, has_expected_value_size, is_name_used, is_valid_field_name_bytes,
}
use apiscope.Transport.{append_checked, is_field_char}

length-wide_memory : (path : Path16) → length (wide_memory path) ≡ length path * 2
unfolding wide_memory
length-wide_memory [] = omega arith
length-wide_memory (u ∷ us) = omega (arith, length-wide_memory us)

abbrev pub path_bytes : Path16 → ℕ
path_bytes path = if ltb 512 (length path * 2) then 512 else length path * 2

abbrev pub path_field : Path16 → FieldView
path_field path = record {
  tag = type_wide_string;
  name = codes "path";
  value = take (path_bytes path) (wide_memory path);
}

-- The only difference between `AppendWideString` and `AppendTraceField` behind its checks is what
-- happens where there is no room.
append_wide_string-checked :
    (e : Event) (path : Path16)
    → e.header.size + (4 + 4 + path_bytes path) ≤ 1024
    → append_wide_string e (codes "path") path
      ≡ append_checked e type_wide_string (codes "path") 4 (wide_memory path) (path_bytes path)
unfolding append_wide_string append_checked
append_wide_string-checked e path room =
    rw (not-ltb 1024 (e.header.size + (4 + 4 + path_bytes path)) room) (rw small refl)
  where
    small : path_bytes path % 65536 ≡ path_bytes path
    small = ground arith

append_wide_string-full :
    (e : Event) (path : Path16)
    → 1024 < e.header.size + (4 + 4 + path_bytes path)
    → append_wide_string e (codes "path") path ≡ (e, false)
unfolding append_wide_string
append_wide_string-full e path full =
    rw (lt→ltb 1024 (e.header.size + (4 + 4 + path_bytes path)) full) refl

wide_memory-typed :
    (path : Path16)
    → (path_bytes path ≤ length (wide_memory path))
      × (has_expected_value_size type_wide_string
            (take (path_bytes path) (wide_memory path))
            (length (take (path_bytes path) (wide_memory path)))
          ≡ true)
unfolding has_expected_value_size
wide_memory-typed path =
    let room : path_bytes path ≤ length (wide_memory path) =
      ground (arith, length-wide_memory path) in
    (room, rw (length-take_of_le (path_bytes path) (wide_memory path) room) (ground arith))

path_field-IsValidField : (path : Path16) → IsValidField (path_field path)
unfolding is_valid_field_name_bytes is_field_char
path_field-IsValidField path = (refl, (wide_memory-typed path).1)

module _ (table : HandlePaths) {e : Event} {p : Parsed} (held : Encodes e p) where
  append_path-Encodes :
      (path : Path16)
      → e.header.size + (4 + 4 + path_bytes path) ≤ 1024
      → Encodes (append_wide_string e (codes "path") path).0 (add_field p (path_field path))
  append_path-Encodes path room =
      rw (append_wide_string-checked e path room)
        (append_checked-Encodes held type_wide_string 4 (path_bytes path) (codes "path")
          (wide_memory path) (omega arith) (wide_memory-typed path).0 room).1

  -- `Annotate` of an event that holds a record with no path, and names a handle whose path is
  -- known: the event then holds the record with the path (cut to 512 bytes) as its last field,
  -- unless there is no room for it; an event with a path of its own, or without a known handle,
  -- stays as it is.
  pub annotate-branches :
      (handle : ℕ) (path : Path16)
      → let room = e.header.size + (8 + path_bytes path) in
        (is_name_used p.fields (codes "path") ≡ true → annotate table e ≡ e)
        × (find_object_handle e ≡ none → annotate table e ≡ e)
        × (find_object_handle e ≡ some handle
            → find_path handle table ≡ none
            → annotate table e ≡ e)
        × (is_name_used p.fields (codes "path") ≡ false
            → find_object_handle e ≡ some handle
            → handle ≢ 0
            → find_path handle table ≡ some path
            → (room ≤ 1024 → Encodes (annotate table e) (add_field p (path_field path)))
              × (1024 < room → annotate table e ≡ e))
  annotate-branches handle path = (
    λ used.
        let (ref, seen) = find_view-used p.fields (codes "path") used in
        annotate_named table e ref (find_field-find_view held (codes "path") ∙ seen),
    annotate_no_handle table e,
    annotate_unknown table e handle,
    λ unused named nonzero known.
        let done =
          annotate_known table e handle path
            (find_field-find_view held (codes "path")
              ∙ find_view-unused p.fields (codes "path") unused)
            named nonzero known in
        (
          λ room. rw done (append_path-Encodes path room),
          λ full. done ∙ ap (λ r. r.0) (append_wide_string-full e path full),
        ),
  )

  known-Holds :
      IsValid p
      → is_name_used p.fields (codes "path") ≡ false
      → (handle : ℕ) → find_object_handle e ≡ some handle
      → handle ≢ 0
      → Holds (annotate table e)
  known-Holds valid unused handle named nonzero = elim (Option-cases (find_path handle table)) [
    | inl unknown ↦ rw (annotate_unknown table e handle named unknown) (p, held, valid)
    | inr (path, known) ↦
        let branches = (annotate-branches handle path).3 unused named nonzero known in
        elim (dec_le (e.header.size + (8 + path_bytes path)) 1024) [
          | yes room ↦ (
            add_field p (path_field path),
            branches.0 room,
            add_field-IsValid p (path_field path) valid (path_field-IsValidField path) unused,
          )
          | no full ↦ rw (branches.1 (omega arith)) (p, held, valid)
        ]
  ]

  -- So `Annotate` never spoils an event: whatever the tracker knows, it holds a valid record still.
  pub annotate-Holds : IsValid p → Holds (annotate table e)
  annotate-Holds valid = elim (Bool-cases (is_name_used p.fields (codes "path"))) [
    | inl used ↦ rw ((annotate-branches 0 []).0 used) (p, held, valid)
    | inr unused ↦ elim (Option-cases (find_object_handle e)) [
      | inl missing ↦ rw (annotate_no_handle table e missing) (p, held, valid)
      | inr (handle, named) ↦ elim (ℕ_discrete handle 0) [
        | yes null ↦ rw (annotate_null table e (named ∙ ap some null)) (p, held, valid)
        | no nonzero ↦ known-Holds valid unused handle named nonzero
      ]
    ]
  ]
