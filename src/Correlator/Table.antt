-- ===== src/Correlator/Table.antt =====
-- `handlePaths_` of trace_correlator.cpp as a finite map.
use apiscope.Prelude.{
  Bool, Bool-cases, Option-cases, [], ap, arith, codes, false, if◌then◌else◌, inl, inr, leb, length,
  ltb, none, not, refl, some, true, ℕ, ◌&&◌, ◌+◌, ◌==◌, ◌∙◌, ◌∷◌, ◌≡◌, ◌≢◌, ◌≤◌,
}
use apiscope.Correlator.{
  HandlePaths, Path16, erase_path, event_succeeded, evict, find_object_handle, find_path,
  max_tracked_handles, observe, observed_path, read_handle, read_wide_string, resolve_path,
  set_path, source_of,
}
use apiscope.Protocol.{Event}

-- One entry for a key, as in an `std::unordered_map`.
abbrev pub IsUnique : HandlePaths → Type 0
IsUnique [] = Unit {0}
IsUnique ((k, p) ∷ table) = (find_path k table ≡ none) × IsUnique table

pub find_path-set_path :
    (h k : ℕ) (p : Path16) (table : HandlePaths)
    → find_path k (set_path h p table) ≡ (if h == k then some p else find_path k table)
unfolding find_path set_path
find_path-set_path h k p [] = refl
find_path-set_path h k p ((j, q) ∷ table) = ground (arith, find_path-set_path h k p table)

pub find_path-erase_path :
    (h k : ℕ) (table : HandlePaths)
    → IsUnique table
    → find_path k (erase_path h table) ≡ (if h == k then none else find_path k table)
unfolding find_path erase_path
find_path-erase_path h k [] unique = ground arith
find_path-erase_path h k ((j, q) ∷ table) (fresh, unique) =
    ground (arith, find_path-erase_path h k table unique)

pub set_path-IsUnique :
    (h : ℕ) (p : Path16) (table : HandlePaths) → IsUnique table → IsUnique (set_path h p table)
unfolding set_path find_path
set_path-IsUnique h p [] unique = (refl, tt)
set_path-IsUnique h p ((j, q) ∷ table) (fresh, unique) =
    ground (arith, set_path-IsUnique h p table unique, find_path-set_path h j p table)

pub erase_path-IsUnique :
    (h : ℕ) (table : HandlePaths) → IsUnique table → IsUnique (erase_path h table)
unfolding erase_path
erase_path-IsUnique h [] unique = tt
erase_path-IsUnique h ((j, q) ∷ table) (fresh, unique) =
    ground (arith, erase_path-IsUnique h table unique, find_path-erase_path h j table unique)

pub length-set_path :
    (h : ℕ) (p : Path16) (table : HandlePaths) → length (set_path h p table) ≤ length table + 1
unfolding set_path
length-set_path h p [] = omega arith
length-set_path h p ((j, q) ∷ table) = ground (arith, length-set_path h p table)

pub length-erase_path : (h : ℕ) (table : HandlePaths) → length (erase_path h table) ≤ length table
unfolding erase_path
length-erase_path h [] = omega arith
length-erase_path h ((j, q) ∷ table) = ground (arith, length-erase_path h table)

-- The tracker's invariant: one path for a handle, and at most `MAX_TRACKED_HANDLES` handles.
pub record IsTracker (table : HandlePaths) : Type 0 where
  pub unique : IsUnique table
  pub bounded : length table ≤ max_tracked_handles

set_path-IsTracker :
    (h : ℕ) (p : Path16) (table : HandlePaths)
    → IsTracker table
    → IsTracker (set_path h p (if leb max_tracked_handles (length table) then [] else table))
set_path-IsTracker h p table t = elim (Bool-cases (leb max_tracked_handles (length table))) [
  | inl full ↦ rw full (record { unique = set_path-IsUnique h p [] tt; bounded = one })
  | inr room ↦ rw room (record {
    unique = set_path-IsUnique h p table t.unique;
    bounded = ground (arith, length-set_path h p table);
  })
]
  where
    one : length (set_path h p []) ≤ max_tracked_handles
    one = omega (arith, length-set_path h p [])

if-IsTracker :
    {x y : HandlePaths} (test : Bool)
    → IsTracker x
    → IsTracker y
    → IsTracker (if test then x else y)
if-IsTracker true h k = h
if-IsTracker false h k = k

-- `Observe` and `Evict` keep the invariant, for every event, well-formed or not.
pub observe-evict-IsTracker :
    (table : HandlePaths) (e : Event)
    → IsTracker table
    → IsTracker (observe table e) × IsTracker (evict table e)
unfolding observe evict
observe-evict-IsTracker table e t = (
  elim (Option-cases (source_of e)) [
    | inl no_source ↦ rw (no_source, observe) t
    | inr ((handle, path), source) ↦
        rw (source, observe) (set_path-IsTracker handle (observed_path table e path) table t)
  ],
  elim (Option-cases (read_handle e (codes "handle"))) [
    | inl no_handle ↦ rw (no_handle, evict) t
    | inr (handle, named) ↦
        rw (named, evict)
          (if-IsTracker (not (handle == 0) && event_succeeded e)
            (record {
              unique = erase_path-IsUnique handle table t.unique;
              bounded = omega (arith, t.bounded, length-erase_path handle table);
            })
            t)
  ],
)

find_path-if :
    (full : Bool) (k : ℕ) (table : HandlePaths)
    → find_path k (if full then [] else table) ≡ (if full then none else find_path k table)
unfolding find_path
find_path-if true k table = refl
find_path-if false k table = refl

find_path-source :
    (table : HandlePaths) (e : Event) (handle k : ℕ) (path given : Path16)
    → source_of e ≡ some (handle, path)
    → observed_path table e path ≡ given
    → find_path k (observe table e) ≡ (
        if handle == k
        then some given
        else if leb max_tracked_handles (length table)
        then none
        else find_path k table)
unfolding observe find_path
find_path-source table e handle k path given source resolved =
    rw (source, resolved, observe)
      (find_path-set_path handle k given _
        ∙ ap (λ r. if handle == k then some given else r)
            (find_path-if (leb max_tracked_handles (length table)) k table))

-- An event that names a path, of one character or more, and a handle that is not null.
pub record IsOpen (e : Event) (handle : ℕ) (path : Path16) : Type 0 where
  pub names : read_wide_string e (codes "path") ≡ some path
  pub some_char : ltb 0 (length path) ≡ true
  pub has_handle : find_object_handle e ≡ some handle
  pub not_null : (handle == 0) ≡ false

-- The tracker has a path for one handle, and for every other what it had, unless it was full.
abbrev pub Records : HandlePaths → HandlePaths → ℕ → Path16 → Type 0
Records table next handle given =
    (k : ℕ)
    → find_path k next ≡ (
        if handle == k
        then some given
        else if leb max_tracked_handles (length table)
        then none
        else find_path k table)

IsOpen-source_of :
    {e : Event} {handle : ℕ} {path : Path16}
    → IsOpen e handle path
    → event_succeeded e ≡ true
    → source_of e ≡ some (handle, path)
unfolding source_of
IsOpen-source_of opens done =
    rw (opens.names, opens.some_char, opens.has_handle, opens.not_null, done) refl

IsOpen-failed :
    {e : Event} {handle : ℕ} {path : Path16}
    → IsOpen e handle path
    → event_succeeded e ≡ false
    → source_of e ≡ none
unfolding source_of
IsOpen-failed opens failed =
    rw (opens.names, opens.some_char, opens.has_handle, opens.not_null, failed) refl

-- After an open that names a path and has failed, the tracker is unchanged. After one that has not
-- failed, it gives for the new handle the path as it is named, if the event has no root or one that
-- is null or unknown, and else the path behind that of the root; for every other handle it gives
-- what it gave before, but a full tracker forgets the others first.
pub find_path-observe :
    (table : HandlePaths) (e : Event) (handle : ℕ) (path : Path16)
    → IsOpen e handle path
    → (event_succeeded e ≡ false → observe table e ≡ table)
      × (event_succeeded e ≡ true
          → read_handle e (codes "root_directory") ≡ none
          → Records table (observe table e) handle path)
      × (event_succeeded e ≡ true
          → read_handle e (codes "root_directory") ≡ some 0
          → Records table (observe table e) handle path)
      × ((root : ℕ)
          → event_succeeded e ≡ true
          → read_handle e (codes "root_directory") ≡ some root
          → find_path root table ≡ none
          → Records table (observe table e) handle path)
      × ((root : ℕ) (base : Path16)
          → event_succeeded e ≡ true
          → read_handle e (codes "root_directory") ≡ some root
          → (root == 0) ≡ false
          → find_path root table ≡ some base
          → Records table (observe table e) handle (resolve_path base path))
unfolding observe observed_path
find_path-observe table e handle path opens = (
  λ failed. rw (IsOpen-failed opens failed, observe) refl,
  λ done no_root k.
      find_path-source table e handle k path path (IsOpen-source_of opens done)
        (rw (no_root, observed_path) refl),
  λ done null k.
      find_path-source table e handle k path path (IsOpen-source_of opens done)
        (rw (null, observed_path) refl),
  λ root done rooted unknown k.
      find_path-source table e handle k path path (IsOpen-source_of opens done)
        (rw (rooted, unknown, observed_path) (same_path (root == 0) path)),
  λ root base done rooted nonnull known k.
      find_path-source table e handle k path (resolve_path base path) (IsOpen-source_of opens done)
        (rw (rooted, nonnull, known, observed_path) refl),
)
  where
    same_path : (b : Bool) (p : Path16) → (if b then p else p) ≡ p
    same_path true p = refl
    same_path false p = refl

-- After the successful close of a handle the tracker has no path for it, and is unchanged elsewhere.
pub find_path-evict :
    (table : HandlePaths) (e : Event) (handle k : ℕ)
    → IsUnique table
    → read_handle e (codes "handle") ≡ some handle
    → handle ≢ 0
    → event_succeeded e ≡ true
    → find_path k (evict table e) ≡ (if handle == k then none else find_path k table)
unfolding evict
find_path-evict table e handle k unique named nonzero succeeded =
    rw (named, not_null, succeeded, evict) (find_path-erase_path handle k table unique)
  where
    not_null : (handle == 0) ≡ false
    not_null = ground arith
