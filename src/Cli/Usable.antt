-- ===== src/Cli/Usable.antt =====
-- What the caller of ParseCommandLine may rely on.
use apiscope.Prelude.{
  Bool, Bytes, List, Option, Option-cases, [], arith, false, if◌then◌else◌, inl, inr, length, ltb,
  none, not, refl, some, true, ◌&&◌, ◌||◌, ◌∷◌, ◌≡◌, ◌≤◌, ◌⊎◌,
}
use apiscope.Cli.{
  Options, WideText, attach, expand_and_validate_hooks, help, list_hooks, run, version,
}
use apiscope.Cli.Hooks.{expand_and_validate_hooks-AreSelected}
use apiscope.Cli.Parse.{
  Partial, Round, check_output, check_target, fail, failed, finish, finish_command, flag,
  initial_options, option_round, parse_command, parse_command_line, parse_options, select_hooks,
  selected, valued,
}
use apiscope.Registry.{HookDefinition}

-- What `run` and `attach` need: hooks, a target, and a path for quiet output.
unfoldable pub is_usable : Options → Bool
is_usable options = elim (options.mode) [
  | run ↦
      ltb 0 (length options.target_arguments)
      && ltb 0 (length options.hooks)
      && (not options.output.quiet || ltb 0 (length options.output.output_path))
  | attach ↦
      ltb 0 options.target_process_id
      && ltb 0 (length options.hooks)
      && (not options.output.quiet || ltb 0 (length options.output.output_path))
  | _ ↦ true
]

failed-is_usable : (options : Options) (message : Bytes) → is_usable (failed options message) ≡ true
unfolding is_usable
failed-is_usable options message = refl

-- Whether the checks behind the loop have let the options pass.
abbrev passed : Bool → List WideText → Options → Bool
passed is_attach left options =
    if is_attach then ltb 0 options.target_process_id else ltb 0 (length left)

check_target-passed :
    (is_attach : Bool) (left : List WideText) (options : Options)
    → check_target is_attach left options ≡ none
    → passed is_attach left options ≡ true
unfolding check_target
check_target-passed true left options h = ground arith
check_target-passed false left options h = ground arith

check_output-passed :
    (format_specified : Bool) (options : Options)
    → check_output format_specified options ≡ none
    → (not options.output.quiet || ltb 0 (length options.output.output_path)) ≡ true
unfolding check_output
check_output-passed format_specified options h = ground arith

hooks_positive : (hooks : List HookDefinition) → 1 ≤ length hooks → ltb 0 (length hooks) ≡ true
hooks_positive hooks h = ground arith

both_true : (a b c : Bool) → a ≡ true → b ≡ true → c ≡ true → (a && b && c) ≡ true
both_true a b c p q r = rw (p, q, r) refl

selected-is_usable :
    (is_attach : Bool) (options : Options) (r : List HookDefinition × Option Bytes)
    → passed is_attach options.target_arguments options ≡ true
    → (not options.output.quiet || ltb 0 (length options.output.output_path)) ≡ true
    → (r.1 ≡ none → 1 ≤ length r.0)
    → is_usable (selected is_attach options r) ≡ true
unfolding is_usable
selected-is_usable is_attach options (hooks, some message) target path some_hook = refl
selected-is_usable true options (hooks, none) target path some_hook =
    both_true _ _ _ target (hooks_positive hooks (some_hook refl)) path
selected-is_usable false options (hooks, none) target path some_hook =
    both_true _ _ _ target (hooks_positive hooks (some_hook refl)) path

select_hooks-is_usable :
    (is_attach : Bool) (available : List HookDefinition) (requested : List Bytes)
    (options : Options)
    → passed is_attach options.target_arguments options ≡ true
    → (not options.output.quiet || ltb 0 (length options.output.output_path)) ≡ true
    → is_usable (select_hooks is_attach available requested options) ≡ true
unfolding select_hooks
select_hooks-is_usable is_attach available requested options target path =
    selected-is_usable is_attach options (expand_and_validate_hooks available requested) target path
      (expand_and_validate_hooks-AreSelected available requested).1

finish_command-is_usable :
    (is_attach : Bool) (available : List HookDefinition) (left : List WideText) (s : Partial)
    → is_usable (finish_command is_attach available left s) ≡ true
unfolding finish_command
finish_command-is_usable is_attach available left s =
    elim (Option-cases (check_target is_attach left s.options)) [
      | inr (message, bad) ↦ rw (bad, finish_command) (failed-is_usable s.options message)
      | inl good ↦
          elim (Option-cases (
            check_output s.format_specified
              (if is_attach then s.options else record (s.options) { target_arguments = left }))) [
                | inr (message, bad) ↦
                    rw (good, bad, finish_command)
                      (failed-is_usable
                        (if is_attach
                          then s.options
                          else record (s.options) { target_arguments = left })
                        message)
                | inl path ↦
                    rw (good, path, finish_command)
                      (select_hooks-is_usable is_attach available s.requested
                        (if is_attach
                          then s.options
                          else record (s.options) { target_arguments = left })
                        (target_kept is_attach (check_target-passed is_attach left s.options good))
                        (check_output-passed s.format_specified
                          (if is_attach
                            then s.options
                            else record (s.options) { target_arguments = left })
                          path))
              ]
    ]
  where
    target_kept :
        (b : Bool)
        → passed b left s.options ≡ true
        → passed b
            (if b
              then s.options
              else record (s.options) { target_arguments = left }).target_arguments
            (if b then s.options else record (s.options) { target_arguments = left })
          ≡ true
    target_kept true t = t
    target_kept false t = t

-- An early return of the loop is an error's.
abbrev IsEarly : (List WideText × Partial) ⊎ Options → Type 0
IsEarly (inl left) = Unit {0}
IsEarly (inr options) = is_usable options ≡ true

Round-cases :
    (r : Round)
    → ((m : Bytes) × (r ≡ fail m))
      ⊎ ((r ≡ finish) ⊎ (((s : Partial) × (r ≡ flag s)) ⊎ ((s : Partial) × (r ≡ valued s))))
Round-cases (fail m) = inl (m, refl)
Round-cases finish = inr (inl refl)
Round-cases (flag s) = inr (inr (inl (s, refl)))
Round-cases (valued s) = inr (inr (inr (s, refl)))

parse_options-IsEarly :
    (is_attach : Bool) (arguments : List WideText) (s : Partial)
    → IsEarly (parse_options is_attach arguments s)
unfolding parse_options
parse_options-IsEarly is_attach [] s = tt
parse_options-IsEarly is_attach (a ∷ []) s = elim (Round-cases (option_round is_attach a none s)) [
  | inl (m, eq) ↦ rw (eq, parse_options) (failed-is_usable s.options m)
  | inr (inl eq) ↦ rw (eq, parse_options) tt
  | inr (inr (inl (next, eq))) ↦ rw (eq, parse_options) tt
  | inr (inr (inr (next, eq))) ↦ rw (eq, parse_options) tt
]
parse_options-IsEarly is_attach (a ∷ (v ∷ more)) s =
    elim (Round-cases (option_round is_attach a (some v) s)) [
      | inl (m, eq) ↦ rw (eq, parse_options) (failed-is_usable s.options m)
      | inr (inl eq) ↦ rw (eq, parse_options) tt
      | inr (inr (inl (next, eq))) ↦
          rw (eq, parse_options) (parse_options-IsEarly is_attach (v ∷ more) next)
      | inr (inr (inr (next, eq))) ↦
          rw (eq, parse_options) (parse_options-IsEarly is_attach more next)
    ]

parse_command-is_usable :
    (is_attach : Bool) (available : List HookDefinition) (arguments : List WideText)
    → is_usable (parse_command is_attach available arguments) ≡ true
unfolding parse_command
parse_command-is_usable is_attach available arguments =
    after_loop
      (parse_options is_attach arguments
        (record { options = initial_options; requested = []; format_specified = false }))
      (parse_options-IsEarly is_attach arguments
        (record { options = initial_options; requested = []; format_specified = false }))
  where
    after_loop :
        (o : (List WideText × Partial) ⊎ Options)
        → IsEarly o
        → is_usable (elim o [
          | inr options ↦ options
          | inl (left, s) ↦ finish_command is_attach available left s
        ])
          ≡ true
    after_loop (inl (left, s)) early = finish_command-is_usable is_attach available left s
    after_loop (inr options) early = early

if-is_usable :
    (b : Bool) (x y : Options)
    → is_usable x ≡ true
    → is_usable y ≡ true
    → is_usable (if b then x else y) ≡ true
if-is_usable true x y p q = p
if-is_usable false x y p q = q

others-is_usable :
    (is_usable (record initial_options { mode = help }) ≡ true)
    × (is_usable (record initial_options { mode = list_hooks }) ≡ true)
    × (is_usable (record initial_options { mode = version }) ≡ true)
unfolding is_usable
others-is_usable = (refl, refl, refl)

-- The options that ParseCommandLine returns: those of `run` and `attach` have hooks, a target
-- (arguments or a process identifier that is not 0) and, where they are quiet, an output path.
pub parse_command_line-is_usable :
    (argv : List WideText) (available : List HookDefinition)
    → is_usable (parse_command_line argv available) ≡ true
unfolding parse_command_line
parse_command_line-is_usable [] available = failed-is_usable initial_options _
parse_command_line-is_usable (program ∷ []) available = others-is_usable.0
parse_command_line-is_usable (program ∷ (command ∷ arguments)) available =
    if-is_usable _ _ _ others-is_usable.1 (
      if-is_usable _ _ _ others-is_usable.0 (
        if-is_usable _ _ _ others-is_usable.2 (
          if-is_usable _ _ _ (parse_command-is_usable false available arguments) (
            if-is_usable _ _ _ (parse_command-is_usable true available arguments)
              (failed-is_usable initial_options _)))))
