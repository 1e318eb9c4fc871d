-- ===== src/Cli/Parse.antt =====
-- ParseCommandLine of src/apiscope/cli_options.cpp: the modes, the options and the checks behind them.
use Prim.Native.String.{String}
use apiscope.Prelude.{
  Bool, Bytes, List, Option, [], bytes_eq, codes, false, if◌then◌else◌, inl, inr, length, none, not,
  some, true, ℕ, ◌&&◌, ◌++◌, ◌==◌, ◌||◌, ◌∷◌, ◌⊎◌,
}
use apiscope.Cli.{
  ColorMode, Options, OutputFormat, OutputOptions, WideText, always, attach, auto, error,
  expand_and_validate_hooks, help, jsonl, list_hooks, narrow_hook_name, never, parse_process_id,
  run, text, version,
}
use apiscope.Registry.{HookDefinition}

-- The locals of `ParseCommandLine`: the options, the requested hooks and `formatSpecified`.
pub record Partial : Type 0 where
  pub options : Options
  pub requested : List Bytes
  pub format_specified : Bool

-- What one round of the loop over the options does.
pub data Round : Type 0 where
  fail : Bytes → Round
  finish : Round
  flag : Partial → Round
  valued : Partial → Round

unfoldable pub parse_color : WideText → Option ColorMode
parse_color value =
    if bytes_eq value (codes "auto")
    then some auto
    else if bytes_eq value (codes "always")
    then some always
    else if bytes_eq value (codes "never")
    then some never
    else none

unfoldable pub parse_format : WideText → Option OutputFormat
parse_format value =
    if bytes_eq value (codes "text")
    then some text
    else if bytes_eq value (codes "jsonl")
    then some jsonl
    else none

-- `argument == L"--long" || argument == L"-s"`
abbrev pub is_option : WideText → String → String → Bool
is_option argument long short = bytes_eq argument (codes long) || bytes_eq argument (codes short)

abbrev pub set_output : Partial → OutputOptions → Partial
set_output s output = record s { options = record (s.options) { output = output } }

abbrev pub set_pid : Partial → ℕ → Partial
set_pid s pid = record s { options = record (s.options) { target_process_id = pid } }

-- A value that must be there and be understood.
abbrev pub with_value :
    {A : Type 0} → Option WideText → (WideText → Option A) → String → (A → Partial) → Round
with_value none parse message store = fail (codes message)
with_value (some value) parse message store = elim (parse value) [
  | none ↦ fail (codes message)
  | some a ↦ valued (store a)
]

-- The value of `--hook`, which fails in two ways.
abbrev pub hook_value : Option WideText → Partial → Round
hook_value none s = fail (codes "--hook requires a value")
hook_value (some value) s =
    let name = narrow_hook_name value in
    if length name == 0
    then fail (codes "Hook names must be ASCII")
    else valued (record s { requested = s.requested ++ name ∷ [] })

-- One round of the loop: an argument, and the one behind it if there is one.
unfoldable pub option_round : Bool → WideText → Option WideText → Partial → Round
option_round is_attach argument value s =
    let output = s.options.output in
    if bytes_eq argument (codes "--")
    then (if is_attach then fail (codes "attach does not accept a target command") else finish)
    else if is_option argument "--pid" "-p"
    then (if not is_attach
        then fail (codes "--pid is only valid with attach")
        else with_value value parse_process_id "--pid requires a positive process ID" (set_pid s))
    else if is_option argument "--hook" "-k"
    then hook_value value s
    else if is_option argument "--format" "-f"
    then with_value value parse_format "--format requires text or jsonl" (λ format.
      record (set_output s (record output { format = format })) { format_specified = true })
    else if is_option argument "--output" "-o"
    then with_value value some "--output requires a path"
        (λ path. set_output s (record output { output_path = path }))
    else if is_option argument "--quiet" "-q"
    then flag (set_output s (record output { quiet = true }))
    else if bytes_eq argument (codes "--color")
    then with_value value parse_color "--color requires auto, always, or never"
        (λ color. set_output s (record output { color = color }))
    else if bytes_eq argument (codes "--status")
    then with_value value parse_color "--status requires auto, always, or never"
        (λ status. set_output s (record output { status = status }))
    else fail (codes "Unknown command option")

-- `CommandLineOptions options = {}` as `ParseCommandLine` starts with it.
abbrev pub initial_options : Options
initial_options = record {
  mode = error;
  hooks = [];
  target_arguments = [];
  target_process_id = 0;
  output = record { format = text; output_path = []; quiet = false; color = auto; status = auto };
  error = [];
}

-- `options.error = message; return options`
abbrev pub failed : Options → Bytes → Options
failed options message = record options { mode = error; error = message }

-- The loop over the options: the arguments behind `--` with the locals, or an early return.
unfoldable pub parse_options : Bool → List WideText → Partial → (List WideText × Partial) ⊎ Options
parse_options is_attach [] s = inl ([], s)
parse_options is_attach (argument ∷ []) s = elim (option_round is_attach argument none s) [
  | fail message ↦ inr (failed s.options message)
  | finish ↦ inl ([], s)
  | flag next ↦ inl ([], next)
  | valued next ↦ inl ([], next)
]
parse_options is_attach (argument ∷ (value ∷ arguments)) s =
    elim (option_round is_attach argument (some value) s) [
      | fail message ↦ inr (failed s.options message)
      | finish ↦ inl (value ∷ arguments, s)
      | flag next ↦ parse_options is_attach (value ∷ arguments) next
      | valued next ↦ parse_options is_attach arguments next
    ]

-- Lines 247 to 260: what is wrong with the arguments that the loop has left.
unfoldable pub check_target : Bool → List WideText → Options → Option Bytes
check_target is_attach left options =
    if is_attach
    then (if not (length left == 0)
        then some (codes "attach accepts options only")
        else if options.target_process_id == 0
        then some (codes "attach requires --pid <pid>")
        else none)
    else if length left == 0
    then some (codes "run requires -- followed by a target program")
    else none

-- Lines 265 to 272: what is wrong with the output options.
unfoldable pub check_output : Bool → Options → Option Bytes
check_output format_specified options =
    let no_path = length options.output.output_path == 0 in
    if format_specified && no_path
    then some (codes "--format requires --output <path>")
    else if options.output.quiet && no_path
    then some (codes "--quiet requires --output <path>")
    else none

-- The options and the mode at the end, with the hooks and the message of
-- `ExpandAndValidateHooks`.
abbrev pub selected : Bool → Options → List HookDefinition × Option Bytes → Options
selected is_attach options (hooks, some message) = failed (record options { hooks = hooks }) message
selected is_attach options (hooks, none) = record options {
  mode = if is_attach then attach else run;
  hooks = hooks;
}

-- Lines 273 to 277: the hooks, and the mode at the end.
unfoldable pub select_hooks : Bool → List HookDefinition → List Bytes → Options → Options
select_hooks is_attach available requested options =
    selected is_attach options (expand_and_validate_hooks available requested)

-- Lines 247 to 277, behind the loop.
unfoldable pub finish_command : Bool → List HookDefinition → List WideText → Partial → Options
finish_command is_attach available left s = elim (check_target is_attach left s.options) [
  | some message ↦ failed s.options message
  | none ↦
      let options =
        if is_attach then s.options else record (s.options) { target_arguments = left } in
      elim (check_output s.format_specified options) [
        | some message ↦ failed options message
        | none ↦ select_hooks is_attach available s.requested options
      ]
]

-- Lines 139 to 278: the arguments behind `run` or `attach`.
unfoldable pub parse_command : Bool → List HookDefinition → List WideText → Options
parse_command is_attach available arguments =
    elim (parse_options is_attach arguments
      (record { options = initial_options; requested = []; format_specified = false })) [
        | inr options ↦ options
        | inl (left, s) ↦ finish_command is_attach available left s
      ]

-- `ParseCommandLine`, of `argv` with the program's name.
unfoldable pub parse_command_line : List WideText → List HookDefinition → Options
parse_command_line [] available =
    failed initial_options (codes "Expected 'run', 'attach', --list-hooks, --help, or --version")
parse_command_line (program ∷ []) available = record initial_options { mode = help }
parse_command_line (program ∷ (command ∷ arguments)) available =
    let alone = length arguments == 0 in
    if alone && is_option command "--list-hooks" "-l"
    then record initial_options { mode = list_hooks }
    else if alone && is_option command "--help" "-h"
    then record initial_options { mode = help }
    else if alone && is_option command "--version" "-V"
    then record initial_options { mode = version }
    else if bytes_eq command (codes "run")
    then parse_command false available arguments
    else if bytes_eq command (codes "attach")
    then parse_command true available arguments
    else failed initial_options
        (codes "Expected 'run', 'attach', --list-hooks, --help, or --version")
