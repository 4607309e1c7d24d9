-- ===== src/Shell/Run.antt =====
-- The loop of `main` in TP2-SO-2025/Userland/Shell/shell.c: how a line is read, and what it does once it is parsed. The
-- memory of the table of parsed commands is taken to be granted.
pub mod Pipeline
use tp_so_grupo.Base.{
  ℕ, zero, suc, List, [], ◌∷◌, ◌++◌, Bool, true, false, ◌&&◌, ◌||◌, not, Option, none, some, ◌==◌,
  if◌then◌else◌, set, ◌+◌, ◌%◌, ℤ, pos, negsuc,
}
use tp_so_grupo.Strings.{Text}
use tp_so_grupo.Libc.Strings.{strncpy, cut_token}
use tp_so_grupo.Libc.Scan.{skip_line}
use tp_so_grupo.Shell.{ParsedCommand, same}
use tp_so_grupo.Shell.Parse.{space, parse_line}

-- What a line does: messages, system calls and the call of a built-in command.
pub data Effect : Type 0 where
  not_found : Text → Effect
  type_help built_in_in_pipeline too_many_commands pipe_failed : Effect
  call : (name : Text) (argv : List Text) → Effect
  open_pipe : Effect
  create_process : (name : Text) (argv : List Text) (targets : List ℤ) (foreground : Bool) → Effect
  wait_pid close_pipe : ℤ → Effect

abbrev pub max_buffer_size : ℕ
max_buffer_size = 1024

-- The typed line, none for one that is too long, and the input behind it; none for an input that
-- ends before its line does. `room` is `MAX_BUFFER_SIZE - 1 - buffer_dim`.
unfoldable pub read_line : (room : ℕ) → Text → Option (Option Text × Text)
unfolding skip_line
read_line zero input = elim (skip_line input) [ none ↦ none | some rest ↦ some (none, rest) ]
read_line (suc room) [] = none
read_line (suc room) (c ∷ input) =
    let further : Option (Option Text × Text) = elim (read_line room input) [
      | none ↦ none
      | some (none, rest) ↦ some (none, rest)
      | some (some line, rest) ↦ some (some (c ∷ line), rest)
    ] in
    if c == 10 then some (some [], input) else further

-- `command_history` and `command_history_last` after a line that parsed.
unfoldable pub remember : Text → List Text × ℕ → List Text × ℕ
unfolding strncpy
remember line (history, last) = (set history last (strncpy line 255), (last + 1) % 10)

-- Is the last argument `&`? What is left of the arguments then.
unfoldable pub strip_last : List Text → Bool × List Text
unfolding same
strip_last [] = (false, [])
strip_last (a ∷ args) =
    let (found, rest) = strip_last args in
    elim args [
      | [] ↦ if same a (b'&' ∷ []) then (true, []) else (false, a ∷ [])
      | b ∷ more ↦ (found, a ∷ rest)
    ]

-- On `argv`, whose first entry is the name.
unfoldable pub strip_background : List Text → Bool × List Text
unfolding strip_last
strip_background [] = (false, [])
strip_background (name ∷ args) = let (found, rest) = strip_last args in (found, name ∷ rest)

abbrev pub is_positive : ℤ → Bool
is_positive (pos n) = not (n == 0)
is_positive (negsuc n) = false

abbrev pub when : Bool → List Effect → List Effect
when true effects = effects
when false effects = []

unfoldable pub run_single : (pid : ℤ) → ParsedCommand → List Effect
unfolding strip_background
run_single pid p =
    let (background, argv) = strip_background p.argv in
    if p.is_built_in
    then call p.name p.argv ∷ []
    else create_process p.name argv (pos 0 ∷ pos 1 ∷ pos 2 ∷ []) (not background)
      ∷ when (not background && is_positive pid) (wait_pid pid ∷ [])

-- From the open pipe on.
unfoldable pub run_piped :
    (pipe : ℤ) → (left_pid right_pid : ℤ) → (left right : ParsedCommand) → List Effect
unfolding strip_background
run_piped pipe left_pid right_pid left right =
    let (left_background, left_argv) = strip_background left.argv in
    let (right_background, right_argv) = strip_background right.argv in
    let background = left_background || right_background in
    (create_process left.name left_argv (pos 0 ∷ pipe ∷ pos 2 ∷ []) false
      ∷ create_process right.name right_argv (pipe ∷ pos 1 ∷ pos 2 ∷ []) (not background)
      ∷ when (not background && (is_positive right_pid && is_positive left_pid))
          (wait_pid left_pid ∷ wait_pid right_pid ∷ []))
    ++ close_pipe pipe ∷ []

-- `pipe` is what opening a pipe returns, `first_pid` and `second_pid` what creating the processes
-- does.
unfoldable pub run_commands : (pipe first_pid second_pid : ℤ) → List ParsedCommand → List Effect
unfolding run_single run_piped
run_commands pipe first_pid second_pid [] = []
run_commands pipe first_pid second_pid (p ∷ []) = run_single first_pid p
run_commands pipe first_pid second_pid (left ∷ right ∷ []) =
    if left.is_built_in || right.is_built_in
    then built_in_in_pipeline ∷ []
    else open_pipe ∷ elim pipe [
      | pos n ↦ run_piped (pos n) first_pid second_pid left right
      | negsuc n ↦ pipe_failed ∷ []
    ]
run_commands pipe first_pid second_pid (p ∷ q ∷ r ∷ ps) = too_many_commands ∷ []

-- A line that is not empty and has no command.
unfoldable pub report : Text → List ParsedCommand → List Effect
unfolding cut_token
report [] ps = []
report (c ∷ line) [] = not_found (cut_token space (c ∷ line)).0 ∷ type_help ∷ []
report (c ∷ line) (p ∷ ps) = []

unfoldable pub run_line : (Text → Bool) → (pipe first_pid second_pid : ℤ) → Text → List Effect
unfolding parse_line report run_commands
run_line granted pipe first_pid second_pid line =
    let ps = parse_line granted line in report line ps ++ run_commands pipe first_pid second_pid ps
