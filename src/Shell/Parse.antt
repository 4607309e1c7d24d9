-- ===== src/Shell/Parse.antt =====
-- parse_command of TP2-SO-2025/Userland/Shell/shell.c. The state is `last`, where strtok stands in the buffer.
-- `granted` says whether an argument's memory is granted when strtok stands at a text. The model is of
-- lines on which the shell stays within its memory: the array for a command's name has 256 bytes, and
-- the table of parsed commands is not grown.
pub mod Tokens
pub mod Agreement
pub mod Line
use tp_so_grupo.Base.{
  is_zero, ℕ, zero, suc, ◌-◌, List, [], ◌∷◌, Bool, true, false, ◌||◌, not, Option, none, some,
  if◌then◌else◌,
}
use mathlib.Core.Option as Options
use tp_so_grupo.Strings.{Text}
use tp_so_grupo.Libc.Strings.{strlen, strcmp, strcasecmp, strcpy, strtok}
use tp_so_grupo.Shell.{Command, ParsedCommand, commands, same, find_command}

abbrev pub space : Text
space = b' ' ∷ []

abbrev pub bar : Text
bar = b'|' ∷ []

abbrev pub max_argument_count : ℕ
max_argument_count = 10

-- `while (tok && strcmp(tok, "|") == 0)`. Each round but the last takes a byte of `last`.
unfoldable pub skip_pipes : (fuel : ℕ) → Option Text → (last : Text) → Option Text × Text
unfolding strtok same
skip_pipes zero tok last = (tok, last)
skip_pipes (suc n) none last = (none, last)
skip_pipes (suc n) (some tok) last =
    let (next, left) = strtok none space last in
    let rest = skip_pipes n next left in if same tok bar then rest else (some tok, last)

-- One more argument in front of those that follow.
unfoldable pub with_arg : Text → Option (List Text) × Text → Option (List Text) × Text
with_arg arg (none, last) = (none, last)
with_arg arg (some args, last) = (some (arg ∷ args), last)

-- The loop over the arguments; `room` is `MAX_ARGUMENT_COUNT - 1 - argc`. `none` is a refused
-- allocation.
unfoldable pub read_args :
    (Text → Bool) → (room : ℕ) → Option Text → (last : Text) → Option (List Text) × Text
unfolding strcasecmp strcpy strtok with_arg
read_args granted room none last = (some [], last)
read_args granted zero (some arg) last = (some [], last)
read_args granted (suc room) (some arg) last =
    let (next, left) = strtok none space last in
    let rest = read_args granted room next left in
    if is_zero (strcasecmp arg bar)
    then (some [], last)
    else if granted last
    then with_arg (strcpy arg) rest
    else (none, last)

-- From the loop over the table on; the command is none for `command_i == -1`.
unfoldable pub parse_with :
    (Text → Bool) → Option Command → (last : Text) → Option ParsedCommand × Text
unfolding strtok read_args
parse_with granted none last = (none, last)
parse_with granted (some c) last =
    let (arg, left) = strtok none space last in
    let (args, rest) = read_args granted (max_argument_count - 2) arg left in
    (
      Options.map
          (λ more. record { name = c.name; argv = c.name ∷ more; is_built_in = c.is_built_in })
          args,
      rest,
    )

-- From the first token that is no bar on. The source copies it to an array of 256 bytes without a test.
unfoldable pub parse_from :
    (Text → Bool) → Option Text → (last : Text) → Option ParsedCommand × Text
unfolding strcpy find_command parse_with
parse_from granted none last = (none, last)
parse_from granted (some tok) last = elim tok [
  | [] ↦ (none, last)
  | c ∷ t ↦ parse_with granted (find_command (strcpy (c ∷ t)) commands) last
]

-- `buffer` is none for NULL; `none` as the command is the result -1.
unfoldable pub parse_command :
    (Text → Bool) → (buffer : Option Text) → (last : Text) → Option ParsedCommand × Text
unfolding strtok skip_pipes parse_from
parse_command granted buffer last =
    let (tok, left) = strtok buffer space last in
    let (first, rest) = skip_pipes (suc (suc (strlen left))) tok left in
    parse_from granted first rest

-- The loop of `main`: the commands of a line, of which the table has room for 5 at least. Each round
-- takes a byte of `last` at least.
unfoldable pub parse_all :
    (Text → Bool) → (fuel : ℕ) → (buffer : Option Text) → (last : Text) → List ParsedCommand
unfolding parse_command
parse_all granted zero buffer last = []
parse_all granted (suc n) buffer last =
    let (result, left) = parse_command granted buffer last in
    let rest = parse_all granted n none left in elim result [ none ↦ [] | some p ↦ p ∷ rest ]

unfoldable pub parse_line : (Text → Bool) → (buffer : Text) → List ParsedCommand
unfolding parse_all
parse_line granted buffer = parse_all granted (suc (suc (strlen buffer))) (some buffer) []
