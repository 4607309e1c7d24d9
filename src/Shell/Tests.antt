-- ===== src/Shell/Tests.antt =====
-- The shell on concrete lines.
use tp_so_grupo.Base.{◌≡◌, refl, pos, [], ◌∷◌, ◌++◌, ◌≤◌, length, some, true, false, arith, Bool}
use tp_so_grupo.Base.Codes.{codes}
use tp_so_grupo.Strings.{Text}
use tp_so_grupo.Libc.Print.{bytes}
use tp_so_grupo.Libc.Strings.{strlen, strcmp, strcasecmp, strtok, cut_token, strcpy}
use tp_so_grupo.Shell.{external, same, find_command}
use tp_so_grupo.Shell.Parse.{
  parse_line, bar, parse_command, skip_pipes, parse_from, parse_with, read_args,
}
use tp_so_grupo.Shell.Parse.Tokens.{tokens}
use tp_so_grupo.Shell.Parse.Line.{Parses, FitsShell, parse_line-Parses}
use tp_so_grupo.Shell.Run.{run_line, open_pipe, create_process, wait_pid, close_pipe, strip_last}
use tp_so_grupo.Shell.Run.Pipeline.{run_line-pipeline, Names, IsForeground}
use tp_so_grupo.Shell.Filters.{echo, filter}
use tp_so_grupo.Shell.Filters.Laws.{echo-filter, joined}

abbrev every : Text → Bool
every s = true

abbrev line : Text
line = codes "cat hi | filter"

line-count : length (parse_line every line) ≡ 2
unfolding parse_line parse_command strtok skip_pipes parse_from parse_with read_args find_command
    same strcmp strcasecmp strlen cut_token strcpy
line-count = refl

line-FitsShell : FitsShell every (λ s. refl) line
unfolding tokens strlen
line-FitsShell = record { short = omega arith; few = omega (arith, line-count) }

parse_example :
    Parses (tokens line) (parse_line every line)
    × (length (parse_line every line) ≤ length (tokens line))
parse_example = parse_line-Parses every (λ s. refl) line line-FitsShell

cat-Names : Names (codes "cat") (external (codes "cat"))
unfolding find_command same strcmp
cat-Names = (refl, refl)

filter-Names : Names (codes "filter") (external (codes "filter"))
unfolding find_command same strcmp
filter-Names = (refl, refl)

line-tokens : tokens line ≡ codes "cat" ∷ (codes "hi" ∷ []) ++ bar ∷ codes "filter" ∷ []
unfolding tokens
line-tokens = refl

hi-IsForeground : IsForeground (codes "hi" ∷ [])
unfolding strip_last strcasecmp same strcmp
hi-IsForeground = ((refl, tt), refl)

none-IsForeground : IsForeground []
unfolding strip_last
none-IsForeground = (tt, refl)

pipeline_example :
    run_line every (pos 3) (pos 7) (pos 8) line
    ≡ open_pipe
      ∷ create_process
          (codes "cat")
          (codes "cat" ∷ codes "hi" ∷ [])
          (pos 0 ∷ pos 3 ∷ pos 2 ∷ [])
          false
      ∷ create_process (codes "filter") (codes "filter" ∷ []) (pos 3 ∷ pos 1 ∷ pos 2 ∷ []) true
      ∷ wait_pid (pos 7)
      ∷ wait_pid (pos 8)
      ∷ close_pipe (pos 3)
      ∷ []
pipeline_example =
    run_line-pipeline every (λ s. refl) line b'c' b'f' (codes "at") (codes "ilter")
      (codes "hi" ∷ []) [] (external (codes "cat")) (external (codes "filter")) 3 6 7 line-tokens
      cat-Names filter-Names refl hi-IsForeground none-IsForeground (omega arith) (omega arith)

echo_example :
    (echo (codes "echo" ∷ codes "hey" ∷ codes "you" ∷ [])
      ≡ (some (bytes (joined (codes "hey" ∷ codes "you" ∷ []) ++ 10 ∷ [])), pos 0))
    × (filter (codes "filter" ∷ []) (joined (codes "hey" ∷ codes "you" ∷ []) ++ 10 ∷ [])
        ≡ filter (codes "filter" ∷ codes "hey" ∷ codes "you" ∷ []) [] ++ 10 ∷ [])
echo_example = echo-filter (codes "echo") (codes "filter") (codes "hey") (codes "you" ∷ []) (
  (omega arith, omega arith, (omega arith, omega arith, (omega arith, omega arith, tt))),
  ((omega arith, omega arith, (omega arith, omega arith, (omega arith, omega arith, tt))), tt),
)
