-- ===== src/Shell/Run/Pipeline.antt =====
-- Two commands with a bar between them.
use tp_so_grupo.Base.{
  is_zero, ℕ, zero, suc, ◌≡◌, ◌≤◌, refl, sym, ap, ◌∙◌, subst, List, [], ◌∷◌, ◌++◌, Bool, true,
  false, ◌||◌, some, arith, length, pos,
}
use mathlib.Core.Option.{some-injective}
use tp_so_grupo.Strings.{Text}
use tp_so_grupo.Libc.Strings.{strcasecmp}
use tp_so_grupo.Shell.{Command, ParsedCommand, commands, same, find_command}
use tp_so_grupo.Shell.Parse.{bar, parse_line}
use tp_so_grupo.Shell.Parse.Tokens.{
  tokens, parse_known, args_of, drop_bars, parse_first, parse_tokens,
}
use tp_so_grupo.Shell.Parse.Line.{Parses, stop, more, parse_line-found}
use tp_so_grupo.Shell.Run.{
  open_pipe, create_process, wait_pid, close_pipe, strip_last, strip_background, is_positive,
  run_piped, run_commands, report, run_line,
}

-- Arguments, none of which is a bar.
abbrev pub IsArguments : List Text → Type 0
IsArguments [] = Unit {0}
IsArguments (t ∷ ts) = (is_zero (strcasecmp t bar) ≡ false) × IsArguments ts

args_of-bar :
    (room : ℕ) (args ts : List Text)
    → IsArguments args
    → length args ≤ room
    → args_of room (args ++ bar ∷ ts) ≡ (args, ts)
unfolding args_of strcasecmp
args_of-bar zero [] ts h l = refl
args_of-bar (suc room) [] ts h l = refl
args_of-bar zero (t ∷ args) ts h l = ground arith
args_of-bar (suc room) (t ∷ args) ts (e, h) l = rw (e, args_of-bar room args ts h (omega arith))

args_of-end :
    (room : ℕ) (args : List Text)
    → IsArguments args
    → length args ≤ room
    → args_of room args ≡ (args, [])
unfolding args_of
args_of-end zero [] h l = refl
args_of-end (suc room) [] h l = refl
args_of-end zero (t ∷ args) h l = ground arith
args_of-end (suc room) (t ∷ args) (e, h) l = rw (e, args_of-end room args h (omega arith))

-- A token that names the command `x`.
abbrev pub Names : Text → Command → Type 0
Names a x = (same a bar ≡ false) × (find_command a commands ≡ some x)

abbrev pub parsed : Command → List Text → ParsedCommand
parsed x args = record { name = x.name; argv = x.name ∷ args; is_built_in = x.is_built_in }

-- The tokens of a command with its arguments, of which `rest` is left.
parse_tokens-Names :
    (c : ℕ) (t : Text) (x : Command) (ts args rest : List Text)
    → Names (c ∷ t) x
    → args_of 8 ts ≡ (args, rest)
    → parse_tokens ((c ∷ t) ∷ ts) ≡ (some (parsed x args), rest)
unfolding parse_tokens drop_bars parse_first parse_known
parse_tokens-Names c t x ts args rest (n, f) e =
    rw (n, parse_first, f) (ap (λ r. (some (parsed x r.0), r.1)) e)

Parses-next :
    (ts rest : List Text) (p : ParsedCommand) (ps : List ParsedCommand)
    → parse_tokens ts ≡ (some p, rest)
    → Parses ts ps
    → (qs : List ParsedCommand) × (ps ≡ p ∷ qs) × Parses rest qs
Parses-next ts rest p ps e (stop ts' rest' h) = ground (arith, ap (λ r. r.0) (sym e ∙ h))
Parses-next ts rest p ps e (more ts' rest' q qs h later) =
    let same_command = some-injective p q (ap (λ r. r.0) (sym e ∙ h)) in
    (
      qs,
      ap (λ c. c ∷ qs) (sym same_command),
      subst (λ l. Parses l qs) (ap (λ r. r.1) (sym h ∙ e)) later,
    )

Parses-end : (ps : List ParsedCommand) → Parses [] ps → ps ≡ []
unfolding parse_tokens drop_bars parse_first
Parses-end ps (stop ts rest h) = refl
Parses-end ps (more ts rest p qs h later) = ground (arith, ap (λ r. r.0) h)

report-parsed :
    (line : Text) (p : ParsedCommand) (ps : List ParsedCommand) → report line (p ∷ ps) ≡ []
unfolding report
report-parsed [] p ps = refl
report-parsed (c ∷ line) p ps = refl

-- Arguments of a command that is to run in the foreground: no bar, and no `&` at the end.
abbrev pub IsForeground : List Text → Type 0
IsForeground args = IsArguments args × (strip_last args ≡ (false, args))

positive : (n : ℕ) → is_positive (pos (suc n)) ≡ true
positive n = ground arith

module _ (granted : Text → Bool) (all : (s : Text) → granted s ≡ true) where
  parse_line-two :
      (line : Text) (c d : ℕ) (t u : Text) (xs ys : List Text) (x y : Command)
      → tokens line ≡ (c ∷ t) ∷ (xs ++ bar ∷ (d ∷ u) ∷ ys)
      → Names (c ∷ t) x
      → Names (d ∷ u) y
      → IsArguments xs
      → IsArguments ys
      → length xs ≤ 8
      → length ys ≤ 8
      → parse_line granted line ≡ parsed x xs ∷ parsed y ys ∷ []
  parse_line-two line c d t u xs ys x y e n m i j k l =
      let parses =
        subst (λ ts. Parses ts (parse_line granted line)) e (parse_line-found granted all line) in
      let first =
        parse_tokens-Names c t x _ xs ((d ∷ u) ∷ ys) n (args_of-bar 8 xs ((d ∷ u) ∷ ys) i k) in
      let second = parse_tokens-Names d u y ys ys [] m (args_of-end 8 ys j l) in
      let (qs, p, later) = Parses-next _ _ _ _ first parses in
      let (rs, q, last) = Parses-next _ _ _ _ second later in
      p ∙ ap (λ ps. parsed x xs ∷ ps) (q ∙ ap (λ ps. parsed y ys ∷ ps) (Parses-end rs last))

  -- When every argument's memory is granted, a line whose fields are a command that is not built
  -- in, at most 8 arguments, a bar, another such command and at most 8 arguments, neither list with
  -- a bar or with `&` at its end, opens a pipe and, if it and both processes are created, creates
  -- the first process with the pipe for its output and the second with the pipe for its input, both
  -- with their arguments, the second in the foreground, waits for both and closes the pipe.
  pub run_line-pipeline :
      (line : Text) (c d : ℕ) (t u : Text) (xs ys : List Text) (x y : Command) (pipe left right : ℕ)
      → tokens line ≡ (c ∷ t) ∷ (xs ++ bar ∷ (d ∷ u) ∷ ys)
      → Names (c ∷ t) x
      → Names (d ∷ u) y
      → x.is_built_in || y.is_built_in ≡ false
      → IsForeground xs
      → IsForeground ys
      → length xs ≤ 8
      → length ys ≤ 8
      → run_line granted (pos pipe) (pos (suc left)) (pos (suc right)) line
        ≡ open_pipe
          ∷ create_process x.name (x.name ∷ xs) (pos 0 ∷ pos pipe ∷ pos 2 ∷ []) false
          ∷ create_process y.name (y.name ∷ ys) (pos pipe ∷ pos 1 ∷ pos 2 ∷ []) true
          ∷ wait_pid (pos (suc left))
          ∷ wait_pid (pos (suc right))
          ∷ close_pipe (pos pipe)
          ∷ []
  unfolding run_line run_commands run_piped strip_background
  run_line-pipeline line c d t u xs ys x y pipe left right e n m b (i, f) (j, g) k l =
      let ps = parse_line-two line c d t u xs ys x y e n m i j k l in
      ap (λ ps. report line ps ++ run_commands (pos pipe) (pos (suc left)) (pos (suc right)) ps) ps
      ∙ rw (report-parsed, run_commands, b, f, g, positive left, positive right)
