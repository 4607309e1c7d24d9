-- ===== src/Shell/Parse/Line.antt =====
-- The loop of `main` in TP2-SO-2025/Userland/Shell/shell.c that parses a line.
use tp_so_grupo.Base.{
  is_zero, ℕ, zero, suc, ◌≡◌, ◌≤◌, ◌<◌, refl, sym, ap, ap₂, ◌∙◌, List, [], ◌∷◌, Bool, true, Option,
  none, some, inl, inr, Bool-cases, Option-cases, arith, length,
}
use tp_so_grupo.Strings.{Text}
use tp_so_grupo.Libc.Strings.{strlen, strcmp, strcasecmp, strtok, cut_token}
use tp_so_grupo.Shell.{Command, ParsedCommand, commands, same, find_command}
use tp_so_grupo.Shell.Parse.{bar, skip_pipes, parse_from, parse_command, parse_all, parse_line}
use tp_so_grupo.Shell.Parse.Tokens.{
  tokens, length-tokens, parse_known, args_of, drop_bars, parse_first, parse_tokens,
}
use tp_so_grupo.Shell.Parse.Agreement.{Agrees, parse_command-next, parse_command-line}

-- The commands of a list of tokens, one after the other up to the first that does not parse.
pub data Parses : List Text → List ParsedCommand → Type 0 where
  stop : (ts rest : List Text) → parse_tokens ts ≡ (none, rest) → Parses ts []
  more :
      (ts rest : List Text) (p : ParsedCommand) (ps : List ParsedCommand)
      → parse_tokens ts ≡ (some p, rest)
      → Parses rest ps
      → Parses ts (p ∷ ps)

args_of-shorter : (room : ℕ) (ts : List Text) → length (args_of room ts).1 ≤ length ts
unfolding args_of
args_of-shorter zero [] = omega arith
args_of-shorter (suc room) [] = omega arith
args_of-shorter zero (t ∷ ts) = omega arith
args_of-shorter (suc room) (t ∷ ts) =
    let rest = args_of-shorter room ts in
    elim (Bool-cases (is_zero (strcasecmp t bar))) [
      | inl z ↦ rw z (omega arith)
      | inr z ↦ rw z (omega arith)
    ]

drop_bars-shorter : (ts : List Text) → length (drop_bars ts) ≤ length ts
unfolding drop_bars
drop_bars-shorter [] = omega arith
drop_bars-shorter (t ∷ ts) =
    let rest = drop_bars-shorter ts in
    elim (Bool-cases (same t bar)) [ inl z ↦ rw z (omega arith) | inr z ↦ rw z (omega arith) ]

parse_known-shorter :
    (o : Option Command) (ts : List Text) → length (parse_known o ts).1 ≤ length ts
unfolding parse_known
parse_known-shorter none ts = omega arith
parse_known-shorter (some x) ts = args_of-shorter 8 ts

parse_first-shorter :
    (ts : List Text) (p : ParsedCommand) (rest : List Text)
    → parse_first ts ≡ (some p, rest)
    → length rest < length ts
unfolding parse_first
parse_first-shorter [] p rest e = ground (arith, ap (λ r. r.0) e)
parse_first-shorter ([] ∷ ts) p rest e = ground (arith, ap (λ r. r.0) e)
parse_first-shorter ((c ∷ t) ∷ ts) p rest e =
    let short = parse_known-shorter (find_command (c ∷ t) commands) ts in
    let same_rest : length (parse_known (find_command (c ∷ t) commands) ts).1 ≡ length rest =
      ap (λ r. length r.1) e in
    omega arith

-- A command takes one of the tokens at least.
pub parse_tokens-shorter :
    (ts : List Text) (p : ParsedCommand) (rest : List Text)
    → parse_tokens ts ≡ (some p, rest)
    → length rest < length ts
unfolding parse_tokens
parse_tokens-shorter ts p rest e =
    let short = parse_first-shorter (drop_bars ts) p rest e in
    let bars = drop_bars-shorter ts in omega arith

-- Each command takes a field.
Parses-length : (ts : List Text) (ps : List ParsedCommand) → Parses ts ps → length ps ≤ length ts
Parses-length ts ps (stop ts' rest e) = omega arith
Parses-length ts ps (more ts' rest p qs e later) =
    let short = parse_tokens-shorter ts p rest e in omega (arith, Parses-length rest qs later)

-- Every field is shorter than the array that a command name is copied to.
abbrev pub AreShort : List Text → Type 0
AreShort [] = Unit {0}
AreShort (t ∷ ts) = (strlen t < 256) × AreShort ts

module _ (granted : Text → Bool) (all : (s : Text) → granted s ≡ true) where
  parse_all-step :
      (n : ℕ) (buffer : Option Text) (last : Text) (ts : List Text)
      → length ts < suc n
      → Agrees (parse_command granted buffer last) (parse_tokens ts)
      → ((left : Text)
          → length (tokens left) < n
          → Parses (tokens left) (parse_all granted n none left))
      → Parses ts (parse_all granted (suc n) buffer last)
  unfolding parse_all
  parse_all-step n buffer last ts l (e, i) later =
      elim (Option-cases (parse_command granted buffer last).0) [
        | inl z ↦
            rw (z, parse_all)
              (stop ts (parse_tokens ts).1 (ap (λ o. (o, (parse_tokens ts).1)) (sym e ∙ z)))
        | inr (p, z) ↦
            let left = (parse_command granted buffer last).1 in
            let parsed : parse_tokens ts ≡ (some p, tokens left) =
              ap₂ (λ o r. (o, r)) (sym e ∙ z) (sym i) in
            let short = parse_tokens-shorter ts p (tokens left) parsed in
            rw (z, parse_all)
              (more ts (tokens left) p (parse_all granted n none left) parsed
                (later left (omega arith)))
      ]

  parse_all-Parses :
      (n : ℕ) (last : Text)
      → length (tokens last) < n
      → Parses (tokens last) (parse_all granted n none last)
  parse_all-Parses zero last l = ground arith
  parse_all-Parses (suc n) last l =
      parse_all-step n none last (tokens last) l (parse_command-next granted all last)
        (parse_all-Parses n)

  parse_command-empty : Agrees (parse_command granted (some []) []) (parse_tokens [])
  unfolding parse_command strtok skip_pipes parse_from parse_tokens drop_bars parse_first same
      strcmp strlen tokens cut_token
  parse_command-empty = (refl, refl)

  -- The commands that the loop finds where the shell's buffers do not matter.
  pub parse_line-found : (buffer : Text) → Parses (tokens buffer) (parse_line granted buffer)
  unfolding parse_line strlen tokens
  parse_line-found [] =
      parse_all-step 1 (some []) [] [] (omega arith) parse_command-empty (parse_all-Parses 1)
  parse_line-found (c ∷ s) =
      let short = length-tokens (c ∷ s) in
      parse_all-step (suc (strlen (c ∷ s))) (some (c ∷ s)) [] (tokens (c ∷ s)) (omega arith)
        (parse_command-line granted all c s []) (parse_all-Parses (suc (strlen (c ∷ s))))

  -- The bounds in which the shell stays within its memory: every field is shorter than the 256 bytes
  -- of `command`, and fewer than 5 commands are found, so that their table does not grow.
  pub record FitsShell (buffer : Text) : Type 0 where
    pub short : AreShort (tokens buffer)
    pub few : length (parse_line granted buffer) < 5

  -- When every argument's memory is granted, the parsing loop of the shell's `main` finds on every
  -- line whose fields are shorter than 256 bytes, and on which it finds fewer than 5 commands, those
  -- that the parser of token lists finds in the line's fields, one after the other up to the first
  -- that does not parse, and takes no more fields than there are: the rounds that the loops are given
  -- are enough.
  pub parse_line-Parses :
      (buffer : Text)
      → FitsShell buffer
      → Parses (tokens buffer) (parse_line granted buffer)
        × (length (parse_line granted buffer) ≤ length (tokens buffer))
  parse_line-Parses buffer fits =
      let found = parse_line-found buffer in
      (found, Parses-length (tokens buffer) (parse_line granted buffer) found)
