-- ===== src/Shell/Parse/Agreement.antt =====
-- parse_command and its loop in `main` against the parser of token lists.
use tp_so_grupo.Base.{
  is_zero, ℕ, zero, suc, ◌≡◌, ◌≤◌, refl, sym, ap, ◌∙◌, subst, List, [], ◌∷◌, Bool, true, Option,
  none, some, inl, inr, Bool-cases, arith, length,
}
use mathlib.Core.Option as Options
use tp_so_grupo.Strings.{Text}
use tp_so_grupo.Libc.Strings.{strlen, strcasecmp, strtok}
use tp_so_grupo.Shell.{Command, commands, same, find_command}
use tp_so_grupo.Shell.Parse.{
  space, bar, skip_pipes, with_arg, read_args, parse_with, parse_from, parse_command,
}
use tp_so_grupo.Shell.Parse.Tokens.{
  tokens, pending, strtok-pending, IsEnded, strtok-IsEnded, strcpy_self, length-tokens, parse_known,
  args_of, drop_bars, parse_first, parse_tokens,
}

-- What a step left of the text, and of the tokens.
abbrev pub Agrees : {A : Type 0} → A × Text → A × List Text → Type 0
Agrees (a, last) (b, ts) = (a ≡ b) × (tokens last ≡ ts)

skip_pipes-drop_bars :
    (fuel : ℕ) (tok : Option Text) (last : Text)
    → IsEnded tok last
    → length (pending tok last) ≤ fuel
    → (pending (skip_pipes fuel tok last).0 (skip_pipes fuel tok last).1
        ≡ drop_bars (pending tok last))
      × IsEnded (skip_pipes fuel tok last).0 (skip_pipes fuel tok last).1
unfolding skip_pipes drop_bars
skip_pipes-drop_bars zero none last h l = (refl, h)
skip_pipes-drop_bars (suc n) none last h l = (refl, h)
skip_pipes-drop_bars zero (some t) last h l = ground arith
skip_pipes-drop_bars (suc n) (some t) last h l = elim (Bool-cases (same t bar)) [
  | inl z ↦
      let next = strtok-pending last in
      let short : length (pending (strtok none space last).0 (strtok none space last).1) ≤ n =
        rw next (omega arith) in
      let (e, i) =
        skip_pipes-drop_bars n (strtok none space last).0 (strtok none space last).1
          (strtok-IsEnded last) short in
      rw z (e ∙ ap drop_bars next, i)
  | inr z ↦ rw z (refl, tt)
]

with_arg-Agrees :
    (a : Text) (r : Option (List Text) × Text) (more : List Text) (ts : List Text)
    → Agrees r (some more, ts)
    → Agrees (with_arg a r) (some (a ∷ more), ts)
unfolding with_arg
with_arg-Agrees a (none, last) more ts (e, i) = (ap (Options.map (λ xs. a ∷ xs)) e, i)
with_arg-Agrees a (some xs, last) more ts (e, i) = (ap (Options.map (λ xs. a ∷ xs)) e, i)

length-pending :
    (tok : Option Text) (last : Text) → length (pending tok last) ≤ suc (suc (strlen last))
length-pending none last = omega arith
length-pending (some t) last = let short = length-tokens last in omega arith

module _ (granted : Text → Bool) (all : (s : Text) → granted s ≡ true) where
  read_args-args_of :
      (room : ℕ) (tok : Option Text) (last : Text)
      → IsEnded tok last
      → Agrees
          (read_args granted room tok last)
          (some (args_of room (pending tok last)).0, (args_of room (pending tok last)).1)
  unfolding read_args args_of tokens
  read_args-args_of zero none last h = (refl, ap tokens h)
  read_args-args_of (suc room) none last h = (refl, ap tokens h)
  read_args-args_of zero (some t) last h = (refl, refl)
  read_args-args_of (suc room) (some t) last h = elim (Bool-cases (is_zero (strcasecmp t bar))) [
    | inl z ↦ rw z (refl, refl)
    | inr z ↦
        let (e, i) =
          read_args-args_of room (strtok none space last).0 (strtok none space last).1
            (strtok-IsEnded last) in
        let r = read_args granted room (strtok none space last).0 (strtok none space last).1 in
        let step =
          with_arg-Agrees t r (args_of room (tokens last)).0 (args_of room (tokens last)).1 in
        rw (z, all last, strcpy_self)
          (step (
            subst (λ ts. Agrees r (some (args_of room ts).0, (args_of room ts).1))
              (strtok-pending last) (e, i)))
  ]

  parse_with-parse_known :
      (o : Option Command) (last : Text)
      → Agrees (parse_with granted o last) (parse_known o (tokens last))
  unfolding parse_with parse_known
  parse_with-parse_known none last = (refl, refl)
  parse_with-parse_known (some c) last =
      let (tok, left) = strtok none space last in
      let (e, i) = read_args-args_of 8 tok left (strtok-IsEnded last) in
      let next = strtok-pending last in
      (
        ap
              (Options.map (λ more. record {
                name = c.name;
                argv = c.name ∷ more;
                is_built_in = c.is_built_in;
              }))
              e
            ∙ ap
                (λ ts. some (record {
                  name = c.name;
                  argv = c.name ∷ (args_of 8 ts).0;
                  is_built_in = c.is_built_in;
                }))
                next,
        i ∙ ap (λ ts. (args_of 8 ts).1) next,
      )

  parse_from-parse_first :
      (tok : Option Text) (last : Text)
      → IsEnded tok last
      → Agrees (parse_from granted tok last) (parse_first (pending tok last))
  unfolding parse_from parse_first tokens
  parse_from-parse_first none last h = (refl, ap tokens h)
  parse_from-parse_first (some []) last h = (refl, refl)
  parse_from-parse_first (some (c ∷ t)) last h =
      subst
        (λ s.
          Agrees (parse_with granted (find_command s commands) last)
            (parse_known (find_command (c ∷ t) commands) (tokens last)))
        (sym (strcpy_self (c ∷ t))) (parse_with-parse_known (find_command (c ∷ t) commands) last)

  -- From the first token on, with the rounds that parse_command allows.
  parse-Agrees :
      (tok : Option Text) (last : Text)
      → IsEnded tok last
      → Agrees
          (parse_from granted
            (skip_pipes (suc (suc (strlen last))) tok last).0
            (skip_pipes (suc (suc (strlen last))) tok last).1)
          (parse_tokens (pending tok last))
  unfolding parse_tokens
  parse-Agrees tok last h =
      let (e, i) =
        skip_pipes-drop_bars (suc (suc (strlen last))) tok last h (length-pending tok last) in
      subst
        (λ ts.
          Agrees
            (parse_from granted (skip_pipes (suc (suc (strlen last))) tok last).0
              (skip_pipes (suc (suc (strlen last))) tok last).1)
            (parse_first ts))
        e (parse_from-parse_first _ _ i)

  pub parse_command-next :
      (last : Text) → Agrees (parse_command granted none last) (parse_tokens (tokens last))
  unfolding parse_command
  parse_command-next last =
      subst (λ ts. Agrees (parse_command granted none last) (parse_tokens ts)) (strtok-pending last)
        (parse-Agrees (strtok none space last).0 (strtok none space last).1 (strtok-IsEnded last))

  pub parse_command-line :
      (c : ℕ) (s last : Text)
      → Agrees (parse_command granted (some (c ∷ s)) last) (parse_tokens (tokens (c ∷ s)))
  unfolding parse_command strtok
  parse_command-line c s last = parse_command-next (c ∷ s)
