-- ===== src/Shell/Parse/Tokens.antt =====
-- parse_command against a parser of token lists.
use tp_so_grupo.Base.{
  is_zero, ℕ, zero, suc, ◌≡◌, ◌≤◌, refl, sym, ap, ◌∙◌, List, [], ◌∷◌, true, false, Option, none,
  some, if◌then◌else◌, inl, inr, Bool-cases, arith, ◌==◌, length,
}
use tp_so_grupo.Strings.{Text}
use tp_so_grupo.Libc.Strings.{strlen, strcasecmp, strcpy, is_delimiter, cut_token, strtok}
use tp_so_grupo.Shell.{Command, ParsedCommand, commands, same, find_command}
use tp_so_grupo.Shell.Parse.{space, bar}

-- A byte in front of the first token.
abbrev in_front : ℕ → List Text → List Text
in_front c [] = (c ∷ []) ∷ []
in_front c (t ∷ ts) = (c ∷ t) ∷ ts

-- The fields between the spaces of a text; behind its last space there is one only if a byte is there.
unfoldable pub tokens : Text → List Text
tokens [] = []
tokens (c ∷ s) = let rest = tokens s in if c == b' ' then [] ∷ rest else in_front c rest

is_delimiter-space : (c : ℕ) → is_delimiter space c ≡ (c == b' ')
unfolding is_delimiter
is_delimiter-space c = elim (Bool-cases (c == b' ')) [ inl z ↦ rw z | inr z ↦ rw z ]

tokens-byte : (c : ℕ) (s : Text) → c == b' ' ≡ false → tokens (c ∷ s) ≡ in_front c (tokens s)
unfolding tokens
tokens-byte c s z = rw z

cut_token-byte :
    (c : ℕ) (s : Text)
    → c == b' ' ≡ false
    → cut_token space (c ∷ s) ≡ (c ∷ (cut_token space s).0, (cut_token space s).1)
unfolding cut_token
cut_token-byte c s z = rw (is_delimiter-space, z)

abbrev first_token : Text × Text → List Text
first_token (t, rest) = t ∷ tokens rest

cut_token-space :
    (c : ℕ) (s : Text) → c == b' ' ≡ true → tokens (c ∷ s) ≡ first_token (cut_token space (c ∷ s))
unfolding tokens cut_token
cut_token-space c s z = rw (tokens, cut_token, is_delimiter-space, z)

cut_token-last :
    (c : ℕ) → c == b' ' ≡ false → tokens (c ∷ []) ≡ first_token (cut_token space (c ∷ []))
unfolding tokens cut_token
cut_token-last c z = rw (is_delimiter-space, z)

-- strtok takes the first token.
cut_token-tokens : (c : ℕ) (s : Text) → tokens (c ∷ s) ≡ first_token (cut_token space (c ∷ s))
cut_token-tokens c [] = elim (Bool-cases (c == b' ')) [
  | inl z ↦ cut_token-space c [] z
  | inr z ↦ cut_token-last c z
]
cut_token-tokens c (d ∷ s) = elim (Bool-cases (c == b' ')) [
  | inl z ↦ cut_token-space c (d ∷ s) z
  | inr z ↦
      tokens-byte c (d ∷ s) z
      ∙ ap (in_front c) (cut_token-tokens d s)
      ∙ ap first_token (sym (cut_token-byte c (d ∷ s) z))
]

-- strtok gave `tok` and stands at `last`: the tokens from `tok` on.
abbrev pub pending : Option Text → Text → List Text
pending none last = []
pending (some t) last = t ∷ tokens last

-- NULL comes at the end of the text only.
abbrev pub IsEnded : Option Text → Text → Type 0
IsEnded none last = last ≡ []
IsEnded (some t) last = Unit {0}

pub strtok-pending :
    (last : Text) → pending (strtok none space last).0 (strtok none space last).1 ≡ tokens last
unfolding strtok tokens
strtok-pending [] = refl
strtok-pending (c ∷ last) = sym (cut_token-tokens c last)

pub strtok-IsEnded : (last : Text) → IsEnded (strtok none space last).0 (strtok none space last).1
unfolding strtok
strtok-IsEnded [] = refl
strtok-IsEnded (c ∷ last) = tt

length-in_front : (c : ℕ) (ts : List Text) → length (in_front c ts) ≤ suc (length ts)
length-in_front c [] = omega arith
length-in_front c (t ∷ ts) = omega arith

pub length-tokens : (s : Text) → length (tokens s) ≤ strlen s
unfolding tokens strlen
length-tokens [] = omega arith
length-tokens (c ∷ s) =
    let rest = length-tokens s in
    let front = length-in_front c (tokens s) in
    elim (Bool-cases (c == b' ')) [ inl z ↦ rw z (omega arith) | inr z ↦ rw z (omega arith) ]

pub strcpy_self : (s : Text) → strcpy s ≡ s
unfolding strcpy
strcpy_self [] = refl
strcpy_self (c ∷ s) = ap (λ t. c ∷ t) (strcpy_self s)

-- The arguments up to the first bar, and the tokens behind it; the first token for which there is no
-- room is lost.
unfoldable pub args_of : (room : ℕ) → List Text → List Text × List Text
args_of room [] = ([], [])
args_of zero (t ∷ ts) = ([], ts)
args_of (suc room) (t ∷ ts) =
    let (more, rest) = args_of room ts in
    if is_zero (strcasecmp t bar) then ([], ts) else (t ∷ more, rest)

unfoldable pub drop_bars : List Text → List Text
drop_bars [] = []
drop_bars (t ∷ ts) = let rest = drop_bars ts in if same t bar then rest else t ∷ ts

unfoldable pub parse_known : Option Command → List Text → Option ParsedCommand × List Text
unfolding args_of
parse_known none ts = (none, ts)
parse_known (some x) ts =
    let (more, rest) = args_of 8 ts in
    (some (record { name = x.name; argv = x.name ∷ more; is_built_in = x.is_built_in }), rest)

unfoldable pub parse_first : List Text → Option ParsedCommand × List Text
unfolding parse_known
parse_first [] = (none, [])
parse_first ([] ∷ ts) = (none, ts)
parse_first ((c ∷ t) ∷ ts) = parse_known (find_command (c ∷ t) commands) ts

-- One command of a list of tokens.
unfoldable pub parse_tokens : List Text → Option ParsedCommand × List Text
unfolding drop_bars parse_first
parse_tokens ts = parse_first (drop_bars ts)
