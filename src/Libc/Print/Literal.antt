-- ===== src/Libc/Print/Literal.antt =====
-- What `vfprintf` prints of the text between its directives.
use tp_so_grupo.Base.{
  ◌≡◌, ◌≢◌, refl, sym, ap, ◌∙◌, List, [], ◌∷◌, ◌++◌, append-nil, append_assoc, true, Option, none,
  some, ne→==, ℤ,
}
use mathlib.Core.List.{map-append}
use tp_so_grupo.Strings.{Text}
use tp_so_grupo.Libc.Numbers.{itoa, IsNegatable}
use tp_so_grupo.Libc.Print.{
  Output, Arg, plain, byte, int, string, bytes, before, directive, plain_step, print_with,
  print_string, print_base, vfprintf,
}
use tp_so_grupo.Libc.Print.Decimal.{print_base-itoa}

-- A text without an escape and without a `%`.
abbrev pub Plain : Text → Type 0
Plain [] = Unit {0}
Plain (c ∷ s) = (c ≢ 27) × (c ≢ b'%') × Plain s

before-empty : (o : Option (List Output)) → before [] o ≡ o
before-empty none = refl
before-empty (some out) = refl

before-join :
    (a b : List Output) (o : Option (List Output)) → before a (before b o) ≡ before (a ++ b) o
before-join a b none = refl
before-join a b (some out) = ap some (sym (append_assoc a b out))

before-bytes :
    (s t : Text) (o : Option (List Output))
    → before (bytes s) (before (bytes t) o) ≡ before (bytes (s ++ t)) o
before-bytes s t o =
    before-join (bytes s) (bytes t) o ∙ ap (λ b. before b o) (sym (map-append byte s t))

-- Such a text is printed as it is, and what follows it goes on in plain text.
pub print_with-Plain :
    (inner : Text → Option (List Output)) (s f : Text) (args : List Arg)
    → Plain s
    → print_with inner plain (s ++ f) args ≡ before (bytes s) (print_with inner plain f args)
unfolding print_with plain_step
print_with-Plain inner [] f args h = sym (before-empty (print_with inner plain f args))
print_with-Plain inner (c ∷ s) f args (e, p, h) =
    rw (plain_step, ne→== c 27 e, ne→== c b'%' p, print_with-Plain inner s f args h)
      (before-join (byte c ∷ []) (bytes s) (print_with inner plain f args))

pub vfprintf-Plain :
    (s f : Text) (args : List Arg)
    → Plain s
    → vfprintf (s ++ f) args ≡ before (bytes s) (vfprintf f args)
unfolding vfprintf
vfprintf-Plain s f args h = print_with-Plain print_string s f args h

-- A string argument without directives comes out as it is.
print_string-Plain : (s : Text) → Plain s → print_string s ≡ some (bytes s)
unfolding print_string print_with
print_string-Plain s h =
    ap print_string (sym (append-nil s))
    ∙ print_with-Plain (λ _. none) s [] [] h
    ∙ ap some (append-nil (bytes s))

vfprintf-d :
    (n : ℤ) (f : Text) (args : List Arg)
    → vfprintf (b'%' ∷ b'd' ∷ f) (int n ∷ args) ≡ before (print_base n 10) (vfprintf f args)
unfolding vfprintf print_with plain_step directive
vfprintf-d n f args = refl

-- `vfprintf` of a text without an escape or `%`, then `%d`, with an int that is not the least one,
-- prints the text and what `itoa` writes in base 10 for the argument, and goes on with the rest of
-- the format and of the arguments.
pub vfprintf-decimal :
    (s t f : Text) (n : ℤ) (args : List Arg)
    → Plain s
    → IsNegatable n
    → itoa n true 10 ≡ some t
    → vfprintf (s ++ b'%' ∷ b'd' ∷ f) (int n ∷ args) ≡ before (bytes (s ++ t)) (vfprintf f args)
vfprintf-decimal s t f n args h i e =
    vfprintf-Plain s (b'%' ∷ b'd' ∷ f) (int n ∷ args) h
    ∙ ap (before (bytes s))
        (vfprintf-d n f args ∙ ap (λ o. before o (vfprintf f args)) (print_base-itoa n t i e))
    ∙ before-bytes s t (vfprintf f args)

vfprintf-s :
    (t f : Text) (args : List Arg)
    → Plain t
    → vfprintf (b'%' ∷ b's' ∷ f) (string t ∷ args) ≡ before (bytes t) (vfprintf f args)
unfolding vfprintf print_with plain_step directive
vfprintf-s t f args h = rw (print_string-Plain t h)

-- %s
pub vfprintf-string :
    (s t f : Text) (args : List Arg)
    → Plain s
    → Plain t
    → vfprintf (s ++ b'%' ∷ b's' ∷ f) (string t ∷ args) ≡ before (bytes (s ++ t)) (vfprintf f args)
vfprintf-string s t f args h p =
    vfprintf-Plain s (b'%' ∷ b's' ∷ f) (string t ∷ args) h
    ∙ ap (before (bytes s)) (vfprintf-s t f args p)
    ∙ before-bytes s t (vfprintf f args)
