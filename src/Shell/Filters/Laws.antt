-- ===== src/Shell/Filters/Laws.antt =====
-- What the commands print and ask for.
use mathlib.Core.List.{map-append}
use tp_so_grupo.Base.{
  ℕ, ◌<◌, suc, ◌≡◌, ◌≤◌, inl, inr, refl, sym, ap, ap₂, ◌∙◌, List, [], ◌∷◌, ◌++◌, append-nil,
  append_assoc, true, false, some, ◌==◌, Bool-cases, ==_iff, ltb, arith, ℤ, pos,
}
use tp_so_grupo.Strings.{Text}
use tp_so_grupo.Base.Codes.{codes}
use tp_so_grupo.Libc.Numbers.{itoa, int_limit, IsNegatable}
use tp_so_grupo.Libc.Print.{byte, bytes, before, vfprintf, string, print_with}
use tp_so_grupo.Libc.Print.Literal.{Plain, vfprintf-Plain, vfprintf-string}
use tp_so_grupo.Libc.Scan.Number.{sscanf-itoa}
use tp_so_grupo.Shell.Filters.{
  filter_text, filter_args, filter_input, filter, echo_args, echo, is_vowel, sscanf_int, nice,
  set_process_priority,
}

abbrev pub PlainAll : List Text → Type 0
PlainAll [] = Unit {0}
PlainAll (a ∷ args) = Plain a × PlainAll args

-- The arguments with spaces between them.
pub joined : List Text → Text
joined [] = []
joined (a ∷ args) = let rest = joined args in elim args [ [] ↦ a | b ∷ more ↦ a ++ b' ' ∷ rest ]

vfprintf-end : vfprintf [] [] ≡ some []
unfolding vfprintf print_with
vfprintf-end = refl

vfprintf-break : vfprintf (codes "\n") [] ≡ some (byte 10 ∷ [])
vfprintf-break =
    vfprintf-Plain (10 ∷ []) [] [] (omega arith, omega arith, tt)
    ∙ ap (before (byte 10 ∷ [])) vfprintf-end

vfprintf-space : vfprintf (codes " ") [] ≡ some (byte b' ' ∷ [])
vfprintf-space =
    vfprintf-Plain (b' ' ∷ []) [] [] (omega arith, omega arith, tt)
    ∙ ap (before (byte b' ' ∷ [])) vfprintf-end

-- One argument is printed as it is.
vfprintf-argument : (a : Text) → Plain a → vfprintf (codes "%s") (string a ∷ []) ≡ some (bytes a)
vfprintf-argument a h =
    vfprintf-string [] a [] [] tt h
    ∙ ap (before (bytes a)) vfprintf-end
    ∙ ap some (append-nil (bytes a))

-- The arguments in one line.
echo_args-joined :
    (a : Text) (args : List Text)
    → PlainAll (a ∷ args)
    → echo_args (a ∷ args) ≡ some (bytes (joined (a ∷ args) ++ 10 ∷ []))
unfolding echo_args joined
echo_args-joined a [] (h, end) =
    rw (vfprintf-argument a h, vfprintf-break) (ap some (sym (map-append byte a (10 ∷ []))))
echo_args-joined a (b ∷ args) (h, more) =
    rw (vfprintf-argument a h, vfprintf-space, echo_args-joined b args more)
      (ap some (sym (map-append byte a ((b' ' ∷ joined (b ∷ args)) ++ 10 ∷ [])))
        ∙ ap (λ t. some (bytes t)) (sym (append_assoc a (b' ' ∷ joined (b ∷ args)) (10 ∷ []))))

filter_input-text : (s t : Text) → filter_input (s ++ t) ≡ filter_text s ++ filter_input t
unfolding filter_input filter_text
filter_input-text [] t = refl
filter_input-text (c ∷ s) t = elim (Bool-cases (is_vowel c)) [
  | inl z ↦
      let other : c == 10 ≡ false = ground arith in
      rw (other, filter_input, filter_text, z, filter_input-text s t)
  | inr z ↦ elim (Bool-cases (c == 10)) [
    | inl y ↦
        rw (filter_input, filter_text, z, y)
          (ap₂ (λ d l. d ∷ l) (sym ((==_iff c 10).0 y)) (filter_input-text s t))
    | inr y ↦ rw (filter_input, filter_text, z, y, filter_input-text s t)
  ]
]

filter_input-joined :
    (args : List Text) → filter_input (joined args ++ 10 ∷ []) ≡ filter_args args ++ 10 ∷ 10 ∷ []
unfolding joined filter_args filter_input
filter_input-joined [] = refl
filter_input-joined (a ∷ []) = filter_input-text a (10 ∷ [])
filter_input-joined (a ∷ b ∷ args) =
    ap filter_input (append_assoc a (b' ' ∷ joined (b ∷ args)) (10 ∷ []))
    ∙ filter_input-text a (b' ' ∷ joined (b ∷ args) ++ 10 ∷ [])
    ∙ ap (λ l. filter_text a ++ b' ' ∷ l) (filter_input-joined (b ∷ args))
    ∙ sym (append_assoc (filter_text a) (b' ' ∷ filter_args (b ∷ args)) (10 ∷ 10 ∷ []))

-- `echo` of at least one argument, none with an escape or `%`, prints them in one line and returns
-- 0, and `filter` of that line prints what `filter` prints of the arguments themselves, and one
-- more line break.
pub echo-filter :
    (name other a : Text) (args : List Text)
    → PlainAll (a ∷ args)
    → (echo (name ∷ a ∷ args) ≡ (some (bytes (joined (a ∷ args) ++ 10 ∷ [])), pos 0))
      × (filter (other ∷ []) (joined (a ∷ args) ++ 10 ∷ [])
          ≡ filter (other ∷ a ∷ args) [] ++ 10 ∷ [])
unfolding echo filter
echo-filter name other a args h = (
  ap (λ o. (o, pos 0)) (echo_args-joined a args h),
  filter_input-joined (a ∷ args) ∙ sym (append_assoc (filter_args (a ∷ args)) (10 ∷ []) (10 ∷ [])),
)

sscanf_int-itoa :
    (value : ℤ) (t : Text)
    → IsNegatable value
    → itoa value true 10 ≡ some t
    → sscanf_int t ≡ (value, 1)
unfolding sscanf_int
sscanf_int-itoa value t i e = rw (sscanf_int, sscanf-itoa value t i e)

-- `nice` of a pid above 0 and a priority up to 3 in decimal sets the priority.
pub nice-itoa :
    (name s t : Text) (pid priority : ℕ)
    → suc pid < int_limit
    → itoa (pos (suc pid)) true 10 ≡ some s
    → itoa (pos priority) true 10 ≡ some t
    → priority ≤ 3
    → nice (name ∷ s ∷ t ∷ []) ≡ set_process_priority (pos (suc pid)) (pos priority)
unfolding nice
nice-itoa name s t pid priority l e f h =
    let some_pid : suc pid == 0 ≡ false = ground arith in
    let good : ltb 3 priority ≡ false = ground arith in
    rw (
      nice,
      sscanf_int-itoa (pos (suc pid)) s l e,
      sscanf_int-itoa (pos priority) t (omega arith) f,
      some_pid,
      good,
    )
