-- ===== src/Libc/Print.antt =====
-- TP2-SO-2025/Userland/libc/stdio.c, the output, and TP2-SO-2025/Userland/libsys/ansiColors.c. What a
-- call writes is a list of bytes and changes of colour. `none` is a call that does not end, or that
-- reads behind its format or its arguments.
pub mod Decimal
pub mod Literal
use tp_so_grupo.Base.{
  ℕ, zero, suc, ◌+◌, ◌-◌, ◌*◌, ◌/◌, ◌%◌, ◌^◌, List, [], ◌∷◌, ◌++◌, map, Bool, true, false, not,
  ◌&&◌, ◌||◌, Option, none, some, ◌==◌, ltb, leb, if◌then◌else◌, ℤ, pos, negsuc,
}
use tp_so_grupo.Strings.{Text}
use tp_so_grupo.Libc.Numbers.{int_limit}

-- What `sys_write` and the colour calls get.
pub data Output : Type 0 where
  byte text_color background_color : ℕ → Output

pub data Arg : Type 0 where
  int long : ℤ → Arg
  unsigned char : ℕ → Arg
  string : Text → Arg

-- The colour of a property from 30 to 37 or 90 to 97.
unfoldable pub color_of : ℕ → Option ℕ
color_of prop =
    if prop == 30
    then some 0x000000
    else if prop == 31
    then some 0xde382b
    else if prop == 32
    then some 0x39b54a
    else if prop == 33
    then some 0xffc706
    else if prop == 34
    then some 0x006fb8
    else if prop == 35
    then some 0x762671
    else if prop == 36
    then some 0x2cb5e9
    else if prop == 37
    then some 0xcccccc
    else if prop == 90
    then some 0x808080
    else if prop == 91
    then some 0xff0000
    else if prop == 92
    then some 0x00ff00
    else if prop == 93
    then some 0xffff00
    else if prop == 94
    then some 0x0000ff
    else if prop == 95
    then some 0xff00ff
    else if prop == 96
    then some 0x00ffff
    else if prop == 97
    then some 0xffffff
    else none

unfoldable pub set_ansi_prop : ℕ → List Output
unfolding color_of
set_ansi_prop prop =
    let behind = (leb 40 prop && leb prop 47) || (leb 100 prop && leb prop 107) in
    if prop == 0
    then text_color 0xffffff ∷ background_color 0 ∷ []
    else elim (color_of (if behind then prop - 10 else prop)) [
      | none ↦ []
      | some c ↦ (if behind then background_color c else text_color c) ∷ []
    ]

abbrev pub upper_digit : ℕ → ℕ
upper_digit r = if ltb r 10 then r + b'0' else r + b'A' - 10

-- The buffer once it is reversed. `fuel` bounds the rounds and starts at the value.
unfoldable pub digits_of : (fuel base : ℕ) → ℕ → Text → Text
digits_of zero base value out = upper_digit (value % base) ∷ out
digits_of (suc n) base value out =
    let rest = digits_of n base (value / base) (upper_digit (value % base) ∷ out) in
    if value / base == 0 then upper_digit (value % base) ∷ out else rest

unfoldable pub uint_to_base : ℕ → (base : ℕ) → Text
unfolding digits_of
uint_to_base value base = digits_of value base value []

abbrev pub bytes : Text → List Output
bytes s = map byte s

-- `printBase`. The negation of the least int is itself, and reads as 2 ^ 64 - 2 ^ 31 on 64 bits.
unfoldable pub print_base : ℤ → (base : ℕ) → List Output
unfolding uint_to_base
print_base (pos n) base = bytes (uint_to_base n base)
print_base (negsuc n) base =
    let least = uint_to_base 18446744071562067968 base in
    byte b'-' ∷ bytes (if n + 1 == int_limit then least else uint_to_base (suc n) base)

-- `printLongBase`, which has a case for the least number.
unfoldable pub print_long_base : ℤ → (base : ℕ) → List Output
unfolding uint_to_base
print_long_base (pos n) base = bytes (uint_to_base n base)
print_long_base (negsuc n) base = byte b'-' ∷ bytes (uint_to_base (suc n) base)

-- Where `vfprintf` stands in its format: in plain text, behind an escape, in its properties, behind
-- a `%`, behind `%l`.
pub data Mode : Type 0 where
  plain escape percent percent_l : Mode
  property : ℕ → Mode

-- What comes out first, and the rest of the output.
abbrev pub before : List Output → Option (List Output) → Option (List Output)
before out none = none
before out (some rest) = some (out ++ rest)

-- What a directive prints, and the arguments that are left. `inner` prints a string argument.
unfoldable pub directive :
    (Text → Option (List Output)) → ℕ → List Arg → Option (List Output × List Arg)
unfolding print_base
directive inner c [] = if c == b'%' then some (byte b'%' ∷ [], []) else none
directive inner c (int n ∷ args) =
    if c == b'x'
    then some (print_base n 16, args)
    else if c == b'd'
    then some (print_base n 10, args)
    else if c == b'o'
    then some (print_base n 8, args)
    else if c == b'b'
    then some (print_base n 2, args)
    else if c == b'%'
    then some (byte b'%' ∷ [], int n ∷ args)
    else none
directive inner c (char n ∷ args) =
    if c == b'c'
    then some (byte n ∷ [], args)
    else if c == b'%'
    then some (byte b'%' ∷ [], char n ∷ args)
    else none
directive inner c (string s ∷ args) =
    if c == b's'
    then elim (inner s) [ none ↦ none | some out ↦ some (out, args) ]
    else if c == b'%'
    then some (byte b'%' ∷ [], string s ∷ args)
    else none
directive inner c (arg ∷ args) = if c == b'%' then some (byte b'%' ∷ [], arg ∷ args) else none

-- The directives that print nothing, and take no argument.
abbrev is_directive : ℕ → Bool
is_directive c =
    c == b'x'
    || (c == b'd' || (c == b'o' || (c == b'b' || (c == b'c' || (c == b's' || c == b'%')))))

unfoldable pub directive_l : ℕ → List Arg → Option (List Output × List Arg)
unfolding uint_to_base print_long_base
directive_l c [] = none
directive_l c (long n ∷ args) = if c == b'd' then some (print_long_base n 10, args) else none
directive_l c (unsigned n ∷ args) =
    if c == b'u'
    then some (bytes (uint_to_base n 10), args)
    else if c == b'x'
    then some (bytes (uint_to_base n 16), args)
    else none
directive_l c (arg ∷ args) = none

-- The byte `c` in plain text, given what comes out behind an escape, behind a `%` and behind a byte
-- that stands for itself.
unfoldable pub plain_step :
    ℕ → (escaped directed rest : Option (List Output)) → Option (List Output)
plain_step c escaped directed rest =
    if c == 27 then escaped else if c == b'%' then directed else before (byte c ∷ []) rest

-- `vfprintf` and `parseANSI` on what is left of the format.
unfoldable pub print_with :
    (Text → Option (List Output)) → Mode → Text → List Arg → Option (List Output)
unfolding set_ansi_prop directive directive_l plain_step
print_with inner plain [] args = some []
print_with inner percent_l [] args = some (byte b'l' ∷ [])
print_with inner mode [] args = none
print_with inner plain (c ∷ f) args =
    plain_step c (print_with inner escape f args) (print_with inner percent f args)
      (print_with inner plain f args)
print_with inner escape (c ∷ f) args =
    let rest = print_with inner (property 0) f args in if c == b'[' then rest else none
print_with inner (property n) (c ∷ f) args =
    let further = print_with inner (property ((n * 10 + c + 256 - b'0') % 256)) f args in
    let next = before (set_ansi_prop n) (print_with inner (property 0) f args) in
    let last = before (set_ansi_prop n) (print_with inner plain f args) in
    if c == b';' then next else if c == b'm' then last else further
print_with inner percent (c ∷ f) args =
    let ignored = print_with inner plain f args in
    let long_one = print_with inner percent_l f args in
    let printed : Option (List Output) = elim (directive inner c args) [
      | none ↦ none
      | some (out, args') ↦ before out (print_with inner plain f args')
    ] in
    if c == b'l' then long_one else if is_directive c then printed else ignored
print_with inner percent_l (c ∷ f) args =
    let escaped = print_with inner escape f args in
    let directed = print_with inner percent f args in
    let rest = print_with inner plain f args in
    let printed : Option (List Output) = elim (directive_l c args) [
      | none ↦ none
      | some (out, args') ↦ before out (print_with inner plain f args')
    ] in
    if c == b'd' || (c == b'u' || c == b'x')
    then printed
    else before (byte b'l' ∷ []) (plain_step c escaped directed rest)

-- `fprintf` of a string argument: the string is the format, and no argument is passed.
unfoldable pub print_string : Text → Option (List Output)
unfolding print_with
print_string s = print_with (λ _. none) plain s []

unfoldable pub vfprintf : Text → List Arg → Option (List Output)
unfolding print_with print_string
vfprintf format args = print_with print_string plain format args

-- Both calls of `printf`.
unfoldable pub puts : Text → Option (List Output)
unfolding vfprintf
puts str = elim (vfprintf str []) [ none ↦ none | some out ↦ before out (vfprintf (10 ∷ []) []) ]
