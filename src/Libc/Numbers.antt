-- ===== src/Libc/Numbers.antt =====
-- TP2-SO-2025/Userland/libc/stdlib.c: rand, atoi and itoa. An int is the integer that it stands for.
-- The negation of the least int is the least int again; the sum of atoi is not cut to 32 bits.
pub mod RoundTrip
use tp_so_grupo.Base.{
  ℕ, zero, suc, ◌+◌, ◌-◌, ◌*◌, ◌/◌, ◌%◌, ◌^◌, ◌<◌, List, [], ◌∷◌, ◌++◌, Bool, true, false, not,
  ◌&&◌, ◌||◌, Option, none, some, ◌==◌, ltb, leb, if◌then◌else◌, ℤ, pos, negsuc,
}
use tp_so_grupo.Strings.{Text}

-- The next state of the generator, of 64 bits.
unfoldable pub next_state : ℕ → ℕ
next_state next = (next * 1103515245 + 12345) % 2 ^ 64

-- `(unsigned int)(next / 65536) % 32768` in the new state.
unfoldable pub rand : ℕ → ℕ × ℕ
unfolding next_state
rand next = let s = next_state next in (s / 65536 % 2 ^ 32 % 32768, s)

abbrev pub is_digit : ℕ → Bool
is_digit c = leb b'0' c && leb c b'9'

abbrev pub is_space : ℕ → Bool
is_space c = c == b' ' || (c == 9 || c == 10)

-- `sign * result`
abbrev pub signed : (negative : Bool) → ℕ → ℤ
signed false n = pos n
signed true zero = pos 0
signed true (suc n) = negsuc n

unfoldable pub skip_spaces : Text → Text
skip_spaces [] = []
skip_spaces (c ∷ s) = let rest = skip_spaces s in if is_space c then rest else c ∷ s

-- The loop over the digits, and what stands behind them.
unfoldable pub read_digits : ℕ → Text → ℕ × Text
read_digits result [] = (result, [])
read_digits result (c ∷ s) =
    let rest = read_digits (result * 10 + (c - b'0')) s in
    if is_digit c then rest else (result, c ∷ s)

-- From the sign on.
unfoldable pub read_signed : Text → ℤ
unfolding read_digits
read_signed [] = pos 0
read_signed (c ∷ s) =
    if c == b'-'
    then signed true (read_digits 0 s).0
    else if c == b'+'
    then signed false (read_digits 0 s).0
    else signed false (read_digits 0 (c ∷ s)).0

unfoldable pub atoi : Text → ℤ
unfolding skip_spaces read_signed
atoi s = read_signed (skip_spaces s)

-- The digit of a remainder.
abbrev pub digit : ℕ → ℕ
digit r = if ltb r 10 then r + b'0' else r - 10 + b'a'

-- The digits in the buffer once it is reversed: the loop puts the least significant one first.
-- `fuel` bounds the rounds and starts at the value.
unfoldable pub write_digits : (fuel base : ℕ) → ℕ → Text → Text
write_digits zero base value out = out
write_digits (suc n) base value out =
    let rest = write_digits n base (value / base) (digit (value % base) ∷ out) in
    if value == 0 then out else rest

-- The same for a negative value in another base than 10: its remainders are negative.
unfoldable pub write_negative : (fuel base : ℕ) → ℕ → Text → Text
write_negative zero base value out = out
write_negative (suc n) base value out =
    let rest = write_negative n base (value / base) ((b'0' - value % base) ∷ out) in
    if value == 0 then out else rest

-- 2 ^ 31: `-2 ^ 31` is the least int, whose negation is itself.
abbrev pub int_limit : ℕ
int_limit = 2147483648

-- A value that is not 0. The least int stays negative in base 10 too.
unfoldable pub write_value : ℤ → (base : ℕ) → Text
unfolding write_digits write_negative
write_value (pos n) base = write_digits n base n []
write_value (negsuc n) base =
    let negative = write_negative (suc n) base (suc n) [] in
    if base == 10
    then b'-' ∷ (if n + 1 == int_limit then negative else write_digits (suc n) base (suc n) [])
    else negative

-- The ints with a negation: all but the least.
abbrev pub IsNegatable : ℤ → Type 0
IsNegatable (pos n) = n < int_limit
IsNegatable (negsuc n) = n + 1 < int_limit

-- `none` is NULL; `str` says whether there is a buffer.
unfoldable pub itoa : ℤ → (str : Bool) → (base : ℕ) → Option Text
unfolding write_value
itoa value str base = if not str || (ltb base 2 || ltb 36 base) then none else elim value [
  | pos zero ↦ some (b'0' ∷ [])
  | pos (suc n) ↦ some (write_value (pos (suc n)) base)
  | negsuc n ↦ some (write_value (negsuc n) base)
]
