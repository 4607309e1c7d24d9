-- ===== src/Libc/Numbers/RoundTrip.antt =====
-- `atoi` reads what `itoa` writes.
use tp_so_grupo.Base.{
  ℕ, zero, suc, ◌+◌, ◌-◌, ◌*◌, ◌/◌, ◌%◌, ◌<◌, ◌≤◌, ◌≡◌, inl, inr, refl, sym, ap, ◌∙◌, [], ◌∷◌, true,
  false, some, ◌==◌, ltb, arith, ℤ, pos, negsuc, Bool-cases, ==_iff,
}
use mathlib.Core.Option as Options
use tp_so_grupo.Strings.{Text}
use tp_so_grupo.Libc.Numbers.{
  is_digit, is_space, digit, signed, skip_spaces, read_digits, read_signed, atoi, write_digits,
  write_value, write_negative, itoa, int_limit, IsNegatable,
}

-- What does not start with a digit ends the digits.
abbrev pub NoDigit : Text → Type 0
NoDigit [] = Unit {0}
NoDigit (c ∷ s) = is_digit c ≡ false

pub read_digits-end : (acc : ℕ) (s : Text) → NoDigit s → read_digits acc s ≡ (acc, s)
unfolding read_digits
read_digits-end acc [] h = refl
read_digits-end acc (c ∷ s) h = rw (read_digits, h)

-- A decimal digit is read as it was written.
read_digits-digit :
    (acc r : ℕ) (s : Text) → r < 10 → read_digits acc (digit r ∷ s) ≡ read_digits (acc * 10 + r) s
unfolding read_digits
read_digits-digit acc r s h =
    let small : ltb r 10 ≡ true = ground arith in
    let is : is_digit (r + b'0') ≡ true = ground arith in
    let back : r + b'0' - b'0' ≡ r = omega arith in rw (small, is, back)

-- The digits of a value, with those of `out` behind them, read as the value followed by `out`.
pub write_digits-read :
    (fuel value : ℕ) (out : Text)
    → value ≤ fuel
    → read_digits 0 (write_digits fuel 10 value out) ≡ read_digits value out
unfolding write_digits
write_digits-read zero value out h = let e : value ≡ 0 = omega arith in rw (e, write_digits)
write_digits-read (suc n) value out h = elim (Bool-cases (value == 0)) [
  | inl z ↦ rw (write_digits, z, (==_iff value 0).0 z)
  | inr z ↦
      let e : value / 10 * 10 + value % 10 ≡ value = omega arith in
      rw (write_digits, z)
        (write_digits-read n (value / 10) (digit (value % 10) ∷ out) (ground (arith, h))
          ∙ read_digits-digit (value / 10) (value % 10) out (omega arith)
          ∙ ap (λ m. read_digits m out) e)
]

-- A digit or a sign is no space.
skip_spaces-tight : (c : ℕ) (s : Text) → is_space c ≡ false → skip_spaces (c ∷ s) ≡ c ∷ s
unfolding skip_spaces
skip_spaces-tight c s h = rw (skip_spaces, h)

-- What reading does at the first character of a number.
pub atoi-digits :
    (c : ℕ) (s : Text) → is_digit c ≡ true → atoi (c ∷ s) ≡ signed false (read_digits 0 (c ∷ s)).0
unfolding atoi read_signed
atoi-digits c s h =
    let tight : is_space c ≡ false = ground arith in
    let minus : c == b'-' ≡ false = ground arith in
    let plus : c == b'+' ≡ false = ground arith in
    rw (atoi, skip_spaces-tight c s tight, read_signed, minus, plus)

pub atoi-minus : (s : Text) → atoi (b'-' ∷ s) ≡ signed true (read_digits 0 s).0
unfolding atoi read_signed skip_spaces
atoi-minus s = refl

-- The first of the digits of a value is a digit.
write_digits-first :
    (fuel value : ℕ) (d : ℕ) (out : Text)
    → is_digit d ≡ true
    → (c : ℕ) × (s : Text) × (write_digits fuel 10 value (d ∷ out) ≡ c ∷ s) × (is_digit c ≡ true)
unfolding write_digits
write_digits-first zero value d out h = (d, out, refl, h)
write_digits-first (suc n) value d out h = elim (Bool-cases (value == 0)) [
  | inl z ↦ (d, out, rw (write_digits, z), h)
  | inr z ↦
      let small : ltb (value % 10) 10 ≡ true = ground arith in
      let (c, s, e, is) =
        write_digits-first n (value / 10) (digit (value % 10)) (d ∷ out) (ground arith) in
      (c, s, rw (write_digits, z) e, is)
]

-- Reading the digits of a positive value, from the first character on.
pub write_digits-starts :
    (n : ℕ)
    → (c : ℕ) × (s : Text) × (write_digits (suc n) 10 (suc n) [] ≡ c ∷ s) × (is_digit c ≡ true)
unfolding write_digits
write_digits-starts n =
    let small : ltb (suc n % 10) 10 ≡ true = ground arith in
    let nonzero : suc n == 0 ≡ false = ground arith in
    let (c, s, e, is) = write_digits-first n (suc n / 10) (digit (suc n % 10)) [] (ground arith) in
    (c, s, rw nonzero e, is)

read_digits-whole : (n : ℕ) → read_digits 0 (write_digits (suc n) 10 (suc n) []) ≡ (suc n, [])
read_digits-whole n =
    write_digits-read (suc n) (suc n) [] (omega arith) ∙ read_digits-end (suc n) [] tt

atoi-write_digits : (n : ℕ) → atoi (write_digits (suc n) 10 (suc n) []) ≡ pos (suc n)
atoi-write_digits n =
    let (c, s, e, is) = write_digits-starts n in
    ap atoi e
    ∙ atoi-digits c s is
    ∙ ap (λ w. signed false (read_digits 0 w).0) (sym e)
    ∙ ap (λ r. signed false r.0) (read_digits-whole n)

-- The least int is -2 ^ 31, so a number above it is none.
pub above-int_limit : (n : ℕ) → IsNegatable (negsuc n) → n + 1 == int_limit ≡ false
above-int_limit n h = ground arith

-- `atoi` of what `itoa` writes in base 10 for an int that is not the least one is the number.
pub itoa-atoi : (value : ℤ) → IsNegatable value → Options.map atoi (itoa value true 10) ≡ some value
unfolding itoa write_value atoi
itoa-atoi (pos zero) h = refl
itoa-atoi (pos (suc n)) h = ap some (atoi-write_digits n)
itoa-atoi (negsuc n) h =
    let digits = write_digits (suc n) 10 (suc n) [] in
    rw (above-int_limit n h)
      (ap some (atoi-minus digits ∙ ap (λ r. signed true r.0) (read_digits-whole n)))

-- For the least int `itoa` writes no number: `atoi` reads 0 from what it writes.
pub itoa-least : Options.map atoi (itoa (negsuc 2147483647) true 10) ≡ some (pos 0)
unfolding itoa write_value atoi write_negative skip_spaces read_signed read_digits
itoa-least = refl
