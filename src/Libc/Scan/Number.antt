-- ===== src/Libc/Scan/Number.antt =====
-- vsscanf reads a number that itoa or printf wrote.
use tp_so_grupo.Base.{
  ℕ, zero, suc, ◌≡◌, inl, inr, refl, sym, ap, ◌∙◌, [], ◌∷◌, ◌++◌, append-nil, Bool, true, false,
  some, ◌==◌, ◌/◌, ◌%◌, arith, ℤ, pos, negsuc, Bool-cases,
}
use mathlib.Core.Option.{some-injective}
use tp_so_grupo.Strings.{Text}
use tp_so_grupo.Libc.Numbers.{
  is_digit, digit, signed, read_digits, write_digits, write_value, itoa, IsNegatable,
}
use tp_so_grupo.Libc.Numbers.RoundTrip.{
  NoDigit, read_digits-end, write_digits-read, write_digits-starts, above-int_limit,
}
use tp_so_grupo.Libc.Scan.{integer, also, scan_digits, scan_int, vsscanf, sscanf}

write_digits-append :
    (fuel value : ℕ) (out rest : Text)
    → write_digits fuel 10 value out ++ rest ≡ write_digits fuel 10 value (out ++ rest)
unfolding write_digits
write_digits-append zero value out rest = refl
write_digits-append (suc n) value out rest = elim (Bool-cases (value == 0)) [
  | inl z ↦ rw (write_digits, z)
  | inr z ↦
      rw (write_digits, z) (write_digits-append n (value / 10) (digit (value % 10) ∷ out) rest)
]

abbrev number : ℕ → Text
number n = write_digits (suc n) 10 (suc n) []

read_digits-number :
    (n : ℕ) (rest : Text) → NoDigit rest → read_digits 0 (number n ++ rest) ≡ (suc n, rest)
read_digits-number n rest h =
    ap (read_digits 0) (write_digits-append (suc n) (suc n) [] rest)
    ∙ write_digits-read (suc n) (suc n) rest (omega arith)
    ∙ read_digits-end (suc n) rest h

scan_digits-first :
    (negative : Bool) (c : ℕ) (s : Text)
    → is_digit c ≡ true
    → scan_digits negative (c ∷ s)
      ≡ (signed negative (read_digits 0 (c ∷ s)).0, (1, (read_digits 0 (c ∷ s)).1))
unfolding scan_digits
scan_digits-first negative c s h = rw h

scan_digits-number :
    (negative : Bool) (n : ℕ) (rest : Text)
    → NoDigit rest
    → scan_digits negative (number n ++ rest) ≡ (signed negative (suc n), (1, rest))
scan_digits-number negative n rest h =
    let (c, s, e, is) = write_digits-starts n in
    ap (λ w. scan_digits negative (w ++ rest)) e
    ∙ scan_digits-first negative c (s ++ rest) is
    ∙ ap (λ w. (signed negative (read_digits 0 (w ++ rest)).0, (1, (read_digits 0 (w ++ rest)).1)))
        (sym e)
    ∙ ap (λ r. (signed negative r.0, (1, r.1))) (read_digits-number n rest h)

scan_int-first :
    (c : ℕ) (s : Text) → is_digit c ≡ true → scan_int (c ∷ s) ≡ some (scan_digits false (c ∷ s))
unfolding scan_int
scan_int-first c s h = let minus : c == b'-' ≡ false = ground arith in rw (minus, h)

scan_int-number :
    (n : ℕ) (rest : Text)
    → NoDigit rest
    → scan_int (number n ++ rest) ≡ some (pos (suc n), (1, rest))
scan_int-number n rest h =
    let (c, s, e, is) = write_digits-starts n in
    ap (λ w. scan_int (w ++ rest)) e
    ∙ scan_int-first c (s ++ rest) is
    ∙ ap (λ w. some (scan_digits false (w ++ rest))) (sym e)
    ∙ ap some (scan_digits-number false n rest h)

-- The written number is read whole, and nothing behind it.
pub scan_int-itoa :
    (value : ℤ) (t rest : Text)
    → IsNegatable value
    → itoa value true 10 ≡ some t
    → NoDigit rest
    → scan_int (t ++ rest) ≡ some (value, (1, rest))
unfolding scan_int itoa write_value scan_digits read_digits
scan_int-itoa (pos zero) t rest i e h =
    ap (λ w. scan_int (w ++ rest)) (sym (some-injective _ t e))
    ∙ ap (λ r. some (pos r.0, (1, r.1))) (read_digits-end 0 rest h)
scan_int-itoa (pos (suc n)) t rest i e h =
    ap (λ w. scan_int (w ++ rest)) (sym (some-injective _ t e)) ∙ scan_int-number n rest h
scan_int-itoa (negsuc n) t rest i e h =
    let e' : some (b'-' ∷ number n) ≡ some t = rw (above-int_limit n i) at e in
    ap (λ w. scan_int (w ++ rest)) (sym (some-injective _ t e'))
    ∙ ap some (scan_digits-number true n rest h)

-- `%d` of `vsscanf` reads the number that `itoa` wrote in base 10 for an int that is not the least
-- one, counts one argument, and leaves what follows if that does not start with a digit.
pub vsscanf-itoa :
    (value : ℤ) (t rest format : Text)
    → IsNegatable value
    → itoa value true 10 ≡ some t
    → NoDigit rest
    → vsscanf false (b'%' ∷ b'd' ∷ format) (some (t ++ rest))
      ≡ also (integer value) 1 (vsscanf false format (some rest))
unfolding vsscanf
vsscanf-itoa value t rest format i e h = rw (scan_int-itoa value t rest i e h)

pub sscanf-itoa :
    (value : ℤ) (t : Text)
    → IsNegatable value
    → itoa value true 10 ≡ some t
    → sscanf t (b'%' ∷ b'd' ∷ []) ≡ some (integer value ∷ [], 1)
unfolding sscanf also vsscanf
sscanf-itoa value t i e =
    ap (λ s. sscanf s (b'%' ∷ b'd' ∷ [])) (sym (append-nil t)) ∙ vsscanf-itoa value t [] [] i e tt
