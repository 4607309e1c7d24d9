-- ===== src/Libc/Print/Decimal.antt =====
-- The numbers of `printf` and those of `itoa` in stdlib.c.
use tp_so_grupo.Base.{
  ℕ, zero, suc, ◌/◌, ◌%◌, ◌<◌, ◌≤◌, ◌≡◌, ◌≢◌, inl, inr, refl, ap, ◌∙◌, [], ◌∷◌, true, false, some,
  ◌==◌, ltb, arith, ℤ, pos, negsuc, Bool-cases, ==_iff,
}
use mathlib.Core.Option.{some-injective}
use tp_so_grupo.Strings.{Text}
use tp_so_grupo.Libc.Numbers.{digit, write_digits, write_value, itoa, IsNegatable}
use tp_so_grupo.Libc.Numbers.RoundTrip.{above-int_limit}
use tp_so_grupo.Libc.Print.{byte, bytes, upper_digit, digits_of, uint_to_base, print_base}

write_digits-zero : (fuel base : ℕ) (out : Text) → write_digits fuel base 0 out ≡ out
unfolding write_digits
write_digits-zero zero base out = refl
write_digits-zero (suc n) base out = refl

upper_digit-digit : (r : ℕ) → r < 10 → upper_digit r ≡ digit r
upper_digit-digit r h = let small : ltb r 10 ≡ true = ground arith in rw small

-- The loop that tests at its end and the one that tests at its start write the same digits.
pub digits_of-write_digits :
    (fuel value : ℕ) (out : Text)
    → value ≢ 0
    → value ≤ fuel
    → digits_of fuel 10 value out ≡ write_digits fuel 10 value out
unfolding digits_of write_digits
digits_of-write_digits zero value out h l = ground arith
digits_of-write_digits (suc n) value out h l =
    let some_value : value == 0 ≡ false = ground arith in
    let same = upper_digit-digit (value % 10) (omega arith) in
    elim (Bool-cases (value / 10 == 0)) [
      | inl z ↦
          let e = (==_iff (value / 10) 0).0 z in
          rw (digits_of, write_digits, some_value, z, same, e, write_digits-zero)
      | inr z ↦
          let rest =
            digits_of-write_digits n (value / 10) (digit (value % 10) ∷ out) (ground arith)
              (ground arith) in
          rw (digits_of, write_digits, some_value, z, same) rest
    ]

uint_to_base-write_digits : (n : ℕ) → uint_to_base (suc n) 10 ≡ write_digits (suc n) 10 (suc n) []
unfolding uint_to_base
uint_to_base-write_digits n = digits_of-write_digits (suc n) (suc n) [] (omega arith) (omega arith)

-- `printBase` and `itoa` write the same in base 10 for an int that is not the least one.
pub print_base-itoa :
    (value : ℤ) (t : Text)
    → IsNegatable value
    → itoa value true 10 ≡ some t
    → print_base value 10 ≡ bytes t
unfolding itoa write_value print_base uint_to_base digits_of
print_base-itoa (pos zero) t i h = ap bytes (some-injective _ t h)
print_base-itoa (pos (suc n)) t i h = ap bytes (uint_to_base-write_digits n ∙ some-injective _ t h)
print_base-itoa (negsuc n) t i h =
    let below = above-int_limit n i in
    let h' : some (b'-' ∷ write_digits (suc n) 10 (suc n) []) ≡ some t = rw below at h in
    rw below (
      ap (λ d. byte b'-' ∷ bytes d) (uint_to_base-write_digits n)
      ∙ ap bytes (some-injective _ t h'))
