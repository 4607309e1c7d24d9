-- ===== src/Strings/Decimal.antt =====
-- The decimal text of a number.
use tp_so_grupo.Base.{
  ℕ, zero, suc, ◌+◌, ◌-◌, ◌*◌, ◌/◌, ◌%◌, ◌≤◌, ◌≡◌, ◌≢◌, ◌⊎◌, refl, sym, ap, ap₂, ◌∙◌, ◌↔◌, subst,
  inl, inr, true, false, [], ◌∷◌, ◌==◌, arith, pos, sub_ℕ, eq→==, ==_iff, Bool-cases,
}
use tp_so_grupo.Strings.{Text, made, digits_loop, num_to_str, my_strcpy, my_strcmp}

-- The number that the digits of a text stand for, behind digits that stand for `acc`.
value_from : ℕ → Text → ℕ
value_from acc [] = acc
value_from acc (c ∷ s) = value_from (acc * 10 + (c - b'0')) s

pub number : Text → ℕ
unfolding value_from
number s = value_from 0 s

digits_loop-zero : (fuel : ℕ) (out : Text) → digits_loop fuel 0 out ≡ out
unfolding digits_loop
digits_loop-zero zero out = refl
digits_loop-zero (suc n) out = refl

digits_loop-value :
    (fuel num : ℕ) (out : Text)
    → num ≤ fuel
    → value_from 0 (digits_loop fuel num out) ≡ value_from num out
unfolding digits_loop value_from
digits_loop-value zero num out h = let e : num ≡ 0 = omega arith in rw (e, digits_loop)
digits_loop-value (suc n) num out h = elim (Bool-cases (num == 0)) [
  | inl z ↦ rw (digits_loop, z, (==_iff num 0).0 z)
  | inr z ↦
      let e : num / 10 * 10 + (b'0' + num % 10 - b'0') ≡ num = omega arith in
      rw (digits_loop, z)
        (digits_loop-value n (num / 10) ((b'0' + num % 10) ∷ out) (ground (arith, h))
          ∙ ap (λ m. value_from m out) e)
]

abbrev IsDigit : ℕ → Type 0
IsDigit c = (b'0' ≤ c) × (c ≤ b'9')

abbrev pub AreDigits : Text → Type 0
AreDigits [] = Unit {0}
AreDigits (c ∷ s) = IsDigit c × AreDigits s

-- The digits of a number above 0 start with one that is not 0.
digits_loop-starts :
    (fuel num : ℕ) (out : Text)
    → num ≤ fuel
    → num ≢ 0
    → AreDigits out
    → (c : ℕ) × (s : Text) × (digits_loop fuel num out ≡ c ∷ s) × AreDigits (c ∷ s) × (c ≢ b'0')
unfolding digits_loop
digits_loop-starts zero num out h ne d = absurd (ne (omega arith))
digits_loop-starts (suc n) num out h ne d =
    let more : num == 0 ≡ false = ground arith in
    let digit : IsDigit (b'0' + num % 10) = (omega arith, omega arith) in
    elim (Bool-cases (num / 10 == 0)) [
      | inl z ↦
          let last : num / 10 ≡ 0 = (==_iff (num / 10) 0).0 z in
          (
            b'0' + num % 10,
            out,
            rw more (
                ap (λ m. digits_loop n m ((b'0' + num % 10) ∷ out)) last
                ∙ digits_loop-zero n ((b'0' + num % 10) ∷ out)),
            (digit, d),
            omega arith,
          )
      | inr z ↦
          let (c, s, e, ds, first) =
            digits_loop-starts n (num / 10) ((b'0' + num % 10) ∷ out) (ground arith) (ground arith)
              (digit, d) in
          (c, s, rw more e, ds, first)
    ]

-- With the buffer granted, `num_to_str` makes a text of at least one byte, all of them decimal
-- digits, that reads back as the number and starts with a 0 only for the number 0.
pub num_to_str-number :
    (n : ℕ)
    → (c : ℕ) × (s : Text) × (num_to_str true n ≡ made (c ∷ s))
      × AreDigits (c ∷ s)
      × (number (c ∷ s) ≡ n)
      × ((n ≡ 0) ⊎ (c ≢ b'0'))
unfolding number num_to_str value_from
num_to_str-number n = elim (Bool-cases (n == 0)) [
  | inl z ↦
      let e : n ≡ 0 = (==_iff n 0).0 z in
      (b'0', [], rw z, ((omega arith, omega arith), tt), sym e, inl e)
  | inr z ↦
      let (c, s, e, ds, first) = digits_loop-starts n n [] (omega arith) (ground arith) tt in
      (
        c,
        s,
        rw (z, e),
        ds,
        ap (value_from 0) (sym e) ∙ digits_loop-value n n [] (omega arith),
        inr first,
      )
]

pub my_strcpy_self : (s : Text) → my_strcpy s ≡ s
unfolding my_strcpy
my_strcpy_self [] = refl
my_strcpy_self (c ∷ s) = ap (λ t. c ∷ t) (my_strcpy_self s)

-- No byte of the text is the NUL.
abbrev pub NoNul : Text → Type 0
NoNul [] = Unit {0}
NoNul (c ∷ s) = (c ≢ 0) × NoNul s

sub_ℕ-zero : (a b : ℕ) → sub_ℕ a b ≡ pos 0 → a ≡ b
sub_ℕ-zero a b h = ground arith

my_strcmp-same : (s t : Text) → NoNul s → NoNul t → my_strcmp s t ≡ pos 0 → s ≡ t
unfolding my_strcmp
my_strcmp-same [] [] u v h = refl
my_strcmp-same [] (d ∷ t) u (ne, v) h = absurd (ne (sym (sub_ℕ-zero 0 d h)))
my_strcmp-same (c ∷ s) [] (ne, u) v h = absurd (ne (sub_ℕ-zero c 0 h))
my_strcmp-same (c ∷ s) (d ∷ t) (ne, u) (ne', v) h = elim (Bool-cases (c == d)) [
  | inl e ↦
      let rest : my_strcmp s t ≡ pos 0 = rw (my_strcmp, e) at h in
      ap₂ (λ x xs. x ∷ xs) ((==_iff c d).0 e) (my_strcmp-same s t u v rest)
  | inr n ↦
      let apart : sub_ℕ c d ≡ pos 0 = rw (my_strcmp, n) at h in
      absurd (ground (arith, sub_ℕ-zero c d apart))
]

my_strcmp_refl : (s : Text) → my_strcmp s s ≡ pos 0
unfolding my_strcmp
my_strcmp_refl [] = refl
my_strcmp_refl (c ∷ s) = rw (my_strcmp, eq→== c c refl) (my_strcmp_refl s)

-- `my_strcmp` of two texts without a NUL is 0 exactly if they are the same.
pub my_strcmp_iff : (s t : Text) → NoNul s → NoNul t → (my_strcmp s t ≡ pos 0) ↔ (s ≡ t)
my_strcmp_iff s t u v =
    (my_strcmp-same s t u v, λ e. subst (λ r. my_strcmp s r ≡ pos 0) e (my_strcmp_refl s))
