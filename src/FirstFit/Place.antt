-- ===== src/FirstFit/Place.antt =====
-- The loop of mm_free in TP2-SO-2025/Kernel/memory/first_fit_mm.c.
use tp_so_grupo.Base.{
  ℕ, zero, suc, ◌≡◌, ◌≤◌, ◌<◌, ◌≢◌, refl, sym, ap, ◌∙◌, subst, List, [], ◌∷◌, ◌++◌, append-nil,
  append_assoc, Bool, true, false, ◌||◌, ltb, Option, some, length, inl, inr, Bool-cases, arith,
}
use tp_so_grupo.FirstFit.{Header, belongs, next_of, find_place}

-- Does the block belong behind one of these headers, the last of which goes on to address `f`?
abbrev stops : (bp f : ℕ) → Header → List Header → Bool
stops bp f x [] = belongs bp x.addr f
stops bp f x (y ∷ ys) = belongs bp x.addr y.addr || stops bp f y ys

abbrev pub IsOutside : ℕ → List Header → Type 0
IsOutside bp [] = Unit {0}
IsOutside bp (b ∷ bs) = (b.addr ≢ bp) × IsOutside bp bs

-- Headers behind none of which it belongs: below it they rise and stay below, above it they rise or go
-- below.
abbrev Rises : (bp x f : ℕ) → Type 0
Rises bp x f = (x < bp → (f < bp) × (x < f)) × (bp < x → bp ≤ f → x < f)

pair-Rises : (bp x y : ℕ) → x ≢ bp → y ≢ bp → belongs bp x y ≡ false → Rises bp x y
pair-Rises bp x y o n s = (λ h. ground arith, λ h l. ground arith)

or_false : (a b : Bool) → a || b ≡ false → (a ≡ false) × (b ≡ false)
or_false true b e = ground (arith, e)
or_false false b e = (refl, e)

Rises-join : (bp x y f : ℕ) → y ≢ bp → Rises bp x y → Rises bp y f → Rises bp x f
Rises-join bp x y f n (a, b) (c, d) = (
  λ h. let (i, j) = a h in let (k, l) = c i in (k, omega arith),
  λ h l. elim (Bool-cases (ltb y bp)) [
    | inl z ↦ let (k, m) = c (ground arith) in omega arith
    | inr z ↦
        let above : bp < y = ground arith in
        let one = b h (omega arith) in let two = d above l in omega arith
  ],
)

stops-Rises :
    (bp f : ℕ) (x : Header) (xs : List Header)
    → IsOutside bp (x ∷ xs)
    → f ≢ bp
    → stops bp f x xs ≡ false
    → Rises bp x.addr f
stops-Rises bp f x [] (o, p) n s = pair-Rises bp x.addr f o n s
stops-Rises bp f x (y ∷ ys) (o, (p, q)) n s =
    let (a, b) = or_false (belongs bp x.addr y.addr) (stops bp f y ys) s in
    Rises-join bp x.addr y.addr f p (pair-Rises bp x.addr y.addr o p a)
      (stops-Rises bp f y ys (p, q) n b)

no_Rises : (bp x : ℕ) → x ≢ bp → Rises bp x x → (b : Bool) → b ≡ true
no_Rises bp x o (low, high) b = elim (Bool-cases (ltb x bp)) [
  | inl z ↦ let (k, m) = low (ground arith) in ground arith
  | inr z ↦ let m = high (ground arith) (ground arith) in ground arith
]

-- Once round, the block belongs somewhere.
stops-round :
    (bp : ℕ) (x : Header) (xs : List Header) → IsOutside bp (x ∷ xs) → stops bp x.addr x xs ≡ true
stops-round bp x xs (o, p) = elim (Bool-cases (stops bp x.addr x xs)) [
  | inl z ↦ z
  | inr z ↦ no_Rises bp x.addr o (stops-Rises bp x.addr x xs (o, p) o z) (stops bp x.addr x xs)
]

abbrev first_address : ℕ → List Header → ℕ
first_address f [] = f
first_address f (b ∷ bs) = b.addr

abbrev pub Ends : Option (List Header) → Type 0
Ends o = (p : Header) × (ps : List Header) × (o ≡ some (p ∷ ps))

next_of-first :
    (x : Header) (done : List Header) → (next_of x done).addr ≡ first_address x.addr done
next_of-first x [] = refl
next_of-first x (d ∷ done) = refl

first_address-append :
    (f : ℕ) (x : Header) (done : List Header)
    → first_address f (done ++ x ∷ []) ≡ first_address x.addr done
first_address-append f x [] = refl
first_address-append f x (d ∷ done) = refl

-- The loop with `x` and `xs` to go and `done` behind it, which starts with the first header.
find_place-stops :
    (fuel bp : ℕ) (x : Header) (xs done : List Header)
    → length (x ∷ xs) ≤ fuel
    → stops bp (first_address x.addr done) x xs ≡ true
    → Ends (find_place fuel bp (x ∷ xs ++ done))
unfolding find_place
find_place-stops zero bp x xs done l s = ground arith
find_place-stops (suc n) bp x [] done l s =
    let here : belongs bp x.addr (next_of x done).addr ≡ true =
      ap (belongs bp x.addr) (next_of-first x done) ∙ s in
    (x, done, rw here)
find_place-stops (suc n) bp x (y ∷ ys) done l s = elim (Bool-cases (belongs bp x.addr y.addr)) [
  | inl z ↦ (x, y ∷ ys ++ done, rw z)
  | inr z ↦
      let later : stops bp (first_address y.addr (done ++ x ∷ [])) y ys ≡ true =
        ap (λ f. stops bp f y ys) (first_address-append y.addr x done)
        ∙ sym (ap (λ b. b || stops bp (first_address x.addr done) y ys) z)
        ∙ s in
      rw z (
        subst (λ l. Ends (find_place n bp (y ∷ l))) (sym (append_assoc ys done (x ∷ [])))
          (find_place-stops n bp y ys (done ++ x ∷ []) (omega arith) later))
]

-- the loop ends
pub find_place-Ends :
    (fuel bp : ℕ) (x : Header) (xs : List Header)
    → IsOutside bp (x ∷ xs)
    → length (x ∷ xs) ≤ fuel
    → Ends (find_place fuel bp (x ∷ xs))
find_place-Ends fuel bp x xs o l =
    subst (λ l. Ends (find_place fuel bp (x ∷ l))) (append-nil xs)
      (find_place-stops fuel bp x xs [] l (stops-round bp x xs o))
