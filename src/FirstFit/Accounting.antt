-- ===== src/FirstFit/Accounting.antt =====
-- What TP2-SO-2025/Kernel/memory/first_fit_mm.c counts as free, and what it hands out.
use tp_so_grupo.Base.{
  ℕ, ◌-◌, ◌+◌, ◌*◌, ◌^◌, ◌≡◌, ◌≤◌, ◌<◌, ◌≢◌, refl, ap, ◌∙◌, List, [], ◌∷◌, ◌++◌, true, false,
  Option, none, some, ◌==◌, leb, if◌then◌else◌, length, inl, inr, Bool-cases, arith,
}
use tp_so_grupo.FirstFit.{
  unit_size, Header, FreeList, units_for, minus_64, take_units, scan, hand_out, search, mm_alloc,
}

abbrev pub units_of : List Header → ℕ
units_of [] = 0
units_of (b ∷ bs) = b.size + units_of bs

pub units_of-append : (xs ys : List Header) → units_of (xs ++ ys) ≡ units_of xs + units_of ys
units_of-append [] ys = omega arith
units_of-append (b ∷ bs) ys = let rest = units_of-append bs ys in omega arith

append_cons≢nil : (xs : List Header) (b : Header) → xs ++ b ∷ [] ≢ []
append_cons≢nil [] b e = omega (arith, ap length e)
append_cons≢nil (x ∷ xs) b e = omega (arith, ap length e)

-- One for a header without units, as the static one is.
abbrev pub is_base : Header → ℕ
is_base b = if b.size == 0 then 1 else 0

abbrev pub bases : List Header → ℕ
bases [] = 0
bases (b ∷ bs) = is_base b + bases bs

pub bases-append : (xs ys : List Header) → bases (xs ++ ys) ≡ bases xs + bases ys
bases-append [] ys = omega arith
bases-append (b ∷ bs) ys = let rest = bases-append bs ys in omega arith

is_base-zero : (b : Header) → b.size ≢ 0 → is_base b ≡ 0
is_base-zero b h = let z : b.size == 0 ≡ false = ground arith in rw z

-- Of a block that was found: its size, and the units and the bases of the circle, with what they were
-- together.
abbrev Found : (n units static : ℕ) → Option (Header × List Header) → Type 0
Found n units static none = Unit {0}
Found n units static (some (b, circle)) =
    (b.size ≡ n) × (n + units_of circle ≡ units) × (bases circle ≡ static)

Found-take_units :
    (n : ℕ) (prev p : Header) (others : List Header) (units static : ℕ)
    → 0 < n
    → leb n p.size ≡ true
    → prev.size + p.size + units_of others ≡ units
    → is_base prev + is_base p + bases others ≡ static
    → Found n units static (some (take_units n prev p others))
unfolding take_units
Found-take_units n prev p others units static m z e f =
    let fits : n ≤ p.size = ground arith in
    let whole = is_base-zero p (omega arith) in
    elim (Bool-cases (p.size == n)) [
      | inl y ↦ rw y (ground arith, ground arith, omega arith)
      | inr y ↦
          let left : p.size - n ≢ 0 = ground arith in
          let cut = is_base-zero (record p { size = p.size - n }) left in
          rw y (refl, omega arith, omega arith)
    ]

-- A header that fits is in the circle with the units of the others; in a circle of one header none
-- does.
scan-Found :
    (n : ℕ) (before : List Header) (prev : Header) (rest : List Header) (units static : ℕ)
    → 0 < n
    → (before ≡ [] → rest ≡ [] → prev.size < n)
    → units_of before + prev.size + units_of rest ≡ units
    → bases before + is_base prev + bases rest ≡ static
    → Found n units static (scan n before prev rest)
unfolding scan
scan-Found n [] prev [] units static m h e f =
    let small = h refl refl in let no_fit : leb n prev.size ≡ false = ground arith in rw no_fit tt
scan-Found n (first ∷ before) prev [] units static m h e f = elim (Bool-cases (leb n first.size)) [
  | inl z ↦ rw z (Found-take_units n prev first before units static m z (omega arith) (omega arith))
  | inr z ↦ rw z tt
]
scan-Found n before prev (p ∷ rest) units static m h e f = elim (Bool-cases (leb n p.size)) [
  | inl z ↦ rw z (
      Found-take_units n prev p (rest ++ before) units static m z
        (omega (arith, units_of-append rest before)) (omega (arith, bases-append rest before)))
  | inr z ↦ rw z (
      scan-Found n (before ++ prev ∷ []) p rest units static m
        (λ y. absurd (append_cons≢nil before prev y))
        (omega (arith, units_of-append before (prev ∷ [])))
        (omega (arith, bases-append before (prev ∷ []))))
]

-- The free bytes are those of the circle, which has a header without units.
pub record IsCounted (h : FreeList) : Type 0 where
  pub counted : h.free_mem_size ≡ units_of h.circle * unit_size
  pub bound : h.free_mem_size < 2 ^ 64
  pub based : 1 ≤ bases h.circle

-- What `mm_alloc` does to the free bytes.
abbrev pub Granted : (nbytes : ℕ) (h : FreeList) → Option ℕ × FreeList → Type 0
Granted nbytes h (none, k) = k ≡ h
Granted nbytes h (some a, k) =
    (nbytes + unit_size ≤ k.block_size (a - unit_size) * unit_size)
    × (k.free_mem_size + k.block_size (a - unit_size) * unit_size ≡ h.free_mem_size)

minus_64_less : (a b : ℕ) → b ≤ a → a < 2 ^ 64 → minus_64 a b ≡ a - b
minus_64_less a b h l = omega arith

units_for_enough :
    (nbytes : ℕ)
    → nbytes + unit_size - 1 < 2 ^ 64
    → nbytes + unit_size ≤ units_for nbytes * unit_size
units_for_enough nbytes l = omega arith

hand_out-Granted :
    (nbytes : ℕ) (h : FreeList) (o : Option (Header × List Header))
    → IsCounted h
    → nbytes + unit_size - 1 < 2 ^ 64
    → Found (units_for nbytes) (units_of h.circle) (bases h.circle) o
    → IsCounted (hand_out (units_for nbytes) o h).1
      × Granted nbytes h (hand_out (units_for nbytes) o h)
unfolding hand_out
hand_out-Granted nbytes h none v l f = (v, refl)
hand_out-Granted nbytes h (some (b, circle)) v l (size, units, static) =
    let at : b.addr + unit_size - unit_size == b.addr ≡ true = ground arith in
    let taken : minus_64 h.free_mem_size (units_for nbytes * unit_size)
        ≡ units_of circle * unit_size =
      minus_64_less h.free_mem_size (units_for nbytes * unit_size) (omega arith) v.bound
      ∙ omega arith in
    let enough = units_for_enough nbytes l in
    (
      record { counted = taken; bound = rw taken (omega arith); based = rw static v.based },
      (rw (at, size) enough, rw (at, size, taken) (omega arith)),
    )

alone_small : (nbytes : ℕ) (p : Header) → 1 ≤ is_base p → p.size < units_for nbytes
alone_small nbytes p h = ground arith

search-Granted :
    (nbytes : ℕ) (circle : List Header) (h : FreeList)
    → circle ≡ h.circle
    → IsCounted h
    → nbytes + unit_size - 1 < 2 ^ 64
    → IsCounted (search nbytes circle h).1 × Granted nbytes h (search nbytes circle h)
unfolding search
search-Granted nbytes [] h e v l = (v, refl)
search-Granted nbytes (freep ∷ rest) h e v l =
    hand_out-Granted nbytes h (scan (units_for nbytes) [] freep rest) v l (
      scan-Found (units_for nbytes) [] freep rest (units_of h.circle) (bases h.circle) (omega arith)
        (λ y z. alone_small nbytes freep (omega (arith, v.based, ap bases e, ap bases z)))
        (omega (arith, ap units_of e)) (omega (arith, ap bases e)))

-- On a heap whose count of free bytes is that of its circle of free headers, below 2 ^ 64, and
-- whose circle has a header without units, `mm_alloc` of a size that does not wrap keeps all this,
-- and either changes nothing or hands out a block that holds the bytes asked for and its header and
-- that the count goes down by.
pub mm_alloc-IsCounted :
    (nbytes : ℕ) (h : FreeList)
    → IsCounted h
    → nbytes + unit_size - 1 < 2 ^ 64
    → IsCounted (mm_alloc nbytes h).1 × Granted nbytes h (mm_alloc nbytes h)
unfolding mm_alloc
mm_alloc-IsCounted nbytes h v l = elim (Bool-cases (nbytes == 0)) [
  | inl z ↦ rw z (v, refl)
  | inr z ↦ rw z (search-Granted nbytes h.circle h refl v l)
]
