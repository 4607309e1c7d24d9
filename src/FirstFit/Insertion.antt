-- ===== src/FirstFit/Insertion.antt =====
-- What mm_free of TP2-SO-2025/Kernel/memory/first_fit_mm.c does to the count of free bytes.
use tp_so_grupo.Base.{
  ℕ, zero, suc, ◌+◌, ◌*◌, ◌^◌, ◌≡◌, ◌≤◌, ◌<◌, ◌∙◌, List, [], ◌∷◌, ◌++◌, Option, none, some, ◌==◌,
  inl, inr, Bool-cases, arith,
}
use tp_so_grupo.FirstFit.{
  unit_size, Header, FreeList, put_back, end_of, find_place, join_upper, join_lower, insert_behind,
  belongs, next_of,
}
use tp_so_grupo.FirstFit.Accounting.{units_of, units_of-append, bases, bases-append, IsCounted}

join_upper-units :
    (b p : Header) (ps : List Header)
    → 1 ≤ bases (p ∷ ps)
    → p.size + (join_upper b p ps).0.size + units_of (join_upper b p ps).1
      ≡ b.size + units_of (p ∷ ps)
unfolding join_upper
join_upper-units b p [] h =
    let none_in : p.size ≡ 0 = ground arith in
    elim (Bool-cases (end_of b == p.addr)) [
      | inl z ↦ rw z (omega arith)
      | inr z ↦ rw z (omega arith)
    ]
join_upper-units b p (q ∷ ps) h = elim (Bool-cases (end_of b == q.addr)) [
  | inl z ↦ rw z (omega arith)
  | inr z ↦ rw z (omega arith)
]

join_lower-units :
    (b p : Header) (others : List Header)
    → units_of (join_lower b p others) ≡ p.size + b.size + units_of others
unfolding join_lower
join_lower-units b p others = elim (Bool-cases (end_of p == b.addr)) [
  | inl z ↦ rw z (omega arith)
  | inr z ↦ rw z (omega (arith, units_of-append others (p ∷ [])))
]

-- Where a block comes back, the units of the circle are the old ones and its own.
insert_behind-units :
    (b p : Header) (ps : List Header)
    → 1 ≤ bases (p ∷ ps)
    → units_of (insert_behind b p ps) ≡ b.size + units_of (p ∷ ps)
unfolding insert_behind
insert_behind-units b p ps h =
    join_lower-units (join_upper b p ps).0 p (join_upper b p ps).1 ∙ join_upper-units b p ps h

-- A circle that is looked at from another header.
abbrev pub Turned : List Header → Option (List Header) → Type 0
Turned circle none = Unit {0}
Turned circle (some l) = (units_of l ≡ units_of circle) × (bases l ≡ bases circle)

pub find_place-Turned :
    (fuel bp : ℕ) (circle l : List Header)
    → units_of l ≡ units_of circle
    → bases l ≡ bases circle
    → Turned circle (find_place fuel bp l)
unfolding find_place
find_place-Turned zero bp circle l u b = tt
find_place-Turned (suc n) bp circle [] u b = tt
find_place-Turned (suc n) bp circle (p ∷ ps) u b =
    elim (Bool-cases (belongs bp p.addr (next_of p ps).addr)) [
      | inl z ↦ rw z (u, b)
      | inr z ↦ rw z (
          find_place-Turned n bp circle (ps ++ p ∷ []) (omega (arith, units_of-append ps (p ∷ [])))
            (omega (arith, bases-append ps (p ∷ []))))
    ]

-- What `mm_free` of a block of that size does to the free bytes, where its loop ends.
abbrev pub Returned : (size : ℕ) (h : FreeList) → Option FreeList → Type 0
Returned size h none = ⊥
Returned size h (some k) =
    (k.free_mem_size ≡ units_of k.circle * unit_size)
    × (k.free_mem_size ≡ h.free_mem_size + size * unit_size)

pub put_back-Returned :
    (bp : ℕ) (h : FreeList) (p : Header) (ps : List Header)
    → IsCounted h
    → h.free_mem_size + h.block_size bp * unit_size < 2 ^ 64
    → Turned h.circle (some (p ∷ ps))
    → Returned (h.block_size bp) h (put_back bp (some (p ∷ ps)) h)
unfolding put_back
put_back-Returned bp h p ps v l (u, b) =
    let units =
      insert_behind-units (record { addr = bp; size = h.block_size bp }) p ps
        (omega (arith, v.based)) in
    (omega (arith, units, v.counted), omega arith)
