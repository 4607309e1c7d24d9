-- ===== src/Buddy/Orders.antt =====
-- The loop of `mm_alloc` in TP2-SO-2025/Kernel/memory/buddy_system_mm.c that looks for an order.
use tp_so_grupo.Base.{
  ℕ, zero, suc, ◌+◌, ◌-◌, ◌*◌, ◌%◌, ◌^◌, ◌<◌, ◌≤◌, ◌≡◌, ◌∙◌, refl, ap, inl, inr, true, false, none,
  some, ltb, arith, Bool-cases,
}
use mathlib.Core.Option.{some-injective}
use tp_so_grupo.Buddy.{block_size, order_for, required_space}

block_size-suc : (o : ℕ) → block_size (o + 1) ≡ block_size o * 2
unfolding block_size
block_size-suc o = let e : o + 1 ≡ suc o = omega arith in rw e (omega arith)

block_size-below : (d o : ℕ) → block_size o ≤ block_size (d + o)
block_size-below zero o = let e : 0 + o ≡ o = omega arith in rw e (omega arith)
block_size-below (suc d) o =
    let e : suc d + o ≡ d + o + 1 = omega arith in
    rw e (omega (arith, block_size-below d o, block_size-suc (d + o)))

largest : block_size 16 ≡ 268435456
unfolding block_size
largest = refl

-- The blocks of the 17 orders are far from the end of 64 bits.
block_size-small : (o : ℕ) → o ≤ 16 → block_size o ≤ 268435456
block_size-small o h =
    let e : block_size (16 - o + o) ≡ block_size 16 = ap block_size (omega arith) in
    omega (arith, block_size-below (16 - o) o, e, largest)

shifted : (o block : ℕ) → block ≡ block_size o → o ≤ 16 → block * 2 % 2 ^ 64 ≡ block_size (o + 1)
shifted o block e h = omega (arith, e, block_size-small o h, block_size-suc o)

-- An order found of at most 16 has blocks that hold the bytes.
pub order_for-holds :
    (n o block required target : ℕ)
    → order_for n o block required ≡ some target
    → (o ≤ 16 → block ≡ block_size o)
    → target ≤ 16
    → required ≤ block_size target
unfolding order_for
order_for-holds zero o block required target e b low = ground arith
order_for-holds (suc n) o block required target e b low = elim (Bool-cases (ltb block required)) [
  | inl l ↦
      order_for-holds n (o + 1) (block * 2 % 2 ^ 64) required target (rw (order_for, l) at e)
        (λ h. shifted o block (b (omega arith)) (omega arith)) low
  | inr g ↦
      let e' : some o ≡ some target = rw (order_for, g) at e in
      let same : o ≡ target = some-injective o target e' in
      let here : block ≡ block_size target = b (omega arith) ∙ ap block_size same in
      let enough : required ≤ block = ground arith in omega arith
]

-- A block size that is doubled so many times.
doubled : ℕ → ℕ → ℕ
doubled zero block = block
doubled (suc n) block = doubled n (block * 2)

doubled-ge : (n block : ℕ) → block ≤ doubled n block
unfolding doubled
doubled-ge zero block = omega arith
doubled-ge (suc n) block = omega (arith, doubled-ge n (block * 2))

-- As long as the block size does not wrap, the loop ends where the blocks hold the bytes.
order_for-ends :
    (n m o block required : ℕ)
    → required ≤ doubled n block
    → doubled n block < 2 ^ 64
    → (target : ℕ) × (order_for (suc (n + m)) o block required ≡ some target)
unfolding order_for doubled
order_for-ends zero m o block required h b =
    let enough : ltb block required ≡ false = ground arith in (o, rw enough)
order_for-ends (suc n) m o block required h b = elim (Bool-cases (ltb block required)) [
  | inl l ↦
      let whole : block * 2 % 2 ^ 64 ≡ block * 2 = omega (arith, doubled-ge n (block * 2)) in
      let (target, e) = order_for-ends n m (o + 1) (block * 2) required h b in
      let rounds : suc n + m ≡ suc (n + m) = omega arith in (target, rw (l, whole, rounds) e)
  | inr g ↦ (o, rw g)
]

half_word : doubled 51 4096 ≡ 2 ^ 63
unfolding doubled
half_word = refl

-- For at most 2 ^ 63 bytes the loop ends.
pub order_for-total :
    (required : ℕ) → required ≤ 2 ^ 63 → (target : ℕ) × (order_for 64 0 4096 required ≡ some target)
order_for-total required h =
    order_for-ends 51 12 0 4096 required (omega (arith, half_word)) (omega (arith, half_word))

-- A block size that was shifted to 0 stays 0, and holds nothing.
order_for-zero : (n o required : ℕ) → 0 < required → order_for n o 0 required ≡ none
unfolding order_for
order_for-zero zero o required h = refl
order_for-zero (suc n) o required h =
    let less : ltb 0 required ≡ true = ground arith in rw less (order_for-zero n (o + 1) required h)

-- The loop after the block size was doubled `n` times without holding the bytes.
order_for-late :
    (n m o block required : ℕ)
    → doubled n block < required
    → doubled n block < 2 ^ 64
    → doubled n block * 2 % 2 ^ 64 ≡ 0
    → order_for m o block required ≡ none
unfolding order_for doubled
order_for-late n zero o block required h b z = refl
order_for-late zero (suc m) o block required h b z =
    let less : ltb block required ≡ true = ground arith in
    rw (less, z) (order_for-zero m (o + 1) required (omega arith))
order_for-late (suc n) (suc m) o block required h b z =
    let less : ltb block required ≡ true = ground (arith, doubled-ge n (block * 2)) in
    let whole : block * 2 % 2 ^ 64 ≡ block * 2 = omega (arith, doubled-ge n (block * 2)) in
    rw (less, whole) (order_for-late n m (o + 1) (block * 2) required h b z)

-- For more than 2 ^ 63 bytes with the metadata, the loop of `mm_alloc` that looks for an order never
-- ends: it uses up any number of rounds.
pub order_for-hangs :
    (required fuel : ℕ) → 2 ^ 63 < required → order_for fuel 0 4096 required ≡ none
order_for-hangs required fuel h =
    order_for-late 51 fuel 0 4096 required (omega (arith, half_word)) (omega (arith, half_word))
      (omega (arith, half_word))

-- A request that does not wrap gets its bytes and those of the metadata.
pub required_space-eq : (size : ℕ) → size + 8 < 2 ^ 64 → required_space size ≡ size + 8
required_space-eq size h =
    let whole : (size + 8) % 2 ^ 64 ≡ size + 8 = omega arith in
    let enough : ltb (size + 8) 8 ≡ false = ground arith in rw (whole, enough)
