-- ===== src/Buddy/Weights.antt =====
-- A measure of the free blocks of TP2-SO-2025/Kernel/memory/buddy_system_mm.c in which a block weighs what its
-- halves do.
use tp_so_grupo.Base.{
  ℕ, zero, suc, ◌+◌, ◌-◌, ◌*◌, ◌/◌, ◌%◌, ◌<◌, ◌≤◌, ◌≡◌, refl, sym, ap, subst, ◌∙◌, ◌⊎◌, inl, inr,
  true, false, Option, none, some, List, [], ◌∷◌, ◌==◌, ltb, if◌then◌else◌, arith, set, length,
  length-set, Bool-cases, ==_iff,
}
use native.Mathlib.Nat.{le-div_iff_mul-le}
use tp_so_grupo.Kernel.{Ptr}
use tp_so_grupo.Buddy.{
  block_size, list_of, split, take_from, is_buddy_free, remove_from_list, buddy_of, merge,
}
use tp_so_grupo.Buddy.Bytes.{List-cases}

pub block_size-positive : (o : ℕ) → 1 ≤ block_size o
unfolding block_size
block_size-positive zero = omega arith
block_size-positive (suc o) = omega (arith, block_size-positive o)

-- The buddy is the next block or the one before.
pub buddy_of-side :
    (start o block : ℕ)
    → (buddy_of start o block ≡ block + block_size o)
      ⊎ (block ≡ buddy_of start o block + block_size o)
unfolding buddy_of
buddy_of-side start o block =
    let size = block_size o in
    let some_size = block_size-positive o in
    elim (Bool-cases ((block - start) / size % 2 == 0)) [
      | inl z ↦ inl (rw z refl)
      | inr z ↦
          let some_before : 1 ≤ (block - start) / size = ground arith in
          let enough : 1 * size ≤ block - start =
            (le-div_iff_mul-le {k = size} {x = 1} {y = block - start} some_size).0 some_before in
          inr (rw z (omega arith))
    ]

module _ (w : ℕ → Ptr → ℕ) where
  -- The free blocks of one order, and of the orders from `o` on.
  abbrev pub list_weight : ℕ → List Ptr → ℕ
  list_weight o [] = 0
  list_weight o (block ∷ blocks) = w o block + list_weight o blocks

  abbrev pub weight_from : ℕ → List (List Ptr) → ℕ
  weight_from o [] = 0
  weight_from o (blocks ∷ lists) = list_weight o blocks + weight_from (suc o) lists

  weight_from-set :
      (lists : List (List Ptr)) (o i : ℕ) (new : List Ptr)
      → i < length lists
      → weight_from o (set lists i new) + list_weight (o + i) (list_of i lists)
        ≡ weight_from o lists + list_weight (o + i) new
  weight_from-set [] o i new h = absurd (omega arith)
  weight_from-set (l ∷ lists) o zero new h = let e : o + 0 ≡ o = omega arith in rw e (omega arith)
  weight_from-set (l ∷ lists) o (suc i) new h =
      let ih = weight_from-set lists (suc o) i new (omega arith) in
      let e : o + suc i ≡ suc o + i = omega arith in rw e (omega (arith, ih))

  pub weight-set :
      (lists : List (List Ptr)) (i : ℕ) (new : List Ptr)
      → i < length lists
      → weight_from 0 (set lists i new) + list_weight i (list_of i lists)
        ≡ weight_from 0 lists + list_weight i new
  weight-set lists i new h =
      let e : 0 + i ≡ i = omega arith in
      subst
        (λ j.
          weight_from 0 (set lists i new) + list_weight j (list_of i lists)
          ≡ weight_from 0 lists + list_weight j new)
        e (weight_from-set lists 0 i new h)

module _ (w : ℕ → Ptr → ℕ)
    (halves : (o : ℕ) (a : Ptr) → w (suc o) a ≡ w o a + w o (a + block_size o)) where
  split-weight :
      (n target : ℕ) (block : Ptr) (lists : List (List Ptr))
      → target + n ≤ length lists
      → weight_from w 0 (split n target block lists) + w target block
        ≡ weight_from w 0 lists + w (target + n) block
  unfolding split
  split-weight zero target block lists h = let e : target + 0 ≡ target = omega arith in rw e refl
  split-weight (suc n) target block lists h =
      let o = target + n in
      let lists' = set lists o ((block + block_size o) ∷ list_of o lists) in
      let now = weight-set w lists o ((block + block_size o) ∷ list_of o lists) (omega arith) in
      let ih =
        split-weight n target block lists'
          (omega (arith, length-set lists o ((block + block_size o) ∷ list_of o lists))) in
      let half = halves o block in
      let e : target + suc n ≡ suc o = omega arith in rw (e, split) (omega (arith, ih, now, half))

  -- What an allocation of order `target` leaves.
  abbrev pub Lighter : (target : ℕ) → List (List Ptr) → Option (Ptr × List (List Ptr)) → Type 0
  Lighter target lists none = Unit {0}
  Lighter target lists (some (block, lists')) =
      weight_from w 0 lists' + w target block ≡ weight_from w 0 lists

  pub take_from-Lighter :
      (n d target : ℕ) (lists : List (List Ptr))
      → target + d + n ≤ length lists
      → Lighter target lists (take_from n d target lists)
  unfolding take_from
  take_from-Lighter zero d target lists h = tt
  take_from-Lighter (suc n) d target lists h = elim (List-cases (list_of (target + d) lists)) [
    | inl e ↦ rw (take_from, e) (take_from-Lighter n (d + 1) target lists (omega (arith, h)))
    | inr (block, blocks, e) ↦
        let here = weight-set w lists (target + d) blocks (omega arith) in
        let halved =
          split-weight d target block (set lists (target + d) blocks)
            (omega (arith, length-set lists (target + d) blocks)) in
        let whole = ap (list_weight w (target + d)) e in
        rw (take_from, e, Lighter) (omega (arith, here, halved, whole))
  ]

  remove_from_list-weight :
      (o : ℕ) (b : Ptr) (blocks : List Ptr)
      → is_buddy_free b blocks ≡ true
      → list_weight w o (remove_from_list b blocks) + w o b ≡ list_weight w o blocks
  unfolding is_buddy_free remove_from_list
  remove_from_list-weight o b [] h = ground arith
  remove_from_list-weight o b (block ∷ blocks) h = elim (Bool-cases (block == b)) [
    | inl e ↦ let same = ap (w o) ((==_iff block b).0 e) in rw e (omega (arith, same))
    | inr d ↦ rw d (omega (arith, remove_from_list-weight o b blocks (simp (d) at h)))
  ]

  push-weight :
      (o : ℕ) (block : Ptr) (lists : List (List Ptr))
      → o < length lists
      → weight_from w 0 (set lists o (block ∷ list_of o lists)) ≡ weight_from w 0 lists + w o block
  push-weight o block lists h = omega (arith, weight-set w lists o (block ∷ list_of o lists) h)

  -- A block and its buddy weigh what the block does that they make.
  merged-weight :
      (start o block : ℕ) (next : ℕ)
      → next ≡ suc o
      → w next (if ltb (buddy_of start o block) block then buddy_of start o block else block)
        ≡ w o block + w o (buddy_of start o block)
  merged-weight start o block next e =
      let b = buddy_of start o block in
      let some_size = block_size-positive o in
      elim (buddy_of-side start o block) [
        | inl above ↦
            let lower : ltb b block ≡ false = ground (arith, above) in
            rw (lower, e) (halves o block ∙ ap (λ a. w o block + w o a) (sym above))
        | inr below ↦
            let lower : ltb b block ≡ true = ground (arith, below) in
            rw (lower, e) (halves o b ∙ ap (λ a. w o b + w o a) (sym below) ∙ omega arith)
      ]

  -- The block comes back, whatever it is merged with.
  pub merge-weight :
      (n o start : ℕ) (block : Ptr) (lists : List (List Ptr))
      → o + n < length lists
      → weight_from w 0 (merge n o start block lists) ≡ weight_from w 0 lists + w o block
  unfolding merge
  merge-weight zero o start block lists h = push-weight o block lists (omega arith)
  merge-weight (suc n) o start block lists h =
      let b = buddy_of start o block in
      elim (Bool-cases (is_buddy_free b (list_of o lists))) [
        | inl e ↦
            let rest = remove_from_list b (list_of o lists) in
            let here = weight-set w lists o rest (omega arith) in
            let gone = remove_from_list-weight o b (list_of o lists) e in
            let ih =
              merge-weight n (o + 1) start (if ltb b block then b else block) (set lists o rest)
                (omega (arith, length-set lists o rest)) in
            let both = merged-weight start o block (o + 1) (omega arith) in
            rw (merge, e) (ih ∙ omega (arith, here, gone, both))
        | inr d ↦ rw (merge, d) (push-weight o block lists (omega arith))
      ]
