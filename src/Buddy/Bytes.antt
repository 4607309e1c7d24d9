-- ===== src/Buddy/Bytes.antt =====
-- The bytes of the free lists of TP2-SO-2025/Kernel/memory/buddy_system_mm.c.
use tp_so_grupo.Base.{
  ℕ, zero, suc, ◌+◌, ◌*◌, ◌<◌, ◌≤◌, ◌≡◌, refl, ap, subst, ◌∙◌, ◌⊎◌, inl, inr, true, Option, none,
  some, List, [], ◌∷◌, ◌==◌, ltb, if◌then◌else◌, arith, set, length, length-set, Bool-cases,
}
use tp_so_grupo.Kernel.{Ptr}
use tp_so_grupo.Buddy.{
  Heap, block_size, list_of, split, take_from, is_buddy_free, remove_from_list, buddy_of, merge,
  list_bytes, bytes_from, mm_get_stats,
}

bytes_from-set :
    (lists : List (List Ptr)) (o i : ℕ) (new : List Ptr)
    → i < length lists
    → bytes_from o (set lists i new) + list_bytes (block_size (o + i)) (list_of i lists)
      ≡ bytes_from o lists + list_bytes (block_size (o + i)) new
unfolding bytes_from
bytes_from-set [] o i new h = absurd (omega arith)
bytes_from-set (l ∷ lists) o zero new h = let e : o + 0 ≡ o = omega arith in rw e (omega arith)
bytes_from-set (l ∷ lists) o (suc i) new h =
    let ih = bytes_from-set lists (suc o) i new (omega arith) in
    let e : o + suc i ≡ suc o + i = omega arith in rw e (omega (arith, ih))

-- The same for all the lists.
pub free_bytes-set :
    (lists : List (List Ptr)) (i : ℕ) (new : List Ptr)
    → i < length lists
    → bytes_from 0 (set lists i new) + list_bytes (block_size i) (list_of i lists)
      ≡ bytes_from 0 lists + list_bytes (block_size i) new
free_bytes-set lists i new h =
    let e : 0 + i ≡ i = omega arith in
    subst
      (λ j.
        bytes_from 0 (set lists i new) + list_bytes (block_size j) (list_of i lists)
        ≡ bytes_from 0 lists + list_bytes (block_size j) new)
      e (bytes_from-set lists 0 i new h)

-- The blocks that a split of `block` frees, of the orders from `target` to below `target + n`.
split-bytes :
    (n target : ℕ) (block : Ptr) (lists : List (List Ptr))
    → target + n ≤ length lists
    → bytes_from 0 (split n target block lists) + block_size target
      ≡ bytes_from 0 lists + block_size (target + n)
unfolding split list_bytes block_size
split-bytes zero target block lists h = let e : target + 0 ≡ target = omega arith in rw e refl
split-bytes (suc n) target block lists h =
    let o = target + n in
    let lists' = set lists o ((block + block_size o) ∷ list_of o lists) in
    let now = free_bytes-set lists o ((block + block_size o) ∷ list_of o lists) (omega arith) in
    let ih =
      split-bytes n target block lists'
        (omega (arith, length-set lists o ((block + block_size o) ∷ list_of o lists))) in
    let e : target + suc n ≡ suc o = omega arith in rw (e, split) (omega (arith, ih, now))

-- What an allocation of order `target` leaves.
abbrev pub Taken : (target : ℕ) → List (List Ptr) → Option (Ptr × List (List Ptr)) → Type 0
Taken target lists none = Unit {0}
Taken target lists (some (block, lists')) =
    bytes_from 0 lists' + block_size target ≡ bytes_from 0 lists

pub List-cases {ℓ} :
    {A : Type ℓ} (xs : List A) → (xs ≡ []) ⊎ ((x : A) × (ys : List A) × (xs ≡ x ∷ ys))
List-cases [] = inl refl
List-cases (x ∷ xs) = inr (x, xs, refl)

pub take_from-bytes :
    (n d target : ℕ) (lists : List (List Ptr))
    → target + d + n ≤ length lists
    → Taken target lists (take_from n d target lists)
unfolding take_from list_bytes
take_from-bytes zero d target lists h = tt
take_from-bytes (suc n) d target lists h = elim (List-cases (list_of (target + d) lists)) [
  | inl e ↦ rw (take_from, e) (take_from-bytes n (d + 1) target lists (omega (arith, h)))
  | inr (block, blocks, e) ↦
      let here = free_bytes-set lists (target + d) blocks (omega arith) in
      let halves =
        split-bytes d target block (set lists (target + d) blocks)
          (omega (arith, length-set lists (target + d) blocks)) in
      let whole = ap (list_bytes (block_size (target + d))) e in
      rw (take_from, e, Taken) (omega (arith, here, halves, whole))
]

remove_from_list-bytes :
    (size : ℕ) (b : Ptr) (blocks : List Ptr)
    → is_buddy_free b blocks ≡ true
    → list_bytes size (remove_from_list b blocks) + size ≡ list_bytes size blocks
unfolding is_buddy_free remove_from_list list_bytes
remove_from_list-bytes size b [] h = ground arith
remove_from_list-bytes size b (block ∷ blocks) h = elim (Bool-cases (block == b)) [
  | inl e ↦ rw e (omega arith)
  | inr d ↦ rw d (omega (arith, remove_from_list-bytes size b blocks (simp (d) at h)))
]

push-bytes :
    (o : ℕ) (block : Ptr) (lists : List (List Ptr))
    → o < length lists
    → bytes_from 0 (set lists o (block ∷ list_of o lists)) ≡ bytes_from 0 lists + block_size o
unfolding list_bytes
push-bytes o block lists h = omega (arith, free_bytes-set lists o (block ∷ list_of o lists) h)

pub merge-bytes :
    (n o start : ℕ) (block : Ptr) (lists : List (List Ptr))
    → o + n < length lists
    → bytes_from 0 (merge n o start block lists) ≡ bytes_from 0 lists + block_size o
unfolding merge block_size
merge-bytes zero o start block lists h = push-bytes o block lists (omega arith)
merge-bytes (suc n) o start block lists h =
    let b = buddy_of start o block in
    elim (Bool-cases (is_buddy_free b (list_of o lists))) [
      | inl e ↦
          let rest = remove_from_list b (list_of o lists) in
          let here = free_bytes-set lists o rest (omega arith) in
          let gone = remove_from_list-bytes (block_size o) b (list_of o lists) e in
          let ih =
            merge-bytes n (o + 1) start (if ltb b block then b else block) (set lists o rest)
              (omega (arith, length-set lists o rest)) in
          let next : o + 1 ≡ suc o = omega arith in
          let double : block_size (o + 1) ≡ 2 * block_size o = ap block_size next in
          rw (merge, e) (ih ∙ omega (arith, here, gone, double))
      | inr d ↦ rw (merge, d) (push-bytes o block lists (omega arith))
    ]

-- The free bytes as `mm_get_stats` counts them.
abbrev pub free_bytes : Heap → ℕ
free_bytes h = (mm_get_stats h).free_memory
