-- ===== src/Buddy/Accounting.antt =====
-- The allocator's free bytes.
use tp_so_grupo.Base.{
  ℕ, zero, suc, ◌+◌, ◌-◌, ◌^◌, ◌≤◌, ◌≡◌, ◌≢◌, refl, ◌∙◌, ◌⊎◌, inl, inr, Option, none, some, List,
  ◌∷◌, ◌==◌, ltb, if◌then◌else◌, arith, set, length, length-set, ne→==, eq→==, Bool-cases,
}
use tp_so_grupo.Kernel.{Ptr, null}
use tp_so_grupo.Buddy.{
  Heap, block_size, list_of, split, take_from, place, allocate_order, is_buddy_free,
  remove_from_list, buddy_of, merge, mm_alloc, mm_free, mm_get_stats, max_order,
}
use tp_so_grupo.Buddy.Orders.{order_for-holds, order_for-total, required_space-eq}
use tp_so_grupo.Buddy.Bytes.{free_bytes, Taken, take_from-bytes, merge-bytes, List-cases}

-- What a call of `mm_alloc` leaves: nothing has changed and it returned NULL; or the block it
-- returned holds the bytes asked for behind its metadata, and the free bytes are less by the
-- block.
abbrev pub Allocated : ℕ → Heap → Ptr × Heap → Type 0
Allocated size h (p, h') =
    ((p ≡ null) × (h' ≡ h))
    ⊎ ((p ≢ null)
        × (size + 8 ≤ block_size (h'.orders (p - 8)))
        × (h'.orders (p - 8) ≤ 16)
        × (length h'.buddy_lists ≡ 17)
        × (h'.start_addr ≡ h.start_addr)
        × (free_bytes h' + block_size (h'.orders (p - 8)) ≡ free_bytes h))

-- On a heap with its 17 lists, `mm_free` of a pointer that is not NULL and whose metadata has an
-- order of at most 16 adds exactly the size of that order to the free bytes.
pub mm_free_accounts :
    (h : Heap) (p : Ptr)
    → length h.buddy_lists ≡ 17
    → h.orders (p - 8) ≤ 16
    → p ≢ null
    → free_bytes (mm_free p h) ≡ free_bytes h + block_size (h.orders (p - 8))
unfolding mm_free mm_get_stats
mm_free_accounts h p len low ne = rw (ne→== p null ne) (
    merge-bytes (16 - h.orders (p - 8)) (h.orders (p - 8)) h.start_addr (p - 8) h.buddy_lists
      (omega arith))

split-length :
    (n target : ℕ) (block : Ptr) (lists : List (List Ptr))
    → length (split n target block lists) ≡ length lists
unfolding split
split-length zero target block lists = refl
split-length (suc n) target block lists =
    let lists' =
      set lists (target + n) ((block + block_size (target + n)) ∷ list_of (target + n) lists) in
    split-length n target block lists'
    ∙ length-set lists (target + n) ((block + block_size (target + n)) ∷ list_of (target + n) lists)

-- The lists keep their number.
abbrev pub SameLength : List (List Ptr) → Option (Ptr × List (List Ptr)) → Type 0
SameLength lists none = Unit {0}
SameLength lists (some (block, lists')) = length lists' ≡ length lists

pub take_from-length :
    (n d target : ℕ) (lists : List (List Ptr)) → SameLength lists (take_from n d target lists)
unfolding take_from
take_from-length zero d target lists = tt
take_from-length (suc n) d target lists = elim (List-cases (list_of (target + d) lists)) [
  | inl e ↦ rw (take_from, e) (take_from-length n (d + 1) target lists)
  | inr (block, blocks, e) ↦
      rw (take_from, e, SameLength)
        (split-length d target block (set lists (target + d) blocks)
          ∙ length-set lists (target + d) blocks)
]

first_size : 4096 ≡ block_size 0
unfolding block_size
first_size = refl

place-Allocated :
    (size target : ℕ) (h : Heap) (o : Option (Ptr × List (List Ptr)))
    → size + 8 ≤ block_size target
    → target ≤ 16
    → length h.buddy_lists ≡ 17
    → Taken target h.buddy_lists o
    → SameLength h.buddy_lists o
    → Allocated size h (place target o h)
unfolding place mm_get_stats
place-Allocated size target h none fits low len t s = inl (refl, refl)
place-Allocated size target h (some (block, lists)) fits low len t s =
    let e : block + 8 - 8 ≡ block = omega arith in
    rw (place, e, eq→== block block refl) (inr (omega arith, fits, low, s ∙ len, refl, t))

-- On a heap with its 17 lists, `mm_alloc` of a size that is with its metadata at most 2 ^ 63 bytes
-- returns: NULL, and then it changes nothing, or a block whose order, at most 16, stands in its
-- metadata, that holds the bytes asked for and the metadata, and whose size is what the free bytes
-- have become less by; the lists stay 17 and the start of the heap stays.
pub mm_alloc_accounts :
    (h : Heap) (size : ℕ)
    → length h.buddy_lists ≡ 17
    → size + 8 ≤ 2 ^ 63
    → (r : Ptr × Heap) × (mm_alloc size h ≡ some r) × Allocated size h r
unfolding mm_alloc allocate_order
mm_alloc_accounts h size len small = elim (Bool-cases (size == 0)) [
  | inl z ↦ ((null, h), rw (mm_alloc, z), inl (refl, refl))
  | inr z ↦
      let space = required_space-eq size (omega (arith, small)) in
      let (target, e) = order_for-total (size + 8) small in
      elim (Bool-cases (ltb max_order target)) [
        | inl high ↦ ((null, h), rw (mm_alloc, z, space, e, allocate_order, high), inl (refl, refl))
        | inr low ↦
            let low' : target ≤ 16 = ground arith in
            let out = take_from (17 - target) 0 target h.buddy_lists in
            (
              place target out h,
              rw (mm_alloc, z, space, e, allocate_order, low),
              place-Allocated size target h out
                  (order_for-holds 64 0 4096 (size + 8) target e (λ _. first_size) low') low' len
                  (take_from-bytes (17 - target) 0 target h.buddy_lists (omega arith))
                  (take_from-length (17 - target) 0 target h.buddy_lists),
            )
      ]
]

mm_free-null : (h : Heap) → free_bytes (mm_free null h) ≡ free_bytes h
unfolding mm_free
mm_free-null h = refl

Allocated-returned :
    (size : ℕ) (h : Heap) (r : Ptr × Heap)
    → Allocated size h r
    → free_bytes (mm_free r.0 r.1) ≡ free_bytes h
Allocated-returned size h (p, h') (inl (e, same)) = rw (e, same) (mm_free-null h)
Allocated-returned size h (p, h') (inr (ne, fits, low, len, start, bytes)) =
    mm_free_accounts h' p len low ne ∙ bytes

-- On a heap with its 17 lists, `mm_alloc` of a size that is with its metadata at most 2 ^ 63 bytes
-- returns, and `mm_free` of what it has just returned gives the free bytes there were before.
pub mm_alloc-mm_free :
    (h : Heap) (size : ℕ)
    → length h.buddy_lists ≡ 17
    → size + 8 ≤ 2 ^ 63
    → (r : Ptr × Heap) × (mm_alloc size h ≡ some r) × (free_bytes (mm_free r.0 r.1) ≡ free_bytes h)
mm_alloc-mm_free h size len small =
    let (r, e, a) = mm_alloc_accounts h size len small in (r, e, Allocated-returned size h r a)

pub merge-length :
    (n o start : ℕ) (block : Ptr) (lists : List (List Ptr))
    → length (merge n o start block lists) ≡ length lists
unfolding merge
merge-length zero o start block lists = length-set lists o (block ∷ list_of o lists)
merge-length (suc n) o start block lists =
    let b = buddy_of start o block in
    let rest = remove_from_list b (list_of o lists) in
    elim (Bool-cases (is_buddy_free b (list_of o lists))) [
      | inl e ↦
          rw (merge, e)
            (merge-length n (o + 1) start (if ltb b block then b else block) (set lists o rest)
              ∙ length-set lists o rest)
      | inr d ↦ rw (merge, d) (length-set lists o (block ∷ list_of o lists))
    ]
