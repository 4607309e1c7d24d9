-- ===== src/Buddy/Cover.antt =====
-- Which bytes the free blocks of TP2-SO-2025/Kernel/memory/buddy_system_mm.c take up.
use tp_so_grupo.Base.{
  ℕ, zero, suc, ◌+◌, ◌-◌, ◌≤◌, ◌≡◌, ◌≢◌, refl, ap, ◌∙◌, ◌⊎◌, inl, inr, ◌&&◌, Option, none, some,
  List, [], ◌∷◌, ◌==◌, ltb, leb, if◌then◌else◌, arith, subst, replicate, length, Bool-cases, ne→==,
  eq→==,
}
use mathlib.Core.Option.{some-injective}
use tp_so_grupo.Kernel.{Ptr, null}
use tp_so_grupo.Buddy.{
  Heap, block_size, list_of, take_from, order_for, place, allocate_order, mm_alloc, mm_free,
  init_with, mm_init, order_bound, fit_from, required_space, max_order,
}
use tp_so_grupo.Buddy.Weights.{
  weight_from, list_weight, weight-set, Lighter, take_from-Lighter, merge-weight,
}
use tp_so_grupo.Buddy.Accounting.{SameLength, take_from-length}
use tp_so_grupo.Buddy.Start.{get_or-replicate}

-- Is `byte` one of the `size` bytes from `a` on?
abbrev pub is_in : (byte a size : ℕ) → ℕ
is_in byte a size = if leb a byte && ltb byte (a + size) then 1 else 0

module _ (byte : ℕ) where
  -- By how many blocks the byte is taken up: one block, the free ones.
  abbrev pub covers : ℕ → Ptr → ℕ
  covers o a = is_in byte a (block_size o)

  pub covers-halves :
      (o : ℕ) (a : Ptr) → covers (suc o) a ≡ covers o a + covers o (a + block_size o)
  unfolding block_size
  covers-halves o a = ground arith

  abbrev pub free_cover : Heap → ℕ
  free_cover h = weight_from covers 0 h.buddy_lists

  -- A call of `mm_alloc` changes nothing and returns NULL, or it takes the block in front of the
  -- pointer that it returns out of the free ones, and writes the order of no other block.
  abbrev pub Handed : Heap → Ptr × Heap → Type 0
  Handed h (p, h') =
      ((p ≡ null) × (h' ≡ h))
      ⊎ ((p ≢ null)
          × (free_cover h' + covers (h'.orders (p - 8)) (p - 8) ≡ free_cover h)
          × (h'.orders (p - 8) ≤ 16)
          × (length h'.buddy_lists ≡ length h.buddy_lists)
          × ((a : Ptr) → a ≢ p - 8 → h'.orders a ≡ h.orders a))

  place-Handed :
      (target : ℕ) (h : Heap) (o : Option (Ptr × List (List Ptr)))
      → target ≤ 16
      → Lighter covers covers-halves target h.buddy_lists o
      → SameLength h.buddy_lists o
      → Handed h (place target o h)
  unfolding place
  place-Handed target h none low t s = inl (refl, refl)
  place-Handed target h (some (block, lists)) low t s =
      let e : block + 8 - 8 ≡ block = omega arith in
      rw (place, e, eq→== block block refl)
        (inr (omega arith, t, low, s, λ a ne. rw (ne→== a block ne) refl))

  allocate-Handed :
      (h : Heap) (r : Ptr × Heap) (found : Option ℕ)
      → length h.buddy_lists ≡ 17
      → allocate_order found h ≡ some r
      → Handed h r
  unfolding allocate_order
  allocate-Handed h r none len e = cc
  allocate-Handed h r (some target) len e = elim (Bool-cases (ltb max_order target)) [
    | inl high ↦
        let e' : some (null, h) ≡ some r = rw (allocate_order, high) at e in
        subst (Handed h) (some-injective (null, h) r e') (inl (refl, refl))
    | inr low ↦
        let out = take_from (17 - target) 0 target h.buddy_lists in
        let e' : some (place target out h) ≡ some r = rw (allocate_order, low) at e in
        subst (Handed h) (some-injective (place target out h) r e') (
          place-Handed target h out (ground arith)
            (take_from-Lighter covers covers-halves (17 - target) 0 target h.buddy_lists
              (ground arith))
            (take_from-length (17 - target) 0 target h.buddy_lists))
  ]

  pub mm_alloc-Handed :
      (h : Heap) (size : ℕ) (r : Ptr × Heap)
      → length h.buddy_lists ≡ 17
      → mm_alloc size h ≡ some r
      → Handed h r
  unfolding mm_alloc
  mm_alloc-Handed h size r len e = elim (Bool-cases (size == 0)) [
    | inl z ↦
        let e' : some (null, h) ≡ some r = rw (mm_alloc, z) at e in
        subst (Handed h) (some-injective (null, h) r e') (inl (refl, refl))
    | inr z ↦
        let found = order_for 64 0 4096 (required_space size) in
        let e' : allocate_order found h ≡ some r = rw (mm_alloc, z) at e in
        allocate-Handed h r found len e'
  ]

  pub mm_free-cover :
      (h : Heap) (p : Ptr)
      → length h.buddy_lists ≡ 17
      → h.orders (p - 8) ≤ 16
      → p ≢ null
      → free_cover (mm_free p h) ≡ free_cover h + covers (h.orders (p - 8)) (p - 8)
  unfolding mm_free
  mm_free-cover h p len low ne = rw (ne→== p null ne) (
      merge-weight covers covers-halves (16 - h.orders (p - 8)) (h.orders (p - 8)) h.start_addr
        (p - 8) h.buddy_lists (omega arith))

  none_free : (n o : ℕ) → weight_from covers o (replicate n []) ≡ 0
  none_free zero o = refl
  none_free (suc n) o = omega (arith, none_free n (suc o))

  init_with-cover :
      (k : ℕ) (base : Ptr) (h : Heap)
      → k ≤ 17
      → free_cover (init_with k base h) ≡ is_in byte base (init_with k base h).total_managed_bytes
  unfolding init_with
  init_with-cover zero base h l = none_free 17 0 ∙ ground arith
  init_with-cover (suc m) base h l =
      let one = weight-set covers (replicate 17 []) m (base ∷ []) (omega arith) in
      let before : list_weight covers m (list_of m (replicate 17 [])) ≡ 0 =
        ap (list_weight covers m) (get_or-replicate 17 m) in
      omega (arith, one, none_free 17 0, before)

  fit_from-bound : (n k total : ℕ) → fit_from n k total ≤ k + n
  unfolding fit_from
  fit_from-bound zero k total = omega arith
  fit_from-bound (suc n) k total = elim (Bool-cases (leb (block_size k) total)) [
    | inl h ↦ rw (fit_from, h) (omega (arith, fit_from-bound n (k + 1) total))
    | inr h ↦ rw (fit_from, h) (omega arith)
  ]

  -- What `mm_init` manages is free.
  pub mm_init-cover :
      (base : Ptr) (total : ℕ) (h : Heap)
      → free_cover (mm_init base total h)
        ≡ is_in byte base (mm_init base total h).total_managed_bytes
  unfolding mm_init order_bound
  mm_init-cover base total h =
      init_with-cover (fit_from 17 0 total) base h (fit_from-bound 17 0 total)
