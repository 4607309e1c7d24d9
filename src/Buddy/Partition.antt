-- ===== src/Buddy/Partition.antt =====
-- The blocks in use over a history of calls of `mm_alloc` and `mm_free` of
-- TP2-SO-2025/Kernel/memory/buddy_system_mm.c.
use tp_so_grupo.Base.{
  ℕ, ◌+◌, ◌-◌, ◌<◌, ◌≤◌, ◌≡◌, ◌≢◌, refl, ap, ap₂, subst, ◌∙◌, inl, inr, some, List, [], ◌∷◌, ◌++◌,
  ◌==◌, Bool-cases, arith, length,
}
use tp_so_grupo.Kernel.{Ptr, null}
use tp_so_grupo.Buddy.{Heap, block_size, mm_init, mm_alloc, mm_free}
use tp_so_grupo.Buddy.Weights.{block_size-positive}
use tp_so_grupo.Buddy.Accounting.{merge-length}
use tp_so_grupo.Buddy.Start.{mm_init-Started}
use tp_so_grupo.Buddy.Cover.{
  is_in, covers, free_cover, Handed, mm_alloc-Handed, mm_free-cover, mm_init-cover,
}

-- The address of a block in use and its order.
abbrev pub Block : Type 0
Block = Ptr × ℕ

-- The heap and the blocks in use after `mm_init` and any calls of `mm_alloc` and `mm_free`, each of
-- the frees of a block in use.
pub data History (first : Heap) : Heap → List Block → Type 0 where
  started : History first first []
  allocated :
      {h : Heap} {used : List Block}
      → History first h used
      → (size : ℕ) (p : Ptr) (h' : Heap) → mm_alloc size h ≡ some (p, h')
      → p ≢ null
      → History first h' ((p - 8, h'.orders (p - 8)) ∷ used)
  freed :
      {h : Heap} (before after : List Block) (a : Ptr) (o : ℕ)
      → History first h (before ++ (a, o) ∷ after)
      → History first (mm_free (a + 8) h) (before ++ after)

-- By how many blocks in use a byte is taken up.
abbrev pub used_cover : ℕ → List Block → ℕ
used_cover byte [] = 0
used_cover byte ((a, o) ∷ used) = covers byte o a + used_cover byte used

used_cover-append :
    (byte : ℕ) (xs ys : List Block)
    → used_cover byte (xs ++ ys) ≡ used_cover byte xs + used_cover byte ys
used_cover-append byte [] ys = omega arith
used_cover-append byte ((a, o) ∷ xs) ys = omega (arith, used_cover-append byte xs ys)

-- The metadata of every block in use has its order.
abbrev Tagged : Heap → List Block → Type 0
Tagged h [] = Unit {0}
Tagged h ((a, o) ∷ used) = (h.orders a ≡ o) × (o ≤ 16) × Tagged h used

Tagged-here :
    (h : Heap) (before after : List Block) (a : Ptr) (o : ℕ)
    → Tagged h (before ++ (a, o) ∷ after)
    → (h.orders a ≡ o) × (o ≤ 16)
Tagged-here h [] after a o (e, low, t) = (e, low)
Tagged-here h ((b, m) ∷ before) after a o (e, low, t) = Tagged-here h before after a o t

Tagged-less :
    (h : Heap) (before after : List Block) (x : Block)
    → Tagged h (before ++ x ∷ after)
    → Tagged h (before ++ after)
Tagged-less h [] after x (e, low, t) = t
Tagged-less h ((b, m) ∷ before) after x (e, low, t) = (e, low, Tagged-less h before after x t)

covers-start : (o : ℕ) (a : Ptr) → covers a o a ≡ 1
covers-start o a = let some_size = block_size-positive o in ground arith

-- An address at which no block in use starts may get another order.
Tagged-kept :
    (h h' : Heap) (used : List Block) (new : Ptr)
    → used_cover new used ≡ 0
    → ((a : Ptr) → a ≢ new → h'.orders a ≡ h.orders a)
    → Tagged h used
    → Tagged h' used
Tagged-kept h h' [] new none kept t = tt
Tagged-kept h h' ((a, o) ∷ used) new none kept (e, low, t) =
    let other : a ≢ new = λ same.
      let one : covers new o a ≡ 1 = subst (λ b. covers b o a ≡ 1) same (covers-start o a) in
      omega (arith, one, none) in
    (kept a other ∙ e, low, Tagged-kept h h' used new (omega (arith, none)) kept t)

-- What holds of a heap and the blocks in use: the heap has its 17 lists, the blocks in use have
-- their orders in their metadata, and every byte is in exactly one block, free or in use, if it is
-- among the `managed` ones from `base` on, and in none otherwise.
abbrev Partitioned : (base : Ptr) (managed : ℕ) → Heap → List Block → Type 0
Partitioned base managed h used =
    (length h.buddy_lists ≡ 17)
    × Tagged h used
    × ((byte : Ptr) → free_cover byte h + used_cover byte used ≡ is_in byte base managed)

is_in-bound : (byte a size : ℕ) → is_in byte a size ≤ 1
is_in-bound byte a size = ground arith

mm_free-length : (h : Heap) (p : Ptr) → length (mm_free p h).buddy_lists ≡ length h.buddy_lists
unfolding mm_free
mm_free-length h p = elim (Bool-cases (p == null)) [
  | inl z ↦ rw (mm_free, z) refl
  | inr z ↦
      rw (mm_free, z)
        (merge-length (16 - h.orders (p - 8)) (h.orders (p - 8)) h.start_addr (p - 8) h.buddy_lists)
]

mm_free-orders : (h : Heap) (p a : Ptr) → (mm_free p h).orders a ≡ h.orders a
unfolding mm_free
mm_free-orders h p a = elim (Bool-cases (p == null)) [
  | inl z ↦ rw (mm_free, z) refl
  | inr z ↦ rw (mm_free, z) refl
]

Tagged-same :
    (h h' : Heap) (used : List Block)
    → ((a : Ptr) → h'.orders a ≡ h.orders a)
    → Tagged h used
    → Tagged h' used
Tagged-same h h' [] same t = tt
Tagged-same h h' ((a, o) ∷ used) same (e, low, t) = (same a ∙ e, low, Tagged-same h h' used same t)

allocate-Partitioned :
    (base : Ptr) (managed : ℕ) (h : Heap) (used : List Block) (p : Ptr) (h' : Heap)
    → Partitioned base managed h used
    → p ≢ null
    → ((byte : Ptr) → Handed byte h (p, h'))
    → Partitioned base managed h' ((p - 8, h'.orders (p - 8)) ∷ used)
allocate-Partitioned base managed h used p h' (len, tags, once) ne handed = elim (handed (p - 8)) [
  | inl (z, same) ↦ absurd (ne z)
  | inr (ne', taken, low, len', kept) ↦
      let at_most = is_in-bound (p - 8) base managed in
      let unused : used_cover (p - 8) used ≡ 0 =
        omega (arith, once (p - 8), taken, covers-start (h'.orders (p - 8)) (p - 8), at_most) in
      (
        len' ∙ len,
        (refl, low, Tagged-kept h h' used (p - 8) unused kept tags),
        λ byte. elim (handed byte) [
          | inl (z, same) ↦ absurd (ne z)
          | inr (_, taken_there, _, _, _) ↦ omega (arith, once byte, taken_there)
        ],
      )
]

free-Partitioned :
    (base : Ptr) (managed : ℕ) (h : Heap) (before after : List Block) (a : Ptr) (o : ℕ)
    → Partitioned base managed h (before ++ (a, o) ∷ after)
    → Partitioned base managed (mm_free (a + 8) h) (before ++ after)
free-Partitioned base managed h before after a o (len, tags, once) =
    let (e, low) = Tagged-here h before after a o tags in
    let here : a + 8 - 8 ≡ a = omega arith in
    let order_there : h.orders (a + 8 - 8) ≡ o = ap h.orders here ∙ e in
    (
      mm_free-length h (a + 8) ∙ len,
      Tagged-same h (mm_free (a + 8) h) (before ++ after) (mm_free-orders h (a + 8))
          (Tagged-less h before after (a, o) tags),
      λ byte.
          let given =
            mm_free-cover byte h (a + 8) len (omega (arith, order_there, low)) (omega arith) in
          let block : covers byte (h.orders (a + 8 - 8)) (a + 8 - 8) ≡ covers byte o a =
            ap₂ (covers byte) order_there here in
          omega (
            arith,
            once byte,
            given,
            block,
            used_cover-append byte before after,
            used_cover-append byte before ((a, o) ∷ after),
          ),
    )

History-Partitioned :
    (base : Ptr) (total : ℕ) (start : Heap) {h : Heap} {used : List Block}
    → History (mm_init base total start) h used
    → Partitioned base (mm_init base total start).total_managed_bytes h used
History-Partitioned base total start started = (
  (mm_init-Started base total start).0,
  tt,
  λ byte. omega (arith, mm_init-cover byte base total start),
)
History-Partitioned base total start (allocated {h} {used} past size p h' e ne) =
    let inv = History-Partitioned base total start past in
    allocate-Partitioned base (mm_init base total start).total_managed_bytes h used p h' inv ne
      (λ byte. mm_alloc-Handed byte h size (p, h') inv.0 e)
History-Partitioned base total start (freed {h} before after a o past) =
    free-Partitioned base (mm_init base total start).total_managed_bytes h before after a o
      (History-Partitioned base total start past)

-- After `mm_init` and any history of calls of `mm_alloc` of any size that return, and of `mm_free` on
-- blocks in use, every byte is in exactly one block, free or in use, if it is among the managed
-- bytes, and in none otherwise.
pub History-cover :
    (base : Ptr) (total : ℕ) (start : Heap) {h : Heap} {used : List Block} (byte : Ptr)
    → History (mm_init base total start) h used
    → free_cover byte h + used_cover byte used
      ≡ is_in byte base (mm_init base total start).total_managed_bytes
History-cover base total start byte past =
    let (_, _, once) = History-Partitioned base total start past in once byte

-- After `mm_init` and any history of calls of `mm_alloc` of any size that return, and of `mm_free` on
-- blocks in use, a byte of a block in use is a managed one, and in no other block in use and no free
-- block.
pub History-exclusive :
    (base : Ptr) (total : ℕ) (start : Heap) {h : Heap} (before after : List Block) (a : Ptr)
    (o byte : ℕ)
    → History (mm_init base total start) h (before ++ (a, o) ∷ after)
    → a ≤ byte
    → byte < a + block_size o
    → (used_cover byte (before ++ after) ≡ 0)
      × (free_cover byte h ≡ 0)
      × (is_in byte base (mm_init base total start).total_managed_bytes ≡ 1)
History-exclusive base total start {h} before after a o byte past low high =
    let managed = (mm_init base total start).total_managed_bytes in
    let once = History-cover base total start byte past in
    let at_most = is_in-bound byte base managed in
    let here : covers byte o a ≡ 1 = ground arith in
    let parts = used_cover-append byte before ((a, o) ∷ after) in
    let rest = used_cover-append byte before after in
    (
      omega (arith, once, at_most, here, parts, rest),
      omega (arith, once, at_most, here, parts, rest),
      omega (arith, once, at_most, here, parts, rest),
    )
