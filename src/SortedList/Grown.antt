-- ===== src/SortedList/Grown.antt =====
-- The nodes of the list of TP2-SO-2025/Kernel/datastructures/list.c, and memory with one node more.
use tp_so_grupo.Base.{
  ℕ, ◌^◌, ◌<◌, ◌≡◌, ◌≢◌, refl, sym, ◌∙◌, false, some, [], ◌∷◌, ◌++◌, arith, ne→==, eq→==, length,
}
use tp_so_grupo.Queue.Nodes.{Ptr, null, node, Memory, write}
use tp_so_grupo.Queue.Chain.{
  Cells, has, first, last, Chain, values, has-append, Chain-write, has-last, has-ne, write-ne,
}
use tp_so_grupo.Queue.Enqueue.{last_value}
use tp_so_grupo.SortedList.{SortedList}
use tp_so_grupo.SortedList.Insert.{Ascending}

-- The representation invariant of the list.
pub record IsList (m : Memory) (l : SortedList) (cs : Cells) : Type 0 where
  pub linked : Chain m cs
  pub head_at : l.head ≡ first cs
  pub counted : l.size ≡ length cs
  pub small : length cs < 2 ^ 64
  pub ordered : Ascending l.cmp (values cs)

-- Memory with the node at `new` behind `before`.
abbrev pub grown : Memory → Cells → (new : Ptr) → ℕ → Cells → Memory
grown m [] new v after = write m new (some (node v (first after)))
grown m ((b, w) ∷ bs) new v after =
    write (write m new (some (node v (first after)))) (last ((b, w) ∷ bs))
      (some (node (last_value w bs) new))

pub Chain-grown :
    (m : Memory) (before : Cells) (new : Ptr) (v : ℕ) (after : Cells)
    → new ≢ null
    → has new (before ++ after) ≡ false
    → Chain m (before ++ after)
    → Chain (grown m before new v after) (before ++ (new, v) ∷ after)
unfolding write
Chain-grown m [] new v after nn out c = (
  nn,
  rw (eq→== new new refl) refl,
  out,
  Chain-write m new (some (node v (first after))) after out c,
)
Chain-grown m ((b, w) ∷ []) new v after nn out c =
    let out_after : has new after ≡ false = ground (arith, out) in
    let m' = write m new (some (node v (first after))) in
    (
      c.0,
      rw (eq→== b b refl) refl,
      ground (arith, c.2, out),
      (
        nn,
        write-ne m' (some (node w new)) new (λ e. absurd (ground (arith, out, eq→== b new e)))
            ∙ rw (eq→== new new refl) refl,
        out_after,
        Chain-write m' b (some (node w new)) after c.2
            (Chain-write m new (some (node v (first after))) after out_after c.3),
      ),
    )
Chain-grown m ((b, w) ∷ (d, x) ∷ bs) new v after nn out c =
    let m' = write m new (some (node v (first after))) in
    let parts = has-append b ((d, x) ∷ bs) after in
    let gone : has b ((d, x) ∷ bs) ≡ false = ground (arith, parts, c.2) in
    let apart = has-ne b (last ((d, x) ∷ bs)) ((d, x) ∷ bs) gone (has-last (d, x) bs) in
    let other : new ≢ b = λ e. absurd (ground (arith, out, eq→== b new (sym e))) in
    (
      c.0,
      write-ne m' (some (node (last_value x bs) new)) b apart
          ∙ write-ne m (some (node v (first after))) b other
          ∙ c.1,
      ground (arith, parts, has-append b ((d, x) ∷ bs) ((new, v) ∷ after), c.2, ne→== new b other),
      Chain-grown m ((d, x) ∷ bs) new v after nn (ground (arith, out)) c.3,
    )

pub grown-frame :
    (m : Memory) (before : Cells) (new : Ptr) (v : ℕ) (after : Cells) (a : Ptr)
    → has a (before ++ after) ≡ false
    → new ≢ a
    → grown m before new v after a ≡ m a
grown-frame m [] new v after a out n = write-ne m (some (node v (first after))) a n
grown-frame m ((b, w) ∷ bs) new v after a out n =
    let gone : has a ((b, w) ∷ bs) ≡ false =
      ground (arith, out, has-append a ((b, w) ∷ bs) after) in
    write-ne (write m new (some (node v (first after)))) (some (node (last_value w bs) new)) a
      (has-ne a (last ((b, w) ∷ bs)) ((b, w) ∷ bs) gone (has-last (b, w) bs))
    ∙ write-ne m (some (node v (first after))) a n
