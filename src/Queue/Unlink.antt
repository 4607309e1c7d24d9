-- ===== src/Queue/Unlink.antt =====
-- The node that `queueRemove` of TP2-SO-2025/Kernel/datastructures/queue.c takes out of memory, and
-- the queue's structure after that.
use tp_so_grupo.Base.{
  ok, chain, ℕ, suc, ◌≡◌, ◌≢◌, refl, ◌∙◌, true, false, not, ◌&&◌, none, some, [], ◌∷◌, ◌++◌, arith,
  ne→==, eq→==, ◌==◌, if◌then◌else◌, length, length-append,
}
use tp_so_grupo.Queue.{Queue, unlink, remove_at}
use tp_so_grupo.Queue.Nodes.{Ptr, null, node, Memory, write}
use tp_so_grupo.Queue.Chain.{
  Cells, has, first, last, Chain, IsQueue, Chain-write, has-last, has-ne, set_next-ok, release-ok,
  write-ne,
}
use tp_so_grupo.Queue.Enqueue.{last_value}
use tp_so_grupo.Queue.Split.{
  Chain-Middle, unlinked, Chain-unlinked, not-has-Middle, tail_unlinked, iter-unlinked,
}

-- Memory once the node at `p`, behind `before`, is unlinked and freed.
abbrev pub cut : Memory → Cells → Ptr → Cells → Memory
cut m [] p after = write m p none
cut m ((b, w) ∷ bs) p after = unlinked m b w bs p after

pub Chain-cut :
    (m : Memory) (before : Cells) (p : Ptr) (v : ℕ) (after : Cells)
    → Chain m (before ++ (p, v) ∷ after)
    → Chain (cut m before p after) (before ++ after)
Chain-cut m [] p v after c = Chain-write m p none after c.2 c.3
Chain-cut m ((b, w) ∷ bs) p v after c = Chain-unlinked m b w bs p v after c

pub cut-frame :
    (m : Memory) (before : Cells) (p : Ptr) (v : ℕ) (after : Cells) (a : Ptr)
    → has a (before ++ (p, v) ∷ after) ≡ false
    → cut m before p after a ≡ m a
cut-frame m [] p v after a out = write-ne m none a (λ e. absurd (ground (arith, eq→== p a e)))
cut-frame m ((b, w) ∷ bs) p v after a out =
    let (other, gone, both) = not-has-Middle a ((b, w) ∷ bs) p v after out in
    write-ne (write m (last ((b, w) ∷ bs)) (some (node (last_value w bs) (first after)))) {p = p}
      none a (λ e. absurd (ground (arith, eq→== p a e)))
    ∙ write-ne m (some (node (last_value w bs) (first after))) a
        (has-ne a (last ((b, w) ∷ bs)) ((b, w) ∷ bs) gone (has-last (b, w) bs))

pub cut-freed :
    (m : Memory) (before : Cells) (p : Ptr) (after : Cells) → cut m before p after p ≡ none
unfolding write
cut-freed m [] p after = rw (eq→== p p refl) refl
cut-freed m ((b, w) ∷ bs) p after = rw (eq→== p p refl) refl

-- What the last of the nodes before `after` holds.
pub last_before :
    (m : Memory) (b : Ptr) (w : ℕ) (bs after : Cells)
    → Chain m ((b, w) ∷ bs ++ after)
    → (last ((b, w) ∷ bs) ≢ null)
      × (m (last ((b, w) ∷ bs)) ≡ some (node (last_value w bs) (first after)))
last_before m b w [] after c = (c.0, c.1)
last_before m b w ((d, x) ∷ bs) after c = last_before m d x bs after c.3

-- The iterator goes on from the node at `p`.
pub iter_moved :
    (i p n : Ptr)
    → p ≢ null
    → (if not (i == null) && i == p then n else i) ≡ (if i == p then n else i)
iter_moved i p n solid = ground (arith, solid)

pub length-middle :
    (before : Cells) (d : Ptr × ℕ) (after : Cells)
    → length (before ++ d ∷ after) ≡ suc (length (before ++ after))
length-middle before d after =
    omega (arith, length-append before (d ∷ after), length-append before after)

module _ (m : Memory) (q : Queue) where
  pub remove_at-eq :
      (before : Cells) (p : Ptr) (v : ℕ) (after : Cells)
      → Chain m (before ++ (p, v) ∷ after)
      → remove_at (last before) p (first after) q m
        ≡ ok (true, unlink (last before) p (first after) q) (cut m before p after)
  unfolding remove_at
  remove_at-eq [] p v after c = rw (release-ok m p _ c.0 c.1, chain) refl
  remove_at-eq ((b, w) ∷ bs) p v after c =
      let at = Chain-Middle m ((b, w) ∷ bs) p v after c in
      let (solid, holds) = last_before m b w bs ((p, v) ∷ after) c in
      let apart = has-ne p (last ((b, w) ∷ bs)) ((b, w) ∷ bs) at.not_before (has-last (b, w) bs) in
      let m' = write m (last ((b, w) ∷ bs)) (some (node (last_value w bs) (first after))) in
      let still : m' p ≡ some (node v (first after)) =
        write-ne m (some (node (last_value w bs) (first after))) p apart ∙ at.holds in
      rw
        (
          remove_at,
          ne→== (last ((b, w) ∷ bs)) null solid,
          set_next-ok m (last ((b, w) ∷ bs)) (node (last_value w bs) p) solid holds (first after),
          chain,
          release-ok m' p (node v (first after)) at.solid still,
          chain,
        )
        refl

  head_unlinked :
      (before : Cells) (p : Ptr) (v : ℕ) (after : Cells)
      → IsQueue m q (before ++ (p, v) ∷ after)
      → (if last before == null then first after else q.head) ≡ first (before ++ after)
  head_unlinked [] p v after k = refl
  head_unlinked ((b, w) ∷ bs) p v after k =
      rw (ne→== (last ((b, w) ∷ bs)) null (last_before m b w bs ((p, v) ∷ after) k.linked).0)
        k.head_at

  pub unlink-IsQueue :
      (before : Cells) (p : Ptr) (v : ℕ) (after : Cells)
      → IsQueue m q (before ++ (p, v) ∷ after)
      → IsQueue (cut m before p after) (unlink (last before) p (first after) q) (before ++ after)
  unfolding unlink
  unlink-IsQueue before p v after k =
      let solid = (Chain-Middle m before p v after k.linked).solid in
      let count = length-middle before (p, v) after in
      record {
        linked = Chain-cut m before p v after k.linked;
        head_at = head_unlinked before p v after k;
        tail_at = rw k.tail_at (tail_unlinked m before p v after k.linked);
        iter_at =
            rw (iter_moved q.iter p (first after) solid)
              (iter-unlinked m q.iter before p v after k.linked k.iter_at);
        counted = omega (arith, k.counted, k.small, count);
        small = omega (arith, k.small, count);
      }
