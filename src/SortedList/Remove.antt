-- ===== src/SortedList/Remove.antt =====
-- `listRemove` of TP2-SO-2025/Kernel/datastructures/list.c against the elements that stay.
use tp_so_grupo.Base.{
  ok, pure, chain, Ensures, Ensures-chain, ℕ, zero, suc, ◌+◌, ◌-◌, ◌%◌, ◌^◌, ◌<◌, ◌≡◌, ◌≢◌, refl,
  sym, ap, subst, ◌∙◌, inl, inr, Bool, true, false, not, Option, none, some, [], ◌∷◌, ◌++◌,
  append-nil, append_assoc, arith, ne→==, eq→==, ◌==◌, length, Bool-cases, is_zero,
}
use tp_so_grupo.Queue.Nodes.{Ptr, null, node, Memory, write}
use tp_so_grupo.Queue.Fifo.{contains}
use tp_so_grupo.Queue.Chain.{
  Cells, has, first, last, Chain, values, values-append, has-append, has-last, has-ne, load-ok,
  set_next-ok, release-ok, write-ne,
}
use tp_so_grupo.Queue.Enqueue.{last_value}
use tp_so_grupo.Queue.Split.{last-snoc, Chain-Middle}
use tp_so_grupo.Queue.Unlink.{cut, Chain-cut, cut-frame, cut-freed, last_before, length-middle}
use tp_so_grupo.Queue.Without.{without, without-middle, without-none, values-without, contains-snoc}
use tp_so_grupo.SortedList.{SortedList, take_out, drop_loop, list_remove}
use tp_so_grupo.SortedList.Insert.{equal, Ascending, erase-Ascending}
use tp_so_grupo.SortedList.Grown.{IsList}

module _ (m : Memory) (l : SortedList) (v : ℕ) where
  -- The list's structure after the node behind `before` is taken out.
  abbrev pub less : (before after : Cells) → SortedList
  less [] after = record l { head = first after; size = (l.size + 2 ^ 64 - 1) % 2 ^ 64 }
  less (b ∷ bs) after = record l { size = (l.size + 2 ^ 64 - 1) % 2 ^ 64 }

  take_out-eq :
      (before : Cells) (p : Ptr) (x : ℕ) (after : Cells)
      → Chain m (before ++ (p, x) ∷ after)
      → take_out (last before) p (first after) l m ≡ ok (less before after) (cut m before p after)
  unfolding take_out
  take_out-eq [] p x after c = rw (release-ok m p _ c.0 c.1, chain) refl
  take_out-eq ((b, w) ∷ bs) p x after c =
      let at = Chain-Middle m ((b, w) ∷ bs) p x after c in
      let (solid, holds) = last_before m b w bs ((p, x) ∷ after) c in
      let apart = has-ne p (last ((b, w) ∷ bs)) ((b, w) ∷ bs) at.not_before (has-last (b, w) bs) in
      let m' = write m (last ((b, w) ∷ bs)) (some (node (last_value w bs) (first after))) in
      let still : m' p ≡ some (node x (first after)) =
        write-ne m (some (node (last_value w bs) (first after))) p apart ∙ at.holds in
      rw
        (
          take_out,
          ne→== (last ((b, w) ∷ bs)) null solid,
          set_next-ok m (last ((b, w) ∷ bs)) (node (last_value w bs) p) solid holds (first after),
          chain,
          release-ok m' p (node x (first after)) at.solid still,
          chain,
        )
        refl

  less-cmp : (before after : Cells) → (less before after).cmp ≡ l.cmp
  less-cmp [] after = refl
  less-cmp (b ∷ bs) after = refl

  less-size : (before after : Cells) → (less before after).size ≡ (l.size + 2 ^ 64 - 1) % 2 ^ 64
  less-size [] after = refl
  less-size (b ∷ bs) after = refl

  less-head :
      (before : Cells) (d : Ptr × ℕ) (after : Cells)
      → l.head ≡ first (before ++ d ∷ after)
      → (less before after).head ≡ first (before ++ after)
  less-head [] d after h = refl
  less-head (b ∷ bs) d after h = h

  less-IsList :
      (before : Cells) (p : Ptr) (x : ℕ) (after : Cells)
      → IsList m l (before ++ (p, x) ∷ after)
      → Ascending l.cmp (values (before ++ after))
      → IsList (cut m before p after) (less before after) (before ++ after)
  less-IsList before p x after k a =
      let count = length-middle before (p, x) after in
      record {
        linked = Chain-cut m before p x after k.linked;
        head_at = less-head before (p, x) after k.head_at;
        counted = less-size before after ∙ omega (arith, k.counted, k.small, count);
        small = omega (arith, k.small, count);
        ordered =
            subst (λ c. Ascending c (values (before ++ after))) (sym (less-cmp before after)) a;
      }

  -- What stays of a list over the nodes `cs`: one over `cs'`, in order; the nodes that are gone are
  -- free, and the rest of memory is as it was.
  abbrev pub Dropped : (cs cs' : Cells) → SortedList → Memory → Type 0
  Dropped cs cs' l' m' =
      IsList m' l' cs'
      × ((a : Ptr) → has a cs ≡ false → m' a ≡ m a)
      × ((a : Ptr) → has a cs ≡ true → has a cs' ≡ false → m' a ≡ none)

  abbrev pub DroppedFrom : Cells → Bool × Option SortedList → Memory → Type 0
  DroppedFrom cs (done, none) m' = ⊥
  DroppedFrom cs (done, some l') m' =
      (done ≡ not (l.head == null)) × Dropped cs (without (equal l.cmp) v cs) l' m'

  cut-Dropped :
      (before : Cells) (p : Ptr) (x : ℕ) (after : Cells)
      → IsList m l (before ++ (p, x) ∷ after)
      → Ascending l.cmp (values (before ++ after))
      → Dropped
          (before ++ (p, x) ∷ after)
          (before ++ after)
          (less before after)
          (cut m before p after)
  cut-Dropped before p x after k a = (
    less-IsList before p x after k a,
    cut-frame m before p x after,
    λ b there gone.
        let parts = has-append b before ((p, x) ∷ after) in
        let others = has-append b before after in
        let same_place : b ≡ p = ground (arith, parts, others, there, gone) in
        rw same_place (cut-freed m before p after),
  )

  drop_loop-Dropped :
      (k : ℕ) (before cs : Cells)
      → IsList m l (before ++ cs)
      → contains (equal l.cmp) v (values before) ≡ false
      → length cs < k
      → Ensures
          (drop_loop k l v (last before) (first cs) m)
          (Dropped (before ++ cs) (without (equal l.cmp) v (before ++ cs)))
  unfolding drop_loop
  drop_loop-Dropped zero before cs w h short = absurd (omega arith)
  drop_loop-Dropped (suc k) before [] w h short =
      let absent : contains (equal l.cmp) v (values (before ++ [])) ≡ false =
        ap (λ c. contains (equal l.cmp) v (values c)) (append-nil before) ∙ h in
      rw (without-none (equal l.cmp) v (before ++ []) absent)
        (w, (λ a out. refl), λ a there gone. absurd (ground (arith, there, gone)))
  drop_loop-Dropped (suc k) before ((p, x) ∷ cs) w h short =
      let at = Chain-Middle m before p x cs w.linked in
      elim (Bool-cases (is_zero (l.cmp x v))) [
        | inl e ↦
            let left = without-middle (equal l.cmp) v before p x cs h e in
            let sorted =
              subst (Ascending l.cmp)
                (sym (values-without (equal l.cmp) v (before ++ (p, x) ∷ cs)) ∙ ap values left)
                (erase-Ascending l.cmp v (values (before ++ (p, x) ∷ cs)) w.ordered) in
            rw
              (
                drop_loop,
                ne→== p null at.solid,
                load-ok m p (node x (first cs)) at.solid at.holds,
                chain,
                e,
                take_out-eq before p x cs w.linked,
                left,
              )
              (cut-Dropped before p x cs w sorted)
        | inr d ↦
            let all = append_assoc before ((p, x) ∷ []) cs in
            let past = before ++ (p, x) ∷ [] in
            let absent : contains (equal l.cmp) v (values past) ≡ false =
              ap (contains (equal l.cmp) v) (values-append before ((p, x) ∷ []))
              ∙ contains-snoc (equal l.cmp) v (values before) x h d in
            let ih =
              drop_loop-Dropped k past cs (subst (IsList m l) (sym all) w) absent (omega arith) in
            rw
              (
                drop_loop,
                ne→== p null at.solid,
                load-ok m p (node x (first cs)) at.solid at.holds,
                chain,
                d,
              )
              (rw (all, last-snoc before p x) at ih)
      ]

  -- `listRemove` on a list that is well formed and in order ends without a fault or its fuel used
  -- up, and returns NULL just if the list is empty: for an element that is not found in another list
  -- it returns the list, and not the NULL that list.h promises. It leaves a list that is well formed
  -- and in order, without the first node of an element that compares equal, if there is one; that
  -- node is free, and no address changes that is not a node's.
  pub list_remove_refines :
      (cs : Cells) → IsList m l cs → Ensures (list_remove (some l) v m) (DroppedFrom cs)
  unfolding list_remove contains
  list_remove_refines [] k = rw (eq→== l.head null k.head_at) (
    rw (eq→== l.head null k.head_at) refl,
    (k, (λ a out. refl), λ a there gone. absurd (ground arith)),
  )
  list_remove_refines ((p, x) ∷ cs) k =
      let loop =
        drop_loop-Dropped (l.size + 1) [] ((p, x) ∷ cs) k refl (omega (arith, k.counted)) in
      let head_there : l.head ≢ null = λ z. k.linked.0 (sym k.head_at ∙ z) in
      let cs' = without (equal l.cmp) v ((p, x) ∷ cs) in
      let loop' =
        subst (λ h. Ensures (drop_loop (l.size + 1) l v null h m) (Dropped ((p, x) ∷ cs) cs'))
          (sym k.head_at) loop in
      rw (ne→== l.head null head_there) (
        Ensures-chain (drop_loop (l.size + 1) l v null l.head m) (λ l'. pure (true, some l'))
          (Dropped ((p, x) ∷ cs) cs') (DroppedFrom ((p, x) ∷ cs)) loop'
          (λ l' s d. (rw (ne→== l.head null head_there) refl, d)))
