-- ===== src/SortedList/Add.antt =====
-- `listAdd` of TP2-SO-2025/Kernel/datastructures/list.c against insertion in order.
use tp_so_grupo.Base.{
  ok, pure, chain, Ensures, ℕ, zero, suc, ◌+◌, ◌%◌, ◌^◌, ◌<◌, ◌≡◌, ◌≢◌, refl, sym, ap, subst, ◌∙◌,
  inl, inr, Bool, true, false, none, some, [], ◌∷◌, ◌++◌, append-nil, append_assoc, arith, ne→==,
  eq→==, ◌==◌, if◌then◌else◌, length, length-append, Bool-cases, ℤ, is_negative,
}
use tp_so_grupo.Queue.Nodes.{Ptr, null, node, Memory, write, allocate}
use tp_so_grupo.Queue.Chain.{
  Cells, has, first, last, Chain, values, has-append, has-last, has-ne, load-ok, set_next-ok,
  not-has_of_none, write-ne,
}
use tp_so_grupo.Queue.Enqueue.{last_value}
use tp_so_grupo.Queue.Split.{last-snoc, first-other}
use tp_so_grupo.Queue.Unlink.{last_before}
use tp_so_grupo.SortedList.{SortedList, place_loop, is_there, insert_at, list_add}
use tp_so_grupo.SortedList.Insert.{
  IsOrder, insert, Ascending, insert-Ascending, lower, upper, at_first, lower-upper, insert-there,
  insert-new,
}
use tp_so_grupo.SortedList.Grown.{IsList, grown, Chain-grown, grown-frame}

Chain-right : (m : Memory) (xs ys : Cells) → Chain m (xs ++ ys) → Chain m ys
Chain-right m [] ys c = c
Chain-right m ((p, v) ∷ xs) ys c = Chain-right m xs ys c.3

module _ (m : Memory) (cmp : ℕ → ℕ → ℤ) (v : ℕ) where
  place_loop-lower :
      (k : ℕ) (before cs : Cells)
      → Chain m cs
      → length cs < k
      → place_loop k cmp v (last before) (first cs) m
        ≡ ok (last (before ++ lower cmp v cs), first (upper cmp v cs)) m
  unfolding place_loop
  place_loop-lower zero before cs c l = absurd (omega arith)
  place_loop-lower (suc k) before [] c l = rw (append-nil before) refl
  place_loop-lower (suc k) before ((p, x) ∷ cs) c l =
      let at = load-ok m p (node x (first cs)) c.0 c.1 in
      elim (Bool-cases (is_negative (cmp x v))) [
        | inl n ↦
            let ih = place_loop-lower k (before ++ (p, x) ∷ []) cs c.3 (omega arith) in
            rw (place_loop, ne→== p null c.0, at, chain, n)
              (rw (last-snoc before p x, append_assoc before ((p, x) ∷ []) (lower cmp v cs)) at ih)
        | inr n ↦ rw (place_loop, ne→== p null c.0, at, chain, n, append-nil before) refl
      ]

  is_there-first :
      (cs : Cells) → Chain m cs → is_there cmp v (first cs) m ≡ ok (at_first cmp v cs) m
  unfolding is_there
  is_there-first [] c = refl
  is_there-first ((p, x) ∷ cs) c =
      rw (ne→== p null c.0, load-ok m p (node x (first cs)) c.0 c.1, chain) refl

module _ (m : Memory) (l : SortedList) (new : Ptr) (v : ℕ) (nn : new ≢ null) where
  -- The list's structure after an element is added behind `before`.
  abbrev pub more : Cells → SortedList
  more [] = record l { head = new; size = (l.size + 1) % 2 ^ 64 }
  more (b ∷ bs) = record l { size = (l.size + 1) % 2 ^ 64 }

  insert_at-eq :
      (before after : Cells)
      → Chain m (before ++ after)
      → l.head ≡ first (before ++ after)
      → has new (before ++ after) ≡ false
      → insert_at new (last before) (first after) v l m
        ≡ ok (more before) (grown m before new v after)
  unfolding insert_at allocate
  insert_at-eq [] after c h out = rw (eq→== (first after) l.head (sym h)) refl
  insert_at-eq ((b, w) ∷ bs) after c h out =
      let (solid, holds) = last_before m b w bs after c in
      let gone : has b after ≡ false = ground (arith, c.2, has-append b bs after) in
      let inner : (first after == l.head) ≡ false = ne→== (first after) l.head (λ e.
        absurd
          (ground (arith, first-other b after c.0 gone, eq→== b (first after) (sym (e ∙ h))))) in
      let out_before : has new ((b, w) ∷ bs) ≡ false =
        ground (arith, out, has-append new ((b, w) ∷ bs) after) in
      let apart = has-ne new (last ((b, w) ∷ bs)) ((b, w) ∷ bs) out_before (has-last (b, w) bs) in
      let still =
        write-ne m {p = new} (some (node v (first after))) (last ((b, w) ∷ bs)) (λ e. apart (sym e))
        ∙ holds in
      rw
        (
          inner,
          set_next-ok (write m new (some (node v (first after)))) (last ((b, w) ∷ bs))
              (node (last_value w bs) (first after)) solid still new,
        )
        refl

  -- The nodes of the list after `listAdd`.
  abbrev pub added_cells : Cells → Cells
  added_cells cs =
      if at_first l.cmp v (upper l.cmp v cs)
      then cs
      else lower l.cmp v cs ++ (new, v) ∷ upper l.cmp v cs

  -- What `listAdd` leaves of a list over the nodes `cs`: one over the nodes `cs'`, in order, and the
  -- rest of memory as it was.
  abbrev pub AddedTo : (cs cs' : Cells) → Bool × SortedList → Memory → Type 0
  AddedTo cs cs' (done, l') m' =
      (done ≡ true)
      × IsList m' l' cs'
      × (values cs' ≡ insert l.cmp v (values cs))
      × ((a : Ptr) → has a cs ≡ false → new ≢ a → m' a ≡ m a)

  abbrev pub Added : Cells → Bool × SortedList → Memory → Type 0
  Added cs = AddedTo cs (added_cells cs)

  list_add-eq :
      (block : Ptr) (cs : Cells)
      → IsList m l cs
      → block ≢ null
      → list_add new block l v m ≡ (
          if at_first l.cmp v (upper l.cmp v cs)
          then ok (true, l) m
          else chain
              (insert_at new (last (lower l.cmp v cs)) (first (upper l.cmp v cs)) v l m)
              (λ l'. pure (true, l')))
  unfolding list_add
  list_add-eq block cs k nb =
      let low = lower l.cmp v cs in
      let high = upper l.cmp v cs in
      let search =
        place_loop-lower m l.cmp v (l.size + 1) [] cs k.linked (omega (arith, k.counted)) in
      let place : place_loop (l.size + 1) l.cmp v null l.head m ≡ ok (last low, first high) m =
        ap (λ h. place_loop (l.size + 1) l.cmp v null h m) k.head_at ∙ search in
      let rest = Chain-right m low high (subst (Chain m) (sym (lower-upper l.cmp v cs)) k.linked) in
      let found = is_there-first m l.cmp v high rest in
      rw (place, chain, found, chain)
        (elim (Bool-cases (at_first l.cmp v high)) [
          | inl z ↦ rw z refl
          | inr z ↦ rw (z, ne→== new null nn, ne→== block null nb) refl
        ])

  more-cmp : (before : Cells) → (more before).cmp ≡ l.cmp
  more-cmp [] = refl
  more-cmp (b ∷ bs) = refl

  more-size : (before : Cells) → (more before).size ≡ (l.size + 1) % 2 ^ 64
  more-size [] = refl
  more-size (b ∷ bs) = refl

  more-head :
      (before after : Cells)
      → l.head ≡ first (before ++ after)
      → (more before).head ≡ first (before ++ (new, v) ∷ after)
  more-head [] after h = refl
  more-head (b ∷ bs) after h = h

  grown-IsList :
      (before after : Cells)
      → IsList m l (before ++ after)
      → has new (before ++ after) ≡ false
      → length (before ++ after) + 1 < 2 ^ 64
      → Ascending l.cmp (values (before ++ (new, v) ∷ after))
      → IsList (grown m before new v after) (more before) (before ++ (new, v) ∷ after)
  grown-IsList before after k out room a =
      let count : length (before ++ (new, v) ∷ after) ≡ length (before ++ after) + 1 =
        omega (arith, length-append before after, length-append before ((new, v) ∷ after)) in
      record {
        linked = Chain-grown m before new v after nn out k.linked;
        head_at = more-head before after k.head_at;
        counted = more-size before ∙ omega (arith, k.counted, count, room);
        small = omega (arith, count, room);
        ordered =
            subst (λ c. Ascending c (values (before ++ (new, v) ∷ after))) (sym (more-cmp before))
              a;
      }

  -- `listAdd` of an element to a list that is well formed and in order, by a comparison function
  -- that is an order, with two pointers granted that are not NULL, the node's at a free address,
  -- and fewer than 2 ^ 64 elements after it, ends without a fault or its fuel used up and succeeds;
  -- it leaves a list that is well formed and in order, whose elements are those of `insert`, and
  -- changes no address but the new node's and those of the list.
  pub list_add_refines :
      (block : Ptr) (cs : Cells)
      → IsList m l cs
      → IsOrder l.cmp
      → block ≢ null
      → m new ≡ none
      → length cs + 1 < 2 ^ 64
      → Ensures (list_add new block l v m) (Added cs)
  list_add_refines block cs k order nb free room =
      let low = lower l.cmp v cs in
      let high = upper l.cmp v cs in
      let whole = lower-upper l.cmp v cs in
      elim (Bool-cases (at_first l.cmp v high)) [
        | inl z ↦
            rw (list_add-eq block cs k nb, z)
              (refl, k, sym (insert-there l.cmp v cs z), λ a out n. refl)
        | inr z ↦
            let out : has new (low ++ high) ≡ false =
              ap (has new) whole ∙ not-has_of_none m new cs free k.linked in
            let k' = subst (IsList m l) (sym whole) k in
            let spec = insert-new l.cmp v new cs z in
            let room' : length (low ++ high) + 1 < 2 ^ 64 = omega (arith, room, ap length whole) in
            let sorted =
              subst (Ascending l.cmp) spec (insert-Ascending l.cmp v (values cs) order k.ordered) in
            rw (list_add-eq block cs k nb, z, insert_at-eq low high k'.linked k'.head_at out, chain)
              (
                refl,
                grown-IsList low high k' out room' sorted,
                sym spec,
                λ a gone n. grown-frame m low new v high a (ap (has a) whole ∙ gone) n,
              )
      ]
