-- ===== src/Queue/Remove.antt =====
-- `queueRemove` of TP2-SO-2025/Kernel/datastructures/queue.c against the abstract queue.
use tp_so_grupo.Base.{
  pure, chain, Ensures, Ensures-chain, ℕ, zero, suc, ◌+◌, ◌<◌, ◌≡◌, ◌≢◌, refl, sym, ap, ap₂, subst,
  ◌∙◌, inl, inr, Bool, true, false, Option, none, some, List, [], ◌∷◌, ◌++◌, append-nil,
  append_assoc, arith, ne→==, eq→==, length, Bool-cases,
}
use tp_so_grupo.Queue.{Queue, Handle, unlink, remove_loop, remove_with, queue_remove}
use tp_so_grupo.Queue.Nodes.{Ptr, null, node, Memory}
use tp_so_grupo.Queue.Fifo.{Fifo, contains, remove}
use tp_so_grupo.Queue.Chain.{
  Cells, has, first, last, IsQueue, view, Holds, values, values-append, length-values, has-append,
  load-ok,
}
use tp_so_grupo.Queue.Split.{last-snoc, Chain-Middle, index-unlinked}
use tp_so_grupo.Queue.Without.{
  without, without-middle, without-none, contains-middle, contains-snoc,
}
use tp_so_grupo.Queue.Unlink.{cut, cut-frame, cut-freed, iter_moved, remove_at-eq, unlink-IsQueue}

abbrev shown : List ℕ → Option ℕ → Bool × Fifo
shown xs pos = (true, record { items = xs; pos = pos })

module _ (m : Memory) (q : Queue) where
  module _ (same : ℕ → ℕ → Bool) (x : ℕ) where
    -- The queue that is left, that the rest of memory is as it was, and that a node that is gone is
    -- free.
    abbrev pub Removed : Cells → Bool × Handle → Memory → Type 0
    Removed cs (found, h) m' =
        (found ≡ (remove same x (view q cs)).0)
        × Holds m' h (without same x cs) (remove same x (view q cs)).1
        × ((a : Ptr) → has a cs ≡ false → m' a ≡ m a)
        × ((a : Ptr) → has a cs ≡ true → has a (without same x cs) ≡ false → m' a ≡ none)

    view-unlink :
        (before : Cells) (p : Ptr) (v : ℕ) (after : Cells)
        → IsQueue m q (before ++ (p, v) ∷ after)
        → contains same x (values before) ≡ false
        → same v x ≡ true
        → (true, view (unlink (last before) p (first after) q) (before ++ after))
          ≡ remove same x (view q (before ++ (p, v) ∷ after))
    unfolding remove unlink
    view-unlink before p v after k h e =
        let (found, left, at) = contains-middle same x (values before) v (values after) h e in
        let split = values-append before ((p, v) ∷ after) in
        let solid = (Chain-Middle m before p v after k.linked).solid in
        let count : length (values before ++ v ∷ values after) ≡ length (before ++ (p, v) ∷ after) =
          ap length (sym split) ∙ length-values (before ++ (p, v) ∷ after) in
        rw (split, found, left, at, sym (values-append before after))
          (ap₂ shown refl (
            rw (iter_moved q.iter p (first after) solid, length-values before, count)
              (index-unlinked m q.iter before p v after k.linked)))

    remove-none :
        (cs : Cells)
        → contains same x (values cs) ≡ false
        → remove same x (view q cs) ≡ (false, view q cs)
    unfolding remove
    remove-none cs h = rw h refl

    cut-Removed :
        (before : Cells) (p : Ptr) (v : ℕ) (after : Cells)
        → IsQueue m q (before ++ (p, v) ∷ after)
        → contains same x (values before) ≡ false
        → same v x ≡ true
        → Removed
            (before ++ (p, v) ∷ after)
            (true, some (unlink (last before) p (first after) q))
            (cut m before p after)
    cut-Removed before p v after k h e =
        let seen = view-unlink before p v after k h e in
        rw (without-middle same x before p v after h e, sym seen)
          (
            refl,
            (unlink-IsQueue m q before p v after k, refl),
            cut-frame m before p v after,
            λ a there gone.
                let parts = has-append a before ((p, v) ∷ after) in
                let others = has-append a before after in
                let same_place : a ≡ p = ground (arith, parts, others, there, gone) in
                rw same_place (cut-freed m before p after),
          )

    remove_loop-Removed :
        (k : ℕ) (before cs : Cells)
        → IsQueue m q (before ++ cs)
        → contains same x (values before) ≡ false
        → length cs < k
        → Ensures
            (remove_loop same x q k (last before) (first cs) m)
            (λ (found, q'). Removed (before ++ cs) (found, some q'))
    unfolding remove_loop
    remove_loop-Removed zero before cs w h l = absurd (omega arith)
    remove_loop-Removed (suc k) before [] w h l =
        let all = append-nil before in
        let absent : contains same x (values (before ++ [])) ≡ false =
          ap (λ c. contains same x (values c)) all ∙ h in
        rw (remove-none (before ++ []) absent, without-none same x (before ++ []) absent)
          (refl, (w, refl), (λ a out. refl), λ a there gone. absurd (ground (arith, there, gone)))
    remove_loop-Removed (suc k) before ((p, v) ∷ cs) w h l =
        let at = Chain-Middle m before p v cs w.linked in
        elim (Bool-cases (same v x)) [
          | inl e ↦
              rw
                (
                  remove_loop,
                  ne→== p null at.solid,
                  load-ok m p (node v (first cs)) at.solid at.holds,
                  chain,
                  e,
                  remove_at-eq m q before p v cs w.linked,
                )
                (cut-Removed before p v cs w h e)
          | inr d ↦
              let all = append_assoc before ((p, v) ∷ []) cs in
              let more = before ++ (p, v) ∷ [] in
              let absent : contains same x (values more) ≡ false =
                ap (contains same x) (values-append before ((p, v) ∷ []))
                ∙ contains-snoc same x (values before) v h d in
              let ih =
                remove_loop-Removed k more cs (subst (IsQueue m q) (sym all) w) absent
                  (omega arith) in
              rw
                (
                  remove_loop,
                  ne→== p null at.solid,
                  load-ok m p (node v (first cs)) at.solid at.holds,
                  chain,
                  d,
                )
                (rw (all, last-snoc before p v) at ih)
        ]

    queue_remove-eq :
        q.head ≢ null
        → q.cmp ≡ some same
        → queue_remove (some q) x m
          ≡ chain
              (remove_loop same x q (q.elem_count + 1) null q.head m)
              (λ (found, q'). pure (found, some q'))
    unfolding queue_remove remove_with
    queue_remove-eq n e = rw (ne→== q.head null n) (ap (λ c. remove_with c q x m) e)

    -- `queueRemove` on a well-formed queue with a comparison function ends without a fault or its
    -- fuel used up, answers as `Fifo.remove` does and leaves a well-formed queue that a caller sees
    -- as `Fifo.remove` describes; it frees the node that is gone, and changes no address that is
    -- not a node's.
    pub queue_remove_refines :
        (cs : Cells)
        → IsQueue m q cs
        → q.cmp ≡ some same
        → Ensures (queue_remove (some q) x m) (Removed cs)
    unfolding queue_remove remove_with remove
    queue_remove_refines [] k e =
        rw (queue_remove, eq→== q.head null k.head_at)
          (refl, (k, refl), (λ a out. refl), λ a there gone. absurd (ground arith))
    queue_remove_refines ((p, v) ∷ cs) k e =
        let head_there : q.head ≢ null = λ z. k.linked.0 (sym k.head_at ∙ z) in
        let loop =
          remove_loop-Removed (q.elem_count + 1) [] ((p, v) ∷ cs) k refl
            (omega (arith, k.counted)) in
        rw (queue_remove-eq head_there e) (
          Ensures-chain (remove_loop same x q (q.elem_count + 1) null q.head m)
            (λ (found, q'). pure (found, some q'))
            (λ (found, q'). Removed ((p, v) ∷ cs) (found, some q')) (Removed ((p, v) ∷ cs))
            (subst
              (λ h.
                Ensures (remove_loop same x q (q.elem_count + 1) null h m)
                  (λ (found, q'). Removed ((p, v) ∷ cs) (found, some q')))
              (sym k.head_at) loop)
            (λ r s h. h))
