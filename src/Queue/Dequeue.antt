-- ===== src/Queue/Dequeue.antt =====
-- `dequeue` and the cyclic iterator against the abstract queue.
use tp_so_grupo.Base.{
  ok, chain, Ensures, ℕ, suc, ◌≡◌, ◌≢◌, sym, ◌∙◌, refl, ap, ◌⊎◌, inl, inr, true, false, not, ◌&&◌,
  Option, none, some, [], ◌∷◌, arith, ne→==, eq→==, ◌==◌, if◌then◌else◌, Bool-cases,
}
use tp_so_grupo.Queue.{Queue, Handle, unlink_head, dequeue}
use tp_so_grupo.Queue.Nodes.{Ptr, null, Memory, write}
use tp_so_grupo.Queue.Fifo.{pos_behind, pop}
use tp_so_grupo.Queue.Chain.{
  Cells, has, first, last, Chain, index, IsQueue, view, Holds, values, not-has-null, index-none,
  load-ok, release-ok, Chain-write,
}

pos_behind-suc : (o : Option ℕ) → pos_behind (elim o [ none ↦ none | some i ↦ some (suc i) ]) ≡ o
pos_behind-suc none = refl
pos_behind-suc (some i) = refl

-- Where the iterator `i` stands once the first node `p`, before `b`, is gone.
index-behind :
    (i p b : Ptr) (v w : ℕ) (cs : Cells)
    → p ≢ null
    → b ≢ null
    → index null ((b, w) ∷ cs) ≡ none
    → index (if not (i == null) && i == p then b else i) ((b, w) ∷ cs)
      ≡ pos_behind (index i ((p, v) ∷ (b, w) ∷ cs))
index-behind i p b v w cs np nb gone = elim (Bool-cases (i == p)) [
  | inl e ↦
      ap (λ k. index k ((b, w) ∷ cs)) (moves e) ∙ rw (eq→== b b refl, eq→== p i (ground arith))
  | inr d ↦
      ap (λ k. index k ((b, w) ∷ cs)) (stays d)
      ∙ rw (ne→== p i (ground arith)) (sym (pos_behind-suc (index i ((b, w) ∷ cs))))
]
  where
    moves : (i == p) ≡ true → (if not (i == null) && i == p then b else i) ≡ b
    moves e = ground arith

    stays : (i == p) ≡ false → (if not (i == null) && i == p then b else i) ≡ i
    stays d = ground arith

index-unlinked_at :
    (i h p b : Ptr) (v w : ℕ) (cs : Cells)
    → p ≢ null
    → b ≢ null
    → index null ((b, w) ∷ cs) ≡ none
    → h ≡ p
    → index (if b == null then null else if not (i == null) && i == h then b else i) ((b, w) ∷ cs)
      ≡ pos_behind (index i ((p, v) ∷ (b, w) ∷ cs))
index-unlinked_at i h p b v w cs np nb gone e =
    ap (λ k. index k ((b, w) ∷ cs)) pointer ∙ index-behind i p b v w cs np nb gone
  where
    pointer :
        (if b == null then null else if not (i == null) && i == h then b else i)
        ≡ (if not (i == null) && i == p then b else i)
    pointer = rw (ne→== b null nb, e)

tail-unlinked :
    (m : Memory) (t : Ptr) (p : Ptr) (v : ℕ) (cs : Cells)
    → t ≡ last ((p, v) ∷ cs)
    → Chain m cs
    → (if first cs == null then null else t) ≡ last cs
tail-unlinked m t p v [] e c = refl
tail-unlinked m t p v ((b, w) ∷ cs) e c = rw (ne→== b null c.0) e

module _ (m : Memory) (q : Queue) where
  -- The queue stands over what is left of the nodes, and the node that was taken off is free.
  abbrev pub Popped : Cells → Option ℕ × Handle → Memory → Type 0
  Popped [] (x, h) m' = (x ≡ none) × Holds m' h [] (view q []) × (m' ≡ m)
  Popped ((p, v) ∷ cs) (x, h) m' =
      ((x ≡ some v) × Holds m' h cs (pop (view q ((p, v) ∷ cs))).1)
      × (m' p ≡ none)
      × ((a : Ptr) → p ≢ a → m' a ≡ m a)

  dequeue-eq :
      (p : Ptr) (v : ℕ) (cs : Cells)
      → IsQueue m q ((p, v) ∷ cs)
      → dequeue (some q) m ≡ ok (some v, some (unlink_head (first cs) q)) (write m p none)
  unfolding dequeue
  dequeue-eq p v cs k =
      let at = k.linked.1 in
      rw (
        k.head_at,
        ne→== p null k.linked.0,
        load-ok m p _ k.linked.0 at,
        chain,
        release-ok m p _ k.linked.0 at,
      )

  -- The iterator leaves the first node for the one behind it, and else stays.
  iter-unlinked :
      (p : Ptr) (v : ℕ) (cs : Cells)
      → IsQueue m q ((p, v) ∷ cs)
      → ((unlink_head (first cs) q).iter ≡ null) ⊎ (has (unlink_head (first cs) q).iter cs ≡ true)
  unfolding unlink_head
  iter-unlinked p v [] k = ground arith
  iter-unlinked p v ((b, w) ∷ cs) k = ground (arith, k.linked, k.head_at, k.iter_at)

  index-unlinked :
      (p : Ptr) (v : ℕ) (cs : Cells)
      → IsQueue m q ((p, v) ∷ cs)
      → record { items = values cs; pos = index (unlink_head (first cs) q).iter cs }
        ≡ (pop (view q ((p, v) ∷ cs))).1
  unfolding unlink_head pop
  index-unlinked p v [] k = refl
  index-unlinked p v ((b, w) ∷ cs) k =
      ap (λ (i : Option ℕ). record { items = w ∷ values cs; pos = i })
        (index-unlinked_at q.iter q.head p b v w cs k.linked.0 k.linked.3.0
          (index-none null ((b, w) ∷ cs) (not-has-null m ((b, w) ∷ cs) k.linked.3)) k.head_at)

  dequeue-eq_empty : q.head ≡ null → dequeue (some q) m ≡ ok (none, some q) m
  unfolding dequeue
  dequeue-eq_empty e = rw (eq→== q.head null e)

  -- `dequeue` on a well-formed queue ends without a fault. On the empty queue it returns NULL and
  -- changes nothing; else it returns the first element, leaves a well-formed queue of the other
  -- nodes that a caller sees as `Fifo.pop` describes, frees the first node, and changes no other
  -- address.
  pub dequeue_refines : (cs : Cells) → IsQueue m q cs → Ensures (dequeue (some q) m) (Popped cs)
  unfolding dequeue unlink_head pop write
  dequeue_refines [] k = rw (dequeue-eq_empty k.head_at) (refl, (k, refl), refl)
  dequeue_refines ((p, v) ∷ cs) k = rw (dequeue-eq p v cs k) (
    (
      refl,
      (
        record {
          linked = Chain-write m p none cs k.linked.2 k.linked.3;
          head_at = refl;
          tail_at = tail-unlinked m q.tail p v cs k.tail_at k.linked.3;
          iter_at = iter-unlinked p v cs k;
          counted = omega (arith, k.counted);
          small = ground arith;
        },
        index-unlinked p v cs k,
      ),
    ),
    ground arith,
    λ a n. ground arith,
  )
