-- ===== src/Queue/Enqueue.antt =====
-- `enqueue` against the abstract queue.
use tp_so_grupo.Base.{
  ok, Ensures, ℕ, ◌+◌, ◌<◌, ◌^◌, ◌≡◌, ◌≢◌, sym, ◌∙◌, refl, ap, ap₂, ◌⊎◌, inl, inr, Bool, true,
  false, Option, none, some, List, [], ◌∷◌, ◌++◌, arith, ne→==, length, length-append,
}
use tp_so_grupo.Queue.{Queue, Handle, link, enqueue}
use tp_so_grupo.Queue.Nodes.{Ptr, null, node, Memory, write, allocate}
use tp_so_grupo.Queue.Fifo.{push}
use tp_so_grupo.Queue.Chain.{
  Cells, has, last, Chain, index, IsQueue, view, Holds, values-append, has-append, set_next-ok,
  has-ne, write-ne, not-has_of_none, not-has-null, index-none, index-append_has, has-last,
}

-- The memory after the new node hangs behind the last one.
abbrev linked : Memory → (new : Ptr) → ℕ → (last : Ptr) → ℕ → Memory
linked m new v l lv = write (write m new (some (node v null))) l (some (node lv new))

abbrev pub last_value : ℕ → Cells → ℕ
last_value v [] = v
last_value v ((p, w) ∷ cs) = last_value w cs

pub last_holds :
    (m : Memory) (p : Ptr) (v : ℕ) (cs : Cells)
    → Chain m ((p, v) ∷ cs)
    → (last ((p, v) ∷ cs) ≢ null) × (m (last ((p, v) ∷ cs)) ≡ some (node (last_value v cs) null))
last_holds m p v [] c = (c.0, c.1)
last_holds m p v ((q, w) ∷ cs) c = last_holds m q w cs c.3

Chain-linked :
    (m : Memory) (new : Ptr) (x : ℕ) (p : Ptr) (v : ℕ) (cs : Cells)
    → new ≢ null
    → has new ((p, v) ∷ cs) ≡ false
    → Chain m ((p, v) ∷ cs)
    → Chain (linked m new x (last ((p, v) ∷ cs)) (last_value v cs)) ((p, v) ∷ (cs ++ (new, x) ∷ []))
unfolding write
Chain-linked m new x p v [] nn out c = ground arith
Chain-linked m new x p v ((q, w) ∷ cs) nn out c = (
  c.0,
  write-ne (write m new (some (node x null))) _ p
        (has-ne p _ ((q, w) ∷ cs) c.2 (has-last (q, w) cs))
      ∙ write-ne m {p = new} (some (node x null)) p (ground arith)
      ∙ c.1,
  ground (arith, has-append p cs ((new, x) ∷ [])),
  Chain-linked m new x q w cs nn (ground arith) c.3,
)

module _ (m : Memory) (q : Queue) (new block : Ptr) (x : ℕ) (nn : new ≢ null)
    (nb : block ≢ null) where
  enqueue-eq_empty :
      q.head ≡ null
      → q.elem_count < 2 ^ 63
      → enqueue new block (some q) (some x) m
        ≡ ok
            (true, some (record q { head = new; tail = new; elem_count = q.elem_count + 1 }))
            (write m new (some (node x null)))
  unfolding enqueue link allocate
  enqueue-eq_empty e small = ground arith

  enqueue-eq :
      (lv : ℕ)
      → q.head ≢ null
      → q.tail ≢ null
      → new ≢ q.tail
      → m q.tail ≡ some (node lv null)
      → q.elem_count + 1 < 2 ^ 64
      → enqueue new block (some q) (some x) m
        ≡ ok
            (true, some (record q { tail = new; elem_count = q.elem_count + 1 }))
            (linked m new x q.tail lv)
  unfolding enqueue link allocate
  enqueue-eq lv h t d e small =
      rw (ne→== new null nn, ne→== block null nb, ne→== q.head null h)
        (rw
          (set_next-ok (write m new (some (node x null))) q.tail (node lv null) t
            (write-ne m {p = new} (some (node x null)) q.tail d ∙ e) new)
          (ap
            (λ (k : ℕ).
              ok (true, some (record q { tail = new; elem_count = k })) (linked m new x q.tail lv))
            (omega arith)))

  last-append : (c : Ptr × ℕ) (cs : Cells) → new ≡ last (c ∷ (cs ++ (new, x) ∷ []))
  last-append c [] = refl
  last-append c (d ∷ cs) = last-append d cs

  -- What `enqueue` leaves of the nodes `cs`: one more node behind them, the rest of memory as it
  -- was.
  abbrev pub Pushed : Cells → Bool × Handle → Memory → Type 0
  Pushed cs (done, h) m' =
      (done ≡ true)
      × Holds m' h (cs ++ (new, x) ∷ []) (push x (view q cs))
      × ((a : Ptr) → has a cs ≡ false → new ≢ a → m' a ≡ m a)

  iter-linked :
      (cs : Cells)
      → Chain m cs
      → has new cs ≡ false
      → (q.iter ≡ null) ⊎ (has q.iter cs ≡ true)
      → ((q.iter ≡ null) ⊎ (has q.iter (cs ++ (new, x) ∷ []) ≡ true))
        × (index q.iter (cs ++ (new, x) ∷ []) ≡ index q.iter cs)
  iter-linked cs c out (inl e) =
      let gone = not-has-null m cs c in
      let gone' : has null (cs ++ (new, x) ∷ []) ≡ false =
        ground (arith, has-append null cs ((new, x) ∷ [])) in
      (inl e, rw e (index-none null (cs ++ (new, x) ∷ []) gone' ∙ sym (index-none null cs gone)))
  iter-linked cs c out (inr h) = (
    inr (ground (arith, has-append q.iter cs ((new, x) ∷ []))),
    index-append_has q.iter cs ((new, x) ∷ []) h,
  )

  -- `enqueue` on a well-formed queue over `cs`, with two pointers granted that are not NULL, the
  -- node's at a free address, and fewer than 2 ^ 64 elements after it, ends without a fault,
  -- succeeds, leaves a well-formed queue that a caller sees as `Fifo.push` describes, and changes
  -- no address but the new node's and those of the queue.
  pub enqueue_refines :
      (cs : Cells)
      → IsQueue m q cs
      → m new ≡ none
      → length cs + 1 < 2 ^ 64
      → Ensures (enqueue new block (some q) (some x) m) (Pushed cs)
  unfolding push write
  enqueue_refines [] v free room = rw (enqueue-eq_empty v.head_at (ground arith)) (
    refl,
    (
      record {
        linked = ground arith;
        head_at = refl;
        tail_at = refl;
        iter_at = (iter-linked [] v.linked refl v.iter_at).0;
        counted = ground arith;
        small = ground arith;
      },
      ap (λ (k : Option ℕ). record { items = x ∷ []; pos = k })
          (iter-linked [] v.linked refl v.iter_at).1,
    ),
    λ a o n. ground arith,
  )
  enqueue_refines ((p, w) ∷ cs) v free room =
      let holds = last_holds m p w cs v.linked in
      let out = not-has_of_none m new ((p, w) ∷ cs) free v.linked in
      let apart = has-ne new (last ((p, w) ∷ cs)) ((p, w) ∷ cs) out (has-last (p, w) cs) in
      let iter = iter-linked ((p, w) ∷ cs) v.linked out v.iter_at in
      rw
        (enqueue-eq (last_value w cs) (λ e. v.linked.0 (sym v.head_at ∙ e)) (rw v.tail_at holds.0)
          (λ e. apart (sym v.tail_at ∙ sym e)) (rw v.tail_at holds.1) (ground arith))
        (rw v.tail_at (
          refl,
          (
            record {
              linked = Chain-linked m new x p w cs nn out v.linked;
              head_at = v.head_at;
              tail_at = last-append (p, w) cs;
              iter_at = iter.0;
              counted = omega (arith, v.counted, length-append cs ((new, x) ∷ []));
              small = omega (arith, length-append cs ((new, x) ∷ []));
            },
            ap₂ (λ (l : List ℕ) (k : Option ℕ). record { items = l; pos = k })
                (values-append ((p, w) ∷ cs) ((new, x) ∷ [])) iter.1,
          ),
          λ a o n.
              rw
                (write-ne (write m new (some (node x null))) (some (node (last_value w cs) new)) a
                  (has-ne a (last ((p, w) ∷ cs)) ((p, w) ∷ cs) o (has-last (p, w) cs)))
                (write-ne m (some (node x null)) a n),
        ))
