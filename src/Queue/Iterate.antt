-- ===== src/Queue/Iterate.antt =====
-- The cyclic iterator against the abstract queue.
use tp_so_grupo.Base.{
  chain, Ensures, ℕ, suc, ◌+◌, ◌<◌, ◌≡◌, ◌≢◌, sym, ◌∙◌, refl, ap, ◌⊎◌, inl, inr, true, false,
  Option, none, some, List, [], ◌∷◌, arith, ne→==, eq→==, ◌==◌, if◌then◌else◌, length, get_elem?,
  subst, Bool-cases, ==_iff,
}
use tp_so_grupo.Queue.{Queue, next_cyclic_iter}
use tp_so_grupo.Queue.Nodes.{Ptr, null, node, Memory}
use tp_so_grupo.Queue.Fifo.{next}
use tp_so_grupo.Queue.Chain.{
  Cells, has, first, Chain, index, IsQueue, view, Holds, values, has-ne, not-has-null, index-none,
  load-ok, length-values,
}

-- The node `p` of a chain, with what its fields hold.
record At (m : Memory) (p : Ptr) (cs : Cells) : Type 0 where
  value : ℕ
  next_ptr : Ptr
  rank : ℕ
  ne_null : p ≢ null
  holds : m p ≡ some (node value next_ptr)
  index_at : index p cs ≡ some rank
  elem_at : get_elem? (values cs) rank ≡ some value
  followed :
      ((next_ptr ≡ null) × (rank + 1 ≡ length cs))
      ⊎ ((next_ptr ≢ null)
          × (rank + 1 < length cs)
          × (index next_ptr cs ≡ some (rank + 1))
          × (has next_ptr cs ≡ true))

index-first : (a : Ptr) (v : ℕ) (cs : Cells) → index a ((a, v) ∷ cs) ≡ some 0
index-first a v cs = rw (eq→== a a refl)

index-cons_ne :
    (a p : Ptr) (v r : ℕ) (cs : Cells)
    → (a == p) ≡ false
    → index p cs ≡ some r
    → index p ((a, v) ∷ cs) ≡ some (r + 1)
index-cons_ne a p v r cs d e = ground arith

here :
    (m : Memory) (p a : Ptr) (v : ℕ) (cs : Cells)
    → Chain m ((a, v) ∷ cs)
    → a ≡ p
    → At m p ((a, v) ∷ cs)
here m p a v [] c e = record {
  value = v;
  next_ptr = null;
  rank = 0;
  ne_null = λ z. c.0 (e ∙ z);
  holds = rw (← e) c.1;
  index_at = ap (λ k. index k ((a, v) ∷ [])) (sym e) ∙ index-first a v [];
  elem_at = refl;
  followed = inl (refl, refl);
}
here m p a v ((b, w) ∷ cs) c e = record {
  value = v;
  next_ptr = b;
  rank = 0;
  ne_null = λ z. c.0 (e ∙ z);
  holds = rw (← e) c.1;
  index_at = ap (λ k. index k ((a, v) ∷ (b, w) ∷ cs)) (sym e) ∙ index-first a v ((b, w) ∷ cs);
  elem_at = refl;
  followed = inr (
    c.3.0,
    ground arith,
    index-cons_ne a b v 0 ((b, w) ∷ cs) (ground (arith, c.2)) (index-first b w cs),
    ground (arith, eq→== b b),
  );
}

behind :
    (m : Memory) (p a : Ptr) (v : ℕ) (cs : Cells)
    → Chain m ((a, v) ∷ cs)
    → (a == p) ≡ false
    → At m p cs
    → At m p ((a, v) ∷ cs)
behind m p a v cs c d at = record {
  value = at.value;
  next_ptr = at.next_ptr;
  rank = suc at.rank;
  ne_null = at.ne_null;
  holds = at.holds;
  index_at = index-cons_ne a p v at.rank cs d at.index_at ∙ ap some (omega arith);
  elem_at = at.elem_at;
  followed = elim at.followed [
    | inl (e, l) ↦ inl (e, omega arith)
    | inr (n, l, i, h) ↦ inr (
      n,
      omega arith,
      index-cons_ne a at.next_ptr v (at.rank + 1) cs
            (ne→== a at.next_ptr (λ z. has-ne a at.next_ptr cs c.2 h (sym z))) i
          ∙ ap some (omega arith),
      ground arith,
    )
  ];
}

At_of_has : (m : Memory) (p : Ptr) (cs : Cells) → Chain m cs → has p cs ≡ true → At m p cs
At_of_has m p [] c h = cc
At_of_has m p ((a, v) ∷ cs) c h = elim (Bool-cases (a == p)) [
  | inl e ↦ here m p a v cs c ((==_iff a p).0 e)
  | inr d ↦ behind m p a v cs c d (At_of_has m p cs c.3 (ground arith))
]

next-nowhere :
    (xs : List ℕ) (o : Option ℕ)
    → o ≡ none
    → next (record { items = xs; pos = o }) ≡ (none, record { items = xs; pos = o })
unfolding next
next-nowhere xs o e = rw e

next-somewhere :
    (xs : List ℕ) (o : Option ℕ) (r : ℕ)
    → o ≡ some r
    → next (record { items = xs; pos = o }) ≡ (
      get_elem? xs r,
      record { items = xs; pos = some (if r + 1 == length xs then 0 else r + 1) },
    )
unfolding next
next-somewhere xs o r e = rw e

abbrev Placed : Ptr → ℕ → Cells → Type 0
Placed g k cs = (has g cs ≡ true) × (index g cs ≡ some k)

placed : {g g' : Ptr} {k k' : ℕ} (cs : Cells) → g ≡ g' → k ≡ k' → Placed g' k' cs → Placed g k cs
placed {g' = g'} {k = k} cs e e' pl =
    subst (λ x. Placed x k cs) (sym e) (subst (λ y. Placed g' y cs) (sym e') pl)

-- The node that the iterator goes on to: the next one, or round to the first.
advance :
    (m : Memory) (p : Ptr) (cs : Cells)
    → has p cs ≡ true
    → (at : At m p cs)
    → Placed
        (if at.next_ptr == null then first cs else at.next_ptr)
        (if at.rank + 1 == length (values cs) then 0 else at.rank + 1)
        cs
advance m p [] h at = cc
advance m p ((a, v) ∷ cs) h at = elim at.followed [
  | inl (e, l) ↦
      placed ((a, v) ∷ cs) (rw (eq→== at.next_ptr null e))
        (rw (
          eq→== (at.rank + 1) (length (values ((a, v) ∷ cs)))
            (l ∙ sym (length-values ((a, v) ∷ cs)))))
        (ground (arith, eq→== a a refl), index-first a v cs)
  | inr (n, l, i, g) ↦
      placed ((a, v) ∷ cs) (rw (ne→== at.next_ptr null n))
        (rw (
          ne→== (at.rank + 1) (length (values ((a, v) ∷ cs)))
            (λ z. absurd (omega (arith, length-values ((a, v) ∷ cs))))))
        (g, i)
]

-- One step of the cyclic iterator of a well-formed queue, with a buffer, ends without a fault,
-- leaves memory as it is, returns what `Fifo.next` returns and leaves a well-formed queue that a
-- caller sees as `Fifo.next` describes.
pub next_refines :
    (m : Memory) (q : Queue) (cs : Cells)
    → IsQueue m q cs
    → Ensures
        (next_cyclic_iter true (some q) m)
        (λ (x, h) m'. (x ≡ (next (view q cs)).0) × Holds m' h cs (next (view q cs)).1 × (m' ≡ m))
unfolding next_cyclic_iter
next_refines m q cs k = elim k.iter_at [
  | inl e ↦
      let nowhere =
        next-nowhere (values cs) (index q.iter cs)
          (ap (λ a. index a cs) e ∙ index-none null cs (not-has-null m cs k.linked)) in
      rw (eq→== q.iter null e) (rw nowhere, rw nowhere (k, refl), refl)
  | inr h ↦
      let at = At_of_has m q.iter cs k.linked h in
      let step = next-somewhere (values cs) (index q.iter cs) at.rank at.index_at in
      let there =
        subst
          (λ f.
            Placed (if at.next_ptr == null then f else at.next_ptr)
              (if at.rank + 1 == length (values cs) then 0 else at.rank + 1) cs)
          (sym k.head_at) (advance m q.iter cs h at) in
      rw
        (
          ne→== q.iter null at.ne_null,
          load-ok m q.iter (node at.value at.next_ptr) at.ne_null at.holds,
          chain,
          step,
        )
        (
          sym at.elem_at,
          (
            record {
              linked = k.linked;
              head_at = k.head_at;
              tail_at = k.tail_at;
              iter_at = inr there.0;
              counted = k.counted;
              small = k.small;
            },
            ap (λ (i : Option ℕ). record { items = values cs; pos = i }) there.1,
          ),
          refl,
        )
]
