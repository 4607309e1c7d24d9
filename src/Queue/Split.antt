-- ===== src/Queue/Split.antt =====
-- A chain of nodes taken apart at one of them, as `queueRemove` of
-- TP2-SO-2025/Kernel/datastructures/queue.c does it.
use tp_so_grupo.Base.{
  ℕ, suc, ◌≡◌, ◌≢◌, refl, sym, ap, ◌∙◌, ◌⊎◌, inl, inr, true, false, Option, none, some, append-nil,
  [], ◌∷◌, ◌++◌, arith, ne→==, eq→==, ==_iff, ◌==◌, if◌then◌else◌, length, Bool-cases,
}
use tp_so_grupo.Queue.Nodes.{Ptr, null, node, Memory, write}
use tp_so_grupo.Queue.Fifo.{pos_erase}
use tp_so_grupo.Queue.Chain.{
  Cells, has, first, last, Chain, index, has-append, Chain-write, has-last, has-ne, write-ne,
}
use tp_so_grupo.Queue.Enqueue.{last_value}

pub last-snoc : (cs : Cells) (p : Ptr) (v : ℕ) → last (cs ++ (p, v) ∷ []) ≡ p
last-snoc [] p v = refl
last-snoc (c ∷ []) p v = refl
last-snoc (c ∷ d ∷ cs) p v = last-snoc (d ∷ cs) p v

pub last-append_cons : (cs : Cells) (d : Ptr × ℕ) (ds : Cells) → last (cs ++ d ∷ ds) ≡ last (d ∷ ds)
last-append_cons [] d ds = refl
last-append_cons (c ∷ []) d ds = refl
last-append_cons (c ∷ e ∷ cs) d ds = last-append_cons (e ∷ cs) d ds

-- The node in the middle, and that its address is no other node's.
pub record Middle (m : Memory) (before : Cells) (p : Ptr) (v : ℕ) (after : Cells) : Type 0 where
  pub solid : p ≢ null
  pub holds : m p ≡ some (node v (first after))
  pub not_before : has p before ≡ false
  pub not_after : has p after ≡ false
  pub rest : Chain m after

pub Chain-Middle :
    (m : Memory) (before : Cells) (p : Ptr) (v : ℕ) (after : Cells)
    → Chain m (before ++ (p, v) ∷ after)
    → Middle m before p v after
Chain-Middle m [] p v after c = record {
  solid = c.0;
  holds = c.1;
  not_before = refl;
  not_after = c.2;
  rest = c.3;
}
Chain-Middle m ((b, w) ∷ before) p v after c =
    let at = Chain-Middle m before p v after c.3 in
    record {
      solid = at.solid;
      holds = at.holds;
      not_before =
          ground (arith, at.not_before, c.2, has-append b before ((p, v) ∷ after), eq→== p p refl);
      not_after = at.not_after;
      rest = at.rest;
    }

-- An address that none of the nodes has.
pub not-has-Middle :
    (a : Ptr) (before : Cells) (p : Ptr) (v : ℕ) (after : Cells)
    → has a (before ++ (p, v) ∷ after) ≡ false
    → ((p == a) ≡ false) × (has a before ≡ false) × (has a (before ++ after) ≡ false)
not-has-Middle a [] p v after h = (ground arith, refl, ground arith)
not-has-Middle a ((b, w) ∷ before) p v after h =
    let (apart, left, both) = not-has-Middle a before p v after (ground arith) in
    (apart, ground (arith, left), ground (arith, both))

-- Memory once the node at `p` is unlinked from behind the last node of `(b, w) ∷ bs`, and freed.
abbrev pub unlinked : Memory → (b : Ptr) → ℕ → Cells → Ptr → Cells → Memory
unlinked m b w bs p after =
    write (write m (last ((b, w) ∷ bs)) (some (node (last_value w bs) (first after)))) p none

pub Chain-unlinked :
    (m : Memory) (b : Ptr) (w : ℕ) (bs : Cells) (p : Ptr) (v : ℕ) (after : Cells)
    → Chain m ((b, w) ∷ bs ++ (p, v) ∷ after)
    → Chain (unlinked m b w bs p after) ((b, w) ∷ bs ++ after)
unfolding write
Chain-unlinked m b w [] p v after c =
    let out : has b after ≡ false = ground (arith, c.2) in
    (
      c.0,
      ground (arith, c.2),
      out,
      Chain-write (write m b (some (node w (first after)))) p none after c.3.2
          (Chain-write m b (some (node w (first after))) after out c.3.3),
    )
Chain-unlinked m b w ((d, x) ∷ bs) p v after c =
    let (other, out, fresh) = not-has-Middle b ((d, x) ∷ bs) p v after c.2 in
    let apart = has-ne b (last ((d, x) ∷ bs)) ((d, x) ∷ bs) out (has-last (d, x) bs) in
    (
      c.0,
      write-ne (write m (last ((d, x) ∷ bs)) (some (node (last_value x bs) (first after)))) {p = p}
            none b (λ e. absurd (ground (arith, eq→== p b e)))
          ∙ write-ne m (some (node (last_value x bs) (first after))) b apart
          ∙ c.1,
      fresh,
      Chain-unlinked m d x bs p v after c.3,
    )

-- The last node of those that are left.
pub tail_unlinked :
    (m : Memory) (before : Cells) (p : Ptr) (v : ℕ) (after : Cells)
    → Chain m (before ++ (p, v) ∷ after)
    → (if p == last (before ++ (p, v) ∷ after)
        then last before
        else last (before ++ (p, v) ∷ after))
      ≡ last (before ++ after)
tail_unlinked m before p v [] c =
    rw (last-snoc before p v, eq→== p p refl) (sym (ap last (append-nil before)))
tail_unlinked m before p v (d ∷ after) c =
    let at = Chain-Middle m before p v (d ∷ after) c in
    let behind = last-append_cons before (p, v) (d ∷ after) in
    let apart = has-ne p (last (d ∷ after)) (d ∷ after) at.not_after (has-last d after) in
    rw (behind, ne→== p (last (d ∷ after)) (λ e. apart (sym e)))
      (sym (last-append_cons before d after))

-- The node that an address stands for once the one at `p` is gone.
index-has : (a : Ptr) (cs : Cells) → (index a cs ≡ none) ⊎ (has a cs ≡ true)
index-has a [] = inl refl
index-has a ((b, w) ∷ cs) = elim (index-has a cs) [
  | inl e ↦ elim (Bool-cases (b == a)) [ inl z ↦ inr (ground arith) | inr z ↦ inl (rw (z, e) refl) ]
  | inr h ↦ inr (ground arith)
]

pos_erase-suc :
    (j n : ℕ) (o : Option ℕ)
    → pos_erase (suc j) (suc n) (elim o [ none ↦ none | some i ↦ some (suc i) ])
      ≡ elim (pos_erase j n o) [ none ↦ none | some i ↦ some (suc i) ]
pos_erase-suc j n none = refl
pos_erase-suc j n (some i) = ground arith

pub first-other : (b : Ptr) (cs : Cells) → b ≢ null → has b cs ≡ false → (b == first cs) ≡ false
first-other b [] n h = ne→== b null n
first-other b ((d, w) ∷ cs) n h = ground arith

pos_erase-first :
    (n : ℕ) (o : Option ℕ) → pos_erase 0 n (elim o [ none ↦ none | some i ↦ some (suc i) ]) ≡ o
pos_erase-first n none = refl
pos_erase-first n (some i) = ground arith

index-first_left :
    (p : Ptr) (after : Cells)
    → index (first after) after ≡ pos_erase 0 (suc (length after)) (some 0)
index-first_left p [] = refl
index-first_left p ((d, w) ∷ after) = ground arith

-- Where an iterator stands that has gone on from the node at `p`, if it stood there, to the next.
pub index-unlinked :
    (m : Memory) (i : Ptr) (before : Cells) (p : Ptr) (v : ℕ) (after : Cells)
    → Chain m (before ++ (p, v) ∷ after)
    → index (if i == p then first after else i) (before ++ after)
      ≡ pos_erase
          (length before)
          (length (before ++ (p, v) ∷ after))
          (index i (before ++ (p, v) ∷ after))
index-unlinked m i [] p v after c = elim (Bool-cases (i == p)) [
  | inl z ↦ rw (z, eq→== p i (sym ((==_iff i p).0 z))) (index-first_left p after)
  | inr z ↦
      rw (z, ne→== p i (λ e. absurd (ground (arith, e))))
        (sym (pos_erase-first (suc (length after)) (index i after)))
]
index-unlinked m i ((b, w) ∷ before) p v after c =
    let (other, out, fresh) = not-has-Middle b before p v after c.2 in
    let at = Chain-Middle m before p v after c.3 in
    let ih = index-unlinked m i before p v after c.3 in
    let out_after : has b after ≡ false = ground (arith, has-append b before after, fresh) in
    elim (Bool-cases (b == i)) [
      | inl z ↦ let d : (i == p) ≡ false = ground (arith, z, other) in rw (z, d, z) (ground arith)
      | inr z ↦
          let d : (b == (if i == p then first after else i)) ≡ false = elim (Bool-cases (i == p)) [
            | inl y ↦ rw y (first-other b after c.0 out_after)
            | inr y ↦ rw y z
          ] in
          rw (d, z, ih)
            (sym (
              pos_erase-suc (length before) (length (before ++ (p, v) ∷ after))
                (index i (before ++ (p, v) ∷ after))))
    ]

-- It stands on a node or nowhere.
pub iter-unlinked :
    (m : Memory) (i : Ptr) (before : Cells) (p : Ptr) (v : ℕ) (after : Cells)
    → Chain m (before ++ (p, v) ∷ after)
    → (i ≡ null) ⊎ (has i (before ++ (p, v) ∷ after) ≡ true)
    → ((if i == p then first after else i) ≡ null)
      ⊎ (has (if i == p then first after else i) (before ++ after) ≡ true)
iter-unlinked m i before p v after c h = elim (Bool-cases (i == p)) [
  | inl z ↦ rw z (first_in after)
  | inr z ↦ rw z (elim h [
    | inl e ↦ inl e
    | inr s ↦
        inr (ground (arith, has-append i before ((p, v) ∷ after), has-append i before after, s, z))
  ])
]
  where
    first_in : (after : Cells) → (first after ≡ null) ⊎ (has (first after) (before ++ after) ≡ true)
    first_in [] = inl refl
    first_in ((d, w) ∷ after) = inr (ground (arith, has-append d before ((d, w) ∷ after)))
