-- ===== src/Queue/Chain.antt =====
-- How a queue's nodes lie in memory: the representation invariant of the queue.
use tp_so_grupo.Base.{
  ok, chain, ℕ, suc, ◌<◌, ◌^◌, ◌≡◌, ◌≢◌, ◌⊎◌, refl, ap, Bool, true, false, ◌||◌, Option, none, some,
  List, [], ◌∷◌, ◌++◌, arith, ne→==, ◌==◌, if◌then◌else◌, length,
}
use tp_so_grupo.Queue.{Queue, Handle}
use tp_so_grupo.Queue.Nodes.{
  Ptr, null, Node, node, Memory, write, load, allocate, set_next, release,
}
use tp_so_grupo.Queue.Fifo.{Fifo}

-- Address and value of each node, in order.
abbrev pub Cells : Type 0
Cells = List (Ptr × ℕ)

abbrev pub has : Ptr → Cells → Bool
has a [] = false
has a ((p, v) ∷ cs) = (p == a) || has a cs

abbrev pub first : Cells → Ptr
first [] = null
first ((p, v) ∷ cs) = p

abbrev pub last : Cells → Ptr
last [] = null
last ((p, v) ∷ []) = p
last (c ∷ d ∷ cs) = last (d ∷ cs)

-- Each node holds its value and the address of the one behind it, the last one NULL; the addresses
-- are distinct.
abbrev pub Chain : Memory → Cells → Type 0
Chain m [] = Unit {0}
Chain m ((p, v) ∷ cs) =
    (p ≢ null) × (m p ≡ some (node v (first cs))) × (has p cs ≡ false) × Chain m cs

abbrev pub values : Cells → List ℕ
values [] = []
values ((p, v) ∷ cs) = v ∷ values cs

-- Where an address stands among the nodes.
abbrev pub index : Ptr → Cells → Option ℕ
index a [] = none
index a ((p, v) ∷ cs) =
    if p == a then some 0 else elim (index a cs) [ none ↦ none | some i ↦ some (suc i) ]

pub record IsQueue (m : Memory) (q : Queue) (cs : Cells) : Type 0 where
  pub linked : Chain m cs
  pub head_at : q.head ≡ first cs
  pub tail_at : q.tail ≡ last cs
  pub iter_at : (q.iter ≡ null) ⊎ (has q.iter cs ≡ true)
  pub counted : q.elem_count ≡ length cs
  pub small : length cs < 2 ^ 64

-- The queue that a caller sees.
abbrev pub view : Queue → Cells → Fifo
view q cs = record { items = values cs; pos = index q.iter cs }

pub length-values : (cs : Cells) → length (values cs) ≡ length cs
length-values [] = refl
length-values (c ∷ cs) = ap suc (length-values cs)

pub values-append : (cs ds : Cells) → values (cs ++ ds) ≡ values cs ++ values ds
values-append [] ds = refl
values-append ((p, v) ∷ cs) ds = ap (λ l. v ∷ l) (values-append cs ds)

pub has-append : (a : Ptr) (cs ds : Cells) → has a (cs ++ ds) ≡ (has a cs || has a ds)
has-append a [] ds = refl
has-append a (c ∷ cs) ds = ground (arith, has-append a cs ds)

-- A chain survives a change that spares its nodes.
pub Chain-frame :
    {m m' : Memory} (cs : Cells)
    → ((a : Ptr) → has a cs ≡ true → m' a ≡ m a)
    → Chain m cs
    → Chain m' cs
Chain-frame [] same c = tt
Chain-frame ((p, v) ∷ cs) same c =
    (c.0, ground (arith, same p), c.2, Chain-frame cs (λ a h. same a (ground arith)) c.3)

pub Chain-write :
    (m : Memory) (a : Ptr) (n : Option Node) (cs : Cells)
    → has a cs ≡ false
    → Chain m cs
    → Chain (write m a n) cs
unfolding write
Chain-write m a n cs out c = Chain-frame cs (λ b h. ground arith) c

-- Nothing stands at an address that no node has; NULL is no node's.
pub not-has_of_none :
    (m : Memory) (a : Ptr) (cs : Cells) → m a ≡ none → Chain m cs → has a cs ≡ false
not-has_of_none m a [] e c = refl
not-has_of_none m a ((p, v) ∷ cs) e c = ground (arith, not-has_of_none m a cs e c.3)

pub not-has-null : (m : Memory) (cs : Cells) → Chain m cs → has null cs ≡ false
not-has-null m [] c = refl
not-has-null m ((p, v) ∷ cs) c = ground (arith, not-has-null m cs c.3)

pub index-none : (a : Ptr) (cs : Cells) → has a cs ≡ false → index a cs ≡ none
index-none a [] h = refl
index-none a ((p, v) ∷ cs) h = ground (arith, index-none a cs)

pub index-append_has : (a : Ptr) (cs ds : Cells) → has a cs ≡ true → index a (cs ++ ds) ≡ index a cs
index-append_has a [] ds h = ground arith
index-append_has a ((p, v) ∷ cs) ds h = ground (arith, index-append_has a cs ds)

pub has-last : (c : Ptr × ℕ) (cs : Cells) → has (last (c ∷ cs)) (c ∷ cs) ≡ true
has-last (p, v) [] = ground arith
has-last (p, v) (d ∷ cs) = ground (arith, has-last d cs)

pub has-ne : (p q : Ptr) (cs : Cells) → has p cs ≡ false → has q cs ≡ true → q ≢ p
has-ne p q cs out at e = cc (ap (λ a. has a cs) e)

pub write-ne : (m : Memory) {p : Ptr} (n : Option Node) (a : Ptr) → p ≢ a → write m p n a ≡ m a
unfolding write
write-ne m n a h = ground arith

module _ (m : Memory) (p : Ptr) (n : Node) (ne : p ≢ null) (at : m p ≡ some n) where
  pub load-ok : load p m ≡ ok n m
  unfolding load
  load-ok = rw (ne→== p null ne, at)

  pub set_next-ok : (r : Ptr) → set_next p r m ≡ ok tt (write m p (some (node n.value r)))
  unfolding set_next allocate
  set_next-ok r = rw (load-ok, chain)

  pub release-ok : release p m ≡ ok tt (write m p none)
  unfolding release
  release-ok = rw (load-ok, chain)

-- The handle is a queue over the nodes `cs`, and a caller sees it as `f`.
abbrev pub Holds : Memory → Handle → Cells → Fifo → Type 0
Holds m none cs f = ⊥
Holds m (some q) cs f = IsQueue m q cs × (view q cs ≡ f)
