-- ===== src/Queue/Nodes.antt =====
-- The memory that the nodes of TP2-SO-2025/Kernel/datastructures/queue.c live in. A node owns the
-- data block that was allocated with it, so the block's content stands in the node.
use tp_so_grupo.Base.{ℕ, Option, none, some, ◌==◌, if◌then◌else◌, ok, fault, ◌>>=◌}
use tp_so_grupo.Base.Run

abbrev pub Ptr : Type 0
Ptr = ℕ

abbrev pub null : Ptr
null = 0

-- `struct Node`
pub record Node : Type 0 where
  pub next : Ptr
  pub value : ℕ

abbrev pub node : ℕ → Ptr → Node
node v q = record { next = q; value = v }

abbrev pub Memory : Type 0
Memory = Ptr → Option Node

unfoldable pub write : Memory → Ptr → Option Node → Memory
write m p c a = if a == p then c else m a

abbrev pub Cmd : Type 0 → Type 0
Cmd = Run.Cmd Memory

unfoldable pub load : Ptr → Cmd Node
load p m = if p == null then fault else elim (m p) [ none ↦ fault | some n ↦ ok n m ]

unfoldable pub allocate : Ptr → Node → Cmd (Unit {0})
allocate p n m = ok tt (write m p (some n))

-- `p->next = q`
unfoldable pub set_next : Ptr → Ptr → Cmd (Unit {0})
set_next p q = do n ← load p; allocate p (node n.value q)

-- `mm_free(p->data); mm_free(p)`
unfoldable pub release : Ptr → Cmd (Unit {0})
release p = do n ← load p; λ m. ok tt (write m p none)
