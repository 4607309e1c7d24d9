-- ===== src/Scheduler/Levels.antt =====
-- The priority queues as lists of processes, and what an operation leaves alone.
use tp_so_grupo.Base.{
  ℕ, ◌≤◌, ◌≡◌, ◌≢◌, ◌<◌, zero, suc, refl, false, Option, none, some, List, [], ◌∷◌, arith, ok, ltb,
  get_elem?, set, length, ne→==, get_elem?-set_self, get_elem?-set_ne, length-set,
}
use tp_so_grupo.Queue.Fifo.{Fifo}
use tp_so_grupo.Kernel.{Ptr, null, Process, Kernel, deref}
use tp_so_grupo.Scheduler.{get_priority_queue, set_priority_queue}

-- There are the four entries for queues.
abbrev pub HasLevels : Kernel → Type 0
HasLevels k = length k.queues ≡ 4

abbrev pub items_of : Option Fifo → List Ptr
items_of none = []
items_of (some f) = f.items

abbrev pub items_at : ℕ → Kernel → List Ptr
items_at i k = items_of (get_priority_queue i k)

-- Every pointer of the list is to a process in memory.
abbrev pub Live : (Ptr → Option Process) → List Ptr → Type 0
Live procs [] = Unit {0}
Live procs (p ∷ ps) = (p ≢ null) × ((x : Process) × (procs p ≡ some x)) × Live procs ps

module _ (k : Kernel) (p : Ptr) (x : Process) (ne : p ≢ null) (at : k.procs p ≡ some x) where
  pub deref-ok : deref p k ≡ ok x k
  unfolding deref
  deref-ok = rw (ne→== p null ne, at)

-- The kernel with `f` for the queue of level `i`.
abbrev pub put : ℕ → Fifo → Kernel → Kernel
put i f k = record k { queues = set k.queues i (some f) }

module _ (k : Kernel) (i : ℕ) (f : Fifo) (low : i ≤ 3) (levels : HasLevels k) where
  pub set_priority_queue-eq : set_priority_queue i (some f) k ≡ put i f k
  unfolding set_priority_queue
  set_priority_queue-eq = ground arith

  pub get-put_self : get_priority_queue i (put i f k) ≡ some f
  unfolding get_priority_queue
  get-put_self = ground (arith, get_elem?-set_self k.queues i (some f))

  pub put-HasLevels : HasLevels (put i f k)
  put-HasLevels = omega (arith, length-set k.queues i (some f))

  pub get-put_ne : (j : ℕ) → i ≢ j → get_priority_queue j (put i f k) ≡ get_priority_queue j k
  unfolding get_priority_queue
  get-put_ne j d = ground (arith, get_elem?-set_ne k.queues {i = i} {j = j} (some f) d)

-- No entry is NULL.
abbrev AreThere : List (Option Fifo) → Type 0
AreThere [] = Unit {0}
AreThere (none ∷ qs) = ⊥
AreThere (some f ∷ qs) = AreThere qs

-- There are the four queues.
abbrev pub HasQueues : Kernel → Type 0
HasQueues k = HasLevels k × AreThere k.queues

AreThere-set :
    (qs : List (Option Fifo)) (i : ℕ) (f : Fifo) → AreThere qs → AreThere (set qs i (some f))
AreThere-set [] i f t = t
AreThere-set (none ∷ qs) i f t = absurd t
AreThere-set (some g ∷ qs) zero f t = t
AreThere-set (some g ∷ qs) (suc i) f t = AreThere-set qs i f t

pub put-HasQueues : (k : Kernel) (i : ℕ) (f : Fifo) → i ≤ 3 → HasQueues k → HasQueues (put i f k)
put-HasQueues k i f low (lv, t) = (put-HasLevels k i f low lv, AreThere-set k.queues i f t)

AreThere-at :
    (qs : List (Option Fifo)) (i : ℕ)
    → AreThere qs
    → i < length qs
    → (f : Fifo) × (get_elem? qs i ≡ some (some f))
AreThere-at [] i t h = absurd (omega arith)
AreThere-at (none ∷ qs) i t h = absurd t
AreThere-at (some g ∷ qs) zero t h = (g, refl)
AreThere-at (some g ∷ qs) (suc i) t h = AreThere-at qs i t (omega arith)

pub get-level :
    (k : Kernel) (i : ℕ) → i ≤ 3 → HasQueues k → (f : Fifo) × (get_priority_queue i k ≡ some f)
unfolding get_priority_queue
get-level k i low (lv, t) =
    let (f, e) = AreThere-at k.queues i t (omega arith) in
    let small : ltb 3 i ≡ false = ground arith in (f, rw (small, e))
