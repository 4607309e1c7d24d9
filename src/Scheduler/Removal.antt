-- ===== src/Scheduler/Removal.antt =====
-- Taking a process out of the queue of its priority.
use tp_so_grupo.Base.{
  ℕ, ◌≤◌, ◌≡◌, ◌≢◌, refl, ap, inl, inr, Bool, true, false, none, some, List, [], ◌∷◌, ◌==◌, ok,
  chain, ne→==, Bool-cases, arith, ltb, set, get_elem?-set_self,
}
use tp_so_grupo.Queue.Fifo
use tp_so_grupo.Queue.Fifo.{Fifo, is_empty}
use tp_so_grupo.Kernel.{Ptr, null, Process, Kernel, ask-granted, ask-refused}
use tp_so_grupo.Scheduler.Levels.{HasLevels, Live, deref-ok, put, set_priority_queue-eq}
use tp_so_grupo.Scheduler.{
  same_pid, get_priority_queue, compare_along, remove_from_queue, remove_from_all_priority_queues,
  append_to_queue, set_priority_queue,
}

-- The search compares processes that are in memory: it ends without a fault.
compare_along-ok :
    (pid : ℕ) (ps : List Ptr) (k : Kernel) → Live k.procs ps → compare_along pid ps k ≡ ok tt k
unfolding compare_along
compare_along-ok pid [] k l = refl
compare_along-ok pid (p ∷ ps) k (ne, (x, at), l) =
    rw (deref-ok k p x ne at, chain)
      (elim (Bool-cases (x.pid == pid)) [
        | inl e ↦ rw e
        | inr d ↦ rw d (compare_along-ok pid ps k l)
      ])

-- The queue without the first process that has the pid of `p`.
abbrev pub without : Ptr → Fifo → Kernel → Fifo
without p f k = (Fifo.remove (same_pid k.procs) p f).1

module _ (k : Kernel) (p : Ptr) (x : Process) (f : Fifo) (ne : p ≢ null) (at : k.procs p ≡ some x)
    (low : x.priority ≤ 3) (lv : HasLevels k) (e : get_priority_queue x.priority k ≡ some f)
    (l : Live k.procs f.items) where
  pub remove-eq : remove_from_all_priority_queues p k ≡ ok tt (put x.priority (without p f k) k)
  unfolding remove_from_all_priority_queues remove_from_queue
  remove-eq = rw (
    ne→== p null ne,
    deref-ok k p x ne at,
    chain,
    e,
    remove_from_queue,
    deref-ok k p x ne at,
    chain,
    compare_along-ok x.pid f.items k l,
    chain,
    set_priority_queue-eq k x.priority (without p f k) low lv,
  )

pub append-eq :
    (k : Kernel) (i : ℕ) (p : Ptr) (f : Fifo)
    → i ≤ 3
    → HasLevels k
    → (rest : List Bool) → k.memory ≡ true ∷ rest
    → append_to_queue i p (some f) k ≡ ok tt (put i (Fifo.push p f) (record k { memory = rest }))
unfolding append_to_queue
append-eq k i p f low lv rest granted =
    rw (ask-granted k rest granted, chain)
      (ap (ok tt) (set_priority_queue-eq (record k { memory = rest }) i (Fifo.push p f) low lv))

-- The kernel without a queue at level `i`.
abbrev pub dropped : ℕ → Kernel → Kernel
dropped i k = record k { queues = set k.queues i none }

pub append-refused :
    (k : Kernel) (i : ℕ) (p : Ptr) (f : Fifo)
    → i ≤ 3
    → (rest : List Bool) → k.memory ≡ false ∷ rest
    → append_to_queue i p (some f) k ≡ ok tt (dropped i (record k { memory = rest }))
unfolding append_to_queue set_priority_queue
append-refused k i p f low rest refused =
    let small : ltb 3 i ≡ false = ground arith in rw (ask-refused k rest refused, chain, small)

pub get-dropped :
    (k : Kernel) (i : ℕ) → i ≤ 3 → HasLevels k → get_priority_queue i (dropped i k) ≡ none
unfolding get_priority_queue
get-dropped k i low lv =
    let small : ltb 3 i ≡ false = ground arith in
    rw (small, get_elem?-set_self k.queues i none (omega (arith, lv, low)))
