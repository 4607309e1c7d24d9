-- ===== src/Semaphore/Signal.antt =====
-- `sem_wait` and `sem_post` on a semaphore of the registry.
use tp_so_grupo.Base.{
  ℕ, suc, ◌+◌, ◌-◌, ◌%◌, ◌^◌, ◌≤◌, ◌≡◌, ◌≢◌, ◌⊎◌, Bool, true, inl, inr, List, ◌∷◌, Option, none,
  some, ◌==◌, arith, ok, chain, ne→==, eq→==, Bool-cases,
}
use tp_so_grupo.Queue.Fifo
use tp_so_grupo.Queue.Fifo.{Fifo, is_empty}
use tp_so_grupo.Kernel.{
  Ptr, null, ready, running, blocked, Process, Sem, Kernel, update, get_process, ask-granted,
}
use tp_so_grupo.Scheduler.{get_priority_queue}
use tp_so_grupo.Scheduler.Levels.{HasLevels, Live, deref-ok, put}
use tp_so_grupo.Scheduler.Removal.{without}
use tp_so_grupo.Scheduler.Schedule.Block.{block-eq, unblock-eq}
use tp_so_grupo.Semaphore.{
  deref_sem, is_semaphore_valid, post_to, sem_post, block_on, wait_on, sem_wait,
}

abbrev pub same : Ptr → Ptr → Bool
same a b = a == b

pub exists-items : (s : Ptr) (f : Fifo) → (Fifo.exists same s f).1.items ≡ f.items
unfolding Fifo.exists
exists-items s f = elim (Bool-cases (is_empty f.items)) [ inl z ↦ rw z | inr z ↦ rw z ]

module _ (k : Kernel) (s : Ptr) (x : Sem) (f : Fifo) (rest : List Bool) where
  -- The semaphore `s`, with the content `x`, is in the registry `f`, and the next request of memory
  -- is granted.
  pub record Registered : Type 0 where
    pub there : s ≢ null
    pub content : k.sems s ≡ some x
    pub registry : k.registry ≡ some f
    pub listed : Fifo.contains same s f.items ≡ true
    pub granted : k.memory ≡ true ∷ rest

  -- The kernel after the registry was searched for `s`, which moves its iterator.
  abbrev pub searched : Kernel
  searched = record k { registry = some (Fifo.exists same s f).1; memory = rest }

  -- And after the semaphore changed to `y`.
  abbrev pub resembled : Sem → Kernel
  resembled y = record searched { sems = update k.sems s (some y) }

  exists-listed : Registered → (Fifo.exists same s f).0 ≡ true
  unfolding Fifo.exists
  exists-listed r = r.listed

  valid-eq : Registered → is_semaphore_valid s k ≡ ok true searched
  unfolding is_semaphore_valid
  valid-eq r = rw (
    ne→== s null r.there,
    r.registry,
    ask-granted (record k { registry = some f }) rest r.granted,
    chain,
    exists-listed r,
  )

  deref_sem-eq : Registered → deref_sem s searched ≡ ok x searched
  unfolding deref_sem
  deref_sem-eq r = rw (ne→== s null r.there, r.content)

  -- `semWait` on a registered semaphore of a value above 0 succeeds and takes one from the value;
  -- else only the iterator of the registry has moved.
  pub sem_wait_takes :
      (node : Bool) (v : ℕ)
      → Registered
      → x.value ≡ suc v
      → sem_wait node s k ≡ ok (some tt) (resembled (record x { value = v }))
  unfolding sem_wait wait_on
  sem_wait_takes node v r e =
      let less : suc v - 1 ≡ v = omega arith in
      rw (valid-eq r, chain, deref_sem-eq r, chain, e, ne→== (suc v) 0 (omega arith), less)

  -- `semPost` on a registered semaphore where nobody waits succeeds and adds one to the value,
  -- modulo 2 ^ 16; else only the iterator of the registry has moved.
  pub sem_post_counts :
      Registered
      → (Fifo.pop x.waiting).0 ≡ none
      → sem_post s k ≡ ok (some tt) (resembled (record x { value = (x.value + 1) % 2 ^ 16 }))
  unfolding sem_post post_to
  sem_post_counts r e = rw (valid-eq r, chain, deref_sem-eq r, chain, post_to, e)

  -- The same, with the processes `procs`.
  abbrev pub moved : Sem → (Ptr → Option Process) → Kernel
  moved y procs = record (resembled y) { procs = procs }

  level_elsewhere :
      (i : ℕ) (q : Fifo) (z : Sem)
      → get_priority_queue i k ≡ some q
      → get_priority_queue i (resembled z) ≡ some q
  unfolding get_priority_queue
  level_elsewhere i q z e = e

  module _ (y : Process) (q : Fifo) (p : Ptr) (ne : p ≢ null) (other : p ≢ k.idle_proc)
      (at : k.procs p ≡ some y) (mortal : y.pid ≢ 1) (low : y.priority ≤ 3) (lv : HasLevels k)
      (e : get_priority_queue y.priority k ≡ some q) where
    abbrev awake : Process
    awake = record y { state = ready }

    -- `semPost`, with the buffer and the node granted, on a registered semaphore whose first waiting
    -- process is in the table, in memory, blocked, neither idle nor pid 1, and has a queue for its
    -- priority: it succeeds, that process waits no more, is ready and the last in the queue of its
    -- priority; else only the iterator of the registry has moved.
    pub sem_post_wakes :
        (pid : ℕ) (later : List Bool)
        → Registered
        → rest ≡ true ∷ later
        → (Fifo.pop x.waiting).0 ≡ some pid
        → get_process pid k ≡ p
        → y.state ≡ blocked
        → sem_post s k
          ≡ ok (some tt) (
              put y.priority
                (Fifo.push p q)
                (record (moved
                  (record x { waiting = (Fifo.pop x.waiting).1 })
                  (update (update k.procs p (some awake)) p (some awake))) { memory = later }))
    unfolding sem_post post_to get_process
    sem_post_wakes pid later r node w here b =
        let z : Sem = record x { waiting = (Fifo.pop x.waiting).1 } in
        rw (
          valid-eq r,
          chain,
          deref_sem-eq r,
          chain,
          post_to,
          w,
          here,
          ne→== p null ne,
          unblock-eq (resembled z) p y q ne other at low mortal lv
              (level_elsewhere y.priority q z e) later node b,
          chain,
        )

  module _ (y : Process) (q : Fifo) (ne : k.running_process ≢ null)
      (other : k.running_process ≢ k.idle_proc) (at : k.procs k.running_process ≡ some y)
      (mortal : y.pid ≢ 1) (low : y.priority ≤ 3) (lv : HasLevels k)
      (e : get_priority_queue y.priority k ≡ some q) where
    -- `semWait`, with the buffer and the node granted, on a registered semaphore of value 0, run by
    -- a ready or running process that is neither idle nor pid 1 and whose level's queue is there and
    -- has only pointers to processes in memory: it succeeds, the process is the last of those that
    -- wait, it is blocked with its waiting ticks at 0, and the queue of its priority has lost the
    -- first entry with its pid, if there was one; else only the iterator of the registry has moved.
    pub sem_wait_blocks :
        Registered
        → x.value ≡ 0
        → Live k.procs q.items
        → (y.state ≡ ready) ⊎ (y.state ≡ running)
        → sem_wait true s k
          ≡ ok (some tt) (
              put y.priority
                (without k.running_process q
                  (resembled (record x { waiting = Fifo.push y.pid x.waiting })))
                (moved
                  (record x { waiting = Fifo.push y.pid x.waiting })
                  (update
                    (update k.procs k.running_process (some (record y { state = blocked })))
                    k.running_process
                    (some (record y { state = blocked; wait_ticks = 0 })))))
    unfolding sem_wait wait_on block_on
    sem_wait_blocks r v l a =
        let z : Sem = record x { waiting = Fifo.push y.pid x.waiting } in
        rw (
          valid-eq r,
          chain,
          deref_sem-eq r,
          chain,
          eq→== x.value 0 v,
          ne→== k.running_process null ne,
          deref-ok searched k.running_process y ne at,
          chain,
          block-eq (resembled z) k.running_process y q ne other at low mortal lv
              (level_elsewhere y.priority q z e) l a,
          chain,
        )
