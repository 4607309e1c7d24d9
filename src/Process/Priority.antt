-- ===== src/Process/Priority.antt =====
-- `set_priority` and the queues of the scheduler.
use tp_so_grupo.Base.{
  ℕ, ◌≤◌, ◌≡◌, ◌≢◌, refl, sym, ◌⊎◌, true, false, some, ltb, arith, ok, chain, get_elem?-set_ne, set,
  ne→==, eq→==, Ensures,
}
use tp_so_grupo.Queue.Fifo.{Fifo}
use tp_so_grupo.Kernel.{Ptr, null, ready, running, Process, Kernel, update, get_process}
use tp_so_grupo.Scheduler.{get_priority_queue, default_quantum}
use tp_so_grupo.Scheduler.Levels.{HasLevels, Live, deref-ok}
use tp_so_grupo.Scheduler.Schedule.{block_process}
use tp_so_grupo.Scheduler.Schedule.Block.{block-eq}
use tp_so_grupo.Scheduler.Removal.{without}
use tp_so_grupo.Process.{set_priority}

-- The process with the priority `new` and a fresh quantum.
abbrev pub reprioritised : ℕ → Process → Process
reprioritised new x = record x {
  priority = new;
  original_priority = new;
  quantum_remaining = default_quantum;
}

module _ (k : Kernel) (pid new : ℕ) (x : Process) where
  abbrev here : Ptr
  here = get_process pid k

  abbrev changed : Kernel
  changed = record k { procs = update k.procs here (some (reprioritised new x)) }

  pub set_priority-eq :
      get_process pid k ≢ null
      → k.procs here ≡ some x
      → new ≤ 3
      → set_priority pid new k ≡ ok true changed
  unfolding set_priority
  set_priority-eq ne at low =
      let small : ltb 3 new ≡ false = ground arith in
      rw (small, ne→== here null ne, deref-ok k here x ne at, chain)

  found : changed.procs here ≡ some (reprioritised new x)
  found = rw (eq→== here here refl)

  elsewhere :
      (g : Fifo) → get_priority_queue new k ≡ some g → get_priority_queue new changed ≡ some g
  unfolding get_priority_queue
  elsewhere g e = e

  level_kept :
      (old : ℕ) (queue : Fifo) (k' : Kernel)
      → k'.queues ≡ set k.queues new (some queue)
      → old ≢ new
      → get_priority_queue old k' ≡ get_priority_queue old k
  unfolding get_priority_queue
  level_kept old queue k' e d =
      rw (e, get_elem?-set_ne k.queues {i = new} {j = old} (some queue) (λ h. d (sym h)))

  -- When `set_priority` gives a ready or running process, neither idle nor pid 1, another priority
  -- up to 3, whose queue is there and has only pointers to processes in memory, and the process
  -- then blocks, this succeeds and the queue of its old priority is as it was.
  pub priority_strands :
      (old : ℕ) (g : Fifo)
      → get_process pid k ≢ null
      → get_process pid k ≢ k.idle_proc
      → k.procs (get_process pid k) ≡ some x
      → (x.state ≡ ready) ⊎ (x.state ≡ running)
      → x.pid ≢ 1
      → old ≢ new
      → new ≤ 3
      → HasLevels k
      → get_priority_queue new k ≡ some g
      → Live (update k.procs (get_process pid k) (some (reprioritised new x))) g.items
      → Ensures
          (chain (set_priority pid new k) (λ _. block_process (get_process pid k)))
          (λ done k'. (done ≡ true) × (get_priority_queue old k' ≡ get_priority_queue old k))
  priority_strands old g ne other at s mortal d low lv e l =
      rw
        (
          set_priority-eq ne at low,
          chain,
          block-eq changed here (reprioritised new x) g ne other found low mortal lv (elsewhere g e)
              l s,
        )
        (refl, level_kept old (without here g changed) _ refl d)
