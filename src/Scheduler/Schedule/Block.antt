-- ===== src/Scheduler/Schedule/Block.antt =====
-- `block_process` and `unblock_process`.
use tp_so_grupo.Base.{
  ℕ, ◌≤◌, ◌≡◌, ◌≢◌, refl, ◌⊎◌, inl, inr, Bool, true, false, ◌||◌, none, some, List, ◌∷◌, ◌==◌,
  arith, ok, chain, pure, Ensures, ne→==, eq→==, Bool-cases,
}
use tp_so_grupo.Queue.Fifo
use tp_so_grupo.Queue.Fifo.{Fifo, is_empty}
use tp_so_grupo.Kernel.{Ptr, null, ProcState, ready, running, blocked, Process, Kernel, update}
use tp_so_grupo.Scheduler.Levels.{HasLevels, Live, deref-ok, put}
use tp_so_grupo.Scheduler.{
  append_to_queue, get_priority_queue, reset_aging, is_blocked, is_terminated,
}
use tp_so_grupo.Scheduler.Removal.{without, remove-eq, append-eq, append-refused, get-dropped}
use tp_so_grupo.Scheduler.Schedule.{block_process, unblock_process, add_to_scheduler}

-- `block_process` and `unblock_process` of a process in memory that is idle or has pid 1 fail and
-- change nothing.
pub critical_stays :
    (k : Kernel) (p : Ptr) (x : Process)
    → p ≢ null
    → k.procs p ≡ some x
    → (p ≡ k.idle_proc) ⊎ (x.pid ≡ 1)
    → (block_process p k ≡ ok false k) × (unblock_process p k ≡ ok false k)
unfolding block_process unblock_process
critical_stays k p x ne at (inl e) = rw (ne→== p null ne, eq→== p k.idle_proc e) (refl, refl)
critical_stays k p x ne at (inr e) = elim (Bool-cases (p == k.idle_proc)) [
  | inl i ↦ rw (ne→== p null ne, i) (refl, refl)
  | inr o ↦ rw (ne→== p null ne, o, deref-ok k p x ne at, chain, eq→== x.pid 1 e) (refl, refl)
]

update_self {ℓ} : {A : Type ℓ} (g : Ptr → A) (p : Ptr) (a : A) → update g p a p ≡ a
update_self g p a = rw (eq→== p p refl)

reset_aging-ok :
    (k : Kernel) (p : Ptr) (y : Process)
    → p ≢ null
    → p ≢ k.idle_proc
    → k.procs p ≡ some y
    → reset_aging p k
      ≡ ok tt (record k { procs = update k.procs p (some (record y { wait_ticks = 0 })) })
unfolding reset_aging
reset_aging-ok k p y ne other at =
    rw (ne→== p null ne, ne→== p k.idle_proc other, deref-ok k p y ne at, chain)

active : (s : ProcState) → (s ≡ ready) ⊎ (s ≡ running) → (is_blocked s || is_terminated s) ≡ false
active s h = ground arith

module _ (k : Kernel) (p : Ptr) (x : Process) (f : Fifo) (ne : p ≢ null) (other : p ≢ k.idle_proc)
    (at : k.procs p ≡ some x) (low : x.priority ≤ 3) (mortal : x.pid ≢ 1) (lv : HasLevels k)
    (e : get_priority_queue x.priority k ≡ some f) where
  -- The process with the queues as its removal leaves them.
  abbrev removed : Kernel
  removed = put x.priority (without p f k) k

  abbrev halted : Process
  halted = record x { state = blocked }

  abbrev stopped : Kernel
  stopped = record removed { procs = update k.procs p (some halted) }

  -- `block_process` of a ready or running process that is neither idle nor pid 1, of a priority up
  -- to 3 whose queue is there and has only pointers to processes in memory: it succeeds, takes the
  -- first entry with its pid out of that queue, and leaves it blocked with its waiting ticks at 0;
  -- nothing else changes.
  pub block-eq :
      Live k.procs f.items
      → (x.state ≡ ready) ⊎ (x.state ≡ running)
      → block_process p k
        ≡ ok true (record removed {
          procs = update stopped.procs p (some (record halted { wait_ticks = 0 }));
        })
  unfolding block_process
  block-eq l s = rw (
    ne→== p null ne,
    ne→== p k.idle_proc other,
    deref-ok k p x ne at,
    chain,
    ne→== x.pid 1 mortal,
    active x.state s,
    remove-eq k p x f ne at low lv e l,
    chain,
    deref-ok removed p x ne at,
    chain,
    reset_aging-ok stopped p halted ne other (update_self k.procs p (some halted)),
    chain,
  )

  abbrev awake : Process
  awake = record x { state = ready }

  abbrev woken : Kernel
  woken = record k { procs = update k.procs p (some awake) }

  abbrev renewed : Kernel
  renewed = record woken { procs = update woken.procs p (some awake) }

  -- The queues do not depend on the processes.
  queue_elsewhere : (i : ℕ) → get_priority_queue i k ≡ some f → get_priority_queue i woken ≡ some f
  unfolding get_priority_queue
  queue_elsewhere i h = h

  add_to_scheduler-ok : add_to_scheduler p woken ≡ append_to_queue x.priority p (some f) renewed
  unfolding add_to_scheduler
  add_to_scheduler-ok =
      let q : get_priority_queue x.priority woken ≡ some f = queue_elsewhere x.priority e in
      rw
        (
          ne→== p null ne,
          ne→== p k.idle_proc other,
          deref-ok woken p awake ne (update_self k.procs p (some awake)),
          chain,
          q,
        )
        refl

  unblock-start :
      x.state ≡ blocked
      → unblock_process p k ≡ chain (append_to_queue x.priority p (some f) renewed) (λ u. pure true)
  unfolding unblock_process
  unblock-start s =
      rw
        (
          ne→== p null ne,
          ne→== p k.idle_proc other,
          deref-ok k p x ne at,
          chain,
          ne→== x.pid 1 mortal,
          s,
          add_to_scheduler-ok,
        )
        refl

  -- `unblock_process` of a blocked process that is neither idle nor pid 1, of a priority up to 3
  -- whose queue is there, with the node granted: it succeeds, makes the process ready and appends
  -- it to that queue; nothing else changes.
  pub unblock-eq :
      (rest : List Bool)
      → k.memory ≡ true ∷ rest
      → x.state ≡ blocked
      → unblock_process p k
        ≡ ok true (put x.priority (Fifo.push p f) (record renewed { memory = rest }))
  unblock-eq rest granted s =
      rw (unblock-start s, append-eq renewed x.priority p f low lv rest granted, chain) refl

  -- When the node is refused, `unblock_process` of a blocked process that is neither idle nor pid
  -- 1, of a priority up to 3 whose queue is there, succeeds, and leaves no queue for that priority:
  -- all its processes are lost.
  pub unblock-refused :
      (rest : List Bool)
      → k.memory ≡ false ∷ rest
      → x.state ≡ blocked
      → Ensures
          (unblock_process p k)
          (λ done k'. (done ≡ true) × (get_priority_queue x.priority k' ≡ none))
  unblock-refused rest refused s =
      rw (unblock-start s, append-refused renewed x.priority p f low rest refused, chain)
        (refl, get-dropped (record renewed { memory = rest }) x.priority low lv)
