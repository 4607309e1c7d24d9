-- ===== src/Semaphore/RoundTrip.antt =====
-- A post and the wait that takes it.
use tp_so_grupo.Base.{
  suc, ◌+◌, ◌%◌, ◌^◌, ◌<◌, ◌≡◌, ◌≢◌, refl, sym, ap, ◌∙◌, Bool, true, none, some, List, ◌∷◌, arith,
  chain, ne→==, eq→==, Ensures,
}
use tp_so_grupo.Queue.Fifo
use tp_so_grupo.Queue.Fifo.{Fifo}
use tp_so_grupo.Kernel.{Ptr, Sem, Kernel}
use tp_so_grupo.Semaphore.{sem_post, sem_wait}
use tp_so_grupo.Semaphore.Signal.{
  same, Registered, resembled, exists-items, sem_post_counts, sem_wait_takes,
}

module _ (k : Kernel) (s : Ptr) (x : Sem) (f : Fifo) where
  abbrev posted : Sem
  posted = record x { value = x.value + 1 }

  posted-Registered :
      (rest later : List Bool)
      → Registered k s x f rest
      → rest ≡ true ∷ later
      → Registered (resembled k s x f rest posted) s posted (Fifo.exists same s f).1 later
  posted-Registered rest later r granted = record {
    there = r.there;
    content = rw (eq→== s s refl);
    registry = refl;
    listed = ap (Fifo.contains same s) (exists-items s f) ∙ r.listed;
    granted = granted;
  }

  -- A `semPost` on a registered semaphore where nobody waits, whose value is below 2 ^ 16 - 1, and
  -- a `semWait` on it afterwards, with the buffers granted, both succeed without blocking anybody:
  -- the semaphore is as it was, and so are the other semaphores, the processes and their queues.
  pub sem_post-sem_wait :
      (node : Bool) (rest later : List Bool)
      → Registered k s x f rest
      → rest ≡ true ∷ later
      → (Fifo.pop x.waiting).0 ≡ none
      → x.value + 1 < 2 ^ 16
      → Ensures (chain (sem_post s k) (λ _. sem_wait node s)) (λ r k'.
        (r ≡ some tt)
        × (k'.sems s ≡ some x)
        × ((a : Ptr) → a ≢ s → k'.sems a ≡ k.sems a)
        × (k'.procs ≡ k.procs)
        × (k'.queues ≡ k.queues))
  sem_post-sem_wait node rest later r granted idle small =
      let count : (x.value + 1) % 2 ^ 16 ≡ x.value + 1 = omega arith in
      let next : x.value + 1 ≡ suc x.value = omega arith in
      rw
        (
          sem_post_counts k s x f rest r idle,
          chain,
          count,
          sem_wait_takes (resembled k s x f rest posted) s posted (Fifo.exists same s f).1 later
              node x.value (posted-Registered rest later r granted) next,
        )
        (refl, rw (eq→== s s refl), λ a d. rw (ne→== s a (λ h. d (sym h))), refl, refl)
