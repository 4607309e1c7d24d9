-- ===== src/Scheduler/Schedule/RoundTrip.antt =====
-- A process that blocks and is woken again.
use tp_so_grupo.Base.{
  ℕ, ◌≤◌, ◌≡◌, ◌≢◌, refl, sym, ap, ◌∙◌, ◌⊎◌, inl, inr, Bool, true, false, ◌||◌, some, List, [], ◌∷◌,
  ◌++◌, arith, chain, ne→==, eq→==, Bool-cases, Ensures,
}
use tp_so_grupo.Queue.Fifo
use tp_so_grupo.Queue.Fifo.{Fifo}
use tp_so_grupo.Kernel.{Ptr, null, ready, running, blocked, Process, Kernel, update}
use tp_so_grupo.Scheduler.{get_priority_queue, same_pid}
use tp_so_grupo.Scheduler.Levels.{
  HasLevels, Live, put, get-put_self, get-put_ne, put-HasLevels, items_of, items_at,
}
use tp_so_grupo.Scheduler.Removal.{without}
use tp_so_grupo.Scheduler.Schedule.{block_process, unblock_process}
use tp_so_grupo.Scheduler.Schedule.Block.{block-eq, unblock-eq}

or_false : (a b : Bool) → (a || b) ≡ false → (a ≡ false) × (b ≡ false)
or_false a b h = ground arith

erase-none :
    (same : ℕ → ℕ → Bool) (v : ℕ) (xs : List ℕ)
    → Fifo.contains same v xs ≡ false
    → Fifo.erase same v xs ≡ xs
unfolding Fifo.contains Fifo.erase
erase-none same v [] h = refl
erase-none same v (x ∷ xs) h =
    let (not_here, not_later) = or_false (same x v) (Fifo.contains same v xs) h in
    rw not_here (ap (λ l. x ∷ l) (erase-none same v xs not_later))

remove-items :
    (same : ℕ → ℕ → Bool) (v : ℕ) (f : Fifo)
    → (Fifo.remove same v f).1.items ≡ Fifo.erase same v f.items
unfolding Fifo.remove
remove-items same v f = elim (Bool-cases (Fifo.contains same v f.items)) [
  | inl y ↦ rw y refl
  | inr n ↦ rw n (sym (erase-none same v f.items n))
]

push-items : (v : ℕ) (f : Fifo) → (Fifo.push v f).items ≡ f.items ++ v ∷ []
unfolding Fifo.push
push-items v f = refl

module _ (k : Kernel) (p : Ptr) (x : Process) (f : Fifo) (ne : p ≢ null) (other : p ≢ k.idle_proc)
    (at : k.procs p ≡ some x) (low : x.priority ≤ 3) (mortal : x.pid ≢ 1) (lv : HasLevels k)
    (e : get_priority_queue x.priority k ≡ some f) where
  abbrev asleep : Process
  asleep = record x { state = blocked; wait_ticks = 0 }

  abbrev g : Fifo
  g = without p f k

  abbrev stopped : Kernel
  stopped = record (put x.priority g k) {
    procs = update (update k.procs p (some (record x { state = blocked }))) p (some asleep);
  }

  level_there : get_priority_queue x.priority stopped ≡ some g
  unfolding get_priority_queue
  level_there = get-put_self k x.priority g low lv

  abbrev calm : Process
  calm = record x { state = ready; wait_ticks = 0 }

  abbrev woken : List Bool → Kernel
  woken rest = record stopped {
    procs = update (update stopped.procs p (some calm)) p (some calm);
    memory = rest;
  }

  level_kept :
      (rest : List Bool) (j : ℕ)
      → x.priority ≢ j
      → get_priority_queue j (woken rest) ≡ get_priority_queue j k
  unfolding get_priority_queue
  level_kept rest j d = get-put_ne k x.priority g low lv j d

  -- When a ready or running process that is neither idle nor pid 1, of a priority up to 3 whose
  -- queue is there and has only pointers to processes in memory, blocks and is then woken, with the
  -- node granted, both succeed: it is ready with its waiting ticks at 0 and else as it was, the
  -- queue of its priority has lost the first entry with its pid and has it at its end, and no other
  -- process and no other level's queue changes.
  pub block-unblock :
      (rest : List Bool)
      → k.memory ≡ true ∷ rest
      → Live k.procs f.items
      → (x.state ≡ ready) ⊎ (x.state ≡ running)
      → Ensures (chain (block_process p k) (λ _. unblock_process p)) (λ done k'.
        (done ≡ true)
        × (k'.procs p ≡ some (record x { state = ready; wait_ticks = 0 }))
        × (items_at x.priority k' ≡ Fifo.erase (same_pid k.procs) p f.items ++ p ∷ [])
        × ((q : Ptr) → q ≢ p → k'.procs q ≡ k.procs q)
        × ((j : ℕ) → x.priority ≢ j → get_priority_queue j k' ≡ get_priority_queue j k))
  block-unblock rest granted live active =
      rw
        (
          block-eq k p x f ne other at low mortal lv e live active,
          chain,
          unblock-eq stopped p asleep g ne other (rw (eq→== p p refl)) low mortal
              (put-HasLevels k x.priority g low lv) level_there rest granted refl,
        )
        (
          refl,
          rw (eq→== p p refl),
          ap items_of (
                get-put_self (woken rest) x.priority (Fifo.push p g) low
                  (put-HasLevels k x.priority g low lv))
              ∙ push-items p g
              ∙ ap (λ l. l ++ p ∷ []) (remove-items (same_pid k.procs) p f),
          λ q d. rw (ne→== p q (λ h. d (sym h))),
          λ j d.
              get-put_ne (woken rest) x.priority (Fifo.push p g) low
                (put-HasLevels k x.priority g low lv) j d
              ∙ level_kept rest j d,
        )
