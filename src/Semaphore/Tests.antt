-- ===== src/Semaphore/Tests.antt =====
-- TP2-SO-2025/Kernel/sem.c on the kernel of four processes, with three semaphores.
use tp_so_grupo.Base.{
  Ensures, chain, ℕ, ◌≡◌, ◌≢◌, refl, inl, true, Option, none, some, List, [], ◌∷◌, ◌==◌, arith, ok,
  if◌then◌else◌,
}
use tp_so_grupo.Queue.Fifo
use tp_so_grupo.Queue.Fifo.{Fifo}
use tp_so_grupo.Kernel.{Ptr, ready, blocked, Sem, Kernel, update, get_process}
use tp_so_grupo.Scheduler.{get_priority_queue}
use tp_so_grupo.Scheduler.Levels.{put}
use tp_so_grupo.Scheduler.Removal.{without}
use tp_so_grupo.Scheduler.Tests.{process, four, holding, system}
use tp_so_grupo.Strings.{strlen, my_strcmp, my_strcpy}
use tp_so_grupo.Semaphore.{sem_open, sem_wait, sem_post}
use tp_so_grupo.Semaphore.Lookup.{SemsLive, Holding, sem_open_existing, sem_open_new}
use tp_so_grupo.Semaphore.Signal.{Registered, resembled, moved, sem_post_wakes, sem_wait_blocks}
use tp_so_grupo.Semaphore.RoundTrip.{sem_post-sem_wait}

abbrev semaphore : ℕ → ℕ → List ℕ → Sem
semaphore c value pids = record { name = c ∷ []; value = value; users = 1; waiting = holding pids }

-- At 50 value 2, at 51 value 0 with nobody waiting, at 52 value 0 with the blocked process waiting.
abbrev three : Ptr → Option Sem
three s =
    if s == 50
    then some (semaphore b'a' 2 [])
    else if s == 51
    then some (semaphore b'b' 0 [])
    else if s == 52
    then some (semaphore b'c' 0 (3 ∷ []))
    else none

abbrev registry : Fifo
registry = holding (50 ∷ 51 ∷ 52 ∷ [])

abbrev with_sems : Kernel
with_sems = record system { sems = three; registry = some registry }

first-Registered : Registered with_sems 50 (semaphore b'a' 2 []) registry (true ∷ true ∷ [])
unfolding Fifo.contains
first-Registered = record {
  there = λ e. ground arith;
  content = refl;
  registry = refl;
  listed = refl;
  granted = refl;
}

second-Registered : Registered with_sems 51 (semaphore b'b' 0 []) registry (true ∷ true ∷ [])
unfolding Fifo.contains
second-Registered = record {
  there = λ e. ground arith;
  content = refl;
  registry = refl;
  listed = refl;
  granted = refl;
}

third-Registered : Registered with_sems 52 (semaphore b'c' 0 (3 ∷ [])) registry (true ∷ true ∷ [])
unfolding Fifo.contains
third-Registered = record {
  there = λ e. ground arith;
  content = refl;
  registry = refl;
  listed = refl;
  granted = refl;
}

post_wait_example : Ensures (chain (sem_post 51 with_sems) (λ _. sem_wait true 51)) (λ r k'.
    (r ≡ some tt)
    × (k'.sems 51 ≡ some (semaphore b'b' 0 []))
    × ((a : Ptr) → a ≢ 51 → k'.sems a ≡ three a)
    × (k'.procs ≡ with_sems.procs)
    × (k'.queues ≡ with_sems.queues))
unfolding Fifo.pop
post_wait_example =
    sem_post-sem_wait with_sems 51 (semaphore b'b' 0 []) registry true (true ∷ true ∷ [])
      (true ∷ []) second-Registered refl refl (omega arith)

wakes_example :
    sem_post 52 with_sems
    ≡ ok (some tt) (
        put 1
          (Fifo.push 13 (holding (13 ∷ [])))
          (record (moved with_sems 52
            (semaphore b'c' 0 (3 ∷ []))
            registry
            (true ∷ true ∷ [])
            (semaphore b'c' 0 [])
            (update (update four 13 (some (process 3 ready 1))) 13 (some (process 3 ready 1)))) {
              memory = true ∷ [];
            }))
unfolding Fifo.pop get_process get_priority_queue
wakes_example =
    sem_post_wakes with_sems 52 (semaphore b'c' 0 (3 ∷ [])) registry (true ∷ true ∷ [])
      (process 3 blocked 1) (holding (13 ∷ [])) 13 (λ e. ground arith) (λ e. ground arith) refl
      (λ e. ground arith) (ground arith) refl refl 3 (true ∷ []) third-Registered refl refl refl
      refl

abbrev joined : Sem
joined = record (semaphore b'b' 0 []) { waiting = Fifo.push 2 (holding []) }

blocks_example :
    sem_wait true 51 with_sems
    ≡ ok (some tt) (
        put 2
          (without 12
            (holding (12 ∷ []))
            (resembled with_sems 51 (semaphore b'b' 0 []) registry (true ∷ true ∷ []) joined))
          (moved with_sems 51
            (semaphore b'b' 0 [])
            registry
            (true ∷ true ∷ [])
            joined
            (update (update four 12 (some (process 2 blocked 2))) 12 (some (process 2 blocked 2)))))
unfolding get_priority_queue
blocks_example =
    sem_wait_blocks with_sems 51 (semaphore b'b' 0 []) registry (true ∷ true ∷ [])
      (process 2 ready 2) (holding (12 ∷ [])) (λ e. ground arith) (λ e. ground arith) refl
      (λ e. ground arith) (ground arith) refl refl second-Registered refl
      (λ e. ground arith, (process 2 ready 2, refl), tt) (inl refl)

three-SemsLive : SemsLive three (50 ∷ 51 ∷ 52 ∷ [])
three-SemsLive = (
  λ e. ground arith,
  (semaphore b'a' 2 [], refl),
  (
    λ e. ground arith,
    (semaphore b'b' 0 [], refl),
    (λ e. ground arith, (semaphore b'c' 0 (3 ∷ []), refl), tt),
  ),
)

open_example : Ensures (sem_open 60 61 (b'b' ∷ []) 5 with_sems) (λ o k'.
    (o ≡ 51)
    × (k'.sems ≡ update three 51 (some (record (semaphore b'b' 0 []) { users = 2 })))
    × Holding (50 ∷ 51 ∷ 52 ∷ []) k')
unfolding my_strcmp strlen
open_example =
    sem_open_existing (b'b' ∷ []) with_sems registry 60 61 5 (ground arith) refl three-SemsLive 51
      (semaphore b'b' 0 []) refl (λ e. ground arith) refl

create_example : Ensures (sem_open 60 61 (b'd' ∷ []) 5 with_sems) (λ o k'.
    (o ≡ 60)
    × (k'.sems ≡ update three 60 (some (semaphore b'd' 5 [])))
    × Holding (50 ∷ 51 ∷ 52 ∷ 60 ∷ []) k')
unfolding my_strcmp strlen my_strcpy
create_example =
    sem_open_new (b'd' ∷ []) with_sems registry 60 61 5 (ground arith) refl three-SemsLive refl
      (λ e. ground arith) (λ e. ground arith)
