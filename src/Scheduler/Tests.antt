-- ===== src/Scheduler/Tests.antt =====
-- The scheduler of TP2-SO-2025/Kernel/scheduler.c on a kernel of four processes.
use tp_so_grupo.Base.{
  ℕ, ◌≡◌, refl, inl, true, Option, none, some, List, [], ◌∷◌, ◌==◌, arith, Ensures, if◌then◌else◌,
  out_of_fuel, ◌++◌, ◌≢◌, chain, false,
}
use tp_so_grupo.Queue.Fifo
use tp_so_grupo.Queue.Fifo.{Fifo}
use tp_so_grupo.Kernel.{Ptr, ProcState, ready, running, blocked, Process, Kernel}
use tp_so_grupo.Scheduler.{get_priority_queue, same_pid, age_level}
use tp_so_grupo.Scheduler.Levels.{items_at}
use tp_so_grupo.Scheduler.Aging.{aging_hangs}
use tp_so_grupo.Scheduler.Schedule.{choose, block_process, unblock_process}
use tp_so_grupo.Scheduler.Schedule.Pick.{first_eligible}
use tp_so_grupo.Scheduler.Schedule.Choose.{levels_down, OnlyQueues, choose-first}
use tp_so_grupo.Scheduler.Schedule.Block.{unblock-refused}
use tp_so_grupo.Scheduler.Schedule.RoundTrip.{block-unblock}

abbrev pub process : (pid : ℕ) → ProcState → (priority : ℕ) → Process
process pid state priority = record {
  pid = pid;
  ppid = 0;
  state = state;
  rsp = 5000;
  stack_base = 4096;
  priority = priority;
  original_priority = priority;
  quantum_remaining = 1;
  wait_ticks = 0;
  ground = 0;
  read_target = 0;
  write_target = 1;
  err_target = 1;
  children = [];
}

-- Idle at 10, init at 11, a ready process at 12, a blocked one at 13.
abbrev pub four : Ptr → Option Process
four a =
    if a == 10
    then some (process 0 running 0)
    else if a == 11
    then some (process 1 ready 3)
    else if a == 12
    then some (process 2 ready 2)
    else if a == 13
    then some (process 3 blocked 1)
    else none

abbrev pub holding : List Ptr → Fifo
holding ps = record { items = ps; pos = none }

-- The blocked process still stands in the queue of level 1.
abbrev pub system : Kernel
system = record {
  procs = four;
  table = 10 ∷ 11 ∷ 12 ∷ 13 ∷ [];
  queues =
      some (holding [])
      ∷ some (holding (13 ∷ []))
      ∷ some (holding (12 ∷ []))
      ∷ some (holding (11 ∷ []))
      ∷ [];
  running_process = 12;
  idle_proc = 10;
  shell_proc = 0;
  online = true;
  sems = λ s. none;
  registry = none;
  pipes = λ p. none;
  pipe_storage = [];
  next_id = 3;
  memory = true ∷ true ∷ true ∷ [];
}

choose_example :
    Ensures
      (choose 3 system)
      (λ p k'. (p ≡ first_eligible four 10 (levels_down 3 system)) × OnlyQueues system k')
unfolding get_priority_queue
choose_example =
    choose-first 3 system (ground arith) (refl, tt)
      (
        λ e. ground arith,
        (process 1 ready 3, refl),
        (
          λ e. ground arith,
          (process 2 ready 2, refl),
          (λ e. ground arith, (process 3 blocked 1, refl), tt),
        ),
      )

hang_example : age_level 1000 1 system ≡ out_of_fuel
unfolding get_priority_queue
hang_example =
    aging_hangs 1000 1 system (holding (13 ∷ [])) (ground arith) refl refl (λ e. ground arith)
      ((λ e. ground arith, (process 3 blocked 1, refl, refl)), tt)

round_trip_example : Ensures (chain (block_process 12 system) (λ _. unblock_process 12)) (λ done k'.
    (done ≡ true)
    × (k'.procs 12 ≡ some (process 2 ready 2))
    × (items_at 2 k' ≡ Fifo.erase (same_pid four) 12 (12 ∷ []) ++ 12 ∷ [])
    × ((q : Ptr) → q ≢ 12 → k'.procs q ≡ four q)
    × ((j : ℕ) → 2 ≢ j → get_priority_queue j k' ≡ get_priority_queue j system))
unfolding get_priority_queue
round_trip_example =
    block-unblock system 12 (process 2 ready 2) (holding (12 ∷ [])) (λ e. ground arith)
      (λ e. ground arith) refl (ground arith) (λ e. ground arith) refl refl (true ∷ true ∷ []) refl
      (λ e. ground arith, (process 2 ready 2, refl), tt) (inl refl)

-- The same kernel without any memory left.
abbrev starved : Kernel
starved = record system { memory = false ∷ [] }

refused_example :
    Ensures
      (unblock_process 13 starved)
      (λ done k'. (done ≡ true) × (get_priority_queue 1 k' ≡ none))
unfolding get_priority_queue
refused_example =
    unblock-refused starved 13 (process 3 blocked 1) (holding (13 ∷ [])) (λ e. ground arith)
      (λ e. ground arith) refl (ground arith) (λ e. ground arith) refl refl [] refl refl
