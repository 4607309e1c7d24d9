-- ===== src/Scheduler.antt =====
-- TP2-SO-2025/Kernel/scheduler.c. A priority queue is the queue that Queue.Fifo describes, its
-- elements process pointers; whether the node of an `enqueue` is granted stands in the kernel's
-- `memory`. A panic is a fault. The interrupt flag is not state here: a function runs to its end before the next one.
pub mod Aging
pub mod Levels
pub mod Removal
pub mod Schedule
pub mod Tests
use tp_so_grupo.Base.{
  ℕ, zero, suc, ◌+◌, ◌-◌, Bool, true, false, not, ◌&&◌, ◌||◌, Option, none, some, List, [], ◌∷◌,
  ◌==◌, ltb, leb, if◌then◌else◌, fault, out_of_fuel, pure, get, ◌>>=◌, ◌>>◌, get_elem?, set, length,
}
use tp_so_grupo.Queue.Fifo
use tp_so_grupo.Queue.Fifo.{Fifo, is_empty}
use tp_so_grupo.Kernel.{
  Ptr, null, ProcState, ready, running, blocked, terminated, Process, Kernel, Cmd, deref, store,
  modify, ask,
}

abbrev pub min_priority : ℕ
min_priority = 0

abbrev pub max_priority : ℕ
max_priority = 3

abbrev pub default_quantum : ℕ
default_quantum = 1

abbrev pub aging_threshold : ℕ
aging_threshold = 50

abbrev pub process_stack_size : ℕ
process_stack_size = 8192

abbrev pub is_ready : ProcState → Bool
is_ready ready = true
is_ready _ = false

abbrev pub is_running : ProcState → Bool
is_running running = true
is_running _ = false

abbrev pub is_blocked : ProcState → Bool
is_blocked blocked = true
is_blocked _ = false

abbrev pub is_terminated : ProcState → Bool
is_terminated terminated = true
is_terminated _ = false

abbrev pub queue_in : Option (Option Fifo) → Option Fifo
queue_in none = none
queue_in (some q) = q

unfoldable pub get_priority_queue : ℕ → Kernel → Option Fifo
get_priority_queue i k = if ltb max_priority i then none else queue_in (get_elem? k.queues i)

unfoldable pub set_priority_queue : ℕ → Option Fifo → Kernel → Kernel
set_priority_queue i q k = if ltb max_priority i then k else record k { queues = set k.queues i q }

-- `compareProcesses(&a, &b) == 0` where both processes are in memory.
abbrev pub same_pid : (Ptr → Option Process) → Ptr → Ptr → Bool
same_pid procs a b = elim (procs a) [
  | none ↦ false
  | some x ↦ elim (procs b) [ none ↦ false | some y ↦ x.pid == y.pid ]
]

-- The processes that `queueRemove` reads while it looks for `pid`.
unfoldable pub compare_along : ℕ → List Ptr → Cmd (Unit {0})
compare_along pid [] = pure tt
compare_along pid (p ∷ ps) = do x ← deref p; if x.pid == pid then pure tt else compare_along pid ps

-- `queueRemove(queue, &p)` on the queue of level `i`.
unfoldable pub remove_from_queue : ℕ → Option Fifo → Ptr → Cmd (Unit {0})
unfolding compare_along
remove_from_queue i none p = pure tt
remove_from_queue i (some f) p = do
  x ← deref p
  compare_along x.pid f.items
  modify (λ k. set_priority_queue i (some (Fifo.remove (same_pid k.procs) p f).1) k)

unfoldable pub remove_from_all_priority_queues : Ptr → Cmd (Unit {0})
unfolding remove_from_queue
remove_from_all_priority_queues p =
    if p == null
    then pure tt
    else do x ← deref p; k ← get; remove_from_queue x.priority (get_priority_queue x.priority k) p

-- `set_priority_queue(i, enqueue(get_priority_queue(i), &p))`: without the queue the kernel panics,
-- and where the node is refused the level has NULL for its queue from then on.
unfoldable pub append_to_queue : ℕ → Ptr → Option Fifo → Cmd (Unit {0})
append_to_queue i p none = λ _. fault
append_to_queue i p (some f) = do
  granted ← ask
  modify (set_priority_queue i (if granted then some (Fifo.push p f) else none))

boost : ℕ → Ptr → Cmd (Unit {0})
unfolding remove_from_queue append_to_queue
boost i p = do
  x ← deref p
  store p (record x { priority = max_priority })
  k ← get
  remove_from_queue i (get_priority_queue i k) p
  k' ← get
  append_to_queue max_priority p (get_priority_queue max_priority k')
  y ← deref p
  store p (record y { wait_ticks = 0 })

abbrev looped_at : Option Fifo → Bool
looped_at none = false
looped_at (some f) = Fifo.looped f.pos

-- The body of the loop behind the `continue` test; the result is whether the loop breaks.
age : ℕ → Ptr → Process → Cmd Bool
unfolding boost
age i p x = do
  store p (record x { wait_ticks = x.wait_ticks + 1 })
  if ltb (x.wait_ticks + 1) aging_threshold then pure tt else boost i p
  k ← get
  pure (looped_at (get_priority_queue i k))

age_step : ℕ → Ptr → Cmd Bool
unfolding age
age_step i p = do
  x ← deref p
  k ← get
  if not (is_ready x.state) || p == k.idle_proc then pure false else age i p x

-- `queueNextCyclicIter` on the queue of level `i`.
next_in : ℕ → Option Fifo → Cmd (Option Ptr)
next_in i none = pure none
next_in i (some f) = do modify (set_priority_queue i (some (Fifo.next f).1)); pure (Fifo.next f).0

age_loop : ℕ → ℕ → Cmd (Unit {0})
unfolding age_step next_in
age_loop zero i = λ _. out_of_fuel
age_loop (suc n) i = do
  k ← get
  got ← next_in i (get_priority_queue i k)
  elim got [
    | none ↦ pure tt
    | some p ↦
        if p == null
        then pure tt
        else do stop ← age_step i p; if stop then pure tt else age_loop n i
  ]

age_queue : ℕ → ℕ → Option Fifo → Cmd (Unit {0})
unfolding age_loop
age_queue fuel i none = pure tt
age_queue fuel i (some f) =
    if is_empty f.items
    then pure tt
    else modify (set_priority_queue i (some (Fifo.begin f))) >> age_loop fuel i

pub age_level : ℕ → ℕ → Cmd (Unit {0})
unfolding age_queue
age_level fuel i = do k ← get; age_queue fuel i (get_priority_queue i k)

-- The levels 0 to MAX_PRIORITY - AGING_BOOST; `fuel` bounds the rounds at each.
pub apply_aging : ℕ → Cmd (Unit {0})
unfolding age_level
apply_aging fuel = age_level fuel 0 >> age_level fuel 1 >> age_level fuel 2

unfoldable pub reset_aging : Ptr → Cmd (Unit {0})
reset_aging p = do
  k ← get
  if p == null || p == k.idle_proc
      then pure tt
      else do x ← deref p; store p (record x { wait_ticks = 0 })
