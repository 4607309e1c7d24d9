-- ===== src/Scheduler/Schedule.antt =====
-- TP2-SO-2025/Kernel/scheduler.c: the functions that move a process between the states, and
-- `schedule`.
pub mod Block
pub mod Choose
pub mod Pick
pub mod RoundTrip
use tp_so_grupo.Base.{
  ℕ, zero, suc, ◌+◌, ◌-◌, Bool, true, false, not, ◌&&◌, ◌||◌, Option, none, some, ◌==◌, ltb, leb,
  if◌then◌else◌, fault, out_of_fuel, pure, get, ◌>>=◌, ◌>>◌, length,
}
use tp_so_grupo.Queue.Fifo
use tp_so_grupo.Queue.Fifo.{Fifo}
use tp_so_grupo.Kernel.{
  Ptr, null, ProcState, ready, running, blocked, terminated, Process, Kernel, Cmd, deref, store,
  modify,
}
use tp_so_grupo.Scheduler.{
  max_priority, default_quantum, process_stack_size, is_ready, is_blocked, is_terminated,
  get_priority_queue, set_priority_queue, remove_from_all_priority_queues, append_to_queue,
  apply_aging, reset_aging,
}

abbrev set_running : Ptr → Kernel → Kernel
set_running p k = record k { running_process = p }

unfoldable pub add_to_scheduler : Ptr → Cmd (Unit {0})
add_to_scheduler p = do
  k ← get
  if p == null || p == k.idle_proc then pure tt else do
    x ← deref p
    store p (record x { state = ready })
    append_to_queue x.priority p (get_priority_queue x.priority k)

unfoldable pub remove_process_from_scheduler : Ptr → Cmd (Unit {0})
remove_process_from_scheduler p = do
  k ← get
  if p == null || p == k.idle_proc then pure tt else do
    remove_from_all_priority_queues p
    modify (λ k'. if k'.running_process == p then set_running null k' else k')

-- What `schedule` does with the process that ran, by its state; the result is whether it goes on.
settle : Ptr → Process → ProcState → Cmd Bool
unfolding add_to_scheduler
settle r x terminated = modify (set_running null) >> pure false
settle r x blocked = modify (set_running null) >> pure false
settle r x ready = pure false
settle r x running =
    if ltb 0 (x.quantum_remaining - 1)
    then store r (record x { quantum_remaining = x.quantum_remaining - 1 }) >> pure true
    else do
      store r (record x { quantum_remaining = default_quantum; state = ready })
      add_to_scheduler r
      pure false

settle_running : ℕ → Cmd Bool
unfolding settle
settle_running rsp = do
  k ← get
  if k.running_process == null then pure false else do
    x ← deref k.running_process
    store k.running_process (record x { rsp = rsp })
    settle k.running_process (record x { rsp = rsp }) x.state

-- Dequeues level `i`, whose queue is `f`, up to a ready process; NULL if there is none.
pub take_loop : ℕ → ℕ → Fifo → Cmd Ptr
take_loop zero i f = λ _. out_of_fuel
take_loop (suc n) i f = elim (Fifo.pop f).0 [
  | none ↦ pure null
  | some p ↦ do
    modify (set_priority_queue i (some (Fifo.pop f).1))
    x ← deref p
    k ← get
    if not (is_terminated x.state) && (is_ready x.state && not (p == k.idle_proc))
        then pure p
        else take_loop n i (Fifo.pop f).1
]

take_queue : ℕ → Option Fifo → Cmd Ptr
unfolding take_loop
take_queue i none = pure null
take_queue i (some f) = take_loop (length f.items + 1) i f

take_level : ℕ → Cmd Ptr
unfolding take_queue
take_level i = do k ← get; take_queue i (get_priority_queue i k)

-- The levels from `i` down to MIN_PRIORITY.
pub choose : ℕ → Cmd Ptr
unfolding take_level
choose zero = take_level 0
choose (suc i) = do p ← take_level (suc i); if p == null then choose i else pure p

run_idle : Cmd ℕ
run_idle = do
  k ← get
  x ← deref k.idle_proc
  store k.idle_proc (record x { state = running })
  modify (set_running k.idle_proc)
  pure x.rsp

-- A stack pointer outside the process's stack sends the processor to idle.
dispatch : Ptr → Cmd ℕ
unfolding run_idle
dispatch p = if p == null then run_idle else do
  x ← deref p
  if not (is_ready x.state) then run_idle else do
    store p (record x { state = running; quantum_remaining = default_quantum })
    modify (set_running p)
    reset_aging p
    k ← get
    if not (p == k.idle_proc)
          && (ltb x.rsp x.stack_base || leb (x.stack_base + process_stack_size) x.rsp)
        then run_idle
        else pure x.rsp

-- `fuel` bounds the rounds of aging at each level.
pub schedule : (fuel : ℕ) → (current_rsp : ℕ) → Cmd ℕ
unfolding settle_running choose dispatch
schedule fuel current_rsp = do
  k ← get
  if not k.online then pure current_rsp else do
    apply_aging fuel
    same ← settle_running current_rsp
    if same then pure current_rsp else do p ← choose max_priority; dispatch p

pub get_running_pid : Cmd (Option ℕ)
get_running_pid = do
  k ← get
  if k.running_process == null then pure none else do x ← deref k.running_process; pure (some x.pid)

-- The result of an operation that returns 0, or -1 for `false`.
unfoldable pub unblock_process : Ptr → Cmd Bool
unblock_process p = do
  k ← get
  if p == null || p == k.idle_proc then pure false else do
    x ← deref p
    if x.pid == 1 || not (is_blocked x.state)
        then pure false
        else do store p (record x { state = ready }); add_to_scheduler p; pure true

-- The forced interrupt that follows for the running process is the caller's next `schedule`.
unfoldable pub block_process : Ptr → Cmd Bool
block_process p = do
  k ← get
  if p == null || p == k.idle_proc then pure false else do
    x ← deref p
    if x.pid == 1 || (is_blocked x.state || is_terminated x.state) then pure false else do
      remove_from_all_priority_queues p
      y ← deref p
      store p (record y { state = blocked })
      reset_aging p
      pure true
