-- ===== src/Process.antt =====
-- TP2-SO-2025/Kernel/process.c over the shared kernel state: the process table and the life of a
-- process. What `mm_alloc` returns is an argument, or asked for in the kernel's `memory`; a pid of -1
-- is `none`.
pub mod Create
pub mod Names
pub mod Priority
pub mod Reap
pub mod Table
mod Tests
use tp_so_grupo.Base.{
  ℕ, zero, suc, ◌+◌, ◌-◌, ◌%◌, ◌^◌, Bool, true, false, not, ◌&&◌, ◌||◌, Option, none, some, List,
  [], ◌∷◌, ◌++◌, ◌==◌, ltb, leb, if◌then◌else◌, ok, fault, pure, get, ◌>>=◌, ◌>>◌, length, set,
  replicate,
}
use tp_so_grupo.Strings.{Text, Made, made, no_memory, wild_write, catenate, my_strcpy, num_to_str}
use tp_so_grupo.Kernel.{
  Ptr, null, ProcState, ready, running, blocked, terminated, Process, Kernel, Cmd, update, deref,
  store, modify, ask, get_process, max_processes,
}
use tp_so_grupo.Scheduler.{max_priority, default_quantum, is_terminated, is_running}
use tp_so_grupo.Scheduler.Schedule.{add_to_scheduler, remove_process_from_scheduler}
use tp_so_grupo.Semaphore.{sem_open, sem_post, sem_close, sem_wait}
use tp_so_grupo.Pipe.{attach_reader, attach_writer, detach_reader, detach_writer}
use tp_so_grupo.Pipe.Transfer.{close_pipe}

abbrev pub max_children : ℕ
max_children = 32

abbrev pub init_pid : ℕ
init_pid = 1

-- The name from the pid's digits, with its own memory.
name_of_digits : Made → Cmd (Option Text)
name_of_digits no_memory = pure none
name_of_digits wild_write = λ _. fault
name_of_digits (made digits) = do
  granted ← ask
  pure (
      if granted
      then some (catenate (my_strcpy (b'w' ∷ b'a' ∷ b'i' ∷ b't' ∷ b'_' ∷ [])) digits)
      else none)

-- "wait_" and the pid in decimal, for a pid of the table; NULL where memory is refused.
pub build_wait_semaphore_name : ℕ → Cmd (Option Text)
unfolding name_of_digits
build_wait_semaphore_name pid =
    if leb max_processes pid
    then pure none
    else do granted ← ask; name_of_digits (num_to_str granted pid)

-- `free_process_resources`: the process's memory, its stack and its arguments go back.
pub free_process_resources : Ptr → Bool → Cmd (Unit {0})
free_process_resources p remove = if p == null then pure tt else do
  if remove then remove_process_from_scheduler p else pure tt
  modify (λ k. record k { procs = update k.procs p none })

-- The first slot from `i` on that is free or holds a terminated process.
assign_from : ℕ → List Ptr → Cmd (Option ℕ)
assign_from i [] = pure none
assign_from i (p ∷ ps) =
    if p == null
    then pure (some i)
    else do x ← deref p; if is_terminated x.state then pure (some i) else assign_from (i + 1) ps

pub assign_pid : Cmd (Option ℕ)
unfolding assign_from
assign_pid = do k ← get; assign_from 0 k.table

unfoldable pub add_to_process_table : Ptr → ℕ → Kernel → Kernel
add_to_process_table p pid k =
    if leb max_processes pid then k else record k { table = set k.table pid p }

unfoldable pub remove_from_process_table : ℕ → Kernel → Kernel
remove_from_process_table pid k =
    if leb max_processes pid then k else record k { table = set k.table pid null }

pub set_priority : ℕ → ℕ → Cmd Bool
set_priority pid new_priority = if ltb max_priority new_priority then pure false else do
  k ← get
  if get_process pid k == null then pure false else do
    x ← deref (get_process pid k)
    store (get_process pid k) (record x {
      priority = new_priority;
      original_priority = new_priority;
      quantum_remaining = default_quantum;
    })
    pure true

pub get_priority : ℕ → Cmd (Option ℕ)
get_priority pid = do
  k ← get
  if get_process pid k == null
      then pure none
      else do x ← deref (get_process pid k); pure (some x.priority)

pub set_ground : ℕ → ℕ → Cmd Bool
set_ground pid ground = do
  k ← get
  if get_process pid k == null then pure false else do
    x ← deref (get_process pid k)
    store (get_process pid k) (record x { ground = ground })
    pure true

pub get_ground : ℕ → Cmd (Option ℕ)
get_ground pid = do
  k ← get
  if get_process pid k == null
      then pure none
      else do x ← deref (get_process pid k); pure (some x.ground)

pub count_processes : List Ptr → ℕ
count_processes [] = 0
count_processes (p ∷ ps) = if p == null then count_processes ps else suc (count_processes ps)

-- A child in the table is init's from now on, and stands among its children while there is room.
adopt : Ptr → ℕ → Cmd (Unit {0})
adopt init pid = do
  k ← get
  if get_process pid k == null then pure tt else do
    x ← deref (get_process pid k)
    if is_terminated x.state then pure tt else do
      store (get_process pid k) (record x { ppid = init_pid })
      y ← deref init
      if ltb (length y.children) max_children
          then store init (record y { children = y.children ++ pid ∷ [] })
          else pure tt

adopt_all : Ptr → List ℕ → Cmd (Unit {0})
unfolding adopt
adopt_all init [] = pure tt
adopt_all init (pid ∷ pids) = adopt init pid >> adopt_all init pids

pub reparent_children : ℕ → Cmd (Unit {0})
unfolding adopt_all
reparent_children dying_pid = do
  k ← get
  let dying = get_process dying_pid k
  let init = get_process init_pid k
  if dying == null || init == null then pure tt else do
    x ← deref dying
    adopt_all init x.children
    y ← deref dying
    store dying (record y { children = [] })

-- The pipe ends of a dying process whose targets are `r` and `w`.
close_targets : ℕ → ℕ → ℕ → Cmd (Unit {0})
close_targets pid r w = do
  if leb 2 r then detach_reader r pid >> close_pipe r >> pure tt else pure tt
  if leb 2 w
      then detach_writer w pid >> (if w == r then pure tt else close_pipe w >> pure tt)
      else pure tt

-- The semaphore "wait_pid", at `fresh` if it is not there, is posted and closed.
announce : (fresh block : Ptr) → Option Text → Cmd (Unit {0})
announce fresh block none = pure tt
announce fresh block (some name) = do
  s ← sem_open fresh block name 0
  if s == null then pure tt else sem_post s >> sem_close s >> pure tt

forget_shell : Ptr → Kernel → Kernel
forget_shell p k = if k.shell_proc == p then record k { shell_proc = null } else k

-- `kill_process` up to the switch away from a process that killed itself; `false` is -1.
pub kill_process : (fresh block : Ptr) → ℕ → Cmd Bool
unfolding free_process_resources reparent_children close_targets announce forget_shell
kill_process fresh block pid = if pid == 0 || pid == 1 then pure false else do
  k ← get
  let p = get_process pid k
  if p == null then pure false else do
    x ← deref p
    close_targets pid x.read_target x.write_target
    reparent_children pid
    name ← build_wait_semaphore_name pid
    announce fresh block name
    y ← deref p
    store p (record y { state = terminated })
    modify (remove_from_process_table pid)
    modify (forget_shell p)
    free_process_resources p true
    pure true

-- `process_terminator` up to its switch away: the process stays in the table, terminated.
pub process_terminator : (fresh block : Ptr) → Cmd (Unit {0})
unfolding reparent_children close_targets announce forget_shell
process_terminator fresh block = do
  k ← get
  let p = k.running_process
  x ← deref p
  close_targets x.pid x.read_target x.write_target
  reparent_children x.pid
  name ← build_wait_semaphore_name x.pid
  announce fresh block name
  y ← deref p
  store p (record y { state = terminated })
  remove_process_from_scheduler p
  modify (λ k'. if k'.running_process == p then record k' { running_process = null } else k')
  modify (forget_shell p)

-- Only a foreground process that is neither idle nor init is killed.
pub kill_foreground_processes : (fresh block : Ptr) → Cmd Bool
kill_foreground_processes fresh block = do
  k ← get
  if k.running_process == null then pure false else do
    x ← deref k.running_process
    if x.ground == 1 && not (x.pid == 0 || x.pid == 1)
        then kill_process fresh block x.pid
        else pure true

reap_slot : ℕ → Cmd (Unit {0})
unfolding free_process_resources
reap_slot i = do
  k ← get
  if get_process i k == null then pure tt else do
    x ← deref (get_process i k)
    if is_terminated x.state
        then modify (remove_from_process_table x.pid)
          >> free_process_resources (get_process i k) false
        else pure tt

-- The slots from `i` on, `n` of them.
reap_from : ℕ → ℕ → Cmd (Unit {0})
unfolding reap_slot
reap_from zero i = pure tt
reap_from (suc n) i = reap_slot i >> reap_from n (i + 1)

pub reap_terminated_processes : Cmd (Unit {0})
unfolding reap_from
reap_terminated_processes = reap_from max_processes 0

pub yield_cpu : Cmd (Unit {0})
yield_cpu = do
  k ← get
  if k.running_process == null then pure tt else do
    x ← deref k.running_process
    if is_running x.state
        then store k.running_process (record x { quantum_remaining = 0 })
        else pure tt
