-- ===== src/Process/Create.antt =====
-- `create_process`, `wait_child`, `ps` and `get_process_info` of TP2-SO-2025/Kernel/process.c.
use tp_so_grupo.Base.{
  ℕ, ◌+◌, Bool, true, false, not, ◌||◌, Option, none, some, List, [], ◌∷◌, ◌++◌, ◌==◌, ltb, leb,
  if◌then◌else◌, pure, get, ◌>>=◌, ◌>>◌, length,
}
use tp_so_grupo.Strings.{Text}
use tp_so_grupo.Kernel.{
  Ptr, null, ProcState, ready, Process, Cmd, deref, store, modify, get_process, max_processes,
}
use tp_so_grupo.Scheduler.{max_priority, default_quantum, process_stack_size, is_terminated}
use tp_so_grupo.Scheduler.Schedule.{add_to_scheduler}
use tp_so_grupo.Semaphore.{sem_open, sem_close, sem_wait}
use tp_so_grupo.Pipe.{attach_reader, attach_writer}
use tp_so_grupo.Process.{
  max_children, build_wait_semaphore_name, assign_pid, add_to_process_table,
  reap_terminated_processes, free_process_resources,
}

-- What `create_process` gets from elsewhere: the memory of the process, of its stack, of its wait
-- semaphore with its queue, whether its arguments were copied, the stack pointer of
-- `stackInit`, and the children that the memory shows: the source does not set `child_count`.
pub record Grants : Type 0 where
  pub proc : Ptr
  pub stack : Ptr
  pub args : Bool
  pub rsp : ℕ
  pub wait_sem : Ptr
  pub wait_block : Ptr
  pub old_children : List ℕ

-- `argc`, the three targets, the priority asked for and whether the process has the foreground.
pub record Request : Type 0 where
  pub argc : ℕ
  pub read_target : ℕ
  pub write_target : ℕ
  pub err_target : ℕ
  pub priority : ℕ
  pub foreground : Bool

-- The parent is the running process, whose list of children takes the pid while there is room.
enlist : ℕ → Cmd ℕ
enlist pid = do
  k ← get
  if pid == 0 || k.running_process == null then pure 0 else do
    x ← deref k.running_process
    if ltb (length x.children) max_children
        then store k.running_process (record x { children = x.children ++ pid ∷ [] })
        else pure tt
    pure x.pid

abbrev clamp_priority : ℕ → ℕ
clamp_priority i = if ltb max_priority i then 0 else i

abbrev new_process : Grants → Request → ℕ → ℕ → Process
new_process g r pid ppid = record {
  pid = pid;
  ppid = ppid;
  state = ready;
  rsp = g.rsp;
  stack_base = g.stack;
  priority = clamp_priority r.priority;
  original_priority = clamp_priority r.priority;
  quantum_remaining = default_quantum;
  wait_ticks = 0;
  ground = if r.foreground then 1 else 0;
  read_target = r.read_target;
  write_target = r.write_target;
  err_target = r.err_target;
  children = g.old_children;
}

open_wait_sem : Grants → Option Text → Cmd (Unit {0})
open_wait_sem g none = pure tt
open_wait_sem g (some name) = sem_open g.wait_sem g.wait_block name 0 >> pure tt

-- What follows once the process is in the table.
publish : Grants → Request → ℕ → Cmd Ptr
unfolding open_wait_sem
publish g r pid = do
  if pid == 0 then pure tt else (build_wait_semaphore_name pid >>= open_wait_sem g)
  if leb 2 r.read_target then attach_reader r.read_target >> pure tt else pure tt
  if leb 2 r.write_target then attach_writer r.write_target >> pure tt else pure tt
  if pid == 0 then pure tt else add_to_scheduler g.proc
  reap_terminated_processes
  pure g.proc

-- What follows once there is a pid. A field of the new process that the source sets later and
-- nobody reads before is set here.
build : Grants → Request → ℕ → Cmd Ptr
unfolding enlist publish
build g r pid = do
  ppid ← enlist pid
  store g.proc (new_process g r pid ppid)
  if r.argc == 0 || not g.args || (ltb g.rsp g.stack || leb (g.stack + process_stack_size) g.rsp)
      then free_process_resources g.proc false >> pure null
      else if leb max_processes pid
      then free_process_resources g.proc false >> pure null
      else modify (add_to_process_table g.proc pid) >> publish g r pid

-- NULL where a resource is refused. With a full table the source frees the new process as it is.
pub create_process : Grants → Request → Cmd Ptr
unfolding build
create_process g r =
    if g.proc == null || g.stack == null
    then pure null
    else do pid ← assign_pid; elim pid [ none ↦ pure null | some i ↦ build g r i ]

-- The array of children without the first entry `pid`, the ones behind it moved up.
pub drop_child : ℕ → List ℕ → List ℕ
drop_child pid [] = []
drop_child pid (c ∷ cs) = if c == pid then cs else c ∷ drop_child pid cs

wait_named : (fresh block : Ptr) → (granted : Bool) → Option Text → Cmd (Option (Ptr × Bool))
wait_named fresh block granted none = pure none
wait_named fresh block granted (some name) = do
  s ← sem_open fresh block name 0
  if s == null
      then pure none
      else do r ← sem_wait granted s; pure (some (s, elim r [ none ↦ false | some u ↦ true ]))

-- `wait_child` up to its wait: the semaphore that it waits on, and whether the wait went well.
pub wait_child : (fresh block : Ptr) → (granted : Bool) → ℕ → Cmd (Option (Ptr × Bool))
unfolding wait_named
wait_child fresh block granted child_pid = do
  k ← get
  if get_process child_pid k == null
      then pure none
      else (build_wait_semaphore_name child_pid >>= wait_named fresh block granted)

-- The rest of `wait_child`, when the waiting process runs again.
pub wait_resume : Ptr → Bool → ℕ → Cmd Bool
unfolding drop_child
wait_resume s waited child_pid = do
  sem_close s
  reap_terminated_processes
  if not waited then pure false else do
    k ← get
    if k.running_process == null then pure true else do
      x ← deref k.running_process
      store k.running_process (record x { children = drop_child child_pid x.children })
      pure true

-- A row of `ps`.
pub record ProcessInfo : Type 0 where
  pub pid : ℕ
  pub ppid : ℕ
  pub state : ProcState
  pub rsp : ℕ
  pub stack_base : ℕ
  pub priority : ℕ
  pub ground : ℕ

info_of : Process → ProcessInfo
info_of x = record {
  pid = x.pid;
  ppid = x.ppid;
  state = x.state;
  rsp = x.rsp;
  stack_base = x.stack_base;
  priority = x.priority;
  ground = x.ground;
}

-- One row for each slot of the table; a row of pid -1 is `none`.
rows : List Ptr → Cmd (List (Option ProcessInfo))
unfolding info_of
rows [] = pure []
rows (p ∷ ps) = if p == null then (do r ← rows ps; pure (none ∷ r)) else do
  x ← deref p
  r ← rows ps
  pure ((if is_terminated x.state then none else some (info_of x)) ∷ r)

pub ps : Cmd (List (Option ProcessInfo))
unfolding rows
ps = do k ← get; rows k.table

pub get_process_info : ℕ → Cmd (Option ProcessInfo)
unfolding info_of
get_process_info pid = do
  k ← get
  if get_process pid k == null
      then pure none
      else do x ← deref (get_process pid k); pure (some (info_of x))
