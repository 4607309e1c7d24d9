-- ===== src/Syscalls.antt =====
-- The system calls of TP2-SO-2025/Kernel/idt/syscallDispatcher.c that do more than pass on, and
-- setReadTarget and setWriteTarget of TP2-SO-2025/Kernel/fd.c. A result of -1 is false.
use tp_so_grupo.Base.{ℕ, Bool, true, false, not, ◌||◌, ◌==◌, if◌then◌else◌, pure, get, ◌>>=◌, ◌>>◌}
use tp_so_grupo.Kernel.{Ptr, null, Process, Cmd, deref, store, get_process}
use tp_so_grupo.Scheduler.{is_terminated, is_running, is_ready}
use tp_so_grupo.Scheduler.Schedule.{block_process, unblock_process}
use tp_so_grupo.Pipe.{attach_reader, attach_writer, detach_reader, detach_writer}

-- `STDIN` or `STDOUT`
abbrev pub is_standard : ℕ → Bool
is_standard id = id == 0 || id == 1

unfoldable pub set_read_target : ℕ → Ptr → Cmd (Unit {0})
set_read_target target p = do x ← deref p; store p (record x { read_target = target })

unfoldable pub set_write_target : ℕ → Ptr → Cmd (Unit {0})
set_write_target target p = do x ← deref p; store p (record x { write_target = target })

-- By the state of the process.
unfoldable switch : Process → Ptr → Cmd Bool
unfolding block_process unblock_process
switch x p = if is_running x.state || is_ready x.state then block_process p else unblock_process p

-- Blocks a process that is ready or running, and unblocks one that is blocked.
unfoldable pub sys_block_process : ℕ → Cmd Bool
unfolding switch
sys_block_process pid = do
  k ← get
  if get_process pid k == null || get_process pid k == k.idle_proc then pure false else do
    x ← deref (get_process pid k)
    if is_terminated x.state then pure false else do switch x (get_process pid k); pure true

unfoldable pub sys_unblock_process : ℕ → Cmd Bool
unfolding unblock_process
sys_unblock_process pid = do
  k ← get
  if get_process pid k == null then pure false else unblock_process (get_process pid k)

-- The running process reads from the pipe `id`, or from the keyboard.
unfoldable pub sys_set_read_target_sys : ℕ → Cmd Bool
unfolding set_read_target
sys_set_read_target_sys id = do
  k ← get
  if k.running_process == null then pure false else do
    x ← deref k.running_process
    (if is_standard x.read_target then pure tt else detach_reader x.read_target x.pid)
    attached ← (if is_standard id then pure true else attach_reader id)
    if not attached then pure false else do set_read_target id k.running_process; pure true

unfoldable pub sys_set_write_target_sys : ℕ → Cmd Bool
unfolding set_write_target
sys_set_write_target_sys id = do
  k ← get
  if k.running_process == null then pure false else do
    x ← deref k.running_process
    (if is_standard x.write_target then pure tt else detach_writer x.write_target x.pid)
    attached ← (if is_standard id then pure true else attach_writer id)
    if not attached then pure false else do set_write_target id k.running_process; pure true
