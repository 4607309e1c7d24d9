-- ===== src/Pipe.antt =====
-- TP2-SO-2025/Kernel/pipe.c over the shared kernel state. A wait splits a function: it returns
-- where the process blocks, and `..._resume` is what it does when it runs again. -1 is `none`; a
-- panic is a fault.
pub mod Ring
pub mod Transfer
mod Tests
use tp_so_grupo.Base.{
  ℕ, zero, suc, ◌+◌, ◌-◌, ◌*◌, ◌/◌, ◌%◌, ◌^◌, Bool, true, false, not, ◌&&◌, ◌||◌, Option, none,
  some, List, [], ◌∷◌, ◌++◌, ◌==◌, ltb, leb, if◌then◌else◌, ok, fault, pure, get, ◌>>=◌, ◌>>◌,
  length, replicate, set,
}
use tp_so_grupo.Strings.{Text}
use tp_so_grupo.Kernel.{Ptr, null, Pipe, Kernel, Cmd, update, modify}
use tp_so_grupo.Semaphore.{
  sem_open, sem_close, sem_post, sem_wait, sem_get_users_count, remove_from_semaphore,
}
use Ring.{pipe_buffer_size}

abbrev pub max_pipes : ℕ
max_pipes = 100

unfoldable pub deref_pipe : Ptr → Cmd Pipe
deref_pipe p k = if p == null then fault else elim (k.pipes p) [ none ↦ fault | some x ↦ ok x k ]

abbrev pub store_pipe : Ptr → Pipe → Cmd (Unit {0})
store_pipe p x = modify (λ k. record k { pipes = update k.pipes p (some x) })

pub build_sem_name : ℕ → ℕ → Text
build_sem_name id suffix =
    b's'
    ∷ b'e'
    ∷ b'm'
    ∷ b'P'
    ∷ b'i'
    ∷ b'p'
    ∷ b'e'
    ∷ (b'0' + id / 10)
    ∷ (b'0' + id % 10)
    ∷ suffix
    ∷ []

-- What `mm_alloc` returns for a pipe and for its two semaphores, each with its queue.
pub record Grants : Type 0 where
  pub pipe : Ptr
  pub read_sem : Ptr
  pub read_block : Ptr
  pub write_sem : Ptr
  pub write_block : Ptr

free_pipe : Ptr → Cmd (Unit {0})
free_pipe p = if p == null then pure tt else do
  x ← deref_pipe p
  sem_close x.can_read
  sem_close x.can_write
  modify (λ k. record k { pipes = update k.pipes p none })

abbrev new_pipe : ℕ → Ptr → Ptr → Pipe
new_pipe id r w = record {
  id = id;
  buffer = replicate pipe_buffer_size 0;
  idx_to_read = 0;
  idx_to_write = 0;
  waiting_to_read = false;
  waiting_to_write = false;
  can_read = r;
  can_write = w;
  attached = 0;
  readers = 0;
  writers = 0;
  exp_readers = 1;
  exp_writers = 1;
}

-- Where the second semaphore is refused the first is closed, twice: by name and by `freePipe`.
create_write_end : Grants → ℕ → Ptr → Cmd Ptr
create_write_end g id r = do
  w ← sem_open g.write_sem g.write_block (build_sem_name id b'W') 0
  if w == null then sem_close r >> sem_close r >> pure null else do
    store_pipe g.pipe (new_pipe id r w)
    modify (λ k. record k { next_id = k.next_id + 1 })
    pure g.pipe

create_pipe : Grants → Cmd Ptr
unfolding create_write_end
create_pipe g = if g.pipe == null then pure null else do
  k ← get
  let id = k.next_id % 2 ^ 8
  r ← sem_open g.read_sem g.read_block (build_sem_name id b'R') 0
  if r == null then pure null else create_write_end g id r

-- `added` says whether `arrayAdd` found memory.
pub open_pipe : Grants → (added : Bool) → Cmd (Option ℕ)
unfolding create_pipe deref_pipe
open_pipe g added = do
  k ← get
  if k.next_id == max_pipes then pure none else do
    p ← create_pipe g
    if p == null || not added then pure none else do
      modify (λ k'. record k' { pipe_storage = k'.pipe_storage ++ p ∷ [] })
      x ← deref_pipe p
      pure (some x.id)

find_loop : ℕ → List Ptr → Cmd Ptr
find_loop id [] = pure null
find_loop id (p ∷ ps) =
    if p == null
    then find_loop id ps
    else do x ← deref_pipe p; if x.id == id then pure p else find_loop id ps

-- NULL where the source's result is -1.
pub get_valid_pipe : ℕ → Cmd Ptr
unfolding find_loop deref_pipe
get_valid_pipe id = do k ← get; find_loop id k.pipe_storage

abbrev dec_pos : ℕ → ℕ
dec_pos n = n - 1

pub attach_reader : ℕ → Cmd Bool
unfolding get_valid_pipe
attach_reader id = do
  p ← get_valid_pipe id
  if p == null then pure false else do
    x ← deref_pipe p
    store_pipe p (record x {
      readers = (x.readers + 1) % 2 ^ 16;
      attached = (x.attached + 1) % 2 ^ 8;
      exp_readers = dec_pos x.exp_readers;
    })
    pure true

pub attach_writer : ℕ → Cmd Bool
unfolding get_valid_pipe
attach_writer id = do
  p ← get_valid_pipe id
  if p == null then pure false else do
    x ← deref_pipe p
    store_pipe p (record x {
      writers = (x.writers + 1) % 2 ^ 16;
      attached = (x.attached + 1) % 2 ^ 8;
      exp_writers = dec_pos x.exp_writers;
    })
    pure true

post_times : ℕ → Ptr → Cmd (Unit {0})
post_times zero s = pure tt
post_times (suc n) s = sem_post s >> post_times n s

-- A count of -1 posts nothing.
pub wake_all : Ptr → Cmd (Unit {0})
unfolding post_times
wake_all s = do
  users ← sem_get_users_count s
  elim users [ none ↦ pure tt | some n ↦ post_times n s ]

-- The storage with NULL for the first entry `p`; `none` if there is no such entry.
clear_entry : Ptr → List Ptr → Option (List Ptr)
clear_entry p [] = none
clear_entry p (q ∷ qs) =
    let rest : Option (List Ptr) = elim (clear_entry p qs) [
      | none ↦ none
      | some rs ↦ some (q ∷ rs)
    ] in
    if q == p then some (null ∷ qs) else rest

pub delete_pipe : Ptr → Cmd Bool
unfolding clear_entry free_pipe deref_pipe
delete_pipe p = if p == null then pure false else do
  k ← get
  elim (clear_entry p k.pipe_storage) [
    | none ↦ pure false
    | some ps ↦ modify (λ k'. record k' { pipe_storage = ps }) >> free_pipe p >> pure true
  ]

delete_if_unused : Ptr → Cmd (Unit {0})
unfolding delete_pipe deref_pipe
delete_if_unused p = do
  x ← deref_pipe p
  if x.readers == 0 && (x.writers == 0 && (x.exp_readers == 0 && x.exp_writers == 0))
      then delete_pipe p >> pure tt
      else pure tt

-- `--` on a count and on `attached`, each kept at 0.
abbrev leave_reader : Pipe → Pipe
leave_reader x =
    if x.readers == 0
    then x
    else record x { readers = x.readers - 1; attached = dec_pos x.attached }

abbrev leave_writer : Pipe → Pipe
leave_writer x =
    if x.writers == 0
    then x
    else record x { writers = x.writers - 1; attached = dec_pos x.attached }

pub detach_reader : ℕ → ℕ → Cmd (Unit {0})
unfolding get_valid_pipe wake_all delete_if_unused
detach_reader id pid = do
  p ← get_valid_pipe id
  if p == null then pure tt else do
    x ← deref_pipe p
    remove_from_semaphore x.can_read pid
    remove_from_semaphore x.can_write pid
    let y : Pipe = leave_reader x
    store_pipe p y
    if y.readers == 0 && y.waiting_to_write
        then wake_all y.can_write >> store_pipe p (record y { waiting_to_write = false })
        else pure tt
    delete_if_unused p

pub detach_writer : ℕ → ℕ → Cmd (Unit {0})
unfolding get_valid_pipe wake_all delete_if_unused
detach_writer id pid = do
  p ← get_valid_pipe id
  if p == null then pure tt else do
    x ← deref_pipe p
    remove_from_semaphore x.can_read pid
    remove_from_semaphore x.can_write pid
    let y : Pipe = leave_writer x
    store_pipe p y
    if y.writers == 0 && y.waiting_to_read
        then wake_all y.can_read >> store_pipe p (record y { waiting_to_read = false })
        else pure tt
    delete_if_unused p
