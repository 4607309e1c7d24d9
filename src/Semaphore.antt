-- ===== src/Semaphore.antt =====
-- TP2-SO-2025/Kernel/sem.c over the shared kernel state. A `Sem` is a pointer; -1 is `none`. The
-- node that `semOpen` enqueues in the registry is taken to be granted.
pub mod Lookup
pub mod Signal
pub mod RoundTrip
mod Tests
use tp_so_grupo.Base.{
  ℕ, zero, suc, ◌+◌, ◌-◌, ◌%◌, ◌^◌, Bool, true, false, not, ◌&&◌, ◌||◌, Option, none, some, List,
  [], ◌∷◌, ◌==◌, ltb, leb, if◌then◌else◌, ok, fault, pure, get, ◌>>=◌, ◌>>◌, length, get_or, ℤ, pos,
  negsuc,
}
use tp_so_grupo.Queue.Fifo
use tp_so_grupo.Queue.Fifo.{Fifo, is_empty}
use tp_so_grupo.Strings.{Text, strlen, my_strcpy, my_strcmp}
use tp_so_grupo.Kernel.{
  Ptr, null, Process, Sem, Kernel, Cmd, update, deref, modify, get_process, ask,
}
use tp_so_grupo.Scheduler.Schedule.{block_process, unblock_process}

abbrev pub max_sem_length : ℕ
max_sem_length = 32

unfoldable pub deref_sem : Ptr → Cmd Sem
deref_sem s k = if s == null then fault else elim (k.sems s) [ none ↦ fault | some x ↦ ok x k ]

abbrev pub store_sem : Ptr → Sem → Cmd (Unit {0})
store_sem s x = modify (λ k. record k { sems = update k.sems s (some x) })

abbrev set_registry : Fifo → Cmd (Unit {0})
set_registry f = modify (λ k. record k { registry = some f })

-- `initSemQueue`: a second call panics, as does a refused allocation of the registry; that of the
-- queue in it is taken to be granted.
pub init_sem_queue : (granted : Bool) → Cmd (Unit {0})
init_sem_queue granted = do
  k ← get
  elim k.registry [
    | some f ↦ λ _. fault
    | none ↦ if granted then set_registry Fifo.empty else λ _. fault
  ]

abbrev eq_text : Text → Text → Bool
eq_text s t = elim (my_strcmp s t) [ pos n ↦ n == 0 | negsuc n ↦ false ]

-- The rounds of the loop that are left.
locate_loop : Text → ℕ → Fifo → Cmd Ptr
locate_loop name zero f = set_registry f >> pure null
locate_loop name (suc n) f = elim (Fifo.next f).0 [
  | none ↦ locate_loop name n (Fifo.next f).1
  | some s ↦ if s == null then locate_loop name n (Fifo.next f).1 else do
    x ← deref_sem s
    if eq_text x.name name
        then set_registry (Fifo.next f).1 >> pure s
        else locate_loop name n (Fifo.next f).1
]

locate_semaphore_by_name : Text → Fifo → Cmd Ptr
unfolding locate_loop
locate_semaphore_by_name name f =
    if is_empty f.items then pure null else locate_loop name (length f.items) (Fifo.begin f)

-- A new semaphore at `fresh`; `block` is what the creation of its queue returns.
create_sem : (fresh block : Ptr) → Text → ℕ → Cmd Ptr
create_sem fresh block name value = if fresh == null || block == null then pure null else do
  k ← get
  store_sem fresh (record { name = my_strcpy name; value = value; users = 1; waiting = Fifo.empty })
  elim k.registry [ none ↦ pure tt | some f ↦ set_registry (Fifo.push fresh f) ]
  pure fresh

open_in : (fresh block : Ptr) → Text → ℕ → Option Fifo → Cmd Ptr
unfolding locate_semaphore_by_name create_sem
open_in fresh block name value none = pure null
open_in fresh block name value (some f) = do
  s ← locate_semaphore_by_name name f
  if s == null
      then create_sem fresh block name value
      else do x ← deref_sem s; store_sem s (record x { users = (x.users + 1) % 2 ^ 16 }); pure s

pub sem_open : (fresh block : Ptr) → Text → ℕ → Cmd Ptr
unfolding open_in
sem_open fresh block name value =
    if leb max_sem_length (strlen name)
    then pure null
    else do k ← get; open_in fresh block name value k.registry

-- `queueElementExists` on the registry, which moves its iterator. It asks for a buffer, and compares
-- through NULL where that is refused.
is_semaphore_valid : Ptr → Cmd Bool
is_semaphore_valid s = do
  k ← get
  if s == null then pure false else elim k.registry [
    | none ↦ pure false
    | some f ↦ do
      let (found, f') = Fifo.exists (λ a b. a == b) s f
      granted ← ask
      if not granted && not (is_empty f.items) then (λ _. fault) else set_registry f' >> pure found
  ]

-- Takes the semaphore out of the registry and frees it, when nobody uses it any more.
close_last : Ptr → Sem → Cmd (Option (Unit {0}))
close_last s x = do
  k ← get
  elim k.registry [
    | none ↦ pure none
    | some f ↦
        let (found, f') = Fifo.remove (λ a b. a == b) s f in
        if found
        then set_registry f'
          >> modify (λ k'. record k' { sems = update k'.sems s none })
          >> pure (some tt)
        else store_sem s x >> pure none
  ]

pub sem_close : Ptr → Cmd (Option (Unit {0}))
unfolding is_semaphore_valid close_last
sem_close s = do
  valid ← is_semaphore_valid s
  if not valid then pure none else do
    x ← deref_sem s
    let users = (x.users + 2 ^ 16 - 1) % 2 ^ 16
    store_sem s (record x { users = users })
    if users == 0 then close_last s x else pure (some tt)

-- A post on a semaphore whose content is `x`: it wakes the process that waits longest, else it
-- counts up.
post_to : Ptr → Sem → Cmd (Option (Unit {0}))
post_to s x = elim (Fifo.pop x.waiting).0 [
  | none ↦ store_sem s (record x { value = (x.value + 1) % 2 ^ 16 }) >> pure (some tt)
  | some pid ↦ do
    store_sem s (record x { waiting = (Fifo.pop x.waiting).1 })
    k ← get
    if get_process pid k == null then pure tt else (unblock_process (get_process pid k) >> pure tt)
    pure (some tt)
]

pub sem_post : Ptr → Cmd (Option (Unit {0}))
unfolding is_semaphore_valid post_to
sem_post s = do
  valid ← is_semaphore_valid s
  if not valid then pure none else do x ← deref_sem s; post_to s x

-- A wait at value 0: the running process joins those that wait, and blocks. `granted` says whether
-- the queue's node was allocated; the switch to another process is the next `schedule`.
block_on : (granted : Bool) → Ptr → Sem → Cmd (Option (Unit {0}))
block_on granted s x = do
  k ← get
  if k.running_process == null then pure none else do
    p ← deref k.running_process
    if not granted then pure none else do
      store_sem s (record x { waiting = Fifo.push p.pid x.waiting })
      block_process k.running_process
      pure (some tt)

wait_on : (granted : Bool) → Ptr → Sem → Cmd (Option (Unit {0}))
unfolding block_on
wait_on granted s x =
    if x.value == 0
    then block_on granted s x
    else store_sem s (record x { value = x.value - 1 }) >> pure (some tt)

pub sem_wait : (granted : Bool) → Ptr → Cmd (Option (Unit {0}))
unfolding is_semaphore_valid wait_on
sem_wait granted s = do
  valid ← is_semaphore_valid s
  if not valid then pure none else do x ← deref_sem s; wait_on granted s x

read_field : (Sem → ℕ) → Ptr → Cmd (Option ℕ)
unfolding is_semaphore_valid
read_field field s = do
  valid ← is_semaphore_valid s
  if not valid then pure none else do x ← deref_sem s; pure (some (field x))

pub sem_get_value : Ptr → Cmd (Option ℕ)
unfolding read_field
sem_get_value = read_field (λ x. x.value)

pub sem_get_users_count : Ptr → Cmd (Option ℕ)
unfolding read_field
sem_get_users_count = read_field (λ x. x.users)

pub sem_get_blocked_processes_count : Ptr → Cmd (Option ℕ)
unfolding read_field
sem_get_blocked_processes_count = read_field (λ x. length x.waiting.items)

-- There is no test that the semaphore is registered.
pub remove_from_semaphore : Ptr → ℕ → Cmd (Option (Unit {0}))
remove_from_semaphore s pid = if s == null then pure none else do
  x ← deref_sem s
  let (found, f) = Fifo.remove (λ a b. a == b) pid x.waiting
  store_sem s (record x { waiting = f })
  pure (if found then some tt else none)
