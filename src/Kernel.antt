-- ===== src/Kernel.antt =====
-- The state that TP2-SO-2025/Kernel/scheduler.c, TP2-SO-2025/Kernel/process.c and
-- TP2-SO-2025/Kernel/sem.c share: the processes and semaphores in memory, the process table, the
-- scheduler's priority queues and the registry of semaphores. A pointer is a number, 0 is NULL,
-- and a pointer to freed memory holds `none`.
use tp_so_grupo.Base.{
  ℕ, ◌≡◌, Bool, true, false, Option, none, some, List, [], ◌∷◌, ◌==◌, if◌then◌else◌, ok, fault,
  get_or, leb,
}
use tp_so_grupo.Base.Run
use tp_so_grupo.Queue.Fifo.{Fifo}

abbrev pub Ptr : Type 0
Ptr = ℕ

abbrev pub null : Ptr
null = 0

-- `ProcessState`
pub data ProcState : Type 0 where
  ready running blocked terminated : ProcState

-- `Process`, without its stack's content, its entry point and the frame pointer, which only the
-- context switch reads. `children` holds the first `child_count` entries of the array.
pub record Process : Type 0 where
  pub pid : ℕ
  pub ppid : ℕ
  pub state : ProcState
  pub rsp : ℕ
  pub stack_base : ℕ
  pub priority : ℕ
  pub original_priority : ℕ
  pub quantum_remaining : ℕ
  pub wait_ticks : ℕ
  pub ground : ℕ
  pub read_target : ℕ
  pub write_target : ℕ
  pub err_target : ℕ
  pub children : List ℕ

-- `struct sem`. Its spin lock is free whenever no semaphore function runs, so it is left out.
pub record Sem : Type 0 where
  pub name : List ℕ
  pub value : ℕ
  pub users : ℕ
  pub waiting : Fifo

-- `struct pipe`
pub record Pipe : Type 0 where
  pub id : ℕ
  pub buffer : List ℕ
  pub idx_to_read : ℕ
  pub idx_to_write : ℕ
  pub waiting_to_read : Bool
  pub waiting_to_write : Bool
  pub can_read : Ptr
  pub can_write : Ptr
  pub attached : ℕ
  pub readers : ℕ
  pub writers : ℕ
  pub exp_readers : ℕ
  pub exp_writers : ℕ

-- `queues` holds the priority queues 0 to 3 of `process_priority_table`; a NULL among them is `none`.
-- `memory` says which of the next requests of memory are granted, where an operation asks: a request
-- behind its end is refused.
pub record Kernel : Type 0 where
  pub procs : Ptr → Option Process
  pub table : List Ptr
  pub queues : List (Option Fifo)
  pub running_process : Ptr
  pub idle_proc : Ptr
  pub shell_proc : Ptr
  pub online : Bool
  pub sems : Ptr → Option Sem
  pub registry : Option Fifo
  pub pipes : Ptr → Option Pipe
  pub pipe_storage : List Ptr
  pub next_id : ℕ
  pub memory : List Bool

abbrev pub Cmd : Type 0 → Type 0
Cmd = Run.Cmd Kernel

abbrev pub update {ℓ} : {A : Type ℓ} → (Ptr → A) → Ptr → A → Ptr → A
update f p v q = if p == q then v else f q

-- `*p`: a fault at NULL and at freed memory.
unfoldable pub deref : Ptr → Cmd Process
deref p k = if p == null then fault else elim (k.procs p) [ none ↦ fault | some x ↦ ok x k ]

abbrev pub store : Ptr → Process → Cmd (Unit {0})
store p x k = ok tt (record k { procs = update k.procs p (some x) })

abbrev pub modify : (Kernel → Kernel) → Cmd (Unit {0})
modify f k = ok tt (f k)

-- Is the next request of memory granted?
abbrev pub first_answer : List Bool → Bool
first_answer [] = false
first_answer (b ∷ bs) = b

abbrev pub other_answers : List Bool → List Bool
other_answers [] = []
other_answers (b ∷ bs) = bs

unfoldable pub ask : Cmd Bool
ask k = ok (first_answer k.memory) (record k { memory = other_answers k.memory })

pub ask-granted :
    (k : Kernel) (rest : List Bool)
    → k.memory ≡ true ∷ rest
    → ask k ≡ ok true (record k { memory = rest })
unfolding ask
ask-granted k rest e = rw e

pub ask-refused :
    (k : Kernel) (rest : List Bool)
    → k.memory ≡ false ∷ rest
    → ask k ≡ ok false (record k { memory = rest })
unfolding ask
ask-refused k rest e = rw e

abbrev pub max_processes : ℕ
max_processes = 64

-- NULL outside the table and for a free slot.
unfoldable pub get_process : ℕ → Kernel → Ptr
get_process pid k = if leb max_processes pid then null else get_or k.table pid null
