-- ===== src/Pipe/Tests.antt =====
-- The ring buffer of TP2-SO-2025/Kernel/pipe.c, empty and full.
use tp_so_grupo.Base.{
  ℕ, ◌+◌, ◌++◌, ◌≡◌, ◌==◌, if◌then◌else◌, refl, true, false, some, none, Ensures, List, [], ◌∷◌,
  arith, replicate, length-replicate,
}
use tp_so_grupo.Kernel.{Pipe, Kernel}
use tp_so_grupo.Pipe.Ring.{fill, drain, write_byte}
use tp_so_grupo.Pipe.Ring.Contents.{IsRing, bytes_in}
use tp_so_grupo.Pipe.Transfer.{returned, write_resume}
use tp_so_grupo.Pipe.Transfer.Overrun.{write_resume-overrun}
use tp_so_grupo.Pipe.Ring.Stream.{Turn, put, resume, get, FindsRoom, transfer, transfer-fifo}

abbrev ring : ℕ → ℕ → Pipe
ring r w = record {
  id = 3;
  buffer = replicate 16384 0;
  idx_to_read = r;
  idx_to_write = w;
  waiting_to_read = false;
  waiting_to_write = false;
  can_read = 50;
  can_write = 51;
  attached = 2;
  readers = 1;
  writers = 1;
  exp_readers = 0;
  exp_writers = 0;
}

empty-IsRing : IsRing (ring 0 0)
empty-IsRing = record {
  storage = length-replicate {A = ℕ} 16384 0;
  read_in = ground arith;
  write_in = ground arith;
}

full-IsRing : IsRing (ring 6 5)
full-IsRing = record {
  storage = length-replicate {A = ℕ} 16384 0;
  read_in = ground arith;
  write_in = ground arith;
}

abbrev turns : List Turn
turns = put (1 ∷ 2 ∷ []) ∷ get 1 ∷ resume (3 ∷ 4 ∷ []) ∷ get 9 ∷ []

turns-FindsRoom : FindsRoom turns (ring 0 0)
unfolding fill write_byte drain
turns-FindsRoom = (refl, tt)

transfer_example :
    bytes_in (ring 0 0) ++ (transfer turns (ring 0 0)).0
    ≡ (transfer turns (ring 0 0)).1 ++ bytes_in (transfer turns (ring 0 0)).2
transfer_example = transfer-fifo turns (ring 0 0) empty-IsRing turns-FindsRoom

-- A kernel whose only object is the full pipe.
abbrev with_full_pipe : Kernel
with_full_pipe = record {
  procs = λ _. none;
  table = [];
  queues = [];
  running_process = 0;
  idle_proc = 0;
  shell_proc = 0;
  online = false;
  sems = λ _. none;
  registry = none;
  pipes = λ a. if a == 60 then some (ring 6 5) else none;
  pipe_storage = [];
  next_id = 4;
  memory = [];
}

overrun_example : Ensures (write_resume true 60 2 (7 ∷ []) with_full_pipe) (λ r k'.
    (r ≡ returned (some (2 + 1))) × (y : Pipe) × (k'.pipes 60 ≡ some y) × (bytes_in y ≡ []))
overrun_example =
    write_resume-overrun true with_full_pipe 60 (ring 6 5) 2 7 (λ e. ground arith) refl full-IsRing
      refl refl
