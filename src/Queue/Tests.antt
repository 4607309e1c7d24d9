-- ===== src/Queue/Tests.antt =====
-- The queue of TP2-SO-2025/Kernel/datastructures/queue.c on a small memory.
use tp_so_grupo.Base.{
  ℕ, Bool, ◌≡◌, refl, inr, true, none, some, [], ◌∷◌, ◌==◌, arith, Ensures, if◌then◌else◌,
}
use tp_so_grupo.Queue.{Queue, enqueue, dequeue, next_cyclic_iter, queue_remove}
use tp_so_grupo.Queue.Nodes.{node, Memory}
use tp_so_grupo.Queue.Fifo
use tp_so_grupo.Queue.Chain.{Cells, IsQueue, Holds, view}
use tp_so_grupo.Queue.Enqueue.{Pushed, enqueue_refines}
use tp_so_grupo.Queue.Dequeue.{Popped, dequeue_refines}
use tp_so_grupo.Queue.Remove.{Removed, queue_remove_refines}
use tp_so_grupo.Queue.Iterate.{next_refines}

-- Two nodes: 5 at 100, 6 at 200.
abbrev two_nodes : Memory
two_nodes a = if a == 100 then some (node 5 200) else if a == 200 then some (node 6 0) else none

abbrev two_cells : Cells
two_cells = (100, 5) ∷ (200, 6) ∷ []

abbrev two_queue : Queue
two_queue = record { head = 100; tail = 200; iter = 100; elem_count = 2; cmp = none; data_size = 8 }

two-IsQueue : IsQueue two_nodes two_queue two_cells
two-IsQueue = record {
  linked = (λ e. ground arith, refl, refl, (λ e. ground arith, refl, refl, tt));
  head_at = refl;
  tail_at = refl;
  iter_at = inr refl;
  counted = refl;
  small = ground arith;
}

dequeue_example :
    Ensures (dequeue (some two_queue) two_nodes) (Popped two_nodes two_queue two_cells)
dequeue_example = dequeue_refines two_nodes two_queue two_cells two-IsQueue

enqueue_example :
    Ensures
      (enqueue 300 400 (some two_queue) (some 7) two_nodes)
      (Pushed two_nodes two_queue 300 400 7 (λ e. ground arith) (λ e. ground arith) two_cells)
enqueue_example =
    enqueue_refines two_nodes two_queue 300 400 7 (λ e. ground arith) (λ e. ground arith) two_cells
      two-IsQueue refl (ground arith)

next_example : Ensures (next_cyclic_iter true (some two_queue) two_nodes) (λ (x, h) m'.
    (x ≡ (Fifo.next (view two_queue two_cells)).0)
    × Holds m' h two_cells (Fifo.next (view two_queue two_cells)).1
    × (m' ≡ two_nodes))
next_example = next_refines two_nodes two_queue two_cells two-IsQueue

-- The queue's comparison of process identifiers.
abbrev same_number : ℕ → ℕ → Bool
same_number x y = x == y

abbrev number_queue : Queue
number_queue = record two_queue { cmp = some same_number }

number-IsQueue : IsQueue two_nodes number_queue two_cells
number-IsQueue = record {
  linked = two-IsQueue.linked;
  head_at = refl;
  tail_at = refl;
  iter_at = inr refl;
  counted = refl;
  small = ground arith;
}

remove_example :
    Ensures
      (queue_remove (some number_queue) 6 two_nodes)
      (Removed two_nodes number_queue same_number 6 two_cells)
remove_example =
    queue_remove_refines two_nodes number_queue same_number 6 two_cells number-IsQueue refl
