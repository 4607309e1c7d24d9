-- ===== src/SortedList/Tests.antt =====
-- The list of TP2-SO-2025/Kernel/datastructures/list.c on a small memory.
use tp_so_grupo.Base.{
  fault, ◌>>=◌, Ensures, ◌≡◌, refl, none, some, [], ◌∷◌, ◌==◌, arith, if◌then◌else◌, sub_ℕ,
}
use tp_so_grupo.Queue.Nodes.{node, Memory, write, load, release}
use tp_so_grupo.Queue.Chain.{Cells}
use tp_so_grupo.SortedList.{SortedList, list_add, list_remove, list_get_next}
use tp_so_grupo.SortedList.Insert.{sub_ℕ-IsOrder}
use tp_so_grupo.SortedList.Grown.{IsList}
use tp_so_grupo.SortedList.Add.{Added, list_add_refines}
use tp_so_grupo.SortedList.Remove.{DroppedFrom, list_remove_refines}

-- Two nodes: 5 at 100, 8 at 200.
abbrev two_nodes : Memory
two_nodes a = if a == 100 then some (node 5 200) else if a == 200 then some (node 8 0) else none

abbrev two_cells : Cells
two_cells = (100, 5) ∷ (200, 8) ∷ []

-- The iterator is on the first.
abbrev two_list : SortedList
two_list = record { head = 100; iter = 100; size = 2; cmp = sub_ℕ; size_of_elem = 8 }

two-IsList : IsList two_nodes two_list two_cells
two-IsList = record {
  linked = (λ e. ground arith, refl, refl, (λ e. ground arith, refl, refl, tt));
  head_at = refl;
  counted = refl;
  small = ground arith;
  ordered = ((refl, tt), (tt, tt));
}

list_add_example :
    Ensures
      (list_add 300 400 two_list 7 two_nodes)
      (Added two_nodes two_list 300 7 (λ e. ground arith) two_cells)
list_add_example =
    list_add_refines two_nodes two_list 300 7 (λ e. ground arith) 400 two_cells two-IsList
      sub_ℕ-IsOrder (λ e. ground arith) refl (ground arith)

list_remove_example :
    Ensures (list_remove (some two_list) 8 two_nodes) (DroppedFrom two_nodes two_list 8 two_cells)
list_remove_example = list_remove_refines two_nodes two_list 8 two_cells two-IsList

-- The iterator stays on the node that is freed.
stale_iter :
    (list_remove (some two_list) 5 >>= λ (done, o). elim o [
      | none ↦ λ m. fault
      | some l ↦ list_get_next l
    ])
      two_nodes
    ≡ fault
unfolding list_remove list_get_next load release write
stale_iter = refl
