-- ===== src/SortedList.antt =====
-- TP2-SO-2025/Kernel/datastructures/list.c: the list that its comparison function keeps in order,
-- over the memory of nodes of the queues, whose `struct Node` is the same. The pointers that
-- `mm_alloc` returns are arguments. Loops run on fuel and are given `size + 1` rounds.
pub mod Insert
pub mod Grown
pub mod Add
pub mod Remove
mod Tests
use tp_so_grupo.Base.{
  ok, out_of_fuel, pure, ◌>>=◌, ◌>>◌, ℕ, zero, suc, ◌+◌, ◌-◌, ◌%◌, ◌^◌, Bool, true, false, not,
  ◌&&◌, ◌||◌, Option, none, some, ◌==◌, if◌then◌else◌, ℤ, is_zero, is_negative,
}
use tp_so_grupo.Queue.Nodes.{Ptr, null, node, Cmd, load, allocate, set_next, release}

-- `struct List`. `cmp` is read on the elements that the nodes hold.
pub record SortedList : Type 0 where
  pub head : Ptr
  pub iter : Ptr
  pub size : ℕ
  pub cmp : ℕ → ℕ → ℤ
  pub size_of_elem : ℕ

-- `fresh` is what `mm_alloc` returns for the structure; `iter` keeps what the memory held.
pub list_create : (fresh iter : Ptr) → (ℕ → ℕ → ℤ) → ℕ → Option SortedList
list_create fresh iter cmp size =
    if fresh == null
    then none
    else some (record { head = null; iter = iter; size = 0; cmp = cmp; size_of_elem = size })

-- The first node whose element is not below `v`, and the one before it.
pub place_loop : ℕ → (ℕ → ℕ → ℤ) → ℕ → (prev curr : Ptr) → Cmd (Ptr × Ptr)
place_loop zero cmp v prev curr = λ _. out_of_fuel
place_loop (suc k) cmp v prev curr = if curr == null then pure (prev, curr) else do
  n ← load curr
  if is_negative (cmp n.value v) then place_loop k cmp v curr n.next else pure (prev, curr)

-- `curr != NULL && cmp(curr->data, data) == 0`
pub is_there : (ℕ → ℕ → ℤ) → ℕ → (curr : Ptr) → Cmd Bool
is_there cmp v curr =
    if curr == null then pure false else do n ← load curr; pure (is_zero (cmp n.value v))

-- The new node between `prev` and `curr`.
pub insert_at : (new prev curr : Ptr) → ℕ → SortedList → Cmd SortedList
insert_at new prev curr v l =
    let size = (l.size + 1) % 2 ^ 64 in
    do
      allocate new (node v curr)
      if curr == l.head
          then pure (record l { head = new; size = size })
          else set_next prev new >> pure (record l { size = size })

-- Whether the result is the list; else it is NULL. `new` and `block` are what `mm_alloc` returns for
-- the node and for its data; where there is none for the data the node is given back.
pub list_add : (new block : Ptr) → SortedList → ℕ → Cmd (Bool × SortedList)
unfolding place_loop is_there insert_at
list_add new block l v = do
  (prev, curr) ← place_loop (l.size + 1) l.cmp v null l.head
  there ← is_there l.cmp v curr
  if there
      then pure (true, l)
      else if new == null || block == null
      then pure (false, l)
      else insert_at new prev curr v l >>= λ l'. pure (true, l')

-- The node `tmp`, between `prev` and `next`, is taken out and freed.
pub take_out : (prev tmp next : Ptr) → SortedList → Cmd SortedList
take_out prev tmp next l =
    let size = (l.size + 2 ^ 64 - 1) % 2 ^ 64 in
    if prev == null
    then (do release tmp; pure (record l { head = next; size = size }))
    else do set_next prev next; release tmp; pure (record l { size = size })

pub drop_loop : ℕ → SortedList → ℕ → (prev tmp : Ptr) → Cmd SortedList
unfolding take_out
drop_loop zero l v prev tmp = λ _. out_of_fuel
drop_loop (suc k) l v prev tmp = if tmp == null then pure l else do
  n ← load tmp
  if is_zero (l.cmp n.value v) then take_out prev tmp n.next l else drop_loop k l v tmp n.next

-- Whether the result is the list; else it is NULL.
pub list_remove : Option SortedList → ℕ → Cmd (Bool × Option SortedList)
unfolding drop_loop
list_remove none v = pure (false, none)
list_remove (some l) v =
    if l.head == null
    then pure (false, some l)
    else do l' ← drop_loop (l.size + 1) l v null l.head; pure (true, some l')

pub list_free_loop : ℕ → Ptr → Cmd (Unit {0})
list_free_loop zero tmp = λ _. out_of_fuel
list_free_loop (suc k) tmp =
    if tmp == null then pure tt else do n ← load tmp; release tmp; list_free_loop k n.next

pub list_free : Option SortedList → Cmd (Unit {0})
unfolding list_free_loop
list_free none = pure tt
list_free (some l) = list_free_loop (l.size + 1) l.head

pub list_begin_iter : Option SortedList → Option SortedList
list_begin_iter none = none
list_begin_iter (some l) = some (record l { iter = l.head })

pub list_has_next : Option SortedList → Bool
list_has_next none = false
list_has_next (some l) = not (l.iter == null)

-- The element that the buffer gets.
pub list_get_next : SortedList → Cmd (Option ℕ × SortedList)
list_get_next l =
    if l.iter == null
    then pure (none, l)
    else do n ← load l.iter; pure (some n.value, record l { iter = n.next })

pub list_get_size : SortedList → ℕ
list_get_size l = l.size
