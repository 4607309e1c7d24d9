-- ===== src/Queue.antt =====
-- TP2-SO-2025/Kernel/datastructures/queue.c over an explicit memory. A handle of `none` is the
-- NULL queue; an operation that updates the queue's structure returns the new one. The pointers
-- that `mm_alloc` returns are arguments. Loops run on fuel and are given `elem_count + 1` rounds.
pub mod Chain
pub mod Dequeue
pub mod Enqueue
pub mod Fifo
pub mod Iterate
pub mod Nodes
pub mod Remove
pub mod Split
pub mod Unlink
pub mod Without
mod Tests
use tp_so_grupo.Base.{
  ok, fault, out_of_fuel, pure, ◌>>=◌, ◌>>◌, ℕ, zero, suc, ◌+◌, ◌-◌, ◌%◌, ◌^◌, Bool, true, false,
  not, ◌&&◌, ◌||◌, Option, none, some, ◌==◌, ltb, if◌then◌else◌,
}
use Nodes.{Ptr, null, node, Memory, Cmd, load, allocate, set_next, release}

-- `QueueCDT`. `cmp` keeps of the comparison function whether it returns 0.
pub record Queue : Type 0 where
  pub head : Ptr
  pub tail : Ptr
  pub iter : Ptr
  pub data_size : ℕ
  pub elem_count : ℕ
  pub cmp : Option (ℕ → ℕ → Bool)

abbrev pub Handle : Type 0
Handle = Option Queue

-- `fresh` is what `mm_alloc` returns for the structure.
pub create_queue : (fresh : Ptr) → Option (ℕ → ℕ → Bool) → ℕ → Handle
create_queue fresh cmp size =
    if fresh == null || size == 0
    then none
    else some (record {
      head = null;
      tail = null;
      iter = null;
      data_size = size;
      elem_count = 0;
      cmp = cmp;
    })

-- The new node linked behind the tail. `size_t` addition wraps.
link : Ptr → ℕ → Queue → Cmd Queue
link new value q =
    let count = (q.elem_count + 1) % 2 ^ 64 in
    do
      allocate new (node value null)
      if q.head == null
          then pure (record q { tail = new; head = new; elem_count = count })
          else set_next q.tail new >> pure (record q { tail = new; elem_count = count })

-- `new` and `block` are what `mm_alloc` returns for the node and for its data.
pub enqueue : (new block : Ptr) → Handle → Option ℕ → Cmd (Bool × Handle)
unfolding link
enqueue new block none value = pure (false, none)
enqueue new block (some q) none = pure (false, some q)
enqueue new block (some q) (some v) =
    if new == null || block == null
    then pure (false, some q)
    else do q' ← link new v q; pure (true, some q')

-- The structure after its first node, whose successor is `next`, is taken off.
unlink_head : Ptr → Queue → Queue
unlink_head next q =
    let iter = if not (q.iter == null) && q.iter == q.head then next else q.iter in
    record q {
      head = next;
      tail = if next == null then null else q.tail;
      iter = if next == null then null else iter;
      elem_count = (q.elem_count + 2 ^ 64 - 1) % 2 ^ 64;
    }

pub dequeue : Handle → Cmd (Option ℕ × Handle)
unfolding unlink_head
dequeue none = pure (none, none)
dequeue (some q) =
    if q.head == null
    then pure (none, some q)
    else do n ← load q.head; release q.head; pure (some n.value, some (unlink_head n.next q))

-- The structure after the node `current`, between `prev` and `next`, is taken out.
pub unlink : (prev current next : Ptr) → Queue → Queue
unlink prev current next q = record q {
  head = if prev == null then next else q.head;
  tail = if current == q.tail then prev else q.tail;
  iter = if not (q.iter == null) && q.iter == current then next else q.iter;
  elem_count = (q.elem_count + 2 ^ 64 - 1) % 2 ^ 64;
}

pub remove_at : (prev current next : Ptr) → Queue → Cmd (Bool × Queue)
unfolding unlink
remove_at prev current next q =
    if prev == null
    then (do release current; pure (true, unlink prev current next q))
    else do set_next prev next; release current; pure (true, unlink prev current next q)

remove_loop : (ℕ → ℕ → Bool) → ℕ → Queue → ℕ → (prev current : Ptr) → Cmd (Bool × Queue)
remove_loop same v q zero prev current = λ _. out_of_fuel
remove_loop same v q (suc k) prev current = if current == null then pure (false, q) else do
  n ← load current
  if same n.value v then remove_at prev current n.next q else remove_loop same v q k current n.next

-- Without a comparison function the kernel panics: a fault here.
remove_with : Option (ℕ → ℕ → Bool) → Queue → ℕ → Cmd (Bool × Handle)
unfolding remove_loop remove_at
remove_with none q v = λ _. fault
remove_with (some same) q v = do
  (found, q') ← remove_loop same v q (q.elem_count + 1) null q.head
  pure (found, some q')

pub queue_remove : Handle → ℕ → Cmd (Bool × Handle)
unfolding remove_with
queue_remove none v = pure (false, none)
queue_remove (some q) v = if q.head == null then pure (false, some q) else remove_with q.cmp q v

pub queue_peek : Handle → Cmd (Option ℕ)
queue_peek none = pure none
queue_peek (some q) = if q.head == null then pure none else do n ← load q.head; pure (some n.value)

free_loop : ℕ → Ptr → Cmd (Unit {0})
free_loop zero current = λ _. out_of_fuel
free_loop (suc k) current =
    if current == null then pure tt else do n ← load current; release current; free_loop k n.next

pub queue_free : Handle → Cmd (Unit {0})
unfolding free_loop
queue_free none = pure tt
queue_free (some q) = free_loop (q.elem_count + 1) q.head

abbrev pub queue_size : Handle → ℕ
queue_size none = 0
queue_size (some q) = q.elem_count

pub queue_is_empty : Handle → Bool
queue_is_empty h = queue_size h == 0

pub begin_cyclic_iter : Handle → Bool × Handle
begin_cyclic_iter none = (false, none)
begin_cyclic_iter (some q) =
    if q.head == null then (false, some q) else (true, some (record q { iter = q.head }))

-- `buffer` says whether the caller's buffer is there.
pub next_cyclic_iter : (buffer : Bool) → Handle → Cmd (Option ℕ × Handle)
next_cyclic_iter buffer none = pure (none, none)
next_cyclic_iter buffer (some q) = if q.iter == null || not buffer then pure (none, some q) else do
  n ← load q.iter
  pure (some n.value, some (record q { iter = if n.next == null then q.head else n.next }))

pub cyclic_iter_looped : Handle → Bool
cyclic_iter_looped none = false
cyclic_iter_looped (some q) = not (q.iter == null) && q.iter == q.head

pub iterator_is_initialized : Handle → Bool
iterator_is_initialized none = false
iterator_is_initialized (some q) = not (q.iter == null)

-- `for (i = 0; i < size && !found; i++)`, with the rounds left. The buffer keeps its content where
-- the iterator gives nothing.
exists_loop : (ℕ → ℕ → Bool) → ℕ → ℕ → ℕ → Handle → Cmd (Bool × Handle)
exists_loop same v zero buffer h = pure (false, h)
exists_loop same v (suc k) buffer h = do
  (got, h') ← next_cyclic_iter true h
  let x : ℕ = elim got [ none ↦ buffer | some y ↦ y ]
  if same x v then pure (true, h') else exists_loop same v k x h'

-- The queue is not NULL and has a comparison function, as the source supposes; `junk` is what the
-- new buffer holds.
pub element_exists : (junk : ℕ) → (ℕ → ℕ → Bool) → Queue → ℕ → Cmd (Bool × Handle)
unfolding exists_loop
element_exists junk same q v =
    let (_, h) = begin_cyclic_iter (some q) in exists_loop same v q.elem_count junk h
