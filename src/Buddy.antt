-- ===== src/Buddy.antt =====
-- TP2-SO-2025/Kernel/memory/buddy_system_mm.c: the buddy allocator. A free list is the list of
-- the addresses its `next` fields chain; `orders` holds the order byte of the metadata in front
-- of each block.
pub mod Accounting
pub mod Orders
pub mod Bytes
pub mod Start
pub mod Weights
pub mod Cover
pub mod Partition
mod Tests
use tp_so_grupo.Base.{
  ℕ, zero, suc, ◌+◌, ◌-◌, ◌*◌, ◌/◌, ◌%◌, ◌^◌, Bool, true, false, not, ◌&&◌, ◌||◌, Option, none,
  some, List, [], ◌∷◌, ◌==◌, ltb, leb, if◌then◌else◌, set, get_or, replicate,
}
use tp_so_grupo.Kernel.{Ptr, null}

abbrev pub max_order : ℕ
max_order = 16

-- `MIN_BLOCK_SIZE << order`
unfoldable pub block_size : ℕ → ℕ
block_size zero = 4096
block_size (suc order) = 2 * block_size order

pub record Heap : Type 0 where
  pub buddy_lists : List (List Ptr)
  pub start_addr : Ptr
  pub total_managed_bytes : ℕ
  pub orders : Ptr → ℕ

-- The list of an order; the source asks for none above MAX_ORDER.
abbrev pub list_of : ℕ → List (List Ptr) → List Ptr
list_of order lists = get_or lists order []

-- The orders from `k` on, `n` of them, whose blocks fit.
fit_from : (n k total : ℕ) → ℕ
fit_from zero k total = k
fit_from (suc n) k total =
    let rest = fit_from n (k + 1) total in if leb (block_size k) total then rest else k

-- `k`, the first order that is too large, or MAX_ORDER + 1.
pub order_bound : ℕ → ℕ
unfolding fit_from
order_bound total = fit_from 17 0 total

-- A heap of less than a block leaves `start_addr` as it was.
init_with : (k : ℕ) → Ptr → Heap → Heap
init_with zero base h = record h { buddy_lists = replicate 17 []; total_managed_bytes = 0 }
init_with (suc max_k) base h = record h {
  buddy_lists = set (replicate 17 []) max_k (base ∷ []);
  start_addr = base;
  total_managed_bytes = block_size max_k;
}

pub mm_init : Ptr → ℕ → Heap → Heap
unfolding init_with
mm_init base total h = init_with (order_bound total) base h

-- `while (block_size < required_space)` on 64 bits, for `fuel` rounds. `none` is that the loop goes
-- on: behind 2 ^ 63 the block size is shifted to 0, and stays there.
pub order_for : (fuel order block required : ℕ) → Option ℕ
order_for zero order block required = none
order_for (suc n) order block required =
    let rest = order_for n (order + 1) (block * 2 % 2 ^ 64) required in
    if ltb block required then rest else some order

-- Halves `block`, of order `target + n`, down to `target`; the upper halves become free.
pub split : (n target : ℕ) → Ptr → List (List Ptr) → List (List Ptr)
split zero target block lists = lists
split (suc n) target block lists =
    split n target block
      (set lists (target + n) ((block + block_size (target + n)) ∷ list_of (target + n) lists))

-- The first order from `target + d` on, `n` of them, that has a free block: takes it and splits it.
pub take_from : (n d target : ℕ) → List (List Ptr) → Option (Ptr × List (List Ptr))
unfolding split
take_from zero d target lists = none
take_from (suc n) d target lists = elim (list_of (target + d) lists) [
  | [] ↦ take_from n (d + 1) target lists
  | block ∷ blocks ↦ some (block, split d target block (set lists (target + d) blocks))
]

place : ℕ → Option (Ptr × List (List Ptr)) → Heap → Ptr × Heap
place target none h = (null, h)
place target (some (block, lists)) h = (
  block + 8,
  record h { buddy_lists = lists; orders = λ a. if a == block then target else h.orders a },
)

-- An order above MAX_ORDER is answered by NULL; without an order the call does not return.
allocate_order : Option ℕ → Heap → Option (Ptr × Heap)
unfolding place take_from
allocate_order none h = none
allocate_order (some target) h =
    if ltb max_order target
    then some (null, h)
    else some (place target (take_from (17 - target) 0 target h.buddy_lists) h)

-- The bytes of a request with its 8 bytes of metadata, on 64 bits; at least a free block's field.
abbrev pub required_space : ℕ → ℕ
required_space size = if ltb ((size + 8) % 2 ^ 64) 8 then 8 else (size + 8) % 2 ^ 64

-- Every block starts with 8 bytes of metadata; a free one holds its `next` there. `none` is a call
-- that does not return: within 64 rounds the loop over the orders has ended, or it never does.
pub mm_alloc : ℕ → Heap → Option (Ptr × Heap)
unfolding allocate_order order_for
mm_alloc size h =
    if size == 0
    then some (null, h)
    else allocate_order (order_for 64 0 4096 (required_space size)) h

pub is_buddy_free : Ptr → List Ptr → Bool
is_buddy_free buddy [] = false
is_buddy_free buddy (block ∷ blocks) = block == buddy || is_buddy_free buddy blocks

pub remove_from_list : Ptr → List Ptr → List Ptr
remove_from_list b [] = []
remove_from_list b (block ∷ blocks) =
    if block == b then blocks else block ∷ remove_from_list b blocks

-- `(block - start) ^ size + start`: the exclusive or with a power of two flips one bit.
pub buddy_of : (start order : ℕ) → Ptr → Ptr
buddy_of start order block =
    if (block - start) / block_size order % 2 == 0
    then block + block_size order
    else block - block_size order

-- Merges `block`, of order `order`, with its buddy as long as that is free, up to MAX_ORDER, which
-- is `n` orders above; then frees it.
pub merge : (n order start : ℕ) → Ptr → List (List Ptr) → List (List Ptr)
unfolding is_buddy_free remove_from_list buddy_of
merge zero order start block lists = set lists order (block ∷ list_of order lists)
merge (suc n) order start block lists =
    let b = buddy_of start order block in
    let merged =
      merge n (order + 1) start (if ltb b block then b else block)
        (set lists order (remove_from_list b (list_of order lists))) in
    if is_buddy_free b (list_of order lists)
    then merged
    else set lists order (block ∷ list_of order lists)

pub mm_free : Ptr → Heap → Heap
unfolding merge
mm_free ptr h = if ptr == null then h else record h {
  buddy_lists =
      merge (max_order - h.orders (ptr - 8)) (h.orders (ptr - 8)) h.start_addr (ptr - 8)
        h.buddy_lists;
}

-- The bytes of the blocks of a list, each of `size` bytes.
unfoldable pub list_bytes : (size : ℕ) → List Ptr → ℕ
list_bytes size [] = 0
list_bytes size (block ∷ blocks) = size + list_bytes size blocks

-- The lists are those from `order` on.
unfoldable pub bytes_from : ℕ → List (List Ptr) → ℕ
unfolding list_bytes
bytes_from order [] = 0
bytes_from order (blocks ∷ lists) =
    list_bytes (block_size order) blocks + bytes_from (suc order) lists

-- `MemoryStats`
pub record MemoryStats : Type 0 where
  pub total_memory : ℕ
  pub free_memory : ℕ
  pub occupied_memory : ℕ

pub mm_get_stats : Heap → MemoryStats
unfolding bytes_from
mm_get_stats h =
    let free = bytes_from 0 h.buddy_lists in
    record {
      total_memory = h.total_managed_bytes;
      free_memory = free;
      occupied_memory = if leb free h.total_managed_bytes then h.total_managed_bytes - free else 0;
    }
