-- ===== src/Buddy/Tests.antt =====
-- The allocator of TP2-SO-2025/Kernel/memory/buddy_system_mm.c on a heap of 8 KiB with a block
-- that is taken.
use tp_so_grupo.Base.{◌+◌, ◌-◌, ◌^◌, ◌≡◌, refl, [], ◌∷◌, none, some, arith, replicate}
use mathlib.Core.Option as Option
use mathlib.Core.Option.{Option}
use tp_so_grupo.Kernel.{Ptr}
use tp_so_grupo.Buddy.{Heap, mm_init, order_bound, block_size, mm_alloc, mm_free, order_for}
use tp_so_grupo.Buddy.Cover.{is_in, free_cover}
use tp_so_grupo.Buddy.Partition.{
  History, started, allocated, freed, used_cover, History-cover, History-exclusive,
}
use tp_so_grupo.Buddy.Bytes.{free_bytes}
use tp_so_grupo.Buddy.Orders.{order_for-hangs}
use tp_so_grupo.Buddy.Accounting.{Allocated, mm_alloc_accounts, mm_alloc-mm_free}

-- The first 4 KiB are taken, the other half is free.
abbrev half_heap : Heap
half_heap = record {
  buddy_lists = (69632 ∷ []) ∷ replicate 16 [];
  start_addr = 65536;
  total_managed_bytes = 8192;
  orders = λ a. 0;
}

alloc_example : (r : Ptr × Heap) × (mm_alloc 100 half_heap ≡ some r) × Allocated 100 half_heap r
alloc_example = mm_alloc_accounts half_heap 100 refl (omega arith)

alloc_free_example :
    (r : Ptr × Heap) × (mm_alloc 100 half_heap ≡ some r)
    × (free_bytes (mm_free r.0 r.1) ≡ free_bytes half_heap)
alloc_free_example = mm_alloc-mm_free half_heap 100 refl (omega arith)

-- A request whose metadata wraps gets a block of 4 KiB.
wraps : Option.map (λ (r : Ptr × Heap). r.0) (mm_alloc (2 ^ 64 - 1) half_heap) ≡ some 69640
unfolding mm_alloc block_size
wraps = refl

endless : order_for 100 0 4096 (2 ^ 63 + 1) ≡ none
endless = order_for-hangs (2 ^ 63 + 1) 100 (omega arith)

-- The heap of 8 KiB, and what two calls of `mm_alloc` make of it.
abbrev new_heap : Heap
new_heap = mm_init 65536 9000 half_heap

abbrev left : Option (Ptr × Heap) → Heap
left none = new_heap
left (some (p, h)) = h

abbrev one_taken : Heap
one_taken = left (mm_alloc 100 new_heap)

abbrev both_taken : Heap
both_taken = left (mm_alloc 4000 one_taken)

both_taken-History : History new_heap both_taken ((69632, 0) ∷ (65536, 0) ∷ [])
unfolding mm_init mm_alloc block_size order_bound
both_taken-History =
    allocated (allocated started 100 65544 one_taken refl (λ e. ground arith)) 4000 69640 both_taken
      refl (λ e. ground arith)

cover_example :
    free_cover 70000 (mm_free 65544 both_taken) + used_cover 70000 ((69632, 0) ∷ [])
    ≡ is_in 70000 65536 new_heap.total_managed_bytes
cover_example =
    History-cover 65536 9000 half_heap 70000 (freed ((69632, 0) ∷ []) [] 65536 0 both_taken-History)

own_example :
    (used_cover 70000 ((65536, 0) ∷ []) ≡ 0)
    × (free_cover 70000 both_taken ≡ 0)
    × (is_in 70000 65536 new_heap.total_managed_bytes ≡ 1)
unfolding block_size
own_example =
    History-exclusive 65536 9000 half_heap [] ((65536, 0) ∷ []) 69632 0 70000 both_taken-History
      (omega arith) (omega arith)
