-- ===== src/FirstFit/Tests.antt =====
-- A heap of 8 units at address 1000.
use tp_so_grupo.Base.{◌-◌, ◌≡◌, refl, some, arith, [], ◌∷◌}
use tp_so_grupo.FirstFit.{unit_size, FreeList, mm_init, mm_alloc, mm_free}
use tp_so_grupo.FirstFit.Accounting.{IsCounted, Granted, mm_alloc-IsCounted}
use tp_so_grupo.FirstFit.Insertion.{Returned}
use tp_so_grupo.FirstFit.Place.{IsOutside}
use tp_so_grupo.FirstFit.Release.{mm_free-Returned}

abbrev heap : FreeList
heap = record {
  circle = record { addr = 16; size = 0 } ∷ record { addr = 1000; size = 8 } ∷ [];
  block_size = λ a. 0;
  total_mem_size = 128;
  free_mem_size = 128;
}

init_heap : mm_init 16 1000 128 ≡ heap
unfolding mm_init
init_heap = refl

heap-IsCounted : IsCounted heap
heap-IsCounted = record { counted = omega arith; bound = omega arith; based = ground arith }

first_fit_example : IsCounted (mm_alloc 30 heap).1 × Granted 30 heap (mm_alloc 30 heap)
first_fit_example = mm_alloc-IsCounted 30 heap heap-IsCounted (omega arith)

-- The same heap with 3 units handed out at its end.
abbrev used : FreeList
used = record {
  circle = record { addr = 16; size = 0 } ∷ record { addr = 1000; size = 5 } ∷ [];
  block_size = λ a. 3;
  total_mem_size = 128;
  free_mem_size = 80;
}

used-IsCounted : IsCounted used
used-IsCounted = record { counted = omega arith; bound = omega arith; based = ground arith }

used-IsOutside : IsOutside (1096 - unit_size) used.circle
used-IsOutside = (omega arith, (omega arith, tt))

release_example : Returned 3 used (mm_free 2 (some 1096) used)
release_example =
    mm_free-Returned 2 1096 used used-IsCounted used-IsOutside (omega arith) (omega arith)
