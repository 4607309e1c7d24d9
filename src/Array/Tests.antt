-- ===== src/Array/Tests.antt =====
-- TP2-SO-2025/Kernel/datastructures/array.c on an array of room for two.
use tp_so_grupo.Base.{ℕ, refl, some, [], ◌∷◌, arith, replicate, length-replicate}
use tp_so_grupo.Array.{Array, array_add}
use tp_so_grupo.Array.Items.{IsArray, Added, array_add-items}

-- It is full, so the next element moves it.
abbrev full_array : Array
full_array = record { base = 4 ∷ 5 ∷ []; elem_count = 2; dim = 2; iter = 0 }

full-IsArray : IsArray full_array
full-IsArray = record { room = refl; fits = ground arith; narrow = ground arith }

add_example : Added 6 full_array (array_add (some (replicate 1026 0)) (some full_array) (some 6))
add_example =
    array_add-items full_array (replicate 1026 0) 6 full-IsArray (length-replicate {A = ℕ} 1026 0)
      (ground arith)
