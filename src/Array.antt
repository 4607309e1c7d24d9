-- ===== src/Array.antt =====
-- TP2-SO-2025/Kernel/datastructures/array.c. A handle of `none` is the NULL array; `base` lists
-- the elements that the memory of the array has room for, and an access beyond them is `none` or
-- changes nothing.
pub mod Items
mod Tests
use tp_so_grupo.Base.{
  ℕ, zero, suc, ◌+◌, ◌-◌, ◌*◌, ◌%◌, ◌^◌, Bool, true, false, not, ◌&&◌, ◌||◌, Option, none, some,
  List, [], ◌∷◌, ◌++◌, ◌==◌, ltb, leb, if◌then◌else◌, length, get_elem?, set, take, drop,
}

abbrev pub block_size : ℕ
block_size = 1024

-- `ArrayCDT`
pub record Array : Type 0 where
  pub base : List ℕ
  pub elem_count : ℕ
  pub dim : ℕ
  pub iter : ℕ

abbrev pub Handle : Type 0
Handle = Option Array

-- `fresh` is the memory that `mm_alloc` grants for the elements; `iter` is not set.
pub create_array : (granted : Bool) → (fresh : Option (List ℕ)) → (junk : ℕ) → Handle
create_array false fresh junk = none
create_array true none junk = none
create_array true (some base) junk =
    some (record { base = base; elem_count = 0; dim = block_size; iter = junk })

-- The element goes behind the last one. The counts are 16 bits wide.
place : ℕ → Array → Array
place v a = record a { base = set a.base a.elem_count v; elem_count = (a.elem_count + 1) % 2 ^ 16 }

-- A full array moves to the memory `fresh`, which has room for a block more.
grow : Option (List ℕ) → Array → Handle
grow none a = none
grow (some fresh) a =
    some (record a {
      base = take a.dim a.base ++ drop a.dim fresh;
      dim = (a.dim + block_size) % 2 ^ 16;
    })

place_in : ℕ → Handle → Handle
unfolding place
place_in v none = none
place_in v (some a) = some (place v a)

-- `none` where the source returns NULL; the array is then as it was.
pub array_add : (fresh : Option (List ℕ)) → Handle → Option ℕ → Handle
unfolding grow place_in
array_add fresh none value = none
array_add fresh (some a) none = none
array_add fresh (some a) (some v) =
    if a.elem_count == a.dim then place_in v (grow fresh a) else place_in v (some a)

-- `buffer` says whether the caller's buffer is there.
pub get_elem_by_index : Handle → ℕ → (buffer : Bool) → Option ℕ
get_elem_by_index none index buffer = none
get_elem_by_index (some a) index buffer =
    if leb a.elem_count index || not buffer then none else get_elem? a.base index

pub set_elem_by_index : Handle → ℕ → Option ℕ → Handle
set_elem_by_index none index value = none
set_elem_by_index (some a) index none = none
set_elem_by_index (some a) index (some v) =
    if leb a.elem_count index then none else some (record a { base = set a.base index v })

-- -1 as a 16-bit number for the NULL array.
pub array_size : Handle → ℕ
array_size none = 2 ^ 16 - 1
array_size (some a) = a.elem_count

pub array_begin_iter : Handle → Handle
array_begin_iter none = none
array_begin_iter (some a) = some (record a { iter = 0 })

pub array_has_next : Handle → Bool
array_has_next none = false
array_has_next (some a) = ltb a.iter a.elem_count

-- The array after `getElemByIndex` answered.
advance : Option ℕ → Array → Option ℕ × Handle
advance none a = (none, some a)
advance (some v) a = (some v, some (record a { iter = (a.iter + 1) % 2 ^ 16 }))

pub array_get_next : Handle → (buffer : Bool) → Option ℕ × Handle
unfolding array_has_next get_elem_by_index advance
array_get_next none buffer = (none, none)
array_get_next (some a) buffer =
    if array_has_next (some a)
    then advance (get_elem_by_index (some a) a.iter buffer) a
    else (none, some a)

pub array_reset_size : Handle → Handle
array_reset_size none = none
array_reset_size (some a) = some (record a { elem_count = 0 })
