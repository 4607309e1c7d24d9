-- ===== src/FirstFit.antt =====
-- TP2-SO-2025/Kernel/memory/first_fit_mm.c, the allocator that a build can have in place of the buddy one. The
-- circle of free headers is the list of them from `freep` on; the pointers go from each to the next
-- and from the last to the first. A header of a block in use is in `block_size` only.
pub mod Accounting
pub mod Insertion
pub mod Place
pub mod Release
mod Tests
use tp_so_grupo.Base.{
  ℕ, zero, suc, ◌-◌, ◌+◌, ◌*◌, ◌/◌, ◌%◌, ◌^◌, List, [], ◌∷◌, ◌++◌, Bool, true, false, ◌&&◌, ◌||◌,
  not, Option, none, some, ◌==◌, ltb, leb, if◌then◌else◌, length,
}

-- `sizeof(Header)`
abbrev pub unit_size : ℕ
unit_size = 16

-- A size counts units, with the header's.
pub record Header : Type 0 where
  pub addr : ℕ
  pub size : ℕ

pub record FreeList : Type 0 where
  pub circle : List Header
  pub block_size : ℕ → ℕ
  pub total_mem_size : ℕ
  pub free_mem_size : ℕ

abbrev pub end_of : Header → ℕ
end_of b = b.addr + b.size * unit_size

abbrev with_size : Header → ℕ → Header
with_size b n = record b { size = n }

-- `base` is the address of the static header.
unfoldable pub mm_init : (base base_address total_size : ℕ) → FreeList
mm_init base base_address total_size =
    let units = total_size / unit_size in
    record {
      circle = record { addr = base; size = 0 } ∷ record { addr = base_address; size = units } ∷ [];
      block_size = λ a. 0;
      total_mem_size = units * unit_size;
      free_mem_size = units * unit_size;
    }

-- The units for that many bytes; the sum is a size_t.
abbrev pub units_for : ℕ → ℕ
units_for nbytes = (nbytes + unit_size - 1) % 2 ^ 64 / unit_size + 1

-- The back of a header that is larger than wanted.
abbrev pub back_of : (nunits : ℕ) → Header → Header
back_of nunits p = record { addr = p.addr + (p.size - nunits) * unit_size; size = nunits }

-- Takes the units from `p`, which follows `prev`; `others` follow `p`. The block and the circle from
-- `prev` on.
unfoldable pub take_units :
    (nunits : ℕ) (prev p : Header) (others : List Header) → Header × List Header
take_units nunits prev p others =
    if p.size == nunits
    then (p, prev ∷ others)
    else (back_of nunits p, prev ∷ with_size p (p.size - nunits) ∷ others)

-- A circle of one header that fits, which is its own `prev`.
unfoldable pub take_alone : (nunits : ℕ) (p : Header) → Header × List Header
take_alone nunits p =
    if p.size == nunits then (p, p ∷ []) else (back_of nunits p, with_size p (p.size - nunits) ∷ [])

-- The loop of `mm_alloc`: `before` holds the headers from `freep` up to `prev`, `rest` those behind it.
unfoldable pub scan :
    (nunits : ℕ) (before : List Header) (prev : Header) (rest : List Header)
    → Option (Header × List Header)
unfolding take_units take_alone
scan nunits [] prev [] = if leb nunits prev.size then some (take_alone nunits prev) else none
scan nunits (first ∷ before) prev [] =
    if leb nunits first.size then some (take_units nunits prev first before) else none
scan nunits before prev (p ∷ rest) =
    let further = scan nunits (before ++ prev ∷ []) p rest in
    if leb nunits p.size then some (take_units nunits prev p (rest ++ before)) else further

-- A difference of size_t.
abbrev pub minus_64 : ℕ → ℕ → ℕ
minus_64 a b = (a + 2 ^ 64 - b) % 2 ^ 64

abbrev set_size : (ℕ → ℕ) → Header → ℕ → ℕ
set_size sizes b a = if a == b.addr then b.size else sizes a

unfoldable pub hand_out :
    (nunits : ℕ) → Option (Header × List Header) → FreeList → Option ℕ × FreeList
hand_out nunits none h = (none, h)
hand_out nunits (some (b, circle)) h = (
  some (b.addr + unit_size),
  record h {
    circle = circle;
    block_size = set_size h.block_size b;
    free_mem_size = minus_64 h.free_mem_size (nunits * unit_size);
  },
)

-- The search in the circle. Before `mm_init` it is empty; the source reads through NULL then.
unfoldable pub search : (nbytes : ℕ) (circle : List Header) → FreeList → Option ℕ × FreeList
unfolding scan hand_out
search nbytes [] h = (none, h)
search nbytes (freep ∷ rest) h =
    hand_out (units_for nbytes) (scan (units_for nbytes) [] freep rest) h

-- `none` is NULL.
unfoldable pub mm_alloc : (nbytes : ℕ) → FreeList → Option ℕ × FreeList
unfolding search
mm_alloc nbytes h = if nbytes == 0 then (none, h) else search nbytes h.circle h

-- Does a block at `bp` belong between `p` and `next`?
abbrev pub belongs : (bp p next : ℕ) → Bool
belongs bp p next = (ltb p bp && ltb bp next) || (leb next p && (ltb p bp || ltb bp next))

abbrev pub next_of : Header → List Header → Header
next_of p [] = p
next_of p (q ∷ ps) = q

-- The loop of `mm_free`: the circle from the header on behind which the block belongs.
unfoldable pub find_place : (fuel : ℕ) (bp : ℕ) → List Header → Option (List Header)
find_place zero bp circle = none
find_place (suc n) bp [] = none
find_place (suc n) bp (p ∷ ps) =
    let further = find_place n bp (ps ++ p ∷ []) in
    if belongs bp p.addr (next_of p ps).addr then some (p ∷ ps) else further

-- The block joined with the header behind it, if they touch, and what follows then. In a circle of
-- one header, that one is also the next, and its pointer stays.
unfoldable pub join_upper : (b p : Header) (ps : List Header) → Header × List Header
join_upper b p [] = (if end_of b == p.addr then with_size b (b.size + p.size) else b, [])
join_upper b p (q ∷ ps) =
    if end_of b == q.addr then (with_size b (b.size + q.size), ps) else (b, q ∷ ps)

-- The block joined with the header in front of it, if they touch; the circle from the new `freep` on.
unfoldable pub join_lower : (b p : Header) (others : List Header) → List Header
join_lower b p others =
    if end_of p == b.addr then with_size p (p.size + b.size) ∷ others else b ∷ others ++ p ∷ []

unfoldable pub insert_behind : (b p : Header) (ps : List Header) → List Header
unfolding join_upper join_lower
insert_behind b p ps = let (c, others) = join_upper b p ps in join_lower c p others

-- The block at `bp` goes behind the header in front of which the loop stopped.
unfoldable pub put_back : (bp : ℕ) → Option (List Header) → FreeList → Option FreeList
unfolding insert_behind
put_back bp none h = none
put_back bp (some []) h = none
put_back bp (some (p ∷ ps)) h =
    let size = h.block_size bp in
    some (record h {
      circle = insert_behind (record { addr = bp; size = size }) p ps;
      free_mem_size = (h.free_mem_size + size * unit_size) % 2 ^ 64;
    })

-- `ap` is none for NULL. The fuel is for the loop; the result is none if it is not enough.
unfoldable pub mm_free : (fuel : ℕ) (ap : Option ℕ) → FreeList → Option FreeList
unfolding find_place put_back
mm_free fuel none h = some h
mm_free fuel (some ap) h = put_back (ap - unit_size) (find_place fuel (ap - unit_size) h.circle) h

-- Total, free and occupied bytes.
unfoldable pub mm_get_stats : FreeList → ℕ × ℕ × ℕ
mm_get_stats h = (
  h.total_mem_size,
  h.free_mem_size,
  if leb h.free_mem_size h.total_mem_size then h.total_mem_size - h.free_mem_size else 0,
)
