-- ===== src/Queue/Fifo.antt =====
-- What TP2-SO-2025/Kernel/include/queue.h promises, without memory: the elements in order, and
-- where the cyclic iterator stands among them.
use tp_so_grupo.Base.{
  ℕ, zero, suc, ◌+◌, ◌-◌, Bool, true, false, ◌||◌, Option, none, some, List, [], ◌∷◌, ◌++◌, ◌==◌,
  ltb, if◌then◌else◌, length, get_elem?,
}

pub record Fifo : Type 0 where
  pub items : List ℕ
  pub pos : Option ℕ

abbrev pub empty : Fifo
empty = record { items = []; pos = none }

abbrev pub is_empty : List ℕ → Bool
is_empty [] = true
is_empty (x ∷ xs) = false

unfoldable pub push : ℕ → Fifo → Fifo
push v f = record f { items = f.items ++ v ∷ [] }

-- The iterator after the first element is gone: on the next one, if it stood on the first.
abbrev pub pos_behind : Option ℕ → Option ℕ
pos_behind none = none
pos_behind (some zero) = some zero
pos_behind (some (suc i)) = some i

pop_items : List ℕ → Option ℕ → Option ℕ × Fifo
pop_items [] pos = (none, record { items = []; pos = pos })
pop_items (x ∷ xs) pos =
    (some x, record { items = xs; pos = if is_empty xs then none else pos_behind pos })

unfoldable pub pop : Fifo → Option ℕ × Fifo
unfolding pop_items
pop f = pop_items f.items f.pos

unfoldable pub peek : List ℕ → Option ℕ
peek [] = none
peek (x ∷ xs) = some x

-- The iterator after the element at `j` of `n` is gone: past it, or nowhere behind the last.
abbrev pub pos_erase : (j n : ℕ) → Option ℕ → Option ℕ
pos_erase j n none = none
pos_erase j n (some i) =
    if ltb i j
    then some i
    else if ltb j i
    then some (i - 1)
    else if j + 1 == n
    then none
    else some i

module _ (same : ℕ → ℕ → Bool) (v : ℕ) where
  unfoldable pub contains : List ℕ → Bool
  contains [] = false
  contains (x ∷ xs) = same x v || contains xs

  -- Drops the first element that compares equal.
  unfoldable pub erase : List ℕ → List ℕ
  erase [] = []
  erase (x ∷ xs) = if same x v then xs else x ∷ erase xs

  -- The index of the first element that compares equal, else the length.
  unfoldable pub index_of : List ℕ → ℕ
  index_of [] = 0
  index_of (x ∷ xs) = if same x v then 0 else suc (index_of xs)

  unfoldable pub remove : Fifo → Bool × Fifo
  unfolding contains erase index_of
  remove f =
      if contains f.items
      then (
        true,
        record { items = erase f.items; pos = pos_erase (index_of f.items) (length f.items) f.pos },
      )
      else (false, f)

-- `queueElementExists`: the iterator goes from the first element to behind the one found, or once
-- round.
module _ (same : ℕ → ℕ → Bool) (v : ℕ) where
  unfoldable pub exists : Fifo → Bool × Fifo
  unfolding contains index_of
  exists f =
      let found = contains same v f.items in
      let i = index_of same v f.items in
      let at = if found then (if i + 1 == length f.items then 0 else i + 1) else 0 in
      (found, if is_empty f.items then f else record f { pos = some at })

unfoldable pub begin : Fifo → Fifo
begin f = record f { pos = if is_empty f.items then f.pos else some 0 }

next_at : List ℕ → Option ℕ → Option ℕ × Option ℕ
next_at xs none = (none, none)
next_at xs (some i) = (get_elem? xs i, some (if i + 1 == length xs then 0 else i + 1))

unfoldable pub next : Fifo → Option ℕ × Fifo
unfolding next_at
next f = let (x, p) = next_at f.items f.pos in (x, record f { pos = p })

unfoldable pub looped : Option ℕ → Bool
looped none = false
looped (some i) = i == 0
