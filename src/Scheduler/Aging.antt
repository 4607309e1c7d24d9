-- ===== src/Scheduler/Aging.antt =====
-- `apply_aging` over a queue that holds no ready process.
use mathlib.Core.Option.{some-injective}
use tp_so_grupo.Base.{
  subst, ℕ, zero, suc, ◌+◌, ◌<◌, ◌≤◌, ◌≡◌, ◌≢◌, refl, false, Option, some, List, [], ◌∷◌, ◌==◌,
  if◌then◌else◌, arith, ok, out_of_fuel, chain, get_elem?, get_elem?-some, length, ne→==,
}
use tp_so_grupo.Queue.Fifo
use tp_so_grupo.Queue.Fifo.{Fifo, is_empty}
use tp_so_grupo.Kernel.{Ptr, null, Process, Kernel}
use tp_so_grupo.Scheduler.Levels.{
  HasLevels, deref-ok, put, get-put_self, put-HasLevels, set_priority_queue-eq,
}
use tp_so_grupo.Scheduler.{
  get_priority_queue, is_ready, age_step, next_in, age_loop, age_queue, age_level,
}

-- A process in memory that is not ready.
abbrev Stale : (Ptr → Option Process) → Ptr → Type 0
Stale procs p = (p ≢ null) × ((x : Process) × (procs p ≡ some x) × (is_ready x.state ≡ false))

abbrev pub AllStale : (Ptr → Option Process) → List Ptr → Type 0
AllStale procs [] = Unit {0}
AllStale procs (p ∷ ps) = Stale procs p × AllStale procs ps

Stale-at :
    (procs : Ptr → Option Process) (ps : List Ptr) (j : ℕ) (p : Ptr)
    → AllStale procs ps
    → get_elem? ps j ≡ some p
    → Stale procs p
Stale-at procs [] j p s e = cc
Stale-at procs (q ∷ ps) zero p s e = subst (Stale procs) (some-injective q p e) s.0
Stale-at procs (q ∷ ps) (suc j) p s e = Stale-at procs ps j p s.1 e

age_step-Stale : (i : ℕ) (p : Ptr) (k : Kernel) → Stale k.procs p → age_step i p k ≡ ok false k
unfolding age_step
age_step-Stale i p k (ne, (x, at, old)) = rw (deref-ok k p x ne at, chain, old)

next-at :
    (f : Fifo) (j : ℕ)
    → f.pos ≡ some j
    → Fifo.next f ≡ (
      get_elem? f.items j,
      record f { pos = some (if j + 1 == length f.items then 0 else j + 1) },
    )
unfolding Fifo.next
next-at f j e = rw e

is_empty_of_ne : (xs : List Ptr) → xs ≢ [] → (is_empty xs ≡ false) × (0 < length xs)
is_empty_of_ne [] ne = absurd (ne refl)
is_empty_of_ne (x ∷ xs) ne = (refl, omega arith)

begin-full : (f : Fifo) → is_empty f.items ≡ false → Fifo.begin f ≡ record f { pos = some 0 }
unfolding Fifo.begin
begin-full f e = rw e

module _ (i : ℕ) (low : i ≤ 3) where
  -- One round: the iterator goes on within the queue, and the loop goes round again.
  age_loop-hangs :
      (n : ℕ) (k : Kernel) (f : Fifo) (j : ℕ)
      → HasLevels k
      → get_priority_queue i k ≡ some f
      → f.pos ≡ some j
      → j < length f.items
      → AllStale k.procs f.items
      → age_loop n i k ≡ out_of_fuel
  unfolding age_loop
  age_loop-hangs zero k f j lv e at h s = refl
  age_loop-hangs (suc n) k f j lv e at h s =
      let (p, here) = get_elem?-some f.items j h in
      let stale = Stale-at k.procs f.items j p s here in
      let f' : Fifo = record f { pos = some (if j + 1 == length f.items then 0 else j + 1) } in
      rw
        (
          e,
          next_in,
          next-at f j at,
          chain,
          set_priority_queue-eq k i f' low lv,
          here,
          ne→== p null stale.0,
          age_step-Stale i p (put i f' k) stale,
          chain,
        )
        (age_loop-hangs n (put i f' k) f' (if j + 1 == length f.items then 0 else j + 1)
          (put-HasLevels k i f' low lv) (get-put_self k i f' low lv) refl (ground arith) s)

-- When the queue of a level up to 2 is there and not empty, and has only pointers to processes in
-- memory that are not ready, the aging of that level uses up any fuel.
pub aging_hangs :
    (fuel i : ℕ) (k : Kernel) (f : Fifo)
    → i ≤ 2
    → HasLevels k
    → get_priority_queue i k ≡ some f
    → f.items ≢ []
    → AllStale k.procs f.items
    → age_level fuel i k ≡ out_of_fuel
unfolding age_level age_queue
aging_hangs fuel i k f low lv e ne s =
    let (full, long) = is_empty_of_ne f.items ne in
    let f' : Fifo = record f { pos = some 0 } in
    rw (e, full, begin-full f full, set_priority_queue-eq k i f' (omega arith) lv)
      (age_loop-hangs i (omega arith) fuel (put i f' k) f' 0 (put-HasLevels k i f' (omega arith) lv)
        (get-put_self k i f' (omega arith) lv) refl long s)
