-- ===== src/Scheduler/Schedule/Choose.antt =====
-- The choice among the levels: TP2-SO-2025/Kernel/scheduler.c, the loop of `schedule` over the
-- priorities.

use tp_so_grupo.Base.{
  ℕ, zero, suc, ◌+◌, ◌<◌, ◌≤◌, ◌≡◌, ◌≢◌, refl, sym, ap, ap₂, ◌∙◌, inl, inr, Option, List, [], ◌∷◌,
  ◌++◌, ◌==◌, subst, if◌then◌else◌, arith, pure, length, ne→==, Bool-cases, Ensures, Ensures-mono,
  Ensures-chain,
}
use tp_so_grupo.Queue.Fifo.{Fifo}
use tp_so_grupo.Kernel.{Ptr, null, Process, Kernel}
use tp_so_grupo.Scheduler.Levels.{
  HasQueues, items_of, items_at, Live, put, get-put_ne, put-HasQueues, get-level,
}
use tp_so_grupo.Scheduler.Schedule.{take_queue, take_level, choose}
use tp_so_grupo.Scheduler.Schedule.Pick.{
  eligible, first_eligible, behind_eligible, Took, take_loop-first,
}

-- The levels from `i` down, in the order in which the scheduler serves them.
abbrev pub levels_down : ℕ → Kernel → List Ptr
levels_down zero k = items_at 0 k
levels_down (suc i) k = items_at (suc i) k ++ levels_down i k

Live-append :
    (procs : Ptr → Option Process) (ps qs : List Ptr)
    → Live procs (ps ++ qs)
    → Live procs ps × Live procs qs
Live-append procs [] qs l = (tt, l)
Live-append procs (p ∷ ps) qs l = let (a, b) = Live-append procs ps qs l.2 in ((l.0, l.1, a), b)

first_eligible-append :
    (procs : Ptr → Option Process) (idle : Ptr) (ps qs : List Ptr)
    → Live procs ps
    → first_eligible procs idle (ps ++ qs) ≡ (
        if first_eligible procs idle ps == null
        then first_eligible procs idle qs
        else first_eligible procs idle ps)
first_eligible-append procs idle [] qs l = refl
first_eligible-append procs idle (p ∷ ps) qs l = elim (Bool-cases (eligible procs idle p)) [
  | inl y ↦ rw (y, ne→== p null l.0)
  | inr n ↦ rw n (first_eligible-append procs idle ps qs l.2)
]

module _ (i : ℕ) (low : i ≤ 3) where
  take_level-first :
      (k : Kernel)
      → HasQueues k
      → Live k.procs (items_at i k)
      → Ensures (take_level i k) (λ p k'.
        (p ≡ first_eligible k.procs k.idle_proc (items_at i k))
        × Took i (behind_eligible k.procs k.idle_proc (items_at i k)) k k')
  unfolding take_level take_queue
  take_level-first k lv l =
      let (f, e) = get-level k i low lv in
      rw e (
        take_loop-first i low (length f.items + 1) k f f.items (omega arith) lv.0 e refl
          (subst (λ o. Live k.procs (items_of o)) e l))

items_at-put_ne :
    (k : Kernel) (i j : ℕ) (f : Fifo)
    → i ≤ 3
    → HasQueues k
    → i ≢ j
    → items_at j (put i f k) ≡ items_at j k
items_at-put_ne k i j f low lv d = ap items_of (get-put_ne k i f low lv.0 j d)

levels_down-put :
    (i j : ℕ) (f : Fifo) (k : Kernel)
    → i ≤ 3
    → HasQueues k
    → j < i
    → levels_down j (put i f k) ≡ levels_down j k
levels_down-put i zero f k low lv h = items_at-put_ne k i 0 f low lv (omega arith)
levels_down-put i (suc j) f k low lv h =
    ap₂ ◌++◌ (items_at-put_ne k i (suc j) f low lv (omega arith))
      (levels_down-put i j f k low lv (omega arith))

-- Only the priority queues have changed, and there are still four.
pub record OnlyQueues (k k' : Kernel) : Type 0 where
  pub only : k' ≡ record k { queues = k'.queues }
  pub levels : HasQueues k'

Took-OnlyQueues :
    (i : ℕ) (k k' : Kernel) {ps : List Ptr} → HasQueues k → i ≤ 3 → Took i ps k k' → OnlyQueues k k'
Took-OnlyQueues i k k' lv low t = record {
  only =
      t.only
      ∙ ap (λ (l : List (Option Fifo)). record k { queues = l })
          (sym (ap (λ (x : Kernel). x.queues) t.only));
  levels = subst HasQueues (sym t.only) (put-HasQueues k i t.queue low lv);
}

Chooses : ℕ → Kernel → Type 0
Chooses i k =
    Ensures (choose i k)
      (λ p k'. (p ≡ first_eligible k.procs k.idle_proc (levels_down i k)) × OnlyQueues k k')

-- The choice goes on below a level that gave `p` and keeps the queue `q`.
choose_below :
    (i : ℕ) (k : Kernel) (p : Ptr) (q : Fifo)
    → suc i ≤ 3
    → HasQueues k
    → Live k.procs (levels_down (suc i) k)
    → p ≡ first_eligible k.procs k.idle_proc (items_at (suc i) k)
    → Chooses i (put (suc i) q k)
    → Ensures
        ((if p == null then choose i else pure p) (put (suc i) q k))
        (λ r k'. (r ≡ first_eligible k.procs k.idle_proc (levels_down (suc i) k)) × OnlyQueues k k')
unfolding Chooses
choose_below i k p q low lv l e below =
    let all =
      first_eligible-append k.procs k.idle_proc (items_at (suc i) k) (levels_down i k)
        (Live-append k.procs (items_at (suc i) k) (levels_down i k) l).0 in
    elim (Bool-cases (p == null)) [
      | inl n ↦
          let none_up = ap (λ r. r == null) (sym e) ∙ n in
          let found =
            all
            ∙ ap
                (λ b.
                  if b
                  then first_eligible k.procs k.idle_proc (levels_down i k)
                  else first_eligible k.procs k.idle_proc (items_at (suc i) k))
                none_up in
          rw n (
            Ensures-mono (choose i (put (suc i) q k)) _ _
              (λ r k' (same, o). (
                same
                    ∙ ap (first_eligible k.procs k.idle_proc)
                        (levels_down-put (suc i) i q k low lv (omega arith))
                    ∙ sym found,
                record { only = o.only; levels = o.levels },
              ))
              below)
      | inr y ↦
          let some_up = ap (λ r. r == null) (sym e) ∙ y in
          let found =
            all
            ∙ ap
                (λ b.
                  if b
                  then first_eligible k.procs k.idle_proc (levels_down i k)
                  else first_eligible k.procs k.idle_proc (items_at (suc i) k))
                some_up in
          rw y (e ∙ sym found, record { only = refl; levels = put-HasQueues k (suc i) q low lv })
    ]

-- On a kernel with its four queues, whose queued pointers of the levels from `i` (at most 3) down
-- are all to processes in memory, the choice among these levels ends without a fault, gives the
-- first ready process but idle in the order of the levels from `i` down, NULL if there is none, and
-- changes nothing but the queues.
pub choose-first :
    (i : ℕ) (k : Kernel)
    → i ≤ 3
    → HasQueues k
    → Live k.procs (levels_down i k)
    → Ensures
        (choose i k)
        (λ p k'. (p ≡ first_eligible k.procs k.idle_proc (levels_down i k)) × OnlyQueues k k')
unfolding choose Chooses
choose-first zero k low lv l =
    Ensures-mono (take_level 0 k) _ _ (λ p k' (e, t). (e, Took-OnlyQueues 0 k k' lv low t))
      (take_level-first 0 low k lv l)
choose-first (suc i) k low lv l =
    let up = Live-append k.procs (items_at (suc i) k) (levels_down i k) l in
    Ensures-chain (take_level (suc i) k) _ _ _ (take_level-first (suc i) low k lv up.0)
      (λ p k' (e, t). rw t.only (
        choose_below i k p t.queue low lv l e (
          choose-first i (put (suc i) t.queue k) (omega arith)
            (put-HasQueues k (suc i) t.queue low lv)
            (subst (Live k.procs) (sym (levels_down-put (suc i) i t.queue k low lv (omega arith)))
              up.1))))
