-- ===== src/Scheduler/Schedule/Pick.antt =====
-- Which process `schedule` runs next.
use mathlib.Core.Option.{some-injective}
use tp_so_grupo.Base.{
  ℕ, zero, suc, ◌<◌, ◌≤◌, ◌≡◌, refl, sym, ap, ◌∙◌, inl, inr, Bool, true, false, not, ◌&&◌, Option,
  none, some, List, [], ◌∷◌, ◌==◌, if◌then◌else◌, arith, chain, get_elem?, set, length, Bool-cases,
  Ensures, Ensures-mono,
}
use tp_so_grupo.Queue.Fifo
use tp_so_grupo.Queue.Fifo.{Fifo, is_empty}
use tp_so_grupo.Kernel.{Ptr, null, Process, Kernel}
use tp_so_grupo.Scheduler.Levels.{
  HasLevels, Live, deref-ok, put, get-put_self, put-HasLevels, set_priority_queue-eq,
}
use tp_so_grupo.Scheduler.{get_priority_queue, is_ready, is_terminated}
use tp_so_grupo.Scheduler.Schedule.{take_loop}

module _ (procs : Ptr → Option Process) (idle : Ptr) where
  -- A process that may run: ready, and not the idle one.
  abbrev pub eligible : Ptr → Bool
  eligible p = elim (procs p) [ none ↦ false | some x ↦ is_ready x.state && not (p == idle) ]

  -- The first process of a list that may run, else NULL; and what stands behind it.
  abbrev pub first_eligible : List Ptr → Ptr
  first_eligible [] = null
  first_eligible (p ∷ ps) = if eligible p then p else first_eligible ps

  abbrev pub behind_eligible : List Ptr → List Ptr
  behind_eligible [] = []
  behind_eligible (p ∷ ps) = if eligible p then ps else behind_eligible ps

  eligible-eq :
      (p : Ptr) (x : Process)
      → procs p ≡ some x
      → eligible p ≡ (is_ready x.state && not (p == idle))
  eligible-eq p x e = rw (e, eligible)

  pub first-hit : (p : Ptr) (ps : List Ptr) → eligible p ≡ true → first_eligible (p ∷ ps) ≡ p
  first-hit p ps e = ap (λ b. if b then p else first_eligible ps) e

  pub first-miss :
      (p : Ptr) (ps : List Ptr) → eligible p ≡ false → first_eligible (p ∷ ps) ≡ first_eligible ps
  first-miss p ps e = ap (λ b. if b then p else first_eligible ps) e

  behind-hit : (p : Ptr) (ps : List Ptr) → eligible p ≡ true → behind_eligible (p ∷ ps) ≡ ps
  behind-hit p ps e = ap (λ b. if b then ps else behind_eligible ps) e

  behind-miss :
      (p : Ptr) (ps : List Ptr) → eligible p ≡ false → behind_eligible (p ∷ ps) ≡ behind_eligible ps
  behind-miss p ps e = ap (λ b. if b then ps else behind_eligible ps) e

-- Of the whole state only the queue of level `i` has changed, to one that holds `ps`.
pub record Took (i : ℕ) (ps : List Ptr) (k k' : Kernel) : Type 0 where
  pub queue : Fifo
  pub holds : queue.items ≡ ps
  pub only : k' ≡ put i queue k

pop-items :
    (f : Fifo) (p : Ptr) (ps : List Ptr)
    → f.items ≡ p ∷ ps
    → ((Fifo.pop f).0 ≡ some p) × ((Fifo.pop f).1.items ≡ ps)
unfolding Fifo.pop
pop-items f p ps e = rw e (refl, refl)

pop-empty : (f : Fifo) → f.items ≡ [] → (Fifo.pop f).0 ≡ none
unfolding Fifo.pop
pop-empty f e = rw e

set-set {ℓ} : {A : Type ℓ} (xs : List A) (i : ℕ) (a b : A) → set (set xs i a) i b ≡ set xs i b
set-set [] i a b = refl
set-set (x ∷ xs) zero a b = refl
set-set (x ∷ xs) (suc i) a b = ap (λ l. x ∷ l) (set-set xs i a b)

set-get_self {ℓ} :
    {A : Type ℓ} (xs : List A) (i : ℕ) (a : A) → get_elem? xs i ≡ some a → set xs i a ≡ xs
set-get_self [] i a e = refl
set-get_self (x ∷ xs) zero a e = ap (λ y. y ∷ xs) (sym (some-injective x a e))
set-get_self (x ∷ xs) (suc i) a e = ap (λ l. x ∷ l) (set-get_self xs i a e)

get-level_some :
    (k : Kernel) (i : ℕ) (f : Fifo)
    → get_priority_queue i k ≡ some f
    → get_elem? k.queues i ≡ some (some f)
unfolding get_priority_queue
get-level_some k i f e = ground arith

Took-same :
    (i : ℕ) (k : Kernel) (f : Fifo) {ps : List Ptr}
    → get_priority_queue i k ≡ some f
    → f.items ≡ ps
    → Took i ps k k
Took-same i k f e q = record {
  queue = f;
  holds = q;
  only =
      ap (λ (l : List (Option Fifo)). record k { queues = l })
        (sym (set-get_self k.queues i (some f) (get-level_some k i f e)));
}

Took-put :
    (i : ℕ) (f : Fifo) (k k' : Kernel) {ps qs : List Ptr}
    → ps ≡ qs
    → Took i ps (put i f k) k'
    → Took i qs k k'
Took-put i f k k' e t = record {
  queue = t.queue;
  holds = t.holds ∙ e;
  only =
      t.only
      ∙ ap (λ (l : List (Option Fifo)). record k { queues = l })
          (set-set k.queues i (some f) (some t.queue));
}

skip_test :
    (x : Process) (b : Bool)
    → (not (is_terminated x.state) && (is_ready x.state && b)) ≡ (is_ready x.state && b)
skip_test x b = ground arith

module _ (i : ℕ) (low : i ≤ 3) where
  pub take_loop-first :
      (n : ℕ) (k : Kernel) (f : Fifo) (ps : List Ptr)
      → length ps < n
      → HasLevels k
      → get_priority_queue i k ≡ some f
      → f.items ≡ ps
      → Live k.procs ps
      → Ensures (take_loop n i f k) (λ p k'.
        (p ≡ first_eligible k.procs k.idle_proc ps)
        × Took i (behind_eligible k.procs k.idle_proc ps) k k')
  unfolding take_loop
  take_loop-first zero k f ps h lv e q l = absurd (omega arith)
  take_loop-first (suc n) k f [] h lv e q l =
      rw (pop-empty f q, Ensures) (refl, Took-same i k f e q)
  take_loop-first (suc n) k f (p ∷ ps) h lv e q (ne, (x, at), l) =
      let (got, left) = pop-items f p ps q in
      let k' = put i (Fifo.pop f).1 k in
      rw
        (
          got,
          Ensures,
          set_priority_queue-eq k i (Fifo.pop f).1 low lv,
          deref-ok k' p x ne at,
          chain,
          skip_test x (not (p == k.idle_proc)),
        )
        (elim (Bool-cases (is_ready x.state && not (p == k.idle_proc))) [
          | inl y ↦
              let hit = eligible-eq k.procs k.idle_proc p x at ∙ y in
              rw y (
                sym (first-hit k.procs k.idle_proc p ps hit),
                record {
                  queue = (Fifo.pop f).1;
                  holds = left ∙ sym (behind-hit k.procs k.idle_proc p ps hit);
                  only = refl;
                },
              )
          | inr y ↦
              let miss = eligible-eq k.procs k.idle_proc p x at ∙ y in
              rw y (
                Ensures-mono (take_loop n i (Fifo.pop f).1 k') _ _
                  (λ p' k'' (same, t). (
                    same ∙ sym (first-miss k.procs k.idle_proc p ps miss),
                    Took-put i (Fifo.pop f).1 k k''
                        (sym (behind-miss k.procs k.idle_proc p ps miss)) t,
                  ))
                  (take_loop-first n k' (Fifo.pop f).1 ps (omega arith)
                    (put-HasLevels k i (Fifo.pop f).1 low lv)
                    (get-put_self k i (Fifo.pop f).1 low lv) left l))
        ])
