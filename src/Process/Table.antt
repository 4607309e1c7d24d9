-- ===== src/Process/Table.antt =====
-- The process table: which slot a new process gets.
use tp_so_grupo.Base.{
  ℕ, zero, suc, ◌+◌, ◌<◌, ◌≡◌, ◌≢◌, refl, sym, ap, ◌∙◌, ◌⊎◌, inl, inr, Bool, true, false, Option,
  none, some, List, [], ◌∷◌, ◌==◌, arith, chain, get_elem?, eq→==, ==_iff, Bool-cases, Ensures,
  Ensures-mono,
}
use tp_so_grupo.Kernel.{Ptr, null, Process, Kernel}
use tp_so_grupo.Scheduler.{is_terminated}
use tp_so_grupo.Scheduler.Levels.{deref-ok}
use tp_so_grupo.Process.{assign_from, assign_pid}

-- Every slot is NULL or points to a process in memory.
abbrev pub Slots : (Ptr → Option Process) → List Ptr → Type 0
Slots procs [] = Unit {0}
Slots procs (p ∷ ps) = ((p ≡ null) ⊎ ((x : Process) × (procs p ≡ some x))) × Slots procs ps

-- A slot for a new process: NULL, or with a terminated process.
abbrev pub Free : (Ptr → Option Process) → Option Ptr → Type 0
Free procs none = ⊥
Free procs (some p) =
    (p ≡ null) ⊎ ((x : Process) × (procs p ≡ some x) × (is_terminated x.state ≡ true))

-- Where the search that started at `i` ended: at a free slot with no free slot before it, or behind
-- a table without one.
abbrev pub Assigned : (Ptr → Option Process) → List Ptr → ℕ → Option ℕ → Type 0
Assigned procs table i none = (j : ℕ) → ¬ Free procs (get_elem? table j)
Assigned procs table i (some n) =
    (d : ℕ) × (n ≡ i + d)
    × Free procs (get_elem? table d)
    × ((j : ℕ) → j < d → ¬ Free procs (get_elem? table j))

module _ (procs : Ptr → Option Process) (p : Ptr) (ps : List Ptr)
    (used : ¬ Free procs (some p)) where
  none_free :
      ((j : ℕ) → ¬ Free procs (get_elem? ps j)) → (j : ℕ) → ¬ Free procs (get_elem? (p ∷ ps) j)
  none_free rest zero = used
  none_free rest (suc j) = rest j

  none_free_before :
      (d : ℕ)
      → ((j : ℕ) → j < d → ¬ Free procs (get_elem? ps j))
      → (j : ℕ) → j < suc d
      → ¬ Free procs (get_elem? (p ∷ ps) j)
  none_free_before d rest zero h = used
  none_free_before d rest (suc j) h = rest j (omega arith)

  Assigned-cons : (i : ℕ) (o : Option ℕ) → Assigned procs ps (i + 1) o → Assigned procs (p ∷ ps) i o
  Assigned-cons i none a = none_free a
  Assigned-cons i (some n) (d, e, free, before) =
      (suc d, omega (arith, e), free, none_free_before d before)

none_before : (P : ℕ → Type 0) (j : ℕ) → j < 0 → P j
none_before P j h = absurd (omega arith)

Assigned-here :
    (procs : Ptr → Option Process) (p : Ptr) (ps : List Ptr) (i : ℕ)
    → Free procs (some p)
    → Assigned procs (p ∷ ps) i (some i)
Assigned-here procs p ps i free =
    (0, omega arith, free, none_before (λ j. ¬ Free procs (get_elem? (p ∷ ps) j)))

ended : Option Process → Bool
ended none = false
ended (some x) = is_terminated x.state

-- A slot whose process runs on is not free.
used :
    (procs : Ptr → Option Process) (p : Ptr) (x : Process)
    → p ≢ null
    → procs p ≡ some x
    → is_terminated x.state ≡ false
    → ¬ Free procs (some p)
unfolding ended
used procs p x ne at alive (inl e) = ne e
used procs p x ne at alive (inr (y, at', dead)) =
    let clash : false ≡ true = sym alive ∙ ap ended (sym at ∙ at') ∙ dead in ground arith

assign_from-Assigned :
    (ps : List Ptr) (i : ℕ) (k : Kernel)
    → Slots k.procs ps
    → Ensures (assign_from i ps k) (λ o k'. (k' ≡ k) × Assigned k.procs ps i o)
unfolding assign_from
assign_from-Assigned [] i k s = (refl, λ j h. h)
assign_from-Assigned (p ∷ ps) i k (inl e, s) =
    rw (assign_from, eq→== p null e) (refl, Assigned-here k.procs p ps i (inl e))
assign_from-Assigned (p ∷ ps) i k (inr (x, at), s) = elim (Bool-cases (p == null)) [
  | inl e ↦ rw (assign_from, e) (refl, Assigned-here k.procs p ps i (inl ((==_iff p null).0 e)))
  | inr n ↦
      let ne : p ≢ null = ground arith in
      elim (Bool-cases (is_terminated x.state)) [
        | inl dead ↦
            rw (assign_from, n, deref-ok k p x ne at, chain, dead)
              (refl, Assigned-here k.procs p ps i (inr (x, at, dead)))
        | inr alive ↦
            rw (assign_from, n, deref-ok k p x ne at, chain, alive)
              (Ensures-mono (assign_from (i + 1) ps k)
                (λ o k'. (k' ≡ k) × Assigned k.procs ps (i + 1) o)
                (λ o k'. (k' ≡ k) × Assigned k.procs (p ∷ ps) i o)
                (λ o k' h. (h.0, Assigned-cons k.procs p ps (used k.procs p x ne at alive) i o h.1))
                (assign_from-Assigned ps (i + 1) k s))
      ]
]

-- With a table whose slots are NULL or point to processes in memory, `assign_pid` ends without a
-- fault, changes nothing, and gives the first slot that is NULL or holds a terminated process; -1
-- only if there is no such slot.
pub assign_pid-Assigned :
    (k : Kernel)
    → Slots k.procs k.table
    → Ensures (assign_pid k) (λ o k'. (k' ≡ k) × Assigned k.procs k.table 0 o)
unfolding assign_pid
assign_pid-Assigned k s = assign_from-Assigned k.table 0 k s
