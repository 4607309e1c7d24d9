-- ===== src/Semaphore/Lookup.antt =====
-- How `sem_open` finds a semaphore by its name.
use tp_so_grupo.Base.{
  ℕ, zero, suc, ◌+◌, ◌%◌, ◌^◌, ◌<◌, ◌≡◌, ◌≢◌, refl, sym, ap, subst, ◌∙◌, ◌⊎◌, inl, inr, false,
  Option, none, some, List, [], ◌∷◌, ◌++◌, ◌==◌, leb, if◌then◌else◌, arith, ok, chain, get_elem?,
  get_elem?-some, drop, length, ne→==, Bool-cases, Ensures, Ensures-mono, Ensures-chain,
}
use mathlib.Core.Option.{some-injective}
use tp_so_grupo.Queue.Fifo
use tp_so_grupo.Queue.Fifo.{Fifo, is_empty}
use tp_so_grupo.Strings.{Text, strlen, my_strcpy}
use tp_so_grupo.Kernel.{Ptr, null, Sem, Kernel, update}
use tp_so_grupo.Semaphore.{
  deref_sem, eq_text, locate_loop, locate_semaphore_by_name, create_sem, open_in, sem_open,
  max_sem_length,
}

-- The first semaphore of a list that has the name, else NULL.
abbrev pub first_named : (Ptr → Option Sem) → Text → List Ptr → Ptr
first_named sems name [] = null
first_named sems name (s ∷ ss) =
    if elim (sems s) [ none ↦ false | some x ↦ eq_text x.name name ]
    then s
    else first_named sems name ss

-- Every pointer of the list is to a semaphore in memory.
abbrev pub SemsLive : (Ptr → Option Sem) → List Ptr → Type 0
SemsLive sems [] = Unit {0}
SemsLive sems (s ∷ ss) = (s ≢ null) × ((x : Sem) × (sems s ≡ some x)) × SemsLive sems ss

-- Only the iterator of the registry has moved.
pub record Moved (items : List Ptr) (k k' : Kernel) : Type 0 where
  pub registry : Fifo
  pub same : registry.items ≡ items
  pub only : k' ≡ record k { registry = some registry }

-- The registry holds these semaphores.
abbrev pub Holding : List Ptr → Kernel → Type 0
Holding items k = (g : Fifo) × (k.registry ≡ some g) × (g.items ≡ items)

deref_sem-ok :
    (k : Kernel) (s : Ptr) (x : Sem) → s ≢ null → k.sems s ≡ some x → deref_sem s k ≡ ok x k
unfolding deref_sem
deref_sem-ok k s x ne at = rw (ne→== s null ne, at)

drop-all : (xs : List Ptr) (j : ℕ) → j ≡ length xs → drop j xs ≡ []
drop-all [] zero e = refl
drop-all [] (suc j) e = refl
drop-all (x ∷ xs) zero e = absurd (omega (arith, e))
drop-all (x ∷ xs) (suc j) e = drop-all xs j (omega (arith, e))

drop-get :
    (xs : List Ptr) (j : ℕ) (x : Ptr) → get_elem? xs j ≡ some x → drop j xs ≡ x ∷ drop (suc j) xs
drop-get [] j x e = ground arith
drop-get (y ∷ ys) zero x e = ap (λ z. z ∷ ys) (some-injective y x e)
drop-get (y ∷ ys) (suc j) x e = drop-get ys j x e

next-at :
    (f : Fifo) (j : ℕ) (p : Ptr)
    → f.pos ≡ some j
    → get_elem? f.items j ≡ some p
    → Fifo.next f ≡ (some p, record f { pos = some (if j + 1 == length f.items then 0 else j + 1) })
unfolding Fifo.next
next-at f j p at e = rw (at, e)

first_named-cons :
    (sems : Ptr → Option Sem) (name : Text) (p : Ptr) (ps : List Ptr) (x : Sem)
    → sems p ≡ some x
    → first_named sems name (p ∷ ps) ≡ (if eq_text x.name name then p else first_named sems name ps)
first_named-cons sems name p ps x e = rw (e, first_named)

empty-cases : (xs : List Ptr) → (xs ≡ []) ⊎ (is_empty xs ≡ false)
empty-cases [] = inl refl
empty-cases (x ∷ xs) = inr refl

module _ (name : Text) where
  locate_loop-first :
      (n j : ℕ) (f : Fifo) (k : Kernel)
      → j + n ≡ length f.items
      → (0 < n → f.pos ≡ some j)
      → SemsLive k.sems (drop j f.items)
      → Ensures
          (locate_loop name n f k)
          (λ s k'. (s ≡ first_named k.sems name (drop j f.items)) × Moved f.items k k')
  unfolding locate_loop
  locate_loop-first zero j f k e at l = (
    sym (ap (first_named k.sems name) (drop-all f.items j (omega (arith, e)))),
    record { registry = f; same = refl; only = refl },
  )
  locate_loop-first (suc n) j f k e at l =
      let (p, here) = get_elem?-some f.items j (omega arith) in
      let f' : Fifo = record f { pos = some (if j + 1 == length f.items then 0 else j + 1) } in
      let split = drop-get f.items j p here in
      let live = subst (SemsLive k.sems) split l in
      let (x, content) = live.1 in
      let next = next-at f j p (at (omega arith)) here in
      let first =
        ap (first_named k.sems name) split
        ∙ first_named-cons k.sems name p (drop (suc j) f.items) x content in
      let further : 0 < n → f'.pos ≡ some (suc j) = λ more.
        let inside : (j + 1 == length f.items) ≡ false =
          ne→== (j + 1) (length f.items) (omega (arith, e, more)) in
        rw inside (ap some (omega arith)) in
      elim (Bool-cases (eq_text x.name name)) [
        | inl same ↦
            rw
              (
                locate_loop,
                ap (λ r. r.0) next,
                ne→== p null live.0,
                deref_sem-ok k p x live.0 content,
                chain,
                same,
                ap (λ r. r.1) next,
              )
              (
                sym (
                    first
                    ∙ ap (λ b. if b then p else first_named k.sems name (drop (suc j) f.items))
                        same),
                record { registry = f'; same = refl; only = refl },
              )
        | inr other ↦
            rw
              (
                locate_loop,
                ap (λ r. r.0) next,
                ne→== p null live.0,
                deref_sem-ok k p x live.0 content,
                chain,
                other,
                ap (λ r. r.1) next,
              )
              (Ensures-mono (locate_loop name n f' k)
                (λ s k'. (s ≡ first_named k.sems name (drop (suc j) f.items)) × Moved f.items k k')
                (λ s k'. (s ≡ first_named k.sems name (drop j f.items)) × Moved f.items k k')
                (λ s k' h. (
                  h.0
                      ∙ sym (
                          first
                          ∙ ap
                              (λ b. if b then p else first_named k.sems name (drop (suc j) f.items))
                              other),
                  h.1,
                ))
                (locate_loop-first n (suc j) f' k (omega (arith, e)) further live.2))
      ]

  locate-first :
      (f : Fifo) (k : Kernel)
      → k.registry ≡ some f
      → SemsLive k.sems f.items
      → Ensures
          (locate_semaphore_by_name name f k)
          (λ s k'. (s ≡ first_named k.sems name f.items) × Moved f.items k k')
  unfolding locate_semaphore_by_name Fifo.begin
  locate-first f k r l = elim (empty-cases f.items) [
    | inl e ↦
        rw (locate_semaphore_by_name, e, is_empty)
          (refl, record { registry = f; same = e; only = ap (λ g. record k { registry = g }) r })
    | inr full ↦
        rw (locate_semaphore_by_name, full, Fifo.begin)
          (locate_loop-first (length f.items) 0 (record f { pos = some 0 }) k (omega arith)
            (λ h. refl) l)
  ]

  module _ (k : Kernel) (f : Fifo) (fresh block value : ℕ) (short : strlen name < 32)
      (r : k.registry ≡ some f) (l : SemsLive k.sems f.items) where
    -- `semOpen` of a name below 32 bytes, with a registry whose pointers are all to semaphores in
    -- memory, the first of that name at `s`: it gives `s`, which has one user more modulo 2 ^ 16,
    -- and no other semaphore and no entry of the registry changes.
    pub sem_open_existing :
        (s : Ptr) (x : Sem)
        → first_named k.sems name f.items ≡ s
        → s ≢ null
        → k.sems s ≡ some x
        → Ensures (sem_open fresh block name value k) (λ o k'.
          (o ≡ s)
          × (k'.sems ≡ update k.sems s (some (record x { users = (x.users + 1) % 2 ^ 16 })))
          × Holding f.items k')
    unfolding sem_open open_in
    sem_open_existing s x named ne at =
        let small : leb max_sem_length (strlen name) ≡ false = ground arith in
        rw (small, ap (λ g. open_in fresh block name value g k) r)
          (Ensures-chain (locate_semaphore_by_name name f k) _ _ _ (locate-first f k r l)
            (λ o k' (e, m).
              rw
                (
                  e ∙ named,
                  m.only,
                  ne→== s null ne,
                  deref_sem-ok (record k { registry = some m.registry }) s x ne at,
                  chain,
                )
                (refl, refl, (m.registry, refl, m.same))))

    -- `semOpen` of a name below 32 bytes, with the memory granted and a registry whose pointers are
    -- all to semaphores in memory, none of that name: it gives a new semaphore with that name, the
    -- value asked for, one user and nobody waiting, which is the last entry of the registry; no
    -- other semaphore changes.
    pub sem_open_new :
        first_named k.sems name f.items ≡ null
        → fresh ≢ null
        → block ≢ null
        → Ensures (sem_open fresh block name value k) (λ o k'.
          (o ≡ fresh)
          × (k'.sems
              ≡ update k.sems fresh (
                  some (record {
                    name = my_strcpy name;
                    value = value;
                    users = 1;
                    waiting = Fifo.empty;
                  })))
          × Holding (f.items ++ fresh ∷ []) k')
    unfolding sem_open open_in create_sem Fifo.push
    sem_open_new named nf nb =
        let small : leb max_sem_length (strlen name) ≡ false = ground arith in
        rw (small, ap (λ g. open_in fresh block name value g k) r)
          (Ensures-chain (locate_semaphore_by_name name f k) _ _ _ (locate-first f k r l)
            (λ o k' (e, m).
              rw (e ∙ named, m.only, create_sem, ne→== fresh null nf, ne→== block null nb)
                (
                  refl,
                  refl,
                  (Fifo.push fresh m.registry, refl, ap (λ xs. xs ++ fresh ∷ []) m.same),
                )))
