-- ===== src/Process/Reap.antt =====
-- `reap_terminated_processes` and the process table.
use tp_so_grupo.Base.{
  ℕ, zero, suc, ◌+◌, ◌<◌, ◌≤◌, ◌≡◌, ◌≢◌, refl, sym, ap, subst, ◌∙◌, inl, inr, true, false, none,
  some, ◌==◌, leb, ltb, arith, chain, set, length, length-set, get_or-set_self, get_or-set_ne,
  ne→==, ==_iff, Bool-cases, Ensures, Ensures-mono, Ensures-chain,
}
use mathlib.Core.Option.{some-injective}
use tp_so_grupo.Kernel.{Ptr, null, Process, Kernel, update, get_process, max_processes}
use tp_so_grupo.Scheduler.{is_terminated}
use tp_so_grupo.Scheduler.Levels.{deref-ok}
use tp_so_grupo.Process.{
  remove_from_process_table, free_process_resources, reap_slot, reap_from,
  reap_terminated_processes,
}

-- A slot of the table that is not NULL points to a process in memory, whose pid is the slot's index.
pub record TableOk (k : Kernel) : Type 0 where
  pub full : length k.table ≡ 64
  pub entry :
      (i : ℕ)
      → get_process i k ≢ null
      → (x : Process) × (k.procs (get_process i k) ≡ some x) × (x.pid ≡ i)

-- The slot holds no terminated process.
abbrev pub Clean : Kernel → ℕ → Type 0
Clean k i =
    get_process i k ≢ null
    → (x : Process) → k.procs (get_process i k) ≡ some x
    → is_terminated x.state ≡ false

-- The kernel after slot `i`, with the process `p`, was emptied.
abbrev reaped : ℕ → Ptr → Kernel → Kernel
reaped i p k = record k { table = set k.table i null; procs = update k.procs p none }

module _ (k : Kernel) (i : ℕ) (p : Ptr) where
  reaped_self : i < length k.table → get_process i (reaped i p k) ≡ null
  unfolding get_process
  reaped_self h = elim (Bool-cases (leb 64 i)) [
    | inl e ↦ rw e
    | inr e ↦ rw (e, get_or-set_self k.table i null null h)
  ]

  reaped_ne : (j : ℕ) → i ≢ j → get_process j (reaped i p k) ≡ get_process j k
  unfolding get_process
  reaped_ne j d = rw (get_or-set_ne k.table i j null null d)

module _ (k : Kernel) (i : ℕ) (ok_k : TableOk k) (ne : get_process i k ≢ null) where
  -- Two slots have different processes.
  apart : (j : ℕ) → i ≢ j → get_process j k ≢ null → get_process j k ≢ get_process i k
  apart j d nj same =
      let (x, at, pid) = ok_k.entry i ne in
      let (y, at', pid') = ok_k.entry j nj in
      let one : x ≡ y = some-injective x y (sym at ∙ ap k.procs (sym same) ∙ at') in
      d (sym pid ∙ ap (λ z. z.pid) one ∙ pid')

  kept :
      (j : ℕ)
      → i ≢ j
      → get_process j k ≢ null
      → (reaped i (get_process i k) k).procs (get_process j k) ≡ k.procs (get_process j k)
  kept j d nj = rw (ne→== (get_process i k) (get_process j k) (λ e. apart j d nj (sym e)))

  -- Every slot that is not NULL afterwards was so before, with the same process.
  inherited :
      (j : ℕ)
      → i < 64
      → get_process j (reaped i (get_process i k) k) ≢ null
      → (get_process j k ≢ null)
        × ((reaped i (get_process i k) k).procs (get_process j (reaped i (get_process i k) k))
            ≡ k.procs (get_process j k))
  inherited j h nj =
      let p = get_process i k in
      let d : i ≢ j = λ e. nj (
        subst (λ m. get_process m (reaped i p k) ≡ null) e
          (reaped_self k i p (omega (arith, h, ok_k.full)))) in
      let there = reaped_ne k i p j d in
      let nj' : get_process j k ≢ null = λ e. nj (there ∙ e) in
      (nj', ap (reaped i p k).procs there ∙ kept j d nj')

  reaped-TableOk : i < 64 → TableOk (reaped i (get_process i k) k)
  reaped-TableOk h = record {
    full = length-set k.table i null ∙ ok_k.full;
    entry = λ j nj.
        let (nj', same) = inherited j h nj in
        let (x, at, pid) = ok_k.entry j nj' in (x, same ∙ at, pid);
  }

  reaped-Clean : (j : ℕ) → i < 64 → Clean k j → Clean (reaped i (get_process i k) k) j
  reaped-Clean j h c nj x at = let (nj', same) = inherited j h nj in c nj' x (sym same ∙ at)

-- Every process of the table that is not terminated stays in its slot, as it is.
abbrev pub Spares : Kernel → Kernel → Type 0
Spares k k' =
    (j : ℕ)
    → get_process j k ≢ null
    → (x : Process) → k.procs (get_process j k) ≡ some x
    → is_terminated x.state ≡ false
    → (get_process j k' ≡ get_process j k) × (k'.procs (get_process j k) ≡ some x)

reaped-Spares :
    (k : Kernel) (i : ℕ) (y : Process)
    → TableOk k
    → get_process i k ≢ null
    → k.procs (get_process i k) ≡ some y
    → is_terminated y.state ≡ true
    → Spares k (reaped i (get_process i k) k)
reaped-Spares k i y well ne at dead j nj x at' alive =
    let d : i ≢ j = λ e.
      let there : k.procs (get_process i k) ≡ some x =
        ap (λ m. k.procs (get_process m k)) e ∙ at' in
      let one : y ≡ x = some-injective y x (sym at ∙ there) in
      absurd (ground (arith, ap (λ (z : Process). is_terminated z.state) one)) in
    (reaped_ne k i (get_process i k) j d, kept k i well ne j d nj ∙ at')

Spares-join : (k k' k'' : Kernel) → Spares k k' → Spares k' k'' → Spares k k''
Spares-join k k' k'' a b j nj x at alive =
    let (slot, there) = a j nj x at alive in
    let (slot', there') = b j (λ z. nj (sym slot ∙ z)) x (ap k'.procs slot ∙ there) alive in
    (slot' ∙ slot, ap k''.procs (sym slot) ∙ there')

-- What a part of the sweep leaves: the table is well formed, the slots from `i` to below `i + n` are
-- clean, and so are those that were.
pub record Swept (i n : ℕ) (k k' : Kernel) : Type 0 where
  pub well : TableOk k'
  pub clean : (j : ℕ) → i ≤ j → j < i + n → Clean k' j
  pub still : (j : ℕ) → Clean k j → Clean k' j
  pub spared : Spares k k'

one_slot : (A : ℕ → Type 0) (i j : ℕ) → i ≤ j → j < i + 1 → A i → A j
one_slot A i j h h' a = subst A (omega arith) a

reap_slot-Swept :
    (i : ℕ) (k : Kernel) → i < 64 → TableOk k → Ensures (reap_slot i k) (λ u k'. Swept i 1 k k')
unfolding reap_slot free_process_resources remove_from_process_table
reap_slot-Swept i k h well = elim (Bool-cases (get_process i k == null)) [
  | inl z ↦
      let no : get_process i k ≡ null = (==_iff (get_process i k) null).0 z in
      rw (reap_slot, z)
        (record {
          well = well;
          clean = λ j a b. one_slot (Clean k) i j a b (λ ne. absurd (ne no));
          still = λ j c. c;
          spared = λ j nj y at alive. (refl, at);
        })
  | inr z ↦
      let ne : get_process i k ≢ null = ground arith in
      let (x, at, pid) = well.entry i ne in
      let small : leb max_processes i ≡ false = ground arith in
      elim (Bool-cases (is_terminated x.state)) [
        | inl dead ↦
            rw (reap_slot, z, deref-ok k (get_process i k) x ne at, chain, dead, pid, small)
              (record {
                well = reaped-TableOk k i well ne h;
                clean = λ j a b. one_slot (Clean (reaped i (get_process i k) k)) i j a b (λ n.
                    absurd (n (reaped_self k i (get_process i k) (omega (arith, h, well.full)))));
                still = λ j. reaped-Clean k i well ne j h;
                spared = reaped-Spares k i x well ne at dead;
              })
        | inr alive ↦
            rw (reap_slot, z, deref-ok k (get_process i k) x ne at, chain, alive)
              (record {
                well = well;
                clean = λ j a b. one_slot (Clean k) i j a b (λ n y at'.
                    ap (λ v. is_terminated v.state) (some-injective y x (sym at' ∙ at)) ∙ alive);
                still = λ j c. c;
                spared = λ j nj y at' alive'. (refl, at');
              })
      ]
]

Swept-join :
    (i n : ℕ) (k k' k'' : Kernel) → Swept i 1 k k' → Swept (i + 1) n k' k'' → Swept i (suc n) k k''
Swept-join i n k k' k'' a b = record {
  well = b.well;
  clean = λ j h h'. elim (Bool-cases (j == i)) [
    | inl e ↦ b.still j (a.clean j h (omega (arith, (==_iff j i).0 e)))
    | inr d ↦ b.clean j (ground arith) (omega arith)
  ];
  still = λ j c. b.still j (a.still j c);
  spared = Spares-join k k' k'' a.spared b.spared;
}

reap_from-Swept :
    (n i : ℕ) (k : Kernel)
    → i + n ≤ 64
    → TableOk k
    → Ensures (reap_from n i k) (λ u k'. Swept i n k k')
unfolding reap_from
reap_from-Swept zero i k h well = record {
  well = well;
  clean = λ j a b. absurd (omega arith);
  still = λ j c. c;
  spared = λ j nj x at alive. (refl, at);
}
reap_from-Swept (suc n) i k h well =
    Ensures-chain (reap_slot i k) (λ u. reap_from n (i + 1)) (λ u k'. Swept i 1 k k')
      (λ u k''. Swept i (suc n) k k'') (reap_slot-Swept i k (omega arith) well)
      (λ u k' a.
        Ensures-mono (reap_from n (i + 1) k') (λ v k''. Swept (i + 1) n k' k'')
          (λ v k''. Swept i (suc n) k k'') (λ v k'' b. Swept-join i n k k' k'' a b)
          (reap_from-Swept n (i + 1) k' (omega arith) a.well))

beyond : (k : Kernel) (j : ℕ) → 64 ≤ j → get_process j k ≡ null
unfolding get_process
beyond k j h = let out : leb 64 j ≡ true = ground arith in rw out

-- On a table of 64 slots each of which is NULL or points to a process in memory with the slot's
-- index for its pid, `reap_terminated_processes` ends without a fault, leaves such a table, no slot
-- of it holds a terminated process, and every process that is not terminated stays in its slot and
-- in memory as it was.
pub reap-Clean :
    (k : Kernel)
    → TableOk k
    → Ensures
        (reap_terminated_processes k)
        (λ u k'. TableOk k' × ((j : ℕ) → Clean k' j) × Spares k k')
unfolding reap_terminated_processes
reap-Clean k well =
    Ensures-mono (reap_from 64 0 k) (λ u k'. Swept 0 64 k k')
      (λ u k'. TableOk k' × ((j : ℕ) → Clean k' j) × Spares k k')
      (λ u k' s. (
        s.well,
        λ j. elim (Bool-cases (ltb j 64)) [
          | inl low ↦ s.clean j (omega arith) (ground arith)
          | inr high ↦ λ ne. absurd (ne (beyond k' j (ground arith)))
        ],
        s.spared,
      ))
      (reap_from-Swept 64 0 k (omega arith) well)
