-- ===== src/Process/Tests.antt =====
-- TP2-SO-2025/Kernel/process.c on the kernel of four processes.
use tp_so_grupo.Base.{
  ℕ, zero, suc, ◌≡◌, ◌≢◌, refl, ap, inl, inr, true, some, [], ◌∷◌, leb, arith, Ensures, ok, chain,
  replicate, get_or, length-replicate, Bool-cases,
}
use tp_so_grupo.Process.Reap.{TableOk, Clean, Spares, reap-Clean}
use tp_so_grupo.Strings.{Text}
use tp_so_grupo.Kernel.{
  null, ready, running, blocked, terminated, Process, Kernel, update, get_process,
}
use tp_so_grupo.Scheduler.{get_priority_queue}
use tp_so_grupo.Scheduler.Schedule.{block_process}
use tp_so_grupo.Scheduler.Tests.{process, four, holding, system}
use tp_so_grupo.Process.{
  set_priority, assign_pid, reap_terminated_processes, build_wait_semaphore_name,
}
use tp_so_grupo.Process.Priority.{priority_strands}
use tp_so_grupo.Process.Table.{Assigned, assign_pid-Assigned}
use tp_so_grupo.Process.Names.{wait_names_differ}

strands_example :
    Ensures
      (chain (set_priority 2 0 system) (λ _. block_process (get_process 2 system)))
      (λ done k'. (done ≡ true) × (get_priority_queue 2 k' ≡ get_priority_queue 2 system))
unfolding get_process get_priority_queue
strands_example =
    priority_strands system 2 0 (process 2 ready 2) 2 (holding []) (λ e. ground arith)
      (λ e. ground arith) refl (inl refl) (λ e. ground arith) (λ e. ground arith) (ground arith)
      refl refl tt

assign_example :
    Ensures (assign_pid system) (λ o k'. (k' ≡ system) × Assigned four (10 ∷ 11 ∷ 12 ∷ 13 ∷ []) 0 o)
assign_example = assign_pid-Assigned system (
  inr (process 0 running 0, refl),
  (
    inr (process 1 ready 3, refl),
    (inr (process 2 ready 2, refl), (inr (process 3 blocked 1, refl), tt)),
  ),
)

names_example :
    (s : Text) × (t : Text) × (build_wait_semaphore_name 7 system
      ≡ ok (some s) (record system { memory = true ∷ [] }))
    × (build_wait_semaphore_name 12 system ≡ ok (some t) (record system { memory = true ∷ [] }))
    × (s ≢ t)
names_example =
    wait_names_differ 7 12 system system (true ∷ []) (true ∷ []) (ground arith) (ground arith)
      (λ e. ground arith) refl refl

-- The same with a table of 64 slots, where the process at 13 has ended.
abbrev full_system : Kernel
full_system = record system {
  procs = update four 13 (some (process 3 terminated 1));
  table = 10 ∷ 11 ∷ 12 ∷ 13 ∷ replicate 60 0;
}

get_or-replicate : (n i : ℕ) → get_or {A = ℕ} (replicate n null) i null ≡ null
get_or-replicate zero i = refl
get_or-replicate (suc n) zero = refl
get_or-replicate (suc n) (suc i) = get_or-replicate n i

full-beyond : (i : ℕ) → get_process (suc (suc (suc (suc i)))) full_system ≡ null
unfolding get_process
full-beyond i = elim (Bool-cases (leb 64 (suc (suc (suc (suc i)))))) [
  | inl e ↦ rw e
  | inr e ↦ rw e (get_or-replicate 60 i)
]

full-entry :
    (i : ℕ)
    → get_process i full_system ≢ null
    → (x : Process) × (full_system.procs (get_process i full_system) ≡ some x) × (x.pid ≡ i)
unfolding get_process
full-entry zero ne = (process 0 running 0, refl, refl)
full-entry (suc zero) ne = (process 1 ready 3, refl, refl)
full-entry (suc (suc zero)) ne = (process 2 ready 2, refl, refl)
full-entry (suc (suc (suc zero))) ne = (process 3 terminated 1, refl, refl)
full-entry (suc (suc (suc (suc i)))) ne = absurd (ne (full-beyond i))

full-TableOk : TableOk full_system
full-TableOk = record {
  full = ap (λ n. suc (suc (suc (suc n)))) (length-replicate {A = ℕ} 60 0);
  entry = full-entry;
}

reap_example :
    Ensures
      (reap_terminated_processes full_system)
      (λ u k'. TableOk k' × ((j : ℕ) → Clean k' j) × Spares full_system k')
reap_example = reap-Clean full_system full-TableOk
