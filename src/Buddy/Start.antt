-- ===== src/Buddy/Start.antt =====
-- The heap that `mm_init` lays out.
use tp_so_grupo.Base.{
  ℕ, zero, suc, ◌+◌, ◌<◌, ◌≤◌, ◌≡◌, refl, sym, ap, inl, inr, subst, List, [], ◌∷◌, leb, leb→le,
  arith, set, get_or, replicate, length, length-set, Bool-cases,
}
use tp_so_grupo.Kernel.{Ptr}
use tp_so_grupo.Buddy.{
  Heap, block_size, list_of, fit_from, order_bound, init_with, mm_init, list_bytes, bytes_from,
  mm_get_stats,
}
use tp_so_grupo.Buddy.Bytes.{free_bytes, free_bytes-set}

pub get_or-replicate : (n i : ℕ) → get_or {A = List ℕ} (replicate n []) i [] ≡ []
get_or-replicate zero i = refl
get_or-replicate (suc n) zero = refl
get_or-replicate (suc n) (suc i) = get_or-replicate n i

bytes_from-replicate : (n o : ℕ) → bytes_from o (replicate n []) ≡ 0
unfolding bytes_from list_bytes
bytes_from-replicate zero o = refl
bytes_from-replicate (suc n) o = omega (arith, bytes_from-replicate n (suc o))

fit_from-fits :
    (n k total : ℕ)
    → ((m : ℕ) → k ≡ suc m → block_size m ≤ total)
    → (m : ℕ) → fit_from n k total ≡ suc m
    → (block_size m ≤ total) × (m < k + n)
unfolding fit_from
fit_from-fits zero k total below m e = (below m e, omega arith)
fit_from-fits (suc n) k total below m e = elim (Bool-cases (leb (block_size k) total)) [
  | inl h ↦
      let fits : (j : ℕ) → k + 1 ≡ suc j → block_size j ≤ total = λ j s.
        let same : j ≡ k = omega (arith, s) in
        subst (λ i. block_size i ≤ total) (sym same) (leb→le (block_size k) total h) in
      let e' : fit_from n (k + 1) total ≡ suc m = rw (fit_from, h) at e in
      let (good, low) = fit_from-fits n (k + 1) total fits m e' in (good, omega (arith, low))
  | inr h ↦ let e' : k ≡ suc m = rw (fit_from, h) at e in (below m e', omega (arith, e'))
]

-- What `mm_init` leaves: the 17 lists, all of the managed bytes free, and no more of them than it
-- was given.
abbrev pub Started : ℕ → Heap → Type 0
Started total h =
    (length h.buddy_lists ≡ 17)
    × (free_bytes h ≡ h.total_managed_bytes)
    × (h.total_managed_bytes ≤ total)

one-block :
    (lists : List (List Ptr)) (m : ℕ) (base : Ptr)
    → m < length lists
    → bytes_from 0 lists ≡ 0
    → list_of m lists ≡ []
    → bytes_from 0 (set lists m (base ∷ [])) ≡ block_size m
unfolding list_bytes
one-block lists m base h z e =
    let none_before : list_bytes (block_size m) (list_of m lists) ≡ 0 =
      ap (list_bytes (block_size m)) e in
    omega (arith, free_bytes-set lists m (base ∷ []) h, z, none_before)

init_with-Started :
    (k total : ℕ) (base : Ptr) (h : Heap)
    → ((m : ℕ) → k ≡ suc m → (block_size m ≤ total) × (m < 17))
    → Started total (init_with k base h)
unfolding init_with mm_get_stats
init_with-Started zero total base h fits = (refl, bytes_from-replicate 17 0, omega arith)
init_with-Started (suc m) total base h fits =
    let (good, low) = fits m refl in
    (
      length-set (replicate 17 []) m (base ∷ []),
      one-block (replicate 17 []) m base (omega arith) (bytes_from-replicate 17 0)
          (get_or-replicate 17 m),
      good,
    )

-- `mm_init` leaves 17 lists; the free bytes are the managed ones, and no more than the bytes given.
pub mm_init-Started : (base : Ptr) (total : ℕ) (h : Heap) → Started total (mm_init base total h)
unfolding mm_init order_bound
mm_init-Started base total h = init_with-Started (fit_from 17 0 total) total base h (λ m e.
    let (good, low) = fit_from-fits 17 0 total (λ j s. absurd (omega arith)) m e in
    (good, omega (arith, low)))
