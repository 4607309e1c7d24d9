-- ===== src/FirstFit/Release.antt =====
-- mm_free of TP2-SO-2025/Kernel/memory/first_fit_mm.c: its loop ends, and the block is counted as free.
use tp_so_grupo.Base.{
  ℕ, ◌-◌, ◌+◌, ◌*◌, ◌^◌, ◌≡◌, ◌≤◌, ◌<◌, refl, sym, ap, subst, List, [], ◌∷◌, some, length, arith,
}
use tp_so_grupo.FirstFit.{unit_size, Header, FreeList, find_place, put_back, mm_free}
use tp_so_grupo.FirstFit.Accounting.{units_of, bases, IsCounted}
use tp_so_grupo.FirstFit.Insertion.{Turned, find_place-Turned, Returned, put_back-Returned}
use tp_so_grupo.FirstFit.Place.{IsOutside, find_place-Ends}

no_base : 1 ≤ bases [] → ⊥
no_base h = omega arith

release :
    (fuel bp : ℕ) (circle : List Header) (h : FreeList)
    → circle ≡ h.circle
    → IsCounted h
    → IsOutside bp circle
    → length circle ≤ fuel
    → h.free_mem_size + h.block_size bp * unit_size < 2 ^ 64
    → Returned (h.block_size bp) h (put_back bp (find_place fuel bp circle) h)
release fuel bp [] h e v o l b = absurd (no_base (subst (λ c. 1 ≤ bases c) (sym e) v.based))
release fuel bp (x ∷ xs) h e v o l b =
    let (p, ps, found) = find_place-Ends fuel bp x xs o l in
    let turned = find_place-Turned fuel bp h.circle (x ∷ xs) (ap units_of e) (ap bases e) in
    subst (λ r. Returned (h.block_size bp) h (put_back bp r h)) (sym found)
      (put_back-Returned bp h p ps v b (subst (Turned h.circle) found turned))

-- On a heap whose count of free bytes is that of its circle of free headers, below 2 ^ 64, and
-- whose circle has a header without units, the loop of `mm_free` ends within as many rounds as the
-- circle has headers for every block whose header is not in it, however the circle is ordered; the
-- count of free bytes then goes up by the block and is that of the circle again, if it stays below
-- 2 ^ 64.
pub mm_free-Returned :
    (fuel ap : ℕ) (h : FreeList)
    → IsCounted h
    → IsOutside (ap - unit_size) h.circle
    → length h.circle ≤ fuel
    → h.free_mem_size + h.block_size (ap - unit_size) * unit_size < 2 ^ 64
    → Returned (h.block_size (ap - unit_size)) h (mm_free fuel (some ap) h)
unfolding mm_free
mm_free-Returned fuel ap h v o l b = release fuel (ap - unit_size) h.circle h refl v o l b
