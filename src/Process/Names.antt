-- ===== src/Process/Names.antt =====
-- The names of the wait semaphores of TP2-SO-2025/Kernel/process.c.
use tp_so_grupo.Base.{
  ℕ, ◌<◌, ◌≡◌, ◌≢◌, refl, sym, ap, ◌∙◌, Bool, true, false, some, List, ◌∷◌, drop, leb, arith, ok,
  chain,
}
use tp_so_grupo.Strings.{Text, catenate, my_strcpy}
use tp_so_grupo.Strings.Decimal.{number, num_to_str-number, my_strcpy_self}
use tp_so_grupo.Kernel.{Kernel, ask-granted}
use tp_so_grupo.Process.{name_of_digits, build_wait_semaphore_name}

wait-number :
    (p : ℕ) (k : Kernel) (rest : List Bool)
    → p < 64
    → k.memory ≡ true ∷ true ∷ rest
    → (s : Text) × (build_wait_semaphore_name p k ≡ ok (some s) (record k { memory = rest }))
      × (number (drop 5 s) ≡ p)
unfolding build_wait_semaphore_name name_of_digits catenate my_strcpy
wait-number p k rest h granted =
    let small : leb 64 p ≡ false = ground arith in
    let (c, s, e, digits, reads, first) = num_to_str-number p in
    (
      b'w' ∷ b'a' ∷ b'i' ∷ b't' ∷ b'_' ∷ c ∷ s,
      rw (
        small,
        ask-granted k (true ∷ rest) granted,
        chain,
        e,
        ask-granted (record k { memory = true ∷ rest }) rest refl,
        chain,
        my_strcpy_self s,
      ),
      reads,
    )

-- For two different pids below 64, with their memory granted, the names of their wait semaphores are
-- built, and are different.
pub wait_names_differ :
    (p q : ℕ) (k k' : Kernel) (rest rest' : List Bool)
    → p < 64
    → q < 64
    → p ≢ q
    → k.memory ≡ true ∷ true ∷ rest
    → k'.memory ≡ true ∷ true ∷ rest'
    → (s : Text) × (t : Text) × (build_wait_semaphore_name p k
        ≡ ok (some s) (record k { memory = rest }))
      × (build_wait_semaphore_name q k' ≡ ok (some t) (record k' { memory = rest' }))
      × (s ≢ t)
wait_names_differ p q k k' rest rest' hp hq apart g g' =
    let (s, e, reads) = wait-number p k rest hp g in
    let (t, e', reads') = wait-number q k' rest' hq g' in
    (s, t, e, e', λ same. apart (sym reads ∙ ap (λ w. number (drop 5 w)) same ∙ reads'))
