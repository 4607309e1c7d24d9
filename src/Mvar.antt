-- ===== src/Mvar.antt =====
-- TP2-SO-2025/Userland/Shell/commands/mvar.c: writers and readers around one shared byte, which
-- TP2-SO-2025/Kernel/shared_mvar.c holds. The semaphores count as TP2-SO-2025/Kernel/sem.c has them for their
-- callers: a wait returns when it has taken one from the value, and a post that lets a waiting
-- process go is the post and the return of that wait. An operation runs from its wait to its post,
-- and a get then returns its byte; between any two of these accesses others may run.
pub mod History
mod Tests
use tp_so_grupo.Base.{
  ℕ, zero, suc, ◌+◌, Bool, true, not, ◌||◌, Option, none, some, List, [], ◌∷◌, ◌++◌, get_elem?, set,
  ◌≡◌, ℤ, pos, negsuc, ◌==◌, if◌then◌else◌,
}

-- Where an operation stands that has passed its wait: `mvarPut` before its write and before its
-- post; `mvarGet` before its read, before its reset and before its post.
pub data Phase : Type 0 where
  putting posting : ℕ → Phase
  getting : Phase
  resetting returning : ℕ → Phase

-- `MVar` with the shared byte. `inside` holds the operations between their wait and their post, and
-- `leaving` the bytes of the gets that have posted and not yet returned. `sent` are the bytes written,
-- `taken` those that gets posted for, `received` those that gets returned, each in its order.
pub record System : Type 0 where
  pub empty : ℕ
  pub full : ℕ
  pub value : ℕ
  pub inside : List Phase
  pub leaving : List ℕ
  pub sent : List ℕ
  pub taken : List ℕ
  pub received : List ℕ

-- What `semOpen` comes to: NULL, a new semaphore, or one that was there, with its value.
pub data Opened : Type 0 where
  refused fresh : Opened
  found : ℕ → Opened

-- The value of a semaphore that is opened with `value`.
abbrev pub opened_value : ℕ → Opened → Option ℕ
opened_value value refused = none
opened_value value fresh = some value
opened_value value (found v) = some v

abbrev pub not_positive : ℤ → Bool
not_positive (pos n) = n == 0
not_positive (negsuc n) = true

abbrev pub start_with : ℕ → ℕ → System
start_with e f = record {
  empty = e;
  full = f;
  value = 0;
  inside = [];
  leaving = [];
  sent = [];
  taken = [];
  received = [];
}

open_full : ℕ → Option ℕ → Option System
open_full e none = none
open_full e (some f) = some (start_with e f)

open_both : Option ℕ → Opened → Option System
unfolding open_full
open_both none full = none
open_both (some e) full = open_full e (opened_value 0 full)

-- `mvarInit`; `granted` says whether its memory is, and -1 is `none`. The semaphores of an earlier
-- run keep their values.
unfoldable pub mvar_init :
    (readers writers : ℤ) → (granted : Bool) → (empty full : Opened) → Option System
unfolding open_both
mvar_init readers writers granted empty full =
    if not_positive readers || not_positive writers
    then none
    else if not granted
    then none
    else open_both (opened_value 1 empty) full

-- `semWait` as its caller sees it: not yet, at 0.
abbrev pub take_one : ℕ → Option ℕ
take_one zero = none
take_one (suc n) = some n

abbrev pub drop_at {ℓ} : {A : Type ℓ} → ℕ → List A → List A
drop_at i [] = []
drop_at zero (p ∷ ps) = ps
drop_at (suc i) (p ∷ ps) = p ∷ drop_at i ps

unfoldable pub mvar_put : ℕ → System → Option System
mvar_put v s = elim (take_one s.empty) [
  | none ↦ none
  | some e ↦ some (record s { empty = e; inside = s.inside ++ putting v ∷ [] })
]

unfoldable pub mvar_get : System → Option System
mvar_get s = elim (take_one s.full) [
  | none ↦ none
  | some f ↦ some (record s { full = f; inside = s.inside ++ getting ∷ [] })
]

-- The next access of the operation at `i`, which stands in `p`.
unfoldable pub access : ℕ → Phase → System → System
access i (putting v) s = record s {
  value = v;
  inside = set s.inside i (posting v);
  sent = s.sent ++ v ∷ [];
}
access i (posting v) s = record s { full = s.full + 1; inside = drop_at i s.inside }
access i getting s = record s { inside = set s.inside i (resetting s.value) }
access i (resetting v) s = record s { value = 0; inside = set s.inside i (returning v) }
access i (returning v) s = record s {
  empty = s.empty + 1;
  inside = drop_at i s.inside;
  leaving = s.leaving ++ v ∷ [];
  taken = s.taken ++ v ∷ [];
}

-- The return of the get at `i` of those that have posted, with the byte `v`.
unfoldable pub give_back : ℕ → ℕ → System → System
give_back i v s = record s { leaving = drop_at i s.leaving; received = s.received ++ v ∷ [] }

-- A step of the system: an operation passes its wait, one that runs goes on, or a get returns.
pub data Step (s t : System) : Type 0 where
  put : (v : ℕ) → mvar_put v s ≡ some t → Step s t
  get : mvar_get s ≡ some t → Step s t
  go_on : (i : ℕ) (p : Phase) → get_elem? s.inside i ≡ some p → t ≡ access i p s → Step s t
  leave : (i v : ℕ) → get_elem? s.leaving i ≡ some v → t ≡ give_back i v s → Step s t

-- From an `mvarInit` that succeeds and finds no semaphore of an earlier run.
pub data Reach : System → Type 0 where
  start :
      {s : System} (readers writers : ℤ) (granted : Bool)
      → mvar_init readers writers granted fresh fresh ≡ some s
      → Reach s
  later : {s t : System} → Reach s → Step s t → Reach t
