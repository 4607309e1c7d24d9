-- ===== src/SortedList/Insert.antt =====
-- What TP2-SO-2025/Kernel/include/list.h promises, without memory: elements in the order of the
-- comparison function, none of them twice.
use tp_so_grupo.Base.{
  ℕ, ◌≡◌, refl, ap, inl, inr, Bool, true, false, List, [], ◌∷◌, ◌++◌, arith, Bool-cases,
  if◌then◌else◌, ℤ, is_zero, is_negative, sub_ℕ,
}
use tp_so_grupo.Queue.Nodes.{Ptr}
use tp_so_grupo.Queue.Fifo.{erase}
use tp_so_grupo.Queue.Chain.{Cells, values}

-- What a comparison function is supposed to be.
pub record IsOrder (cmp : ℕ → ℕ → ℤ) : Type 0 where
  pub trans :
      (x y z : ℕ)
      → is_negative (cmp x y) ≡ true
      → is_negative (cmp y z) ≡ true
      → is_negative (cmp x z) ≡ true
  pub flip :
      (x y : ℕ)
      → is_negative (cmp x y) ≡ false
      → is_zero (cmp x y) ≡ false
      → is_negative (cmp y x) ≡ true

pub sub_ℕ-IsOrder : IsOrder sub_ℕ
sub_ℕ-IsOrder = record { trans = λ x y z a b. ground arith; flip = λ x y a b. ground arith }

module _ (cmp : ℕ → ℕ → ℤ) where
  -- Before the first element that is not below it, unless that compares equal.
  unfoldable pub insert : ℕ → List ℕ → List ℕ
  insert v [] = v ∷ []
  insert v (x ∷ xs) =
      if is_negative (cmp x v)
      then x ∷ insert v xs
      else if is_zero (cmp x v)
      then x ∷ xs
      else v ∷ x ∷ xs

  abbrev pub Below : ℕ → List ℕ → Type 0
  Below x [] = Unit {0}
  Below x (y ∷ ys) = (is_negative (cmp x y) ≡ true) × Below x ys

  -- Every element is below those behind it.
  abbrev pub Ascending : List ℕ → Type 0
  Ascending [] = Unit {0}
  Ascending (x ∷ xs) = Below x xs × Ascending xs

  -- `cmp(x, y) == 0`
  abbrev pub equal : ℕ → ℕ → Bool
  equal x y = is_zero (cmp x y)

  insert-Below :
      (x v : ℕ) (xs : List ℕ) → Below x xs → is_negative (cmp x v) ≡ true → Below x (insert v xs)
  unfolding insert
  insert-Below x v [] b l = (l, tt)
  insert-Below x v (y ∷ ys) b l = elim (Bool-cases (is_negative (cmp y v))) [
    | inl n ↦ rw n (b.0, insert-Below x v ys b.1 l)
    | inr n ↦ elim (Bool-cases (is_zero (cmp y v))) [
      | inl z ↦ rw (n, z) b
      | inr z ↦ rw (n, z) (l, b)
    ]
  ]

  Below-trans :
      (x y : ℕ) (ys : List ℕ) → IsOrder cmp → is_negative (cmp x y) ≡ true → Below y ys → Below x ys
  Below-trans x y [] o l b = tt
  Below-trans x y (z ∷ ys) o l b = (o.trans x y z l b.0, Below-trans x y ys o l b.1)

  pub insert-Ascending :
      (v : ℕ) (xs : List ℕ) → IsOrder cmp → Ascending xs → Ascending (insert v xs)
  unfolding insert
  insert-Ascending v [] o a = (tt, tt)
  insert-Ascending v (x ∷ xs) o a = elim (Bool-cases (is_negative (cmp x v))) [
    | inl n ↦ rw n (insert-Below x v xs a.0 n, insert-Ascending v xs o a.1)
    | inr n ↦ elim (Bool-cases (is_zero (cmp x v))) [
      | inl z ↦ rw (n, z) a
      | inr z ↦ let low = o.flip x v n z in rw (n, z) ((low, Below-trans v x xs o low a.0), a)
    ]
  ]

  erase-Below : (x v : ℕ) (xs : List ℕ) → Below x xs → Below x (erase equal v xs)
  unfolding erase
  erase-Below x v [] b = tt
  erase-Below x v (y ∷ ys) b = elim (Bool-cases (is_zero (cmp y v))) [
    | inl z ↦ rw z b.1
    | inr z ↦ rw z (b.0, erase-Below x v ys b.1)
  ]

  pub erase-Ascending : (v : ℕ) (xs : List ℕ) → Ascending xs → Ascending (erase equal v xs)
  unfolding erase
  erase-Ascending v [] a = tt
  erase-Ascending v (x ∷ xs) a = elim (Bool-cases (is_zero (cmp x v))) [
    | inl z ↦ rw z a.1
    | inr z ↦ rw z (erase-Below x v xs a.0, erase-Ascending v xs a.1)
  ]

  -- The nodes before the place of `v`, those from there on, and whether `v` stands at the first of
  -- these.
  module _ (v : ℕ) where
    abbrev pub lower : Cells → Cells
    lower [] = []
    lower ((p, x) ∷ cs) = if is_negative (cmp x v) then (p, x) ∷ lower cs else []

    abbrev pub upper : Cells → Cells
    upper [] = []
    upper ((p, x) ∷ cs) = if is_negative (cmp x v) then upper cs else (p, x) ∷ cs

    abbrev pub at_first : Cells → Bool
    at_first [] = false
    at_first ((p, x) ∷ cs) = is_zero (cmp x v)

    pub lower-upper : (cs : Cells) → lower cs ++ upper cs ≡ cs
    lower-upper [] = refl
    lower-upper ((p, x) ∷ cs) = elim (Bool-cases (is_negative (cmp x v))) [
      | inl n ↦ rw n (ap (λ l. (p, x) ∷ l) (lower-upper cs))
      | inr n ↦ rw n refl
    ]

    pub insert-there : (cs : Cells) → at_first (upper cs) ≡ true → insert v (values cs) ≡ values cs
    unfolding insert
    insert-there [] h = ground arith
    insert-there ((p, x) ∷ cs) h = elim (Bool-cases (is_negative (cmp x v))) [
      | inl n ↦ rw n (ap (λ l. x ∷ l) (insert-there cs (rw n at h)))
      | inr n ↦ rw (n, rw n at h) refl
    ]

    pub insert-new :
        (new : Ptr) (cs : Cells)
        → at_first (upper cs) ≡ false
        → insert v (values cs) ≡ values (lower cs ++ (new, v) ∷ upper cs)
    unfolding insert
    insert-new new [] h = refl
    insert-new new ((p, x) ∷ cs) h = elim (Bool-cases (is_negative (cmp x v))) [
      | inl n ↦ rw n (ap (λ l. x ∷ l) (insert-new new cs (rw n at h)))
      | inr n ↦ rw (n, rw n at h) refl
    ]
