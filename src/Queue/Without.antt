-- ===== src/Queue/Without.antt =====
-- What stays of a list of nodes, and of their elements, when the first one that compares equal goes.
use tp_so_grupo.Base.{
  ℕ, ◌≡◌, refl, ap, inl, inr, Bool, true, false, List, [], ◌∷◌, ◌++◌, arith, if◌then◌else◌, length,
  Bool-cases,
}
use tp_so_grupo.Queue.Nodes.{Ptr}
use tp_so_grupo.Queue.Fifo.{contains, erase, index_of}
use tp_so_grupo.Queue.Chain.{Cells, values}

-- The nodes that stay.
module _ (same : ℕ → ℕ → Bool) (x : ℕ) where
  abbrev pub without : Cells → Cells
  without [] = []
  without ((p, v) ∷ cs) = if same v x then cs else (p, v) ∷ without cs

  pub without-middle :
      (before : Cells) (p : Ptr) (v : ℕ) (after : Cells)
      → contains same x (values before) ≡ false
      → same v x ≡ true
      → without (before ++ (p, v) ∷ after) ≡ before ++ after
  unfolding contains
  without-middle [] p v after h e = rw e refl
  without-middle ((b, w) ∷ bs) p v after h e = elim (Bool-cases (same w x)) [
    | inl z ↦ absurd (ground (arith, z, h))
    | inr z ↦ rw z (ap (λ l. (b, w) ∷ l) (without-middle bs p v after (rw z at h) e))
  ]

  pub without-none : (cs : Cells) → contains same x (values cs) ≡ false → without cs ≡ cs
  unfolding contains
  without-none [] h = refl
  without-none ((b, w) ∷ bs) h = elim (Bool-cases (same w x)) [
    | inl z ↦ absurd (ground (arith, z, h))
    | inr z ↦ rw z (ap (λ l. (b, w) ∷ l) (without-none bs (rw z at h)))
  ]

  pub values-without : (cs : Cells) → values (without cs) ≡ erase same x (values cs)
  unfolding erase
  values-without [] = refl
  values-without ((p, v) ∷ cs) = elim (Bool-cases (same v x)) [
    | inl z ↦ rw z refl
    | inr z ↦ rw z (ap (λ l. v ∷ l) (values-without cs))
  ]

-- What the element found is among the others.
pub contains-middle :
    (same : ℕ → ℕ → Bool) (x : ℕ) (before : List ℕ) (y : ℕ) (after : List ℕ)
    → contains same x before ≡ false
    → same y x ≡ true
    → (contains same x (before ++ y ∷ after) ≡ true)
      × (erase same x (before ++ y ∷ after) ≡ before ++ after)
      × (index_of same x (before ++ y ∷ after) ≡ length before)
unfolding contains erase index_of
contains-middle same x [] y after h e = (rw e refl, rw e refl, rw e refl)
contains-middle same x (b ∷ before) y after h e = elim (Bool-cases (same b x)) [
  | inl z ↦ absurd (ground (arith, z, h))
  | inr z ↦
      let (found, left, at) = contains-middle same x before y after (rw z at h) e in
      (rw (z, found) refl, rw (z, left) refl, rw (z, at) refl)
]

pub contains-snoc :
    (same : ℕ → ℕ → Bool) (x : ℕ) (before : List ℕ) (y : ℕ)
    → contains same x before ≡ false
    → same y x ≡ false
    → contains same x (before ++ y ∷ []) ≡ false
unfolding contains
contains-snoc same x [] y h e = rw e refl
contains-snoc same x (b ∷ before) y h e = ground (arith, contains-snoc same x before y)
