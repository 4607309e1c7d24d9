-- ===== src/Array/Items.antt =====
-- The array as a sequence.
use tp_so_grupo.Base.{
  ℕ, zero, suc, ◌+◌, ◌%◌, ◌^◌, ◌<◌, ◌≤◌, ◌≡◌, refl, sym, ap, subst, ◌∙◌, inl, inr, true, none, some,
  List, [], ◌∷◌, ◌++◌, ◌==◌, leb, arith, length, get_elem?, set, take, drop, length-set,
  length-append, length-take, length-drop, ==_iff, Bool-cases,
}
use tp_so_grupo.Array.{
  Array, Handle, block_size, place, place_in, grow, array_add, get_elem_by_index,
}

-- The elements of the array.
abbrev pub items : Array → List ℕ
items a = take a.elem_count a.base

-- The memory holds the room, and the room the elements.
pub record IsArray (a : Array) : Type 0 where
  pub room : length a.base ≡ a.dim
  pub fits : a.elem_count ≤ a.dim
  pub narrow : a.dim < 2 ^ 16

take-set : (n v : ℕ) (xs : List ℕ) → n < length xs → take (suc n) (set xs n v) ≡ take n xs ++ v ∷ []
take-set n v [] h = absurd (omega arith)
take-set zero v (x ∷ xs) h = refl
take-set (suc n) v (x ∷ xs) h = ap (λ ys. x ∷ ys) (take-set n v xs (omega arith))

take-append : (n : ℕ) (xs ys : List ℕ) → n ≡ length xs → take n (xs ++ ys) ≡ xs
take-append zero [] ys h = refl
take-append (suc n) [] ys h = absurd (omega arith)
take-append zero (x ∷ xs) ys h = absurd (omega arith)
take-append (suc n) (x ∷ xs) ys h = ap (λ zs. x ∷ zs) (take-append n xs ys (omega arith))

take-all : (n : ℕ) (xs : List ℕ) → n ≡ length xs → take n xs ≡ xs
take-all zero [] h = refl
take-all (suc n) [] h = refl
take-all zero (x ∷ xs) h = absurd (omega arith)
take-all (suc n) (x ∷ xs) h = ap (λ zs. x ∷ zs) (take-all n xs (omega arith))

get_elem?-take : (n i : ℕ) (xs : List ℕ) → i < n → get_elem? (take n xs) i ≡ get_elem? xs i
get_elem?-take zero i xs h = absurd (omega arith)
get_elem?-take (suc n) i [] h = refl
get_elem?-take (suc n) zero (x ∷ xs) h = refl
get_elem?-take (suc n) (suc i) (x ∷ xs) h = get_elem?-take n i xs (omega arith)

get_elem?-take-none : (n i : ℕ) (xs : List ℕ) → n ≤ i → get_elem? (take n xs) i ≡ none
get_elem?-take-none zero i xs h = refl
get_elem?-take-none (suc n) i [] h = refl
get_elem?-take-none (suc n) zero (x ∷ xs) h = absurd (omega arith)
get_elem?-take-none (suc n) (suc i) (x ∷ xs) h = get_elem?-take-none n i xs (omega arith)

-- `getElemByIndex` with a buffer gives the element at the index in the sequence of the elements,
-- and none beyond them.
pub get_elem_by_index-items :
    (a : Array) (i : ℕ) → get_elem_by_index (some a) i true ≡ get_elem? (items a) i
unfolding get_elem_by_index
get_elem_by_index-items a i = elim (Bool-cases (leb a.elem_count i)) [
  | inl h ↦ rw h (sym (get_elem?-take-none a.elem_count i a.base (ground arith)))
  | inr h ↦ rw h (sym (get_elem?-take a.elem_count i a.base (ground arith)))
]

-- What an addition leaves: the array is well formed and has the element behind the others.
abbrev pub Added : ℕ → Array → Handle → Type 0
Added v a none = ⊥
Added v a (some a') = IsArray a' × (items a' ≡ items a ++ v ∷ [])

place_in-Added :
    (v : ℕ) (a : Array) → IsArray a → a.elem_count < a.dim → Added v a (place_in v (some a))
unfolding place_in place
place_in-Added v a ok h =
    let e : (a.elem_count + 1) % 65536 ≡ suc a.elem_count = omega (arith, ok.narrow) in
    (
      record {
        room = length-set a.base a.elem_count v ∙ ok.room;
        fits = omega (arith, ok.narrow);
        narrow = ok.narrow;
      },
      rw e (take-set a.elem_count v a.base (omega (arith, ok.room))),
    )

-- The array that has moved to the memory `fresh`.
abbrev grown : Array → List ℕ → Array
grown a fresh = record a {
  base = take a.dim a.base ++ drop a.dim fresh;
  dim = (a.dim + block_size) % 2 ^ 16;
}

grown-IsArray :
    (a : Array) (fresh : List ℕ)
    → IsArray a
    → length fresh ≡ a.dim + block_size
    → a.dim + block_size < 2 ^ 16
    → IsArray (grown a fresh)
grown-IsArray a fresh ok f narrow = record {
  room = omega (
    arith,
    f,
    ok.room,
    length-append (take a.dim a.base) (drop a.dim fresh),
    length-take a.dim a.base,
    length-drop a.dim fresh,
  );
  fits = omega (arith, ok.fits);
  narrow = omega arith;
}

grown-items :
    (a : Array) (fresh : List ℕ)
    → IsArray a
    → a.elem_count ≡ a.dim
    → items (grown a fresh) ≡ items a
grown-items a fresh ok full =
    let e : take a.dim a.base ≡ a.base = take-all a.dim a.base (sym ok.room) in
    rw (full, e, take-append a.dim a.base (drop a.dim fresh) (sym ok.room)) refl

Added-along : (v : ℕ) (a b : Array) → items a ≡ items b → (h : Handle) → Added v a h → Added v b h
Added-along v a b e none wrong = wrong
Added-along v a b e (some c) (ok, same) = (ok, same ∙ ap (λ xs. xs ++ v ∷ []) e)

-- `arrayAdd` to a well-formed array of a capacity that stays below 2 ^ 16 with a block more, with
-- memory granted for that, leaves a well-formed array with the element behind the others, whether
-- the array was full or not.
pub array_add-items :
    (a : Array) (fresh : List ℕ) (v : ℕ)
    → IsArray a
    → length fresh ≡ a.dim + block_size
    → a.dim + block_size < 2 ^ 16
    → Added v a (array_add (some fresh) (some a) (some v))
unfolding array_add grow
array_add-items a fresh v ok f narrow = elim (Bool-cases (a.elem_count == a.dim)) [
  | inr h ↦ rw (array_add, h) (place_in-Added v a ok (ground (arith, ok.fits)))
  | inl h ↦
      rw (array_add, h)
        (Added-along v (grown a fresh) a (grown-items a fresh ok ((==_iff a.elem_count a.dim).0 h))
          (place_in v (some (grown a fresh)))
          (place_in-Added v (grown a fresh) (grown-IsArray a fresh ok f narrow) (
            subst (λ n. n < (a.dim + block_size) % 2 ^ 16) (sym ((==_iff a.elem_count a.dim).0 h))
              (omega arith))))
]
