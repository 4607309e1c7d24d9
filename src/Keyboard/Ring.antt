-- ===== src/Keyboard/Ring.antt =====
-- The buffer of TP2-SO-2025/Kernel/drivers/keyboard.c as a queue of characters.
use tp_so_grupo.Base.{
  ℕ, zero, suc, ◌+◌, ◌-◌, ◌%◌, ◌<◌, ◌≡◌, sym, ap, ap₂, subst, ◌∙◌, Bool, false, Option, none, some,
  List, [], ◌∷◌, ◌++◌, append-nil, append_assoc, arith, length, set, get_or, length-set,
  get_or-set_self, get_or-set_ne, ◌==◌,
}
use tp_so_grupo.Keyboard.{
  Keyboard, Options, buffer_size, inc_mod, sub_mod, add_one, take_character, get_keyboard_character,
}

-- `n` characters from index `i` on, round the end of the buffer.
abbrev held : List ℕ → ℕ → ℕ → List ℕ
held buffer i zero = []
held buffer i (suc n) = get_or buffer i 0 ∷ held buffer (inc_mod i) n

pub record IsKeyboard (k : Keyboard) : Type 0 where
  pub storage : length k.buffer ≡ buffer_size
  pub read_in : k.to_read < buffer_size
  pub write_in : k.to_write < buffer_size

-- How many characters wait to be read, and which.
abbrev pub used : Keyboard → ℕ
used k = sub_mod k.to_write k.to_read

abbrev pub unread : Keyboard → List ℕ
unread k = held k.buffer k.to_read (used k)

held-set :
    (buffer : List ℕ) (n i j b : ℕ)
    → length buffer ≡ buffer_size
    → i < buffer_size
    → n < buffer_size
    → j ≡ (i + n) % buffer_size
    → held (set buffer j b) i (suc n) ≡ held buffer i n ++ b ∷ []
held-set buffer zero i j b s h m e =
    ap (λ x. x ∷ [])
      (subst (λ k. get_or (set buffer j b) k 0 ≡ b) (omega arith)
        (get_or-set_self buffer j b 0 (omega arith)))
held-set buffer (suc n) i j b s h m e =
    ap₂ ◌∷◌ (get_or-set_ne buffer j i b 0 (omega arith))
      (held-set buffer n (inc_mod i) j b s (omega arith) (omega arith) (omega arith))

pub add_one-IsKeyboard :
    (c : ℕ) (show : Bool) (k : Keyboard) → IsKeyboard k → IsKeyboard (add_one c show k).1
unfolding add_one
add_one-IsKeyboard c show k v = omega (arith, length-set k.buffer k.to_write c)

used-add_one :
    (c : ℕ) (show : Bool) (k : Keyboard)
    → IsKeyboard k
    → used k < buffer_size - 1
    → used (add_one c show k).1 ≡ suc (used k)
unfolding add_one
used-add_one c show k v free = ground arith

-- A typed character comes behind the others.
pub unread-add_one :
    (c : ℕ) (show : Bool) (k : Keyboard)
    → IsKeyboard k
    → used k < buffer_size - 1
    → unread (add_one c show k).1 ≡ unread k ++ c ∷ []
unfolding add_one
unread-add_one c show k v free =
    ap (held (set k.buffer k.to_write c) k.to_read) (used-add_one c show k v free)
    ∙ held-set k.buffer (used k) k.to_read k.to_write c v.storage v.read_in (ground arith)
        (ground arith)

-- `addCharToBuffer` of one character after the other.
abbrev pub type_all : List ℕ → Keyboard → Keyboard
type_all [] k = k
type_all (c ∷ cs) k = type_all cs (add_one c false k).1

type_all-unread :
    (cs : List ℕ) (k : Keyboard)
    → IsKeyboard k
    → used k + length cs < buffer_size
    → IsKeyboard (type_all cs k)
      × (used (type_all cs k) ≡ used k + length cs)
      × (unread (type_all cs k) ≡ unread k ++ cs)
type_all-unread [] k v h = (v, omega arith, sym (append-nil (unread k)))
type_all-unread (c ∷ cs) k v h =
    let room : used k < buffer_size - 1 = omega arith in
    let one = used-add_one c false k v room in
    let (w, n, u) =
      type_all-unread cs (add_one c false k).1 (add_one-IsKeyboard c false k v)
        (rw one (omega arith)) in
    (
      w,
      n ∙ omega (arith, one),
      u ∙ ap (λ l. l ++ cs) (unread-add_one c false k v room) ∙ append_assoc (unread k) (c ∷ []) cs,
    )

-- What is left when the oldest character is taken.
abbrev rest_of : Keyboard → Keyboard
rest_of k = record k {
  to_read = inc_mod k.to_read;
  options = record { show = false; await_return = false; modify = false };
}

unread-rest_of :
    (k : Keyboard)
    → IsKeyboard k
    → (n : ℕ) → used k ≡ suc n
    → IsKeyboard (rest_of k)
      × (used (rest_of k) ≡ n)
      × (unread k ≡ get_or k.buffer k.to_read 0 ∷ unread (rest_of k))
unread-rest_of k v n e =
    let less : used (rest_of k) ≡ n = ground arith in
    (
      record { storage = v.storage; read_in = omega arith; write_in = v.write_in },
      less,
      ap (held k.buffer k.to_read) (e ∙ ap suc (sym less)),
    )

abbrev no_wait : Options
no_wait = record { show = false; await_return = false; modify = false }

-- The characters of `n` calls of `getKeyboardCharacter` that do not wait for a line; none if one of
-- them waits.
pub read_all : ℕ → Keyboard → Option (List ℕ)
read_all zero k = some []
read_all (suc n) k = elim (get_keyboard_character no_wait k) [
  | none ↦ none
  | some (c, l) ↦ elim (read_all n l) [ none ↦ none | some cs ↦ some (c ∷ cs) ]
]

get_keyboard_character-some :
    (k : Keyboard) (n : ℕ)
    → IsKeyboard k
    → used k ≡ suc n
    → get_keyboard_character no_wait k ≡ some (get_or k.buffer k.to_read 0, rest_of k)
unfolding get_keyboard_character take_character
get_keyboard_character-some k n v e =
    let apart : k.to_write == k.to_read ≡ false = ground arith in rw apart

read_all-unread :
    (n : ℕ) (k : Keyboard) → IsKeyboard k → used k ≡ n → read_all n k ≡ some (unread k)
unfolding read_all
read_all-unread zero k v e = ap (λ n. some (held k.buffer k.to_read n)) (sym e)
read_all-unread (suc n) k v e =
    let (w, m, u) = unread-rest_of k v n e in
    rw (read_all, get_keyboard_character-some k n v e, read_all-unread n (rest_of k) w m)
      (ap some (sym u))

-- When characters are added, one by one and no tab, to a well-formed keyboard buffer that has room
-- for them, as many calls of `getKeyboardCharacter` without AWAIT_RETURN_KEY as there are unread
-- characters then return, without waiting, those that were there and then the added ones, in order.
pub read_all-type_all :
    (cs : List ℕ) (k : Keyboard)
    → IsKeyboard k
    → used k + length cs < buffer_size
    → read_all (used k + length cs) (type_all cs k) ≡ some (unread k ++ cs)
read_all-type_all cs k v h =
    let (w, n, u) = type_all-unread cs k v h in
    read_all-unread (used k + length cs) (type_all cs k) w n ∙ ap some u
