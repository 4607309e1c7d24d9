-- ===== src/Strings.antt =====
-- TP2-SO-2025/Kernel/strings.c. A C string is the list of its bytes up to the NUL, so no byte of
-- it is 0; a copy into a buffer leaves the source's bytes there.
pub mod Decimal
mod Tests
use tp_so_grupo.Base.{
  ℕ, zero, suc, ◌+◌, ◌-◌, ◌*◌, ◌/◌, ◌%◌, List, [], ◌∷◌, ◌++◌, Bool, true, false, Option, none, some,
  ◌==◌, if◌then◌else◌, ℤ, sub_ℕ,
}

abbrev pub Text : Type 0
Text = List ℕ

unfoldable pub strlen : Text → ℕ
strlen [] = 0
strlen (c ∷ s) = suc (strlen s)

unfoldable pub my_strcpy : Text → Text
my_strcpy [] = []
my_strcpy (c ∷ s) = c ∷ my_strcpy s

unfoldable pub catenate : Text → Text → Text
catenate [] src = my_strcpy src
catenate (c ∷ dest) src = c ∷ catenate dest src

-- Both strings are there. A byte of the NUL counts 0.
unfoldable pub my_strcmp : Text → Text → ℤ
my_strcmp [] [] = sub_ℕ 0 0
my_strcmp [] (d ∷ t) = sub_ℕ 0 d
my_strcmp (c ∷ s) [] = sub_ℕ c 0
my_strcmp (c ∷ s) (d ∷ t) = let rest = my_strcmp s t in if c == d then rest else sub_ℕ c d

-- `while (num > 0)` of `num_to_str`: the digits before those in `out`, least significant first;
-- the rounds are bounded by `fuel`, which starts at `num`.
digits_loop : (fuel : ℕ) → ℕ → Text → Text
digits_loop zero num out = out
digits_loop (suc n) num out =
    let rest = digits_loop n (num / 10) ((b'0' + num % 10) ∷ out) in if num == 0 then out else rest

-- What `num_to_str` comes to: a text, NULL, or a write through NULL.
pub data Made : Type 0 where
  made : Text → Made
  no_memory wild_write : Made

-- `granted` says whether `mm_alloc` grants the buffer; only at 0 is that tested.
pub num_to_str : (granted : Bool) → ℕ → Made
unfolding digits_loop
num_to_str granted num =
    if num == 0
    then (if granted then made (b'0' ∷ []) else no_memory)
    else if granted
    then made (digits_loop num num [])
    else wild_write
