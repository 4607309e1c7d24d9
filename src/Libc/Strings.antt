-- ===== src/Libc/Strings.antt =====
-- TP2-SO-2025/Userland/libc/string.c and the macro of TP2-SO-2025/Userland/include/libc/ctype.h. A string is the list of its
-- bytes up to the NUL.
use tp_so_grupo.Base.{
  ℕ, zero, suc, ◌-◌, [], ◌∷◌, Bool, true, false, ◌&&◌, Option, none, some, ◌==◌, leb, if◌then◌else◌,
  ℤ, sub_ℕ,
}
use tp_so_grupo.Strings.{Text}

unfoldable pub strlen : Text → ℕ
strlen [] = 0
strlen (c ∷ s) = suc (strlen s)

unfoldable pub strcmp : Text → Text → ℤ
strcmp [] [] = sub_ℕ 0 0
strcmp [] (d ∷ t) = sub_ℕ 0 d
strcmp (c ∷ s) [] = sub_ℕ c 0
strcmp (c ∷ s) (d ∷ t) = let rest = strcmp s t in if c == d then rest else sub_ℕ c d

abbrev pub to_upper : ℕ → ℕ
to_upper a = if leb b'a' a && leb a b'z' then a - (b'a' - b'A') else a

-- The difference is that of the bytes as they stand.
unfoldable pub strcasecmp : Text → Text → ℤ
strcasecmp [] [] = sub_ℕ 0 0
strcasecmp [] (d ∷ t) = sub_ℕ 0 d
strcasecmp (c ∷ s) [] = sub_ℕ c 0
strcasecmp (c ∷ s) (d ∷ t) =
    let rest = strcasecmp s t in if to_upper c == to_upper d then rest else sub_ℕ c d

-- What stands in `dest` up to its NUL.
unfoldable pub strcpy : Text → Text
strcpy [] = []
strcpy (c ∷ src) = c ∷ strcpy src

unfoldable pub strncpy : Text → ℕ → Text
strncpy src zero = []
strncpy [] (suc n) = []
strncpy (c ∷ src) (suc n) = c ∷ strncpy src n

-- The inner loop of strtok: is `c` in `s2`?
unfoldable pub is_delimiter : (s2 : Text) → ℕ → Bool
is_delimiter [] c = false
is_delimiter (d ∷ s2) c = let rest = is_delimiter s2 c in if c == d then true else rest

-- The outer loop: the token up to the delimiter that it cuts, and `last`.
unfoldable pub cut_token : (s2 : Text) → (last : Text) → Text × Text
unfolding is_delimiter
cut_token s2 [] = ([], [])
cut_token s2 (c ∷ last) =
    let (token, rest) = cut_token s2 last in
    if is_delimiter s2 c then ([], last) else (c ∷ token, rest)

-- `s1` is none for NULL; `last` is the static pointer, as the text from it on. The result is the
-- token, none for NULL, and the new `last`.
unfoldable pub strtok : (s1 : Option Text) → (s2 : Text) → (last : Text) → Option Text × Text
unfolding cut_token
strtok (some s1) s2 last = let (token, rest) = cut_token s2 s1 in (some token, rest)
strtok none s2 [] = (none, [])
strtok none s2 (c ∷ last) = let (token, rest) = cut_token s2 (c ∷ last) in (some token, rest)
