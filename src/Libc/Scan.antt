-- ===== src/Libc/Scan.antt =====
-- TP2-SO-2025/Userland/libc/stdio.c, the input: vsscanf, which reads a buffer, and vscanf, which reads
-- characters as they are typed. An int is a mathematical integer here.
pub mod Number
use tp_so_grupo.Base.{
  ℕ, zero, suc, ◌+◌, ◌-◌, ◌*◌, List, [], ◌∷◌, ◌++◌, Bool, true, false, not, ◌&&◌, ◌||◌, Option,
  none, some, ◌==◌, leb, if◌then◌else◌, ℤ, pos, negsuc,
}
use tp_so_grupo.Strings.{Text}
use tp_so_grupo.Libc.Numbers.{is_digit, signed, read_digits}

-- What a call stores behind one pointer. Of a text these are the cells from the pointer on; `none` is
-- a cell that is left as it was.
pub data Stored : Type 0 where
  integer : ℤ → Stored
  character : ℕ → Stored
  text : List (Option ℕ) → Stored

-- The stored values and `args_read`. `none` is a call that reads behind its format or its buffer, or
-- that waits for ever.
abbrev pub Scanned : Type 0
Scanned = Option (List Stored × ℕ)

unfoldable pub also : Stored → ℕ → Scanned → Scanned
also x n none = none
also x n (some (xs, m)) = some (x ∷ xs, n + m)

-- `%d` of vsscanf: the number, how many arguments it counts as and what is left of the buffer.
unfoldable pub scan_digits : Bool → Text → ℤ × (ℕ × Text)
unfolding read_digits
scan_digits negative [] = (pos 0, (0, []))
scan_digits negative (c ∷ s) =
    let (num, rest) = read_digits 0 (c ∷ s) in
    (signed negative num, (if is_digit c then 1 else 0, rest))

unfoldable pub scan_int : Text → Option (ℤ × (ℕ × Text))
unfolding scan_digits
scan_int [] = none
scan_int (c ∷ s) =
    if c == b'-'
    then some (scan_digits true s)
    else if is_digit c
    then some (scan_digits false (c ∷ s))
    else none

abbrev pub ends_word : ℕ → Bool
ends_word c = c == b' ' || c == 10

-- `%s` of vsscanf: the loop moves `str` twice for each character.
unfoldable pub scan_word : Text → List (Option ℕ) × Text
scan_word [] = (some 0 ∷ [], [])
scan_word (c ∷ s) =
    let (cells, rest) = scan_word s in
    if ends_word c then (some 0 ∷ [], c ∷ s) else (some c ∷ none ∷ cells, rest)

-- `percent` says whether the loop stands behind a `%`. The buffer is `none` once `buf_i` is behind
-- its end.
unfoldable pub vsscanf : (percent : Bool) → (format : Text) → (buffer : Option Text) → Scanned
unfolding also scan_int scan_word
vsscanf false [] buffer = some ([], 0)
vsscanf true [] buffer = none
vsscanf false (f ∷ format) buffer =
    let directed = vsscanf true format buffer in
    let skipped = vsscanf false format buffer in if f == b'%' then directed else skipped
vsscanf true (f ∷ format) none =
    let skipped = vsscanf false format none in
    if f == b'd' || (f == b'c' || f == b's') then none else skipped
vsscanf true (f ∷ format) (some buffer) =
    let skipped = vsscanf false format (some buffer) in
    let number : Scanned = elim (scan_int buffer) [
      | none ↦ vsscanf false format (some buffer)
      | some (num, (n, rest)) ↦ also (integer num) n (vsscanf false format (some rest))
    ] in
    let one : Scanned = elim buffer [
      | [] ↦ also (character 0) 1 (vsscanf false format none)
      | c ∷ rest ↦ also (character c) 1 (vsscanf false format (some rest))
    ] in
    let (cells, rest) = scan_word buffer in
    let word = also (text cells) 1 (vsscanf false format (some rest)) in
    if f == b'd' then number else if f == b'c' then one else if f == b's' then word else skipped

unfoldable pub sscanf : (str format : Text) → Scanned
unfolding vsscanf
sscanf str format = vsscanf false format (some str)

-- `while ((c = getchar()) != '\n');`
unfoldable pub skip_line : Text → Option Text
skip_line [] = none
skip_line (c ∷ s) = let rest = skip_line s in if c == 10 then some s else rest

-- `%d` of vscanf from its first digit or sign on: the number, and the input behind the character that
-- ends it.
unfoldable pub type_digits : (num : ℕ) (negative : Bool) → Text → Option (ℤ × Text)
type_digits num negative [] = none
type_digits num negative (c ∷ s) =
    let digit = type_digits (num * 10 + c - b'0') negative s in
    let sign = type_digits num true s in
    if is_digit c
    then digit
    else if num == 0 && c == b'-'
    then sign
    else some (signed negative num, s)

-- `%s` of vscanf
unfoldable pub type_word : Text → Option (List (Option ℕ) × Text)
type_word [] = none
type_word (c ∷ s) =
    let rest : Option (List (Option ℕ) × Text) = elim (type_word s) [
      | none ↦ none
      | some (cells, left) ↦ some (some c ∷ cells, left)
    ] in
    if ends_word c then some (some 0 ∷ [], s) else rest

-- vscanf on the characters that getchar returns.
unfoldable pub vscanf : (percent : Bool) → (format input : Text) → Scanned
unfolding also skip_line type_digits type_word
vscanf false [] input = some ([], 0)
vscanf true [] input = none
vscanf false (f ∷ format) input =
    let directed = vscanf true format input in
    let skipped = vscanf false format input in if f == b'%' then directed else skipped
vscanf true (f ∷ format) [] =
    let skipped = vscanf false format [] in
    if f == b'd' || (f == b'c' || f == b's') then none else skipped
vscanf true (f ∷ format) (c ∷ input) =
    let skipped = vscanf false format (c ∷ input) in
    let ignored : Scanned = elim (skip_line input) [
      | none ↦ none
      | some rest ↦ vscanf false format rest
    ] in
    let number : Scanned = elim (type_digits 0 false (c ∷ input)) [
      | none ↦ none
      | some (num, rest) ↦ also (integer num) 1 (vscanf false format rest)
    ] in
    let one = also (character c) 1 (vscanf false format input) in
    let word : Scanned = elim (type_word (c ∷ input)) [
      | none ↦ none
      | some (cells, rest) ↦ also (text cells) 1 (vscanf false format rest)
    ] in
    if f == b'd'
    then (if c == b'-' || is_digit c then number else ignored)
    else if f == b'c'
    then one
    else if f == b's'
    then word
    else skipped
