-- ===== src/Shell/Filters.antt =====
-- Some of the commands in TP2-SO-2025/Userland/Shell/commands: echo.c, cat.c, wc.c, filter.c, kill.c, nice.c, block.c. A command gets
-- `argv`, whose first entry is its name, and what getchar returns up to the end of the file.
pub mod Laws
use tp_so_grupo.Base.{
  is_zero, ℕ, zero, suc, ◌+◌, List, [], ◌∷◌, ◌++◌, Bool, true, false, ◌&&◌, ◌||◌, not, Option, none,
  some, ◌==◌, ltb, if◌then◌else◌, ℤ, pos, negsuc,
}
use tp_so_grupo.Strings.{Text}
use tp_so_grupo.Libc.Print.{Output, Arg, string, int, char, byte, before, vfprintf}
use tp_so_grupo.Libc.Scan.{integer, character, text, sscanf}
use tp_so_grupo.Base.Codes.{codes}

-- The macro IS_VOWEL.
abbrev pub is_vowel : ℕ → Bool
is_vowel c =
    c == b'a'
    || (c == b'e'
        || (c == b'i'
            || (c == b'o'
                || (c == b'u'
                    || (c == b'A' || (c == b'E' || (c == b'I' || (c == b'O' || c == b'U'))))))))

-- The loop over one text: `putchar` of what is no vowel.
unfoldable pub filter_text : Text → Text
filter_text [] = []
filter_text (c ∷ s) = let rest = filter_text s in if is_vowel c then rest else c ∷ rest

-- The loop over the arguments behind the name.
unfoldable pub filter_args : List Text → Text
unfolding filter_text
filter_args [] = []
filter_args (a ∷ args) =
    let rest = filter_args args in
    elim args [ [] ↦ filter_text a | b ∷ more ↦ filter_text a ++ b' ' ∷ rest ]

-- The loop over the input. A line break is written as well; the one at the end of the file comes
-- whatever was printed.
unfoldable pub filter_input : Text → Text
filter_input [] = 10 ∷ []
filter_input (c ∷ s) =
    let rest = filter_input s in
    if c == 10 then 10 ∷ rest else if is_vowel c then rest else c ∷ rest

unfoldable pub filter : (argv : List Text) → (input : Text) → Text
unfolding filter_args filter_input
filter [] input = filter_input input
filter (name ∷ []) input = filter_input input
filter (name ∷ a ∷ args) input = filter_args (a ∷ args) ++ 10 ∷ []

-- The loop of wc: the line breaks.
unfoldable pub count_lines : (lines : ℕ) → Text → ℕ
count_lines lines [] = lines
count_lines lines (c ∷ s) =
    let break = count_lines (lines + 1) s in
    let other = count_lines lines s in if c == 10 then break else other

-- The number that wc prints for its input.
unfoldable pub wc_lines : Text → ℕ
unfolding count_lines
wc_lines [] = 0
wc_lines (c ∷ s) = let lines = count_lines 0 (c ∷ s) in if lines == 0 then 1 else lines

unfoldable pub wc : (argv : List Text) → (input : Text) → Option (List Output)
unfolding wc_lines vfprintf
wc [] input =
    vfprintf (codes "Se registraron %d lineas por stdin\n") (int (pos (wc_lines input)) ∷ [])
wc (name ∷ []) input =
    vfprintf (codes "Se registraron %d lineas por stdin\n") (int (pos (wc_lines input)) ∷ [])
wc (name ∷ a ∷ args) input = vfprintf (codes "Se registro 1 linea por stdin\n") []

-- One call of printf, and what comes after it.
abbrev pub followed : Option (List Output) → Option (List Output) → Option (List Output)
followed none rest = none
followed (some out) rest = before out rest

unfoldable pub cat_args : List Text → Option (List Output)
unfolding vfprintf
cat_args [] = vfprintf (codes "\n") []
cat_args (a ∷ args) = followed (vfprintf (codes "%s ") (string a ∷ [])) (cat_args args)

unfoldable pub cat_input : Text → Option (List Output)
unfolding vfprintf
cat_input [] = some []
cat_input (c ∷ s) = followed (vfprintf (codes "%c") (char c ∷ [])) (cat_input s)

unfoldable pub cat : (argv : List Text) → (input : Text) → Option (List Output)
unfolding cat_args cat_input
cat [] input = cat_input input
cat (name ∷ []) input = cat_input input
cat (name ∷ a ∷ args) input = cat_args (a ∷ args)

unfoldable pub echo_args : List Text → Option (List Output)
echo_args [] = vfprintf (codes "\n") []
echo_args (a ∷ args) =
    let rest = echo_args args in
    followed (vfprintf (codes "%s") (string a ∷ []))
      (elim args [ [] ↦ rest | b ∷ more ↦ followed (vfprintf (codes " ") []) rest ])

-- What echo prints, and its result.
unfoldable pub echo : (argv : List Text) → Option (List Output) × ℤ
unfolding echo_args
echo [] = (vfprintf (codes "Cantidad de parametros invalida, uso: echo <string>\n") [], negsuc 0)
echo (name ∷ []) =
    (vfprintf (codes "Cantidad de parametros invalida, uso: echo <string>\n") [], negsuc 0)
echo (name ∷ a ∷ args) = (echo_args (a ∷ args), pos 0)

-- What kill, nice and block ask of the kernel.
pub data Request : Type 0 where
  usage invalid_pid invalid_value : Request
  kill_process block_process : ℤ → Request
  set_process_priority : ℤ → ℤ → Request

-- A variable that is 0 and that `sscanf(str, "%d", &x)` may set, and the result of the call.
unfoldable pub sscanf_int : Text → ℤ × ℕ
unfolding sscanf
sscanf_int str = elim (sscanf str (codes "%d")) [
  | none ↦ (pos 0, 0)
  | some ([], n) ↦ (pos 0, n)
  | some (integer x ∷ more, n) ↦ (x, n)
  | some (character x ∷ more, n) ↦ (pos 0, n)
  | some (text x ∷ more, n) ↦ (pos 0, n)
]

abbrev is_pid : ℤ → Bool
is_pid (pos n) = not (n == 0)
is_pid (negsuc n) = false

-- `new_prio < 0 || new_prio > 3`
abbrev is_bad_priority : ℤ → Bool
is_bad_priority (pos n) = ltb 3 n
is_bad_priority (negsuc n) = true

unfoldable pub kill : (argv : List Text) → Request
unfolding sscanf_int
kill (name ∷ arg ∷ []) =
    let (pid, n) = sscanf_int arg in if is_pid pid then kill_process pid else invalid_pid
kill argv = usage

unfoldable pub block : (argv : List Text) → Request
unfolding sscanf_int
block (name ∷ arg ∷ []) =
    let (pid, n) = sscanf_int arg in if is_pid pid then block_process pid else invalid_pid
block argv = usage

unfoldable pub nice : (argv : List Text) → Request
unfolding sscanf_int
nice (name ∷ arg ∷ value ∷ []) =
    let (pid, n) = sscanf_int arg in
    let (new_prio, m) = sscanf_int value in
    if not (n == 1) || not (is_pid pid)
    then invalid_pid
    else if not (m == 1) || is_bad_priority new_prio
    then invalid_value
    else set_process_priority pid new_prio
nice argv = usage
