-- ===== src/Libc/Tests.antt =====
-- TP2-SO-2025/Userland/libc on concrete texts.
use tp_so_grupo.Base.{◌≡◌, refl, negsuc, [], ◌∷◌, ◌++◌, some, true, false, arith}
use tp_so_grupo.Base.Codes.{codes}
use mathlib.Core.Option as Options
use tp_so_grupo.Libc.Numbers.{atoi, itoa, write_value, write_digits}
use tp_so_grupo.Libc.Numbers.RoundTrip.{itoa-atoi}
use tp_so_grupo.Libc.Print.{vfprintf, before, bytes, int}
use tp_so_grupo.Libc.Print.Literal.{vfprintf-decimal}
use tp_so_grupo.Libc.Scan.{vsscanf, also, integer}
use tp_so_grupo.Libc.Scan.Number.{vsscanf-itoa}

itoa-atoi_example : Options.map atoi (itoa (negsuc 2026) true 10) ≡ some (negsuc 2026)
itoa-atoi_example = itoa-atoi (negsuc 2026) (omega arith)

itoa_example : itoa (negsuc 41) true 10 ≡ some (codes "-42")
unfolding itoa write_value write_digits
itoa_example = refl

decimal_example :
    vfprintf (codes "PID: " ++ codes "%d\n") (int (negsuc 41) ∷ [])
    ≡ before (bytes (codes "PID: " ++ codes "-42")) (vfprintf (codes "\n") [])
decimal_example =
    vfprintf-decimal (codes "PID: ") (codes "-42") (codes "\n") (negsuc 41) []
      (
        omega arith,
        omega arith,
        (
          omega arith,
          omega arith,
          (omega arith, omega arith, (omega arith, omega arith, (omega arith, omega arith, tt))),
        ),
      )
      (omega arith) itoa_example

scan_example :
    vsscanf false (codes "%d%c") (some (codes "-42" ++ codes " x"))
    ≡ also (integer (negsuc 41)) 1 (vsscanf false (codes "%c") (some (codes " x")))
scan_example =
    vsscanf-itoa (negsuc 41) (codes "-42") (codes " x") (codes "%c") (omega arith) itoa_example refl
