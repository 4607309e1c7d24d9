-- ===== src/Console/Tests.antt =====
-- A window of 64 by 24 pixels.
use tp_so_grupo.Base.{refl, false, arith}
use tp_so_grupo.Base.Codes.{codes}
use tp_so_grupo.Console.{Screen, print_text}
use tp_so_grupo.Console.Inside.{IsPlaced, DrawnTo, print_text-DrawnTo}

abbrev start : Screen
start = record { font_size = 1; x = 56; y = 16; max_glyph_size_y = 8; dirty_line = false }

start-IsPlaced : IsPlaced 64 24 1 start
start-IsPlaced = record { font = refl; line = refl; fits = omega arith }

-- The second character does not fit in the last line, so the window scrolls.
print_example : DrawnTo 64 24 1 (IsPlaced 64 24 1) (print_text 64 24 0 (codes "ok\n") start)
print_example =
    print_text-DrawnTo 64 24 1 (omega arith) (omega arith) (omega arith) 0 (codes "ok\n") start
      (omega arith, omega arith, (omega arith, omega arith, (omega arith, omega arith, tt)))
      start-IsPlaced
