-- ===== src/Keyboard/Tests.antt =====
-- The keyboard on concrete keys.
use tp_so_grupo.Base.{
  ◌≡◌, refl, ℕ, some, none, true, false, arith, ◌<◌, replicate, length-replicate,
}
use tp_so_grupo.Base.Codes.{codes}
use tp_so_grupo.Keyboard.{Keyboard, add_tab}
use tp_so_grupo.Keyboard.Ring.{IsKeyboard, type_all, read_all, read_all-type_all}
use tp_so_grupo.Keyboard.Tab.{Ends, add_tab-Ends, add_tab-none}

abbrev at : (to_read to_write : ℕ) → Keyboard
at r w = record {
  shift = false;
  caps_lock = false;
  control = false;
  buffer = replicate 1024 0;
  to_write = w;
  to_read = r;
  options = record { show = false; await_return = false; modify = true };
}

at-IsKeyboard : (r w : ℕ) → r < 1024 → w < 1024 → IsKeyboard (at r w)
at-IsKeyboard r w h l = record {
  storage = length-replicate {A = ℕ} 1024 0;
  read_in = h;
  write_in = l;
}

-- From index 1022 on the characters go round the end of the buffer.
type_example : read_all 4 (type_all (codes "help") (at 1022 1022)) ≡ some (codes "help")
type_example =
    read_all-type_all (codes "help") (at 1022 1022)
      (at-IsKeyboard 1022 1022 (omega arith) (omega arith)) (omega arith)

tab_example : Ends (add_tab 1024 (λ n. false) 0 false (at 0 3))
tab_example =
    add_tab-Ends 1024 (λ n. false) false (at 0 3) (at-IsKeyboard 0 3 (omega arith) (omega arith))
      refl (omega arith)

stuck_example : add_tab 5000 (λ n. false) 0 false (at 1 3) ≡ none
stuck_example =
    add_tab-none 5000 (λ n. false) 0 false (at 1 3) (at-IsKeyboard 1 3 (omega arith) (omega arith))
      (omega arith) (λ m. refl)
