-- ===== src/Mvar/Tests.antt =====
-- A byte that goes through the shared variable of TP2-SO-2025/Userland/Shell/commands/mvar.c.
use tp_so_grupo.Base.{refl, true, pos, [], ◌∷◌}
use tp_so_grupo.Mvar.{
  putting, posting, getting, resetting, System, mvar_init, mvar_put, mvar_get, access, Reach, start,
  later, put, get, go_on,
}
use tp_so_grupo.Mvar.History.{IsExclusive, Reach-IsExclusive}

-- A reader stands before its reset, with a byte that was put before.
abbrev reading : System
reading = record {
  empty = 0;
  full = 0;
  value = b'A';
  inside = resetting b'A' ∷ [];
  leaving = [];
  sent = b'A' ∷ [];
  taken = [];
  received = [];
}

reading-Reach : Reach reading
unfolding mvar_init mvar_put mvar_get access
reading-Reach =
    later
      (later
        (later
          (later (later (start (pos 2) (pos 3) true refl) (put b'A' refl))
            (go_on 0 (putting b'A') refl refl))
          (go_on 0 (posting b'A') refl refl))
        (get refl))
      (go_on 0 getting refl refl)

handover_example : IsExclusive reading
handover_example = Reach-IsExclusive reading-Reach
