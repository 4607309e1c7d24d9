-- ===== src/Shell.antt =====
-- TP2-SO-2025/Userland/Shell/shell.c and some of the commands in TP2-SO-2025/Userland/Shell/commands. A command's
-- function is known by its name; what it does to the system is a list of effects.
pub mod Parse
pub mod Run
pub mod Filters
mod Tests
use tp_so_grupo.Base.{
  is_zero, ℕ, List, [], ◌∷◌, Bool, true, false, Option, none, some, ◌==◌, if◌then◌else◌, ℤ, pos,
  negsuc,
}
use tp_so_grupo.Base.Codes.{codes}
use tp_so_grupo.Strings.{Text}
use tp_so_grupo.Libc.Strings.{strcmp}

pub record Command : Type 0 where
  pub name : Text
  pub is_built_in : Bool

abbrev pub external : Text → Command
external n = record { name = n; is_built_in = false }

abbrev built_in : Text → Command
built_in n = record { name = n; is_built_in = true }

-- The table, in its order.
abbrev pub commands : List Command
commands =
    external (codes "block")
    ∷ external (codes "cat")
    ∷ external (codes "clear")
    ∷ external (codes "echo")
    ∷ built_in (codes "exit")
    ∷ external (codes "help")
    ∷ built_in (codes "man")
    ∷ external (codes "test_mm")
    ∷ external (codes "test_prio")
    ∷ external (codes "test_processes")
    ∷ external (codes "test_sync")
    ∷ external (codes "ps")
    ∷ external (codes "loop")
    ∷ external (codes "kill")
    ∷ external (codes "nice")
    ∷ external (codes "mem")
    ∷ external (codes "wc")
    ∷ external (codes "filter")
    ∷ external (codes "mvar")
    ∷ external (codes "font")
    ∷ []

-- `argc` is the length of `argv`; `argv[0]` is the name.
pub record ParsedCommand : Type 0 where
  pub name : Text
  pub argv : List Text
  pub is_built_in : Bool

-- `strcmp(s, t) == 0`
unfoldable pub same : Text → Text → Bool
same s t = is_zero (strcmp s t)

-- The loop over the table.
unfoldable pub find_command : Text → List Command → Option Command
unfolding same
find_command name [] = none
find_command name (c ∷ cs) =
    let rest = find_command name cs in if same c.name name then some c else rest
