-- ===== src/Keyboard/Handlers.antt =====
-- `KeyFnMap` of TP2-SO-2025/Kernel/drivers/keyboard.c: the handlers of the keys, by scancode. A handler is a number,
-- and none is NULL.
use tp_so_grupo.Base.{
  ℕ, ◌==◌, ◌≡◌, refl, leb, ltb, Bool, true, false, not, ◌&&◌, ◌||◌, Option, none, some,
  if◌then◌else◌,
}
use tp_so_grupo.Keyboard.Scancodes.{is_keycode}

pub record RegisteredKey : Type 0 where
  pub registered_from_kernel : Bool
  pub fn : Option ℕ

abbrev pub is_none : Option ℕ → Bool
is_none none = true
is_none (some f) = false

-- The result says whether the handler was put in.
unfoldable pub register_special_key :
    (scancode : ℕ) (fn : Option ℕ) (from_kernel : Bool)
    → (ℕ → RegisteredKey)
    → Bool × (ℕ → RegisteredKey)
register_special_key scancode fn from_kernel keys =
    if is_keycode scancode && (from_kernel || is_none (keys scancode).fn)
    then (
      true,
      λ i.
          if i == scancode
          then record { registered_from_kernel = from_kernel; fn = fn }
          else keys i,
    )
    else (false, keys)

-- The loops go over the keys from `ESCAPE_KEY` up to the one before `F12_KEY`, each on its own entry.
abbrev pub is_swept : (ℕ → RegisteredKey) → ℕ → Bool
is_swept keys i = leb 0x01 i && (ltb i 0x58 && not (keys i).registered_from_kernel)

-- The handlers of the user programs go into `map`.
unfoldable pub clear_key_fn_map_non_kernel :
    (ℕ → RegisteredKey) → (map : ℕ → Option ℕ) → (ℕ → RegisteredKey) × (ℕ → Option ℕ)
clear_key_fn_map_non_kernel keys map = (
  (λ i. if is_swept keys i then record { registered_from_kernel = false; fn = none } else keys i),
  (λ i. if is_swept keys i then (keys i).fn else map i),
)

unfoldable pub restore_key_fn_map_non_kernel :
    (ℕ → RegisteredKey) → (map : ℕ → Option ℕ) → ℕ → RegisteredKey
restore_key_fn_map_non_kernel keys map i =
    if is_swept keys i then record { registered_from_kernel = false; fn = map i } else keys i

abbrev cleared : Bool → RegisteredKey → RegisteredKey
cleared swept r = if swept then record { registered_from_kernel = false; fn = none } else r

back :
    (a b k : Bool) (f m : Option ℕ)
    → (if a
          && (b
              && not
                  (cleared
                    (a && (b && not k))
                    (record { registered_from_kernel = k; fn = f })).registered_from_kernel)
        then record { registered_from_kernel = false; fn = if a && (b && not k) then f else m }
        else cleared (a && (b && not k)) (record { registered_from_kernel = k; fn = f }))
      ≡ record { registered_from_kernel = k; fn = f }
back true true true f m = refl
back true true false f m = refl
back true false k f m = refl
back false b k f m = refl

-- What was cleared comes back.
restore-clear :
    (keys : ℕ → RegisteredKey) (map : ℕ → Option ℕ) (i : ℕ)
    → restore_key_fn_map_non_kernel
        (clear_key_fn_map_non_kernel keys map).0
        (clear_key_fn_map_non_kernel keys map).1
        i
      ≡ keys i
unfolding restore_key_fn_map_non_kernel clear_key_fn_map_non_kernel
restore-clear keys map i =
    back (leb 0x01 i) (ltb i 0x58) (keys i).registered_from_kernel (keys i).fn (map i)
