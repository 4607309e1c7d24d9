-- ===== src/Keyboard/Tab.antt =====
-- The loop of `addCharToBuffer` in TP2-SO-2025/Kernel/drivers/keyboard.c.
use tp_so_grupo.Base.{
  ℕ, zero, suc, ◌+◌, ◌-◌, ◌<◌, ◌≤◌, ◌≡◌, refl, Bool, true, false, ◌||◌, Option, none, some, List,
  ◌++◌, arith, Bool-cases, inl, inr, ◌==◌,
}
use tp_so_grupo.Keyboard.{Keyboard, KeyEffect, buffer_size, is_full, add_one, add_tab}
use tp_so_grupo.Keyboard.Ring.{IsKeyboard, add_one-IsKeyboard}

-- Does the loop end?
abbrev pub Ends : Option (List KeyEffect × Keyboard) → Type 0
Ends o = (r : List KeyEffect × Keyboard) × (o ≡ some r)

add_tab-next :
    (fuel : ℕ) (aligned : ℕ → Bool) (n : ℕ) (show : Bool) (k : Keyboard)
    → Ends (add_tab fuel aligned (suc n) show (add_one b' ' show k).1)
    → Ends (add_tab (suc fuel) aligned n show k)
unfolding add_tab
add_tab-next fuel aligned n show k ((more, l), e) =
    elim (Bool-cases (is_full (add_one b' ' show k).1 || aligned (suc n))) [
      | inl z ↦ (add_one b' ' show k, rw (add_tab, z))
      | inr z ↦ (((add_one b' ' show k).0 ++ more, l), rw (add_tab, z, e))
    ]

add_tab-full :
    (fuel : ℕ) (aligned : ℕ → Bool) (n : ℕ) (show : Bool) (k : Keyboard)
    → is_full (add_one b' ' show k).1 ≡ true
    → Ends (add_tab (suc fuel) aligned n show k)
unfolding add_tab
add_tab-full fuel aligned n show k z = (add_one b' ' show k, rw (add_tab, z))

-- From an index before the last one the buffer fills up.
add_tab-before :
    (fuel : ℕ) (aligned : ℕ → Bool) (n : ℕ) (show : Bool) (k : Keyboard)
    → k.to_read ≡ 0
    → k.to_write < buffer_size - 1
    → buffer_size - 1 ≤ fuel + k.to_write
    → Ends (add_tab fuel aligned n show k)
unfolding add_one
add_tab-before zero aligned n show k r w h = ground arith
add_tab-before (suc fuel) aligned n show k r w h =
    elim (Bool-cases (k.to_write == buffer_size - 2)) [
      | inl z ↦ add_tab-full fuel aligned n show k (ground arith)
      | inr z ↦ add_tab-next fuel aligned n show k (
          add_tab-before fuel aligned (suc n) show (add_one b' ' show k).1 r (ground arith)
            (ground arith))
    ]

-- For a well-formed keyboard buffer whose reading index is 0, 1024 rounds are enough for the loop
-- of a tab to end, whatever the screen positions.
pub add_tab-Ends :
    (fuel : ℕ) (aligned : ℕ → Bool) (show : Bool) (k : Keyboard)
    → IsKeyboard k
    → k.to_read ≡ 0
    → buffer_size ≤ fuel
    → Ends (add_tab fuel aligned 0 show k)
unfolding add_one
add_tab-Ends zero aligned show k v r h = ground arith
add_tab-Ends (suc fuel) aligned show k v r h = elim (Bool-cases (k.to_write == buffer_size - 1)) [
  | inl z ↦
      add_tab-next fuel aligned 0 show k
        (add_tab-before fuel aligned 1 show (add_one b' ' show k).1 r (ground arith) (ground arith))
  | inr z ↦ add_tab-before (suc fuel) aligned 0 show k r (ground arith) (omega arith)
]

not_full :
    (show : Bool) (k : Keyboard)
    → IsKeyboard k
    → 0 < k.to_read
    → is_full (add_one b' ' show k).1 ≡ false
unfolding add_one
not_full show k v r = ground arith

-- When something was read from a well-formed keyboard buffer, so that the reading index is above 0,
-- and no position is a multiple of the tab's width, the loop for a tab uses up any fuel.
pub add_tab-none :
    (fuel : ℕ) (aligned : ℕ → Bool) (n : ℕ) (show : Bool) (k : Keyboard)
    → IsKeyboard k
    → 0 < k.to_read
    → ((m : ℕ) → aligned m ≡ false)
    → add_tab fuel aligned n show k ≡ none
unfolding add_tab
add_tab-none zero aligned n show k v r h = refl
add_tab-none (suc fuel) aligned n show k v r h =
    let free : is_full (add_one b' ' show k).1 ≡ false = not_full show k v r in
    rw (
      add_tab,
      free,
      h (suc n),
      add_tab-none fuel aligned (suc n) show (add_one b' ' show k).1
          (add_one-IsKeyboard b' ' show k v) r h,
    )
