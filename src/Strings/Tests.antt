-- ===== src/Strings/Tests.antt =====
-- TP2-SO-2025/Kernel/strings.c on concrete texts.
use tp_so_grupo.Base.{ℕ, ◌≡◌, ◌≢◌, ◌⊎◌, ◌∷◌, true}
use tp_so_grupo.Strings.{Text, made, num_to_str}
use tp_so_grupo.Strings.Decimal.{number, AreDigits, num_to_str-number}

number_example :
    (c : ℕ) × (s : Text) × (num_to_str true 2048 ≡ made (c ∷ s))
    × AreDigits (c ∷ s)
    × (number (c ∷ s) ≡ 2048)
    × ((◌≡◌ {A = ℕ} 2048 0) ⊎ (c ≢ b'0'))
number_example = num_to_str-number 2048
