-- ===== src/Base/Run.antt =====
-- Runs over a state: the monad of the parts of the kernel that follow pointers.

-- How a run ends: with a value and a state, at a wild pointer or a panic, or with its fuel used up.
pub data Run {ℓ} (S : Type ℓ) (A : Type ℓ) : Type ℓ where
  ok : A → S → Run S A
  fault : Run S A
  out_of_fuel : Run S A

abbrev pub Cmd {ℓ} : Type ℓ → Type ℓ → Type ℓ
Cmd S A = S → Run S A

module _ {ℓ} {S A : Type ℓ} where
  abbrev pub pure : A → Cmd S A
  pure = ok

  -- What a run leaves: it ends well, and its value and state satisfy `P`.
  abbrev pub Ensures : Run S A → (A → S → Type 0) → Type 0
  Ensures (ok a s) P = P a s
  Ensures fault P = ⊥
  Ensures out_of_fuel P = ⊥

module _ {ℓ} {S A B : Type ℓ} where
  -- What follows a run that ended well.
  abbrev pub chain : Run S A → (A → Cmd S B) → Run S B
  chain (ok a s) k = k a s
  chain fault k = fault
  chain out_of_fuel k = out_of_fuel

  infixl 5 ◌>>=◌ ◌>>◌
  abbrev pub ◌>>=◌ : Cmd S A → (A → Cmd S B) → Cmd S B
  c >>= k = λ s. chain (c s) k

  abbrev pub ◌>>◌ : Cmd S A → Cmd S B → Cmd S B
  c >> d = c >>= λ _. d

abbrev pub get {ℓ} : {S : Type ℓ} → Cmd S S
get s = ok s s

-- A weaker statement of what a run leaves.
pub Ensures-mono {ℓ} :
    {S A : Type ℓ} (r : Run S A) (P Q : A → S → Type 0)
    → ((a : A) (s : S) → P a s → Q a s)
    → Ensures r P
    → Ensures r Q
Ensures-mono (ok a s) P Q weaken h = weaken a s h
Ensures-mono fault P Q weaken h = h
Ensures-mono out_of_fuel P Q weaken h = h

-- Two runs one after the other.
pub Ensures-chain {ℓ} :
    {S A B : Type ℓ} (r : Run S A) (k : A → Cmd S B) (P : A → S → Type 0) (Q : B → S → Type 0)
    → Ensures r P
    → ((a : A) (s : S) → P a s → Ensures (k a s) Q)
    → Ensures (chain r k) Q
Ensures-chain (ok a s) k P Q h next = next a s h
Ensures-chain fault k P Q h next = absurd h
Ensures-chain out_of_fuel k P Q h next = absurd h
