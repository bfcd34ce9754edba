-- ===== src/Prelude/Decides.antt =====
-- What a Boolean test decides.
use galactic_trading_firm.Prelude.Tests.{leb, ltb, Bool-cases}
use Prim.Native.Nat.{ℕ, ◌≤◌, ◌<◌}
use mathlib.Core.Path.{◌≡◌, refl}
use mathlib.Core.Logic.{inl, inr}
use mathlib.Core.Bool.{Bool, true, false, ◌&&◌}
use native.Mathlib.Omega.{arith}

-- a Boolean test and what it tests
abbrev pub Decides : Bool → Type 0 → Type 0
Decides true P = P
Decides false P = P → ⊥

pub both_lem : (a b : Bool) (P Q : Type 0) → Decides a P → Decides b Q → Decides (a && b) (P × Q)
both_lem true true P Q p q = (p, q)
both_lem true false P Q p q = λ h. q h.1
both_lem false b P Q p q = λ h. p h.0

pub equal_lem : (b : Bool) → Decides b (b ≡ true)
equal_lem true = refl
equal_lem false = λ h. cc

pub leb_lem : (m n : ℕ) → Decides (leb m n) (m ≤ n)
leb_lem m n = elim (Bool-cases (leb m n)) [
  | inl e ↦ rw e (ground arith)
  | inr e ↦ rw e (λ h. ground arith)
]

pub ltb_lem : (m n : ℕ) → Decides (ltb m n) (m < n)
ltb_lem m n = elim (Bool-cases (ltb m n)) [
  | inl e ↦ rw e (ground arith)
  | inr e ↦ rw e (λ h. ground arith)
]
