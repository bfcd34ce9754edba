-- ===== src/F64/Laws.antt =====
-- Laws of `f64`. `IsOrdered` and `IsSigned` hold of every IEEE 754 implementation, NaN included.
-- `IsExact` are laws of a set of amounts on which a sum of two rounds nothing.
use galactic_trading_firm.Prelude.{◌≡◌, true, false, not}
use galactic_trading_firm.F64.Defs.{F64, lit, ◌⊕◌, ◌⊖◌, ◌<?◌, ◌≤?◌, IsNumber}

pub record IsOrdered (F : Type 0) ⦃f : F64 F⦄ : Type 0 where
  pub number_of_le : (a b : F) → (a ≤? b) ≡ true → IsNumber a × IsNumber b
  pub le_trans : (a b c : F) → (a ≤? b) ≡ true → (b ≤? c) ≡ true → (a ≤? c) ≡ true
  pub lt-eq-not-le : (a b : F) → IsNumber a → IsNumber b → (a <? b) ≡ not (b ≤? a)
  pub le_of_lt : (a b : F) → (a <? b) ≡ true → (a ≤? b) ≡ true
  pub le_of_not_le : (a b : F) → IsNumber a → IsNumber b → (a ≤? b) ≡ false → (b ≤? a) ≡ true

-- Negation turns the sign bit, and with it the order.
pub record IsSigned (F : Type 0) ⦃f : F64 F⦄ : Type 0 where
  pub neg_neg : (a : F) → f.neg (f.neg a) ≡ a
  pub le-neg : (a b : F) → (f.neg a ≤? f.neg b) ≡ (b ≤? a)
  -- minus zero compares as zero
  pub zero-neg : (a : F) → (f.neg (lit 0) ≤? a) ≡ (lit 0 ≤? a)

module _ {F : Type 0} ⦃f : F64 F⦄ where
  abbrev pub IsFinite : F → Type 0
  IsFinite a = f.is_finite a ≡ true

-- The amounts are a set of numbers, such as the multiples of one power of two up to a bound.
pub record IsExact (F : Type 0) (IsAmount : F → Type 0) ⦃f : F64 F⦄ : Type 0 where
  pub add-sub_cancel : (a b : F) → IsAmount a → IsAmount b → (a ⊕ b) ⊖ b ≡ a
  pub sub-add_cancel : (a b : F) → IsAmount a → IsAmount b → (a ⊖ b) ⊕ b ≡ a
