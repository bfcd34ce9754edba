-- ===== src/F64/Defs.antt =====
-- The interface of `f64`, and the methods of the standard library that are made of it.
use galactic_trading_firm.Prelude.{ℕ, ◌≡◌, Bool, true, not, List, [], ◌∷◌, if◌then◌else◌}

pub record F64 (F : Type 0) : Type 0 where
  -- an integer literal
  pub of_ℕ : ℕ → F
  pub add : F → F → F
  pub sub : F → F → F
  pub mul : F → F → F
  pub div : F → F → F
  pub neg : F → F
  pub abs : F → F
  pub floor : F → F
  pub exp : F → F
  pub powf : F → F → F
  pub lt : F → F → Bool
  pub le : F → F → Bool
  pub is_finite : F → Bool
  pub infinity : F
  pub neg_infinity : F
  pub epsilon : F

module _ {F : Type 0} ⦃f : F64 F⦄ where
  infixl 65 ◌⊕◌ ◌⊖◌
  infixl 70 ◌⊗◌ ◌⊘◌
  infix 50 ◌<?◌ ◌≤?◌
  abbrev pub ◌⊕◌ : F → F → F
  a ⊕ b = f.add a b

  abbrev pub ◌⊖◌ : F → F → F
  a ⊖ b = f.sub a b

  abbrev pub ◌⊗◌ : F → F → F
  a ⊗ b = f.mul a b

  abbrev pub ◌⊘◌ : F → F → F
  a ⊘ b = f.div a b

  abbrev pub ◌<?◌ : F → F → Bool
  a <? b = f.lt a b

  abbrev pub ◌≤?◌ : F → F → Bool
  a ≤? b = f.le a b

  abbrev pub lit : ℕ → F
  lit n = f.of_ℕ n

  -- NaN is the value that is not `<=` itself.
  abbrev pub is_nan : F → Bool
  is_nan a = not (f.le a a)

  -- `f64::max` and `f64::min`: of a number and NaN, the number.
  abbrev pub max : F → F → F
  max a b = if is_nan a then b else if a <? b then b else a

  abbrev pub min : F → F → F
  min a b = if is_nan a then b else if b <? a then b else a

  -- `f64::clamp`, at bounds with `low <= high`.
  abbrev pub clamp : F → F → F → F
  clamp low high a = if a <? low then low else if high <? a then high else a

  -- A number that is not NaN.
  abbrev pub IsNumber : F → Type 0
  IsNumber a = f.le a a ≡ true

  -- `iter().sum()`
  unfoldable pub sum : List F → F
  sum xs = go (lit 0) xs
    where
      go : F → List F → F
      go acc [] = acc
      go acc (x ∷ xs) = go (acc ⊕ x) xs
