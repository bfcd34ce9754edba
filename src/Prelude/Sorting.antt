-- ===== src/Prelude/Sorting.antt =====
-- The standard library's stable sort and its search of a slice.
pub mod Order
use galactic_trading_firm.Prelude.Tests.{if◌then◌else◌, Bool-cases}
use mathlib.Core.Path.{◌≡◌, refl, sym, ◌∙◌, subst}
use mathlib.Core.Logic.{◌⊎◌, inl, inr, Lift}
use mathlib.Core.Bool.{Bool, true, false}
use mathlib.Core.Option.{Option, none, some}
use mathlib.Core.List.{List, [], ◌∷◌}

module _ {ℓ} {A : Type ℓ} where
  -- `sort_by`, where `after a b` says that `a` compares as greater than `b`: equal ones keep their order
  unfoldable pub insert_by : (A → A → Bool) → A → List A → List A
  insert_by after x [] = x ∷ []
  insert_by after x (y ∷ ys) =
      let rest = insert_by after x ys in if after x y then y ∷ rest else x ∷ y ∷ ys

  unfoldable pub sort_by : (A → A → Bool) → List A → List A
  sort_by after [] = []
  sort_by after (x ∷ xs) = insert_by after x (sort_by after xs)

  -- `iter().find(..)`
  unfoldable pub find : (A → Bool) → List A → Option A
  find p [] = none
  find p (x ∷ xs) = let later = find p xs in if p x then some x else later

  abbrev pub All : (A → Type 0) → List A → Type 0
  All P [] = Unit
  All P (x ∷ xs) = P x × All P xs

  abbrev pub IsIn : A → List A → Type ℓ
  IsIn x [] = Lift ⊥
  IsIn x (y ∷ ys) = (x ≡ y) ⊎ IsIn x ys

  abbrev pub IsSorted : (A → A → Type 0) → List A → Type 0
  IsSorted R [] = Unit
  IsSorted R (x ∷ xs) = All (R x) xs × IsSorted R xs

  -- a sort by `after` on the elements where `R` goes with it
  pub record Agrees (after : A → A → Bool) (N : A → Type 0) (R : A → A → Type 0) : Type ℓ where
    pub swapped : (x y : A) → after x y ≡ true → R y x
    pub kept : (x y : A) → N x → N y → after x y ≡ false → R x y
    pub trans : (x y z : A) → R x y → R y z → R x z

  -- the first match in the order `R`, or that nothing matches
  abbrev pub IsBest : (A → A → Type 0) → (A → Bool) → List A → Option A → Type ℓ
  IsBest R p xs none = Lift {0, ℓ} (All (λ x. p x ≡ false) xs)
  IsBest R p xs (some t) = IsIn t xs × (p t ≡ true) × All (λ x. p x ≡ true → R t x) xs
