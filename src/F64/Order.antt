-- ===== src/F64/Order.antt =====
-- `max` and `min` of `f64` in the order of floating-point numbers.
use galactic_trading_firm.Prelude.{
  ◌≡◌, refl, sym, ◌∙◌, Bool, true, false, not, arith, if◌then◌else◌, ◌⊎◌, inl, inr,
}
use galactic_trading_firm.F64.Defs.{F64, ◌<?◌, ◌≤?◌, max, min, IsNumber}
use galactic_trading_firm.F64.Laws.{IsOrdered}

of_not-false : (b : Bool) → false ≡ not b → b ≡ true
of_not-false true h = refl
of_not-false false h = ground arith

-- the extreme of a longer run, by the step that is taken first
pub first_extreme :
    {F R : Type 0} (h m a b : F) → ((m ≡ a) ⊎ (m ≡ b)) → ((h ≡ m) ⊎ R) → (h ≡ a) ⊎ ((h ≡ b) ⊎ R)
first_extreme h m a b step (inr r) = inr (inr r)
first_extreme h m a b (inl old) (inl e) = inl (e ∙ old)
first_extreme h m a b (inr new) (inl e) = inr (inl (e ∙ new))

module _ {F : Type 0} ⦃f : F64 F⦄ where
  pub max-cases : (a b : F) → (max a b ≡ a) ⊎ (max a b ≡ b)
  max-cases a b = ground arith

  pub min-cases : (a b : F) → (min a b ≡ a) ⊎ (min a b ≡ b)
  min-cases a b = ground arith

module _ {F : Type 0} ⦃f : F64 F⦄ (o : IsOrdered F) where
  pub pick_max : (b : Bool) (x y : F) → IsNumber x → x <? y ≡ b → (x ≤? (if b then y else x)) ≡ true
  pick_max true x y h lt = o.le_of_lt x y lt
  pick_max false x y h lt = h

  pub pick_min : (b : Bool) (x y : F) → IsNumber x → y <? x ≡ b → ((if b then y else x) ≤? x) ≡ true
  pick_min true x y h lt = o.le_of_lt y x lt
  pick_min false x y h lt = h

  pub max-le : (a b : F) → IsNumber a → (a ≤? max a b) ≡ true
  max-le a b h = rw (h) (pick_max (a <? b) a b h refl)

  pub min-le : (a b : F) → IsNumber a → (min a b ≤? a) ≡ true
  min-le a b h = rw (h) (pick_min (b <? a) a b h refl)

  pub le_of_not_lt : (a b : F) → IsNumber a → IsNumber b → (a <? b) ≡ false → (b ≤? a) ≡ true
  le_of_not_lt a b ha hb h = of_not-false (b ≤? a) (sym h ∙ o.lt-eq-not-le a b ha hb)

  pub pick_max_right :
      (b : Bool) (x y : F)
      → IsNumber x
      → IsNumber y
      → (x <? y) ≡ b
      → (y ≤? (if b then y else x)) ≡ true
  pick_max_right true x y hx hy lt = hy
  pick_max_right false x y hx hy lt = le_of_not_lt x y hx hy lt

  pub pick_min_right :
      (b : Bool) (x y : F)
      → IsNumber x
      → IsNumber y
      → (y <? x) ≡ b
      → ((if b then y else x) ≤? y) ≡ true
  pick_min_right true x y hx hy lt = hy
  pick_min_right false x y hx hy lt = le_of_not_lt y x hy hx lt

  pub le-max : (a b : F) → IsNumber a → IsNumber b → (b ≤? max a b) ≡ true
  le-max a b ha hb = rw ha (pick_max_right (a <? b) a b ha hb refl)

  pub min-le_right : (a b : F) → IsNumber a → IsNumber b → (min a b ≤? b) ≡ true
  min-le_right a b ha hb = rw ha (pick_min_right (b <? a) a b ha hb refl)
