-- ===== src/Actions/Sizing/Tiers.antt =====
-- crates/actions/src/sizing/indicator_tiered.rs: the tier that a value picks, whatever the order in
-- which the tiers are configured.
use galactic_trading_firm.Prelude.{◌≡◌, refl, true, Option, some, List, String}
use galactic_trading_firm.Prelude.Sorting.{find, sort_by, All, Agrees, IsBest}
use galactic_trading_firm.Prelude.Sorting.Order.{find-sort_by}
use galactic_trading_firm.F64.{F64, ◌≤?◌, IsNumber}
use galactic_trading_firm.F64.Laws.{IsOrdered}
use galactic_trading_firm.F64.Order.{le_of_not_lt}
use galactic_trading_firm.Actions.Sizing.{
  Tier, is_lower, new_tiered, reaches, multiplier_for, mult_or,
}

module _ {F : Type 0} ⦃f : F64 F⦄ where
  abbrev pub HasMin : Tier F → Type 0
  HasMin t = IsNumber t.min

  abbrev pub IsAbove : Tier F → Tier F → Type 0
  IsAbove a b = (b.min ≤? a.min) ≡ true

  -- `m` is the multiplier of a highest reached tier, or the fallback where none is reached
  pub record IsMultiplier (tiers : List (Tier F)) (v fallback m : F) : Type 0 where
    pub picked : Option (Tier F)
    pub best : IsBest IsAbove (reaches v) tiers picked
    pub same : m ≡ mult_or fallback picked

module _ {F : Type 0} ⦃f : F64 F⦄ (o : IsOrdered F) where
  is_lower-Agrees : Agrees (is_lower {F = F}) HasMin IsAbove
  is_lower-Agrees = record {
    swapped = λ x y h. o.le_of_lt x.min y.min h;
    kept = λ x y n m h. le_of_not_lt o x.min y.min n m h;
    trans = λ x y z h k. o.le_trans z.min y.min x.min k h;
  }

  -- For tiers whose bounds are numbers, in any order, a value gets the multiplier of a tier that it
  -- reaches and that no other reached tier exceeds; where it reaches no tier, the fallback.
  pub multiplier_for-IsMultiplier :
      (instance_id : String) (base_fraction v fallback : F) (tiers : List (Tier F))
      → All HasMin tiers
      → IsMultiplier tiers v fallback
          (multiplier_for (new_tiered instance_id base_fraction tiers fallback) (some v))
  unfolding multiplier_for new_tiered
  multiplier_for-IsMultiplier instance_id base_fraction v fallback tiers h = record {
    picked = find (reaches v) (sort_by is_lower tiers);
    best = find-sort_by is_lower-Agrees (λ x n. n) (reaches v) tiers h;
    same = refl;
  }
