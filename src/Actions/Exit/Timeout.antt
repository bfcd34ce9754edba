-- ===== src/Actions/Exit/Timeout.antt =====
-- crates/actions/src/exit/max_hold_timeout.rs: how long a position may be held. Sums and differences
-- of `i64` wrap around, as in a release build.
use mathlib.Core.List.{reverse}
use galactic_trading_firm.Prelude.{
  ◌≡◌, refl, Option, none, some, Bool, true, false, ◌&&◌, ◌||◌, List, [], ◌∷◌, if◌then◌else◌,
}
use galactic_trading_firm.Prelude.Int.{ℤ, pos, ltb_ℤ, add_i64, sub_i64, max_ℤ}
use galactic_trading_firm.Prelude.Sorting.{sort_by, find, All, Agrees, IsBest}
use galactic_trading_firm.Prelude.Sorting.Order.{find-reverse}
use galactic_trading_firm.F64.{F64, ◌<?◌, ◌≤?◌, lit, is_nan, IsNumber}
use galactic_trading_firm.F64.Laws.{IsOrdered}
use galactic_trading_firm.F64.Order.{le_of_not_lt}
use galactic_trading_firm.Engine.Gates.{get_or}
use galactic_trading_firm.Scores.{TimescaleScores}
use galactic_trading_firm.Action.{
  ActionSignal, hold, exit, Position, max_hold_timeout, Caught, returned, panicked,
}

pub record ProfitTier (F : Type 0) : Type 0 where
  pub pnl_pct : F
  pub extension_ms : ℤ

pub record MaxHoldTimeout (F : Type 0) : Type 0 where
  pub max_hold_ms : ℤ
  pub profit_extension_ms : ℤ
  pub loss_reduction_ms : ℤ
  pub score_gate : F
  pub profit_tiers : List (ProfitTier F)

module _ {F : Type 0} where
  abbrev pub extension_of : Option (ProfitTier F) → Option ℤ
  extension_of none = none
  extension_of (some t) = some t.extension_ms

  abbrev pub has_tiers : List (ProfitTier F) → Bool
  has_tiers [] = false
  has_tiers (t ∷ rest) = true

module _ {F : Type 0} ⦃f : F64 F⦄ where
  -- `MaxHoldTimeout::new`
  unfoldable pub new_timeout : ℤ → ℤ → ℤ → MaxHoldTimeout F
  new_timeout max_hold_ms profit_extension_ms loss_reduction_ms = record {
    max_hold_ms = max_hold_ms;
    profit_extension_ms = profit_extension_ms;
    loss_reduction_ms = loss_reduction_ms;
    score_gate = lit 0;
    profit_tiers = [];
  }

  -- that `a` comes after `b` in the ascending order
  abbrev pub is_higher : ProfitTier F → ProfitTier F → Bool
  is_higher a b = b.pnl_pct <? a.pnl_pct

  abbrev pub has_nan : List (ProfitTier F) → Bool
  has_nan [] = false
  has_nan (t ∷ rest) = is_nan t.pnl_pct || has_nan rest

  -- A sort of two or more compares every element, and the comparison of a NaN panics.
  abbrev pub is_incomparable : List (ProfitTier F) → Bool
  is_incomparable [] = false
  is_incomparable (t ∷ []) = false
  is_incomparable (t ∷ u ∷ rest) = has_nan (t ∷ u ∷ rest)

  abbrev pub in_order : ℤ → ℤ → ℤ → F → List (ProfitTier F) → MaxHoldTimeout F
  in_order max_hold_ms profit_extension_ms loss_reduction_ms score_gate profit_tiers = record {
    max_hold_ms = max_hold_ms;
    profit_extension_ms = profit_extension_ms;
    loss_reduction_ms = loss_reduction_ms;
    score_gate = score_gate;
    profit_tiers = sort_by is_higher profit_tiers;
  }

  -- `MaxHoldTimeout::with_tiers`
  unfoldable pub with_tiers : ℤ → ℤ → ℤ → F → List (ProfitTier F) → Caught (MaxHoldTimeout F)
  with_tiers max_hold_ms profit_extension_ms loss_reduction_ms score_gate profit_tiers =
      if is_incomparable profit_tiers
      then panicked
      else returned
          (in_order max_hold_ms profit_extension_ms loss_reduction_ms score_gate profit_tiers)

  abbrev pub earned : F → ProfitTier F → Bool
  earned pnl_pct t = t.pnl_pct ≤? pnl_pct

  unfoldable pub tier_extension : MaxHoldTimeout F → F → Option ℤ
  tier_extension m pnl_pct = extension_of (find (earned pnl_pct) (reverse m.profit_tiers))

  abbrev pub gated_extension : MaxHoldTimeout F → F → F → Option ℤ
  gated_extension m composite pnl_pct =
      let ext = tier_extension m pnl_pct in
      if has_tiers m.profit_tiers && m.score_gate ≤? composite then ext else none

  unfoldable pub effective_hold : MaxHoldTimeout F → Position F → F → ℤ
  effective_hold m p composite =
      if lit 0 <? p.unrealized_pnl
      then add_i64 m.max_hold_ms
          (get_or (gated_extension m composite p.unrealized_pnl_pct) m.profit_extension_ms)
      else if p.unrealized_pnl <? lit 0
      then max_ℤ (sub_i64 m.max_hold_ms m.loss_reduction_ms) (pos 0)
      else m.max_hold_ms

  unfoldable pub evaluate_max_hold_timeout :
      MaxHoldTimeout F → Option (Position F) → TimescaleScores F → ActionSignal F
  evaluate_max_hold_timeout m none scores = hold
  evaluate_max_hold_timeout m (some p) scores =
      if ltb_ℤ p.hold_duration_ms (effective_hold m p scores.composite)
      then hold
      else exit max_hold_timeout

  abbrev pub HasPnl : ProfitTier F → Type 0
  HasPnl t = IsNumber t.pnl_pct

  abbrev pub IsBelow : ProfitTier F → ProfitTier F → Type 0
  IsBelow a b = (a.pnl_pct ≤? b.pnl_pct) ≡ true

  -- `e` is the extension of a highest tier that the profit reaches, if it reaches one
  pub record IsExtension (tiers : List (ProfitTier F)) (pnl_pct : F) (e : Option ℤ) : Type 0 where
    pub picked : Option (ProfitTier F)
    pub best : IsBest (λ a b. IsBelow b a) (earned pnl_pct) tiers picked
    pub same : e ≡ extension_of picked

module _ {F : Type 0} ⦃f : F64 F⦄ (o : IsOrdered F) where
  is_higher-Agrees : Agrees (is_higher {F = F}) HasPnl IsBelow
  is_higher-Agrees = record {
    swapped = λ x y h. o.le_of_lt y.pnl_pct x.pnl_pct h;
    kept = λ x y n m h. le_of_not_lt o y.pnl_pct x.pnl_pct m n h;
    trans = λ x y z h k. o.le_trans x.pnl_pct y.pnl_pct z.pnl_pct h k;
  }

  has_nan-false : (tiers : List (ProfitTier F)) → All HasPnl tiers → has_nan tiers ≡ false
  has_nan-false [] h = refl
  has_nan-false (t ∷ rest) h = rw (h.0) (has_nan-false rest h.1)

  is_incomparable-false :
      (tiers : List (ProfitTier F)) → All HasPnl tiers → is_incomparable tiers ≡ false
  is_incomparable-false [] h = refl
  is_incomparable-false (t ∷ []) h = refl
  is_incomparable-false (t ∷ u ∷ rest) h = has_nan-false (t ∷ u ∷ rest) h

  -- For tiers whose bounds are numbers, in any order, the timeout is built without a panic, and its
  -- extension of a profit is that of a tier which the profit reaches and which no other reached tier
  -- exceeds; where it reaches none, none.
  pub tier_extension-IsExtension :
      (hold_ms profit_ms loss_ms : ℤ) (gate pnl_pct : F) (tiers : List (ProfitTier F))
      → All HasPnl tiers
      → (m : MaxHoldTimeout F) × (with_tiers hold_ms profit_ms loss_ms gate tiers ≡ returned m)
        × IsExtension tiers pnl_pct (tier_extension m pnl_pct)
  unfolding tier_extension with_tiers
  tier_extension-IsExtension hold_ms profit_ms loss_ms gate pnl_pct tiers h = (
    in_order hold_ms profit_ms loss_ms gate tiers,
    rw (is_incomparable-false tiers h) refl,
    record {
      picked = find (earned pnl_pct) (reverse (sort_by is_higher tiers));
      best = find-reverse is_higher-Agrees (λ x n. n) (earned pnl_pct) tiers h;
      same = refl;
    },
  )
