-- ===== src/Engine/Position/Marks.antt =====
-- The water marks of crates/engine/src/position.rs, over a list of prices.
use galactic_trading_firm.Prelude.{◌≡◌, refl, true, List, [], ◌∷◌}
use galactic_trading_firm.F64.{F64, ◌<?◌, ◌≤?◌, IsNumber}
use galactic_trading_firm.F64.Laws.{IsOrdered}
use galactic_trading_firm.F64.Order.{pick_max, pick_max_right, pick_min, pick_min_right}
use galactic_trading_firm.Time.{DateTime, Chrono}
use galactic_trading_firm.Action.{Position}
use galactic_trading_firm.Engine.Position.{marked}

module _ {F : Type 0} ⦃f : F64 F⦄ ⦃c : Chrono⦄ where
  -- the position after a list of prices, with their times
  unfoldable pub marked_by : Position F → List (F × DateTime) → Position F
  marked_by p [] = p
  marked_by p ((price, now) ∷ rest) = marked_by (marked price now p) rest

  abbrev pub AllPriced : List (F × DateTime) → Type 0
  AllPriced [] = Unit
  AllPriced ((price, now) ∷ rest) = IsNumber price × AllPriced rest

  abbrev pub AllBracketed : F → F → List (F × DateTime) → Type 0
  AllBracketed low high [] = Unit
  AllBracketed low high ((price, now) ∷ rest) =
      ((low ≤? price) ≡ true) × ((price ≤? high) ≡ true) × AllBracketed low high rest

  module _ (o : IsOrdered F) where
    -- Over any list of prices, the high-water mark never falls and the low-water mark never rises,
    -- every price of the list lies between the two marks at the end, and the entry price, size and
    -- time of the position do not change. The prices and the marks at the start are numbers, and
    -- the order is that of floating-point numbers.
    pub marked_by-AllBracketed :
        (prices : List (F × DateTime)) (p : Position F)
        → IsNumber p.high_water_mark
        → IsNumber p.low_water_mark
        → AllPriced prices
        → let q = marked_by p prices in
          ((p.high_water_mark ≤? q.high_water_mark) ≡ true)
          × ((q.low_water_mark ≤? p.low_water_mark) ≡ true)
          × AllBracketed q.low_water_mark q.high_water_mark prices
          × (q.entry_price ≡ p.entry_price)
          × (q.size ≡ p.size)
          × (q.entry_time ≡ p.entry_time)
    unfolding marked_by marked
    marked_by-AllBracketed [] p high low all = (high, low, tt, refl, refl, refl)
    marked_by-AllBracketed ((price, now) ∷ rest) p high low all =
        let up = pick_max o (p.high_water_mark <? price) p.high_water_mark price high refl in
        let down = pick_min o (price <? p.low_water_mark) p.low_water_mark price low refl in
        let above =
          pick_max_right o (p.high_water_mark <? price) p.high_water_mark price high all.0 refl in
        let below =
          pick_min_right o (price <? p.low_water_mark) p.low_water_mark price low all.0 refl in
        let later =
          marked_by-AllBracketed rest (marked price now p) (o.number_of_le _ _ up).1
            (o.number_of_le _ _ down).0 all.1 in
        (
          o.le_trans _ _ _ up later.0,
          o.le_trans _ _ _ later.1 down,
          (o.le_trans _ _ _ later.1 below, o.le_trans _ _ _ above later.0, later.2),
          later.3,
          later.4,
          later.5,
        )
