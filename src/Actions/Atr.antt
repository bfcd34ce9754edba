-- ===== src/Actions/Atr.antt =====
-- The average true range of crates/actions/src/exit/atr_trailing_stop.rs and
-- sizing/volatility_scaled.rs (`compute_atr`), with the conversion of crates/types/src/adapter.rs, and
-- the trailing stop. The crate ta is not part of the repository: its calls are a parameter, `Ta`.
use galactic_trading_firm.Prelude.{
  ℕ, ◌+◌, ◌%◌, ◌^◌, Option, none, some, Bool, List, [], ◌∷◌, if◌then◌else◌, length, ltb,
}
use galactic_trading_firm.F64.{F64, ◌⊕◌, ◌⊖◌, ◌⊗◌, ◌≤?◌, lit}
use galactic_trading_firm.Market.{Candle, MarketState, Timescale}
use galactic_trading_firm.Action.{
  ActionSignal, hold, exit, Position, TradeDirection, long, short, trailing_stop, Caught, returned,
  panicked,
}

pub record Ta (F : Type 0) : Type 1 where
  pub DataItem : Type 0
  pub AverageTrueRange : Type 0
  -- `DataItem::builder()`, the five setters, then `build()`
  pub build : («open» high low close volume : F) → Option DataItem
  pub «new» : ℕ → Option AverageTrueRange
  pub next : AverageTrueRange → DataItem → AverageTrueRange × F

pub record AtrTrailingStop (F : Type 0) : Type 0 where
  pub atr_period : ℕ
  pub multiplier : F
  pub timescale : Timescale

module _ {F : Type 0} (t : Ta F) where
  -- `ta::DataItem::from`; `none` is where `expect` panics
  abbrev pub data_item : Candle F → Option t.DataItem
  data_item c = t.build c.«open» c.high c.low c.close c.volume

  -- the loop over the candles, with the last value
  unfoldable pub atr_of : List (Candle F) → t.AverageTrueRange → F → Caught (Option F)
  atr_of [] atr last = returned (some last)
  atr_of (c ∷ rest) atr last = elim (data_item c) [
    | none ↦ panicked
    | some item ↦ let (atr', value) = t.next atr item in atr_of rest atr' value
  ]

  abbrev pub atr_from :
      ⦃f : F64 F⦄ → List (Candle F) → Option t.AverageTrueRange → Caught (Option F)
  atr_from candles none = returned none
  atr_from candles (some atr) = atr_of candles atr (lit 0)

  abbrev pub atr_over : ⦃f : F64 F⦄ → ℕ → Option (List (Candle F)) → Caught (Option F)
  atr_over period none = returned none
  atr_over period (some candles) =
      if ltb (length candles) ((period + 1) % 2 ^ 64)
      then returned none
      else atr_from candles (t.«new» period)

  unfoldable pub compute_atr : ⦃f : F64 F⦄ → ℕ → Timescale → MarketState F → Caught (Option F)
  compute_atr period timescale market = atr_over period (market.candles timescale)

module _ {F : Type 0} ⦃f : F64 F⦄ where
  abbrev pub trailing_hit : TradeDirection → F → F → F → F → Bool
  trailing_hit long price high low distance = price ≤? high ⊖ distance
  trailing_hit short price high low distance = low ⊕ distance ≤? price

  abbrev pub trailing_at :
      F → Position F → MarketState F → Caught (Option F) → Caught (ActionSignal F)
  trailing_at multiplier p market panicked = panicked
  trailing_at multiplier p market (returned none) = returned hold
  trailing_at multiplier p market (returned (some atr)) =
      if trailing_hit p.direction market.last_price p.high_water_mark p.low_water_mark
        (atr ⊗ multiplier)
      then returned (exit trailing_stop)
      else returned hold

  unfoldable pub evaluate_atr_trailing_stop :
      Ta F → AtrTrailingStop F → Option (Position F) → MarketState F → Caught (ActionSignal F)
  evaluate_atr_trailing_stop t s none market = returned hold
  evaluate_atr_trailing_stop t s (some p) market =
      trailing_at s.multiplier p market (compute_atr t s.atr_period s.timescale market)
