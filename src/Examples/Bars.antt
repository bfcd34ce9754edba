-- ===== src/Examples/Bars.antt =====
-- Candles of the example, aggregated.
use galactic_trading_firm.Prelude.{◌≡◌, refl, none, some, List, [], ◌∷◌}
use galactic_trading_firm.F64.Decimal.{Decimal, decimal_f64, decimal-IsOrdered}
use galactic_trading_firm.Time.{standard_time-IsUtcClock}
use galactic_trading_firm.Market.{Candle}
use galactic_trading_firm.Engine.Aggregator.{
  CandleAggregator, CandleAccumulator, new_aggregator, seed_one_min, five_min_boundary,
}
use galactic_trading_firm.Engine.Aggregator.Boundary.{five_min_start, five_min_boundary-eq}
use galactic_trading_firm.Engine.Aggregator.Windows.{last_n, seed_one_min-last_n}
use galactic_trading_firm.Engine.Aggregator.Alignment.{NeverHourlyOnly, stream-NeverHourlyOnly}
use galactic_trading_firm.Engine.Aggregator.Bar.{feed, finished, IsBar, feed-IsBar}
use galactic_trading_firm.Examples.{candle_at, clock, ten_o_clock}

abbrev candles : List (Candle Decimal)
candles = candle_at 58 90 ∷ candle_at 59 92 ∷ candle_at 60 91 ∷ []

five_min_boundary-eq_example :
    five_min_boundary (ten_o_clock 58) ≡ some (five_min_start (ten_o_clock 58))
five_min_boundary-eq_example = five_min_boundary-eq standard_time-IsUtcClock (ten_o_clock 58)

seed_one_min-last_n_example :
    (agg : CandleAggregator Decimal) × (seed_one_min (new_aggregator 2) candles ≡ some agg)
    × (agg.one_min_candles ≡ last_n 2 candles)
seed_one_min-last_n_example = seed_one_min-last_n standard_time-IsUtcClock 2 candles

stream-NeverHourlyOnly_example : NeverHourlyOnly standard_time-IsUtcClock candles (new_aggregator 2)
stream-NeverHourlyOnly_example =
    stream-NeverHourlyOnly standard_time-IsUtcClock candles (new_aggregator 2) tt

feed-IsBar_example :
    (bar : CandleAccumulator Decimal) × (feed 2 none [] candles (ten_o_clock 55)
      ≡ (some bar, finished decimal-IsOrdered 2 none []))
    × IsBar (candle_at 58 90) (candle_at 59 92 ∷ candle_at 60 91 ∷ []) (ten_o_clock 55) bar
feed-IsBar_example =
    feed-IsBar decimal-IsOrdered 2 none [] (candle_at 59 92 ∷ candle_at 60 91 ∷ [])
      (candle_at 58 90) (ten_o_clock 55) tt (refl, refl, (refl, refl, (refl, refl, tt)))
