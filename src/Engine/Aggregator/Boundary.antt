-- ===== src/Engine/Aggregator/Boundary.antt =====
-- The clock-aligned boundaries of crates/engine/src/candle_aggregator.rs.
use galactic_trading_firm.Prelude.{ℕ, ◌+◌, ◌*◌, ◌/◌, ◌%◌, ◌<◌, ◌≡◌, some, arith, ap, ◌∙◌, refl}
use galactic_trading_firm.Time.{DateTime, Chrono, IsUtcClock, nanos_per_minute, nanos_per_hour}
use galactic_trading_firm.Engine.Aggregator.{
  at_minute, five_min_boundary, hourly_boundary, CandleAggregator, on_candle, aggregate_at,
}
use galactic_trading_firm.F64.{F64}
use galactic_trading_firm.Market.{Candle}

abbrev pub five_min_start : DateTime → DateTime
five_min_start ts = ts / (5 * nanos_per_minute) * (5 * nanos_per_minute)

abbrev pub hour_start : DateTime → DateTime
hour_start ts = ts / nanos_per_hour * nanos_per_hour

module _ ⦃c : Chrono⦄ (clock : IsUtcClock c) where
  at_minute-eq :
      (ts m : ℕ)
      → m < 60
      → at_minute ts m ≡ some (ts / nanos_per_hour * nanos_per_hour + m * nanos_per_minute)
  at_minute-eq ts m h =
      rw
        (
          clock.with_minute_lem ts m h,
          clock.with_second_lem _ 0 (omega arith),
          clock.with_nanosecond_lem _ 0 (omega arith),
        )
        (ap some (omega arith))

  -- The hourly boundary exists for every instant: the last multiple of one hour. The clock fields
  -- of an instant are those of UTC.
  pub hourly_boundary-eq : (ts : DateTime) → hourly_boundary ts ≡ some (hour_start ts)
  unfolding hourly_boundary
  hourly_boundary-eq ts = at_minute-eq ts 0 (omega arith) ∙ ap some (omega arith)

  -- The five-minute boundary exists for every instant: the last multiple of five minutes. The
  -- clock fields of an instant are those of UTC.
  pub five_min_boundary-eq : (ts : DateTime) → five_min_boundary ts ≡ some (five_min_start ts)
  unfolding five_min_boundary
  five_min_boundary-eq ts =
      rw (clock.minute_lem ts)
        (at_minute-eq ts (ts / nanos_per_minute % 60 / 5 * 5) (omega arith) ∙ ap some (omega arith))

  -- `on_candle` never panics: it aggregates at the two boundaries.
  pub on_candle-eq :
      {F : Type 0} ⦃f : F64 F⦄ (agg : CandleAggregator F) (candle : Candle F)
      → on_candle agg candle
        ≡ some (
            aggregate_at agg candle (five_min_start candle.timestamp) (hour_start candle.timestamp))
  unfolding on_candle
  on_candle-eq agg candle =
      rw (five_min_boundary-eq candle.timestamp, hourly_boundary-eq candle.timestamp) refl
