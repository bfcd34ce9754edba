-- ===== src/Engine/Aggregator/Alignment.antt =====
-- The two accumulators of crates/engine/src/candle_aggregator.rs, side by side over a stream.
use galactic_trading_firm.Prelude.{
  ℕ, ◌≡◌, Option, none, some, true, List, [], ◌∷◌, ◌==◌, arith, Bool-cases, inl, inr,
}
use galactic_trading_firm.F64.{F64}
use galactic_trading_firm.Time.{Chrono, IsUtcClock}
use galactic_trading_firm.Market.{Candle}
use galactic_trading_firm.Engine.Aggregator.{
  CandleAccumulator, CandleAggregator, AggregationEvent, hourly_complete, new_accumulator, update,
  update_bar, update_five_min, update_hourly, aggregate_at, on_candle, event_of,
}
use galactic_trading_firm.Engine.Aggregator.Boundary.{five_min_start, hour_start, on_candle-eq}

starts_agree : (ts : ℕ) → hour_start ts ≡ hour_start (five_min_start ts)
starts_agree ts = omega arith

same_hour :
    (a b ts : ℕ) → b ≡ hour_start a → (a == five_min_start ts) ≡ true → (b == hour_start ts) ≡ true
same_hour a b ts h same = ground arith

agrees : (b ts : ℕ) → (b == hour_start ts) ≡ true → b ≡ hour_start (five_min_start ts)
agrees b ts same = ground arith

module _ {F : Type 0} ⦃f : F64 F⦄ where
  -- both bars are under way or neither is, and the hour is that of the five minutes
  abbrev pub Aligned : Option (CandleAccumulator F) → Option (CandleAccumulator F) → Type 0
  Aligned none none = Unit
  Aligned (some five) (some hour) = hour.start_time ≡ hour_start five.start_time
  Aligned _ _ = ⊥

  abbrev pub IsAligned : CandleAggregator F → Type 0
  IsAligned agg = Aligned agg.five_min_acc agg.hourly_acc

  abbrev pub IsHourlyOnly : AggregationEvent F → Type 0
  IsHourlyOnly (hourly_complete hour) = Unit
  IsHourlyOnly _ = ⊥

  -- the outcome of the two updates, on the accumulators alone
  module _ (w : ℕ) (candle : Candle F) (fives hours : List (Candle F)) where
    bars-Aligned :
        (a b : Option (CandleAccumulator F))
        → Aligned a b
        → let ts = candle.timestamp in
          let r5 = update_bar w a fives candle (five_min_start ts) in
          let r60 = update_bar w b hours candle (hour_start ts) in
          Aligned r5.0 r60.0 × ¬ IsHourlyOnly (event_of r5.2 r60.2)
    unfolding update_bar new_accumulator update
    bars-Aligned none none h = (starts_agree candle.timestamp, λ x. x)
    bars-Aligned none (some b) h = elim h [ ]
    bars-Aligned (some a) none h = elim h [ ]
    bars-Aligned (some a) (some b) h =
        elim (Bool-cases (a.start_time == five_min_start candle.timestamp)) [
          | inl same ↦
              rw (same, same_hour a.start_time b.start_time candle.timestamp h same) (h, λ x. x)
          | inr other ↦ elim (Bool-cases (b.start_time == hour_start candle.timestamp)) [
            | inl same ↦ rw (other, same) (agrees b.start_time candle.timestamp same, λ x. x)
            | inr new ↦ rw (other, new) (starts_agree candle.timestamp, λ x. x)
          ]
        ]

module _ {F : Type 0} ⦃f : F64 F⦄ where
  aggregate_at-IsAligned :
      (agg : CandleAggregator F) (candle : Candle F)
      → IsAligned agg
      → let r =
          aggregate_at agg candle (five_min_start candle.timestamp) (hour_start candle.timestamp) in
        IsAligned r.0 × ¬ IsHourlyOnly r.1
  unfolding aggregate_at update_five_min update_hourly
  aggregate_at-IsAligned agg candle h =
      bars-Aligned agg.max_window candle agg.five_min_candles agg.hourly_candles agg.five_min_acc
        agg.hourly_acc h

  module _ ⦃c : Chrono⦄ (clock : IsUtcClock c) where
    -- what holds of every candle of a stream
    abbrev pub NeverHourlyOnly : List (Candle F) → CandleAggregator F → Type 0
    NeverHourlyOnly [] agg = IsAligned agg
    NeverHourlyOnly (candle ∷ rest) agg =
        (r : CandleAggregator F × AggregationEvent F) × (on_candle agg candle ≡ some r)
        × (¬ IsHourlyOnly r.1)
        × NeverHourlyOnly rest r.0

    -- From an aggregator whose bars are in step, such as a new one, every candle of a stream is
    -- taken without a panic, and no hour completes without a five-minute candle completing with it.
    -- The clock fields of an instant are those of UTC.
    pub stream-NeverHourlyOnly :
        (candles : List (Candle F)) (agg : CandleAggregator F)
        → IsAligned agg
        → NeverHourlyOnly candles agg
    stream-NeverHourlyOnly [] agg h = h
    stream-NeverHourlyOnly (candle ∷ rest) agg h =
        let next = aggregate_at-IsAligned agg candle h in
        (_, on_candle-eq clock agg candle, next.1, stream-NeverHourlyOnly rest _ next.0)
