-- ===== src/Engine/Aggregator.antt =====
-- crates/engine/src/candle_aggregator.rs: five-minute and hourly candles from one-minute candles.
-- A method that mutates returns the new aggregator. The boundaries unwrap what chrono gives: `none`
-- is their panic.
pub mod Boundary
pub mod Windows
pub mod Alignment
pub mod Bar
use galactic_trading_firm.Prelude.{
  ℕ, ◌+◌, ◌*◌, ◌/◌, Option, none, some, Bool, true, false, List, [], ◌∷◌, ◌++◌, if◌then◌else◌, ltb,
  ◌==◌, length,
}
use galactic_trading_firm.F64.{F64, ◌⊕◌, max, min}
use galactic_trading_firm.Time.{DateTime, Chrono}
use galactic_trading_firm.Market.{Candle, Timescale, one_minute, five_minute, one_hour}

pub record CandleAccumulator (F : Type 0) : Type 0 where
  pub «open» : F
  pub high : F
  pub low : F
  pub close : F
  pub volume : F
  pub start_time : DateTime
  pub count : ℕ

pub data AggregationEvent (F : Type 0) : Type 0 where
  none_complete : AggregationEvent F
  five_min_complete : Candle F → AggregationEvent F
  hourly_complete : Candle F → AggregationEvent F
  both_complete : (five_min hourly : Candle F) → AggregationEvent F

pub record CandleAggregator (F : Type 0) : Type 0 where
  pub one_min_candles : List (Candle F)
  pub five_min_candles : List (Candle F)
  pub hourly_candles : List (Candle F)
  pub five_min_acc : Option (CandleAccumulator F)
  pub hourly_acc : Option (CandleAccumulator F)
  pub max_window : ℕ

-- chrono's setters in a row, each unwrapped
abbrev pub and_then {ℓ ℓ'} : {A : Type ℓ} {B : Type ℓ'} → Option A → (A → Option B) → Option B
and_then none k = none
and_then (some a) k = k a

module _ ⦃c : Chrono⦄ where
  abbrev pub at_minute : DateTime → ℕ → Option DateTime
  at_minute ts minute =
      and_then (c.with_minute ts minute)
        λ t. and_then (c.with_second t 0) λ u. c.with_nanosecond u 0

  unfoldable pub five_min_boundary : DateTime → Option DateTime
  five_min_boundary ts = at_minute ts (c.minute ts / 5 * 5)

  unfoldable pub hourly_boundary : DateTime → Option DateTime
  hourly_boundary ts = at_minute ts 0

-- `remove(0)` on a list that is longer than the window
abbrev pub drop_first {ℓ} : {A : Type ℓ} → List A → List A
drop_first [] = []
drop_first (x ∷ xs) = xs

unfoldable pub push_bounded {ℓ} : {A : Type ℓ} → ℕ → List A → A → List A
push_bounded max_window xs x =
    if ltb max_window (length (xs ++ (x ∷ []))) then drop_first (xs ++ (x ∷ [])) else xs ++ (x ∷ [])

module _ {F : Type 0} where
  unfoldable pub new_accumulator : Candle F → DateTime → CandleAccumulator F
  new_accumulator candle start_time = record {
    «open» = candle.«open»;
    high = candle.high;
    low = candle.low;
    close = candle.close;
    volume = candle.volume;
    start_time = start_time;
    count = 1;
  }

  unfoldable pub to_candle : CandleAccumulator F → Candle F
  to_candle acc = record {
    timestamp = acc.start_time;
    «open» = acc.«open»;
    high = acc.high;
    low = acc.low;
    close = acc.close;
    volume = acc.volume;
  }

  abbrev pub new_aggregator : ℕ → CandleAggregator F
  new_aggregator max_window = record {
    one_min_candles = [];
    five_min_candles = [];
    hourly_candles = [];
    five_min_acc = none;
    hourly_acc = none;
    max_window = max_window;
  }

  unfoldable pub reset_session : CandleAggregator F → CandleAggregator F
  reset_session agg = new_aggregator agg.max_window

  abbrev pub in_progress : Option (CandleAccumulator F) → List (Candle F)
  in_progress none = []
  in_progress (some acc) = to_candle acc ∷ []

  abbrev pub unless_empty : List (Candle F) → Option (List (Candle F))
  unless_empty [] = none
  unless_empty (x ∷ xs) = some (x ∷ xs)

  unfoldable pub candle_windows : CandleAggregator F → Timescale → Option (List (Candle F))
  candle_windows agg one_minute = unless_empty agg.one_min_candles
  candle_windows agg five_minute =
      unless_empty (agg.five_min_candles ++ in_progress agg.five_min_acc)
  candle_windows agg one_hour = unless_empty (agg.hourly_candles ++ in_progress agg.hourly_acc)
  candle_windows agg _ = none

  abbrev pub event_of : Option (Candle F) → Option (Candle F) → AggregationEvent F
  event_of (some five) (some hour) = both_complete five hour
  event_of (some five) none = five_min_complete five
  event_of none (some hour) = hourly_complete hour
  event_of none none = none_complete

module _ {F : Type 0} ⦃f : F64 F⦄ where
  unfoldable pub update : CandleAccumulator F → Candle F → CandleAccumulator F
  update acc candle = record acc {
    high = max acc.high candle.high;
    low = min acc.low candle.low;
    close = candle.close;
    volume = acc.volume ⊕ candle.volume;
    count = acc.count + 1;
  }

  -- the body that `update_five_min` and `update_hourly` share: the accumulator, the completed
  -- candles, and the candle that this one completed
  unfoldable pub update_bar :
      ℕ
      → Option (CandleAccumulator F)
      → List (Candle F)
      → Candle F
      → DateTime
      → Option (CandleAccumulator F) × List (Candle F) × Option (Candle F)
  update_bar max_window none candles candle boundary =
      (some (new_accumulator candle boundary), candles, none)
  update_bar max_window (some acc) candles candle boundary =
      if acc.start_time == boundary then (some (update acc candle), candles, none) else (
        some (new_accumulator candle boundary),
        push_bounded max_window candles (to_candle acc),
        some (to_candle acc),
      )

  unfoldable pub update_five_min :
      CandleAggregator F → Candle F → DateTime → CandleAggregator F × Option (Candle F)
  update_five_min agg candle boundary =
      let (acc, candles, completed) =
        update_bar agg.max_window agg.five_min_acc agg.five_min_candles candle boundary in
      (record agg { five_min_acc = acc; five_min_candles = candles }, completed)

  unfoldable pub update_hourly :
      CandleAggregator F → Candle F → DateTime → CandleAggregator F × Option (Candle F)
  update_hourly agg candle boundary =
      let (acc, candles, completed) =
        update_bar agg.max_window agg.hourly_acc agg.hourly_candles candle boundary in
      (record agg { hourly_acc = acc; hourly_candles = candles }, completed)

  unfoldable pub aggregate_at :
      CandleAggregator F
      → Candle F
      → (five_min_bound hourly_bound : DateTime) → CandleAggregator F × AggregationEvent F
  aggregate_at agg candle five_min_bound hourly_bound =
      let stored = record agg {
        one_min_candles = push_bounded agg.max_window agg.one_min_candles candle;
      } in
      let (agg5, five) = update_five_min stored candle five_min_bound in
      let (agg60, hour) = update_hourly agg5 candle hourly_bound in (agg60, event_of five hour)

module _ {F : Type 0} ⦃f : F64 F⦄ ⦃c : Chrono⦄ where
  unfoldable pub on_candle :
      CandleAggregator F → Candle F → Option (CandleAggregator F × AggregationEvent F)
  on_candle agg candle = and_then (five_min_boundary candle.timestamp) λ five.
      and_then (hourly_boundary candle.timestamp) λ hour. some (aggregate_at agg candle five hour)

  unfoldable pub seed_one_min : CandleAggregator F → List (Candle F) → Option (CandleAggregator F)
  seed_one_min agg [] = some agg
  seed_one_min agg (candle ∷ rest) = and_then (on_candle agg candle) λ r. seed_one_min r.0 rest
