-- ===== src/Engine/Aggregator/Bar.antt =====
-- The bar that crates/engine/src/candle_aggregator.rs builds of the candles of one interval.
use galactic_trading_firm.Prelude.{
  ℕ, ◌+◌, ◌≡◌, ◌≢◌, refl, ◌∙◌, Option, none, some, true, false, List, [], ◌∷◌, ◌==◌, arith, length,
  suc, ◌⊎◌, inl,
}
use galactic_trading_firm.F64.{F64, ◌⊕◌, ◌≤?◌, IsNumber}
use galactic_trading_firm.F64.Laws.{IsOrdered}
use galactic_trading_firm.F64.Order.{
  max-le, min-le, le-max, min-le_right, max-cases, min-cases, first_extreme,
}
use galactic_trading_firm.Time.{DateTime}
use galactic_trading_firm.Market.{Candle}
use galactic_trading_firm.Engine.Aggregator.{
  CandleAccumulator, new_accumulator, update, update_bar, push_bounded, to_candle,
}

eq_self : (n : ℕ) → (n == n) ≡ true
eq_self n = ground arith

ne_eq : (a b : ℕ) → a ≢ b → (a == b) ≡ false
ne_eq a b h = ground (arith, h)

module _ {F : Type 0} where
  abbrev pub last_of : Candle F → List (Candle F) → Candle F
  last_of candle [] = candle
  last_of candle (next ∷ rest) = last_of next rest

  -- the bar that is under way, if any, is of another interval
  abbrev pub IsOther : Option (CandleAccumulator F) → DateTime → Type 0
  IsOther none start = Unit
  IsOther (some acc) start = acc.start_time ≢ start

module _ {F : Type 0} ⦃f : F64 F⦄ where
  abbrev pub total_volume : F → List (Candle F) → F
  total_volume volume [] = volume
  total_volume volume (candle ∷ rest) = total_volume (volume ⊕ candle.volume) rest

  -- every candle has numbers, and lies between two prices
  abbrev pub AllNumbers : List (Candle F) → Type 0
  AllNumbers [] = Unit
  AllNumbers (candle ∷ rest) = IsNumber candle.high × IsNumber candle.low × AllNumbers rest

  abbrev pub AllWithin : F → F → List (Candle F) → Type 0
  AllWithin low high [] = Unit
  AllWithin low high (candle ∷ rest) =
      ((candle.high ≤? high) ≡ true) × ((low ≤? candle.low) ≡ true) × AllWithin low high rest

  -- some candle has this high, or this low
  abbrev pub HasHigh : F → List (Candle F) → Type 0
  HasHigh high [] = ⊥
  HasHigh high (candle ∷ rest) = (high ≡ candle.high) ⊎ HasHigh high rest

  abbrev pub HasLow : F → List (Candle F) → Type 0
  HasLow low [] = ⊥
  HasLow low (candle ∷ rest) = (low ≡ candle.low) ⊎ HasLow low rest

  -- the candles of one interval, in order
  unfoldable pub feed :
      ℕ
      → Option (CandleAccumulator F)
      → List (Candle F)
      → List (Candle F)
      → DateTime
      → Option (CandleAccumulator F) × List (Candle F)
  feed w acc candles [] start = (acc, candles)
  feed w acc candles (candle ∷ rest) start =
      let (acc', candles', completed) = update_bar w acc candles candle start in
      feed w acc' candles' rest start

  -- what is under way after the candles `first`, then `rest`
  pub record IsBar (first : Candle F) (rest : List (Candle F)) (start : DateTime)
      (acc : CandleAccumulator F) : Type 0 where
    pub start_time : acc.start_time ≡ start
    pub opening : acc.«open» ≡ first.«open»
    pub closing : acc.close ≡ (last_of first rest).close
    pub count : acc.count ≡ suc (length rest)
    pub volume : acc.volume ≡ total_volume first.volume rest
    pub within : AllWithin acc.low acc.high (first ∷ rest)
    pub has_high : HasHigh acc.high (first ∷ rest)
    pub has_low : HasLow acc.low (first ∷ rest)

  module _ (o : IsOrdered F) where
    -- what a bar of earlier candles becomes
    record IsGrown (acc : CandleAccumulator F) (rest : List (Candle F)) (acc' : CandleAccumulator F)
        (close : F) : Type 0 where
      start_time : acc'.start_time ≡ acc.start_time
      opening : acc'.«open» ≡ acc.«open»
      closing : acc'.close ≡ close
      count : acc'.count ≡ acc.count + length rest
      volume : acc'.volume ≡ total_volume acc.volume rest
      high : (acc.high ≤? acc'.high) ≡ true
      low : (acc'.low ≤? acc.low) ≡ true
      within : AllWithin acc'.low acc'.high rest
      has_high : (acc'.high ≡ acc.high) ⊎ HasHigh acc'.high rest
      has_low : (acc'.low ≡ acc.low) ⊎ HasLow acc'.low rest

    abbrev close_of : F → List (Candle F) → F
    close_of close [] = close
    close_of close (candle ∷ rest) = close_of candle.close rest

    grow :
        (w : ℕ) (candles rest : List (Candle F)) (acc : CandleAccumulator F)
        → IsNumber acc.high
        → IsNumber acc.low
        → AllNumbers rest
        → (acc' : CandleAccumulator F) × (feed w (some acc) candles rest acc.start_time
            ≡ (some acc', candles))
          × IsGrown acc rest acc' (close_of acc.close rest)
    unfolding feed update_bar update
    grow w candles [] acc high low numbers = (
      acc,
      refl,
      record {
        start_time = refl;
        opening = refl;
        closing = refl;
        count = omega arith;
        volume = refl;
        high = high;
        low = low;
        within = tt;
        has_high = inl refl;
        has_low = inl refl;
      },
    )
    grow w candles (candle ∷ rest) acc high low numbers =
        let up = max-le o acc.high candle.high high in
        let down = min-le o acc.low candle.low low in
        let later =
          grow w candles rest (update acc candle) (o.number_of_le _ _ up).1
            (o.number_of_le _ _ down).0 numbers.2 in
        let g = later.2 in
        rw (eq_self acc.start_time) (
          later.0,
          later.1,
          record {
            start_time = g.start_time;
            opening = g.opening;
            closing = g.closing;
            count = g.count ∙ omega arith;
            volume = g.volume;
            high = o.le_trans _ _ _ up g.high;
            low = o.le_trans _ _ _ g.low down;
            within = (
              o.le_trans _ _ _ (le-max o acc.high candle.high high numbers.0) g.high,
              o.le_trans _ _ _ g.low (min-le_right o acc.low candle.low low numbers.1),
              g.within,
            );
            has_high =
                first_extreme _ _ acc.high candle.high (max-cases acc.high candle.high) g.has_high;
            has_low = first_extreme _ _ acc.low candle.low (min-cases acc.low candle.low) g.has_low;
          },
        )

    -- the completed candles once a bar that was under way is put to them
    abbrev pub finished : ℕ → Option (CandleAccumulator F) → List (Candle F) → List (Candle F)
    finished w none candles = candles
    finished w (some acc) candles = push_bounded w candles (to_candle acc)

    close_of-last_of :
        (first : Candle F) (rest : List (Candle F))
        → close_of first.close rest ≡ (last_of first rest).close
    close_of-last_of first [] = refl
    close_of-last_of first (next ∷ rest) = close_of-last_of next rest

    start_bar :
        (w : ℕ) (acc : Option (CandleAccumulator F)) (candles rest : List (Candle F))
        (first : Candle F) (start : DateTime)
        → IsOther acc start
        → feed w acc candles (first ∷ rest) start
          ≡ feed w (some (new_accumulator first start)) (finished w acc candles) rest start
    unfolding feed update_bar
    start_bar w none candles rest first start other = refl
    start_bar w (some acc) candles rest first start other =
        rw (ne_eq acc.start_time start other) refl

    -- The candles of one interval, fed in order, become one bar: its open is the first candle's, its
    -- close the last one's, its volume the sum in that order, its count their number, and its high
    -- and low are the extremes of all of theirs. The bar that was under way before is completed, and
    -- no other. The prices are numbers, and the order that of floating-point numbers.
    pub feed-IsBar :
        (w : ℕ) (acc : Option (CandleAccumulator F)) (candles rest : List (Candle F))
        (first : Candle F) (start : DateTime)
        → IsOther acc start
        → AllNumbers (first ∷ rest)
        → (bar : CandleAccumulator F) × (feed w acc candles (first ∷ rest) start
            ≡ (some bar, finished w acc candles))
          × IsBar first rest start bar
    unfolding new_accumulator
    feed-IsBar w acc candles rest first start other numbers =
        let grown =
          grow w (finished w acc candles) rest (new_accumulator first start) numbers.0 numbers.1
            numbers.2 in
        let g = grown.2 in
        (
          grown.0,
          start_bar w acc candles rest first start other ∙ grown.1,
          record {
            start_time = g.start_time;
            opening = g.opening;
            closing = g.closing ∙ close_of-last_of first rest;
            count = g.count ∙ omega arith;
            volume = g.volume;
            within = (g.high, g.low, g.within);
            has_high = g.has_high;
            has_low = g.has_low;
          },
        )
