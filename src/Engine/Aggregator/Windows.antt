-- ===== src/Engine/Aggregator/Windows.antt =====
-- The rolling window of one-minute candles of crates/engine/src/candle_aggregator.rs,
-- beside the last candles of the stream.
use galactic_trading_firm.Prelude.{
  ℕ, ◌-◌, ◌≤◌, ◌≡◌, refl, sym, ap, ◌∙◌, some, List, [], ◌∷◌, ◌++◌, arith, length, length-append,
  length-drop, drop, ltb, suc, zero, tests, Bool-cases, inl, inr,
}
use mathlib.Core.List.{append-nil, append_assoc}
use galactic_trading_firm.F64.{F64}
use galactic_trading_firm.Time.{Chrono, IsUtcClock}
use galactic_trading_firm.Market.{Candle}
use galactic_trading_firm.Engine.Aggregator.{
  CandleAggregator, new_aggregator, update_five_min, update_hourly, aggregate_at, and_then,
  push_bounded, drop_first, seed_one_min,
}
use galactic_trading_firm.Engine.Aggregator.Boundary.{five_min_start, hour_start, on_candle-eq}

module _ {A : Type 0} where
  -- the last `n` items, in order
  unfoldable pub last_n : ℕ → List A → List A
  last_n n xs = drop (length xs - n) xs

  drop-append : (n : ℕ) (xs ys : List A) → n ≤ length xs → drop n (xs ++ ys) ≡ drop n xs ++ ys
  drop-append zero xs ys h = refl
  drop-append (suc n) [] ys h = absurd (omega (arith, h))
  drop-append (suc n) (x ∷ xs) ys h = drop-append n xs ys (omega arith)

  drop-nil : (n : ℕ) → ◌≡◌ {A = List A} (drop n []) []
  drop-nil zero = refl
  drop-nil (suc n) = refl

  drop_first-drop : (n : ℕ) (xs : List A) → drop_first (drop n xs) ≡ drop (suc n) xs
  drop_first-drop zero [] = refl
  drop_first-drop zero (x ∷ xs) = refl
  drop_first-drop (suc n) [] = refl
  drop_first-drop (suc n) (x ∷ xs) = drop_first-drop n xs

  length-last_n : (w : ℕ) (xs : List A) → length (last_n w xs) ≤ w
  unfolding last_n
  length-last_n w xs = omega (arith, length-drop (length xs - w) xs)

  -- Pushing onto the last `w` items of a list gives the last `w` of the longer list.
  pub push_bounded-last_n :
      (w : ℕ) (xs : List A) (x : A) → push_bounded w (last_n w xs) x ≡ last_n w (xs ++ (x ∷ []))
  unfolding push_bounded last_n
  push_bounded-last_n w xs x =
      let n = length xs - w in
      let whole = drop-append n xs (x ∷ []) (omega arith) in
      let before = length-append xs (x ∷ []) in
      let after = length-append (drop n xs) (x ∷ []) in
      let kept = length-drop n xs in
      elim (Bool-cases (ltb w (length (drop n xs ++ (x ∷ []))))) [
        | inl over ↦ rw (over) (
            ap drop_first (sym whole)
            ∙ drop_first-drop n (xs ++ (x ∷ []))
            ∙ ap (λ k. drop k (xs ++ (x ∷ []))) {x = suc n}
                (omega (tests, over, before, after, kept)))
        | inr fits ↦ rw (fits) (
            sym whole
            ∙ ap (λ k. drop k (xs ++ (x ∷ []))) {x = n} (ground (arith, before, after, kept)))
      ]

module _ {F : Type 0} ⦃f : F64 F⦄ ⦃c : Chrono⦄ (clock : IsUtcClock c) where
  -- the rest of a stream, from an aggregator that holds the last candles of what it has seen
  continue :
      (rest seen : List (Candle F)) (agg : CandleAggregator F)
      → agg.one_min_candles ≡ last_n agg.max_window seen
      → (agg' : CandleAggregator F) × (seed_one_min agg rest ≡ some agg')
        × (agg'.one_min_candles ≡ last_n agg.max_window (seen ++ rest))
  unfolding seed_one_min aggregate_at update_five_min update_hourly
  continue [] seen agg h = (agg, refl, h ∙ ap (last_n agg.max_window) (sym (append-nil seen)))
  continue (candle ∷ rest) seen agg h =
      let next =
        aggregate_at agg candle (five_min_start candle.timestamp) (hour_start candle.timestamp) in
      let later = continue rest (seen ++ (candle ∷ [])) next.0 (
        ap (λ xs. push_bounded agg.max_window xs candle) h
        ∙ push_bounded-last_n agg.max_window seen candle) in
      (
        later.0,
        ap (λ o. and_then o (λ r. seed_one_min r.0 rest)) (on_candle-eq clock agg candle) ∙ later.1,
        later.2 ∙ ap (last_n agg.max_window) (append_assoc seen (candle ∷ []) rest),
      )

  -- Seeding a new aggregator never panics, and its one-minute window is then exactly the last
  -- `max_window` candles of the stream, in order. The clock fields of an instant are those of UTC.
  pub seed_one_min-last_n :
      (max_window : ℕ) (candles : List (Candle F))
      → (agg : CandleAggregator F) × (seed_one_min (new_aggregator max_window) candles ≡ some agg)
        × (agg.one_min_candles ≡ last_n max_window candles)
  unfolding last_n
  seed_one_min-last_n max_window candles =
      continue candles [] (new_aggregator max_window) (sym (drop-nil (0 - max_window)))
