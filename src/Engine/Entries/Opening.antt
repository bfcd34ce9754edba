-- ===== src/Engine/Entries/Opening.antt =====
-- The books of the engine before and after the entry loop of `on_tick` (crates/engine/src/tick_loop.rs).
use galactic_trading_firm.Prelude.{
  ◌≡◌, refl, subst, Option, none, some, false, List, [], ◌∷◌, String, arith, Bool-cases, inl, inr,
}
use galactic_trading_firm.F64.{F64, ◌⊖◌, ◌⊗◌, ◌<?◌, lit}
use galactic_trading_firm.Time.{DateTime}
use galactic_trading_firm.Market.{MarketState}
use galactic_trading_firm.Scores.{TimescaleScores}
use galactic_trading_firm.Session.{SessionConfig}
use galactic_trading_firm.Action.{
  Action, ActionSignal, enter, reject_entry, Position, TradeDirection,
}
use galactic_trading_firm.Engine.Position.{
  TradeRecord, PositionManager, open_position, open_into, new_position,
}
use galactic_trading_firm.Engine.State.{TradingEngine, WindowExitOverrides}
use galactic_trading_firm.Engine.Gates.{get_or}
use galactic_trading_firm.Engine.Exits.{fill_price}
use galactic_trading_firm.Engine.Entries.{
  EntryOutcome, no_signal, not_entered, gated, opened, with_threshold, with_overrides,
  apply_window_overrides, max_position, is_unusable, is_unaffordable, clamped, whole_shares, pay_if,
  buy_shares, open_sized, try_enter, on_entry_signal, seek_entry,
}

-- the part of the engine that an entry reads and writes
pub record Books (F : Type 0) : Type 0 where
  pub manager : PositionManager F
  pub cash : F
  pub trades : List (TradeRecord F)
  pub symbol : String
  pub fill : Option F
  pub rules : Option (SessionConfig F)

abbrev pub books : {F : Type 0} → TradingEngine F → Books F
books e = record {
  manager = e.position_manager;
  cash = e.available_capital;
  trades = e.completed_trades;
  symbol = e.ticker;
  fill = e.fill_price_override;
  rules = e.session_config;
}

module _ {F : Type 0} where
  books-with_threshold : (o : Option F) (e : TradingEngine F) → books (with_threshold o e) ≡ books e
  books-with_threshold none e = refl
  books-with_threshold (some t) e = refl

  books-with_overrides :
      (o : Option (WindowExitOverrides F)) (e : TradingEngine F)
      → books (with_overrides o e) ≡ books e
  books-with_overrides none e = refl
  books-with_overrides (some ovr) e = ground arith

  books-apply_window_overrides :
      (e : TradingEngine F) (reason : String) → books (apply_window_overrides e reason) ≡ books e
  unfolding apply_window_overrides
  books-apply_window_overrides e reason = books-with_overrides _ e

module _ {F : Type 0} ⦃f : F64 F⦄ where
  abbrev pub limit_of : Books F → F
  limit_of b = max_position b.rules

  -- An entry that opened: which shares were bought, and what was paid for them.
  pub record IsBought (b : Books F) (price : F) (ts : DateTime) (e' : TradingEngine F)
      : Type 0 where
    pub direction : TradeDirection
    pub size : F
    pub shares : F
    pub size_usable : is_unusable size ≡ false
    pub affordable : is_unaffordable price b.cash ≡ false
    pub whole : shares ≡ whole_shares (clamped (limit_of b) size) b.cash price
    pub at_least_one : (shares <? lit 1) ≡ false
    pub was_flat : b.manager.position ≡ none
    pub position :
        e'.position_manager.position ≡ some (new_position b.symbol direction price shares ts)
    pub paid : e'.available_capital ≡ b.cash ⊖ shares ⊗ price
    pub same_trades : e'.completed_trades ≡ b.trades

  abbrev pub IsEntry : Books F → F → DateTime → TradingEngine F × EntryOutcome → Type 0
  IsEntry b price ts (e', opened reason) = IsBought b price ts e'
  IsEntry b price ts (e', no_signal) = books e' ≡ b
  IsEntry b price ts (e', not_entered) = books e' ≡ b
  IsEntry b price ts (e', gated gate) = books e' ≡ b

  module _ (e : TradingEngine F) (market : MarketState F) (direction : TradeDirection)
      (reason : String) (size : F) (usable : is_unusable size ≡ false)
      (affordable : is_unaffordable (fill_price e market) e.available_capital ≡ false) where
    pay_if-IsEntry :
        (o : Option (Position F)) (shares : F)
        → e.position_manager.position ≡ o
        → shares
          ≡ whole_shares
              (clamped (limit_of (books e)) size)
              e.available_capital
              (fill_price e market)
        → (shares <? lit 1) ≡ false
        → IsEntry (books e) (fill_price e market) market.timestamp (
            pay_if
              (open_into o
                (new_position e.ticker direction (fill_price e market) shares market.timestamp)
                e.position_manager)
              e
              (shares ⊗ fill_price e market)
              reason)
    pay_if-IsEntry (some q) shares h w one = refl
    pay_if-IsEntry none shares h w one = record {
      direction = direction;
      size = size;
      shares = shares;
      size_usable = usable;
      affordable = affordable;
      whole = w;
      at_least_one = one;
      was_flat = h;
      position = refl;
      paid = refl;
      same_trades = refl;
    }

    buy_shares-IsEntry :
        (shares : F)
        → shares
          ≡ whole_shares
              (clamped (limit_of (books e)) size)
              e.available_capital
              (fill_price e market)
        → IsEntry
            (books e)
            (fill_price e market)
            market.timestamp
            (buy_shares e (fill_price e market) shares market.timestamp direction reason)
    unfolding buy_shares open_position
    buy_shares-IsEntry shares w = elim (Bool-cases (shares <? lit 1)) [
      | inl few ↦ rw few refl
      | inr one ↦ rw one (pay_if-IsEntry e.position_manager.position shares refl w one)
    ]

  open_sized-IsEntry :
      (e : TradingEngine F) (market : MarketState F) (direction : TradeDirection) (o : Option F)
      (reason : String)
      → IsEntry
          (books e)
          (fill_price e market)
          market.timestamp
          (open_sized e market direction o reason)
  unfolding open_sized
  open_sized-IsEntry e market direction none reason = refl
  open_sized-IsEntry e market direction (some size) reason = elim (Bool-cases (is_unusable size)) [
    | inl bad ↦ rw bad refl
    | inr good ↦ elim (Bool-cases (is_unaffordable (fill_price e market) e.available_capital)) [
      | inl dear ↦ rw (good, dear) refl
      | inr cheap ↦
          rw (good, cheap) (buy_shares-IsEntry e market direction reason size good cheap _ refl)
    ]
  ]

  try_enter-IsEntry :
      (e : TradingEngine F) (market : MarketState F) (scores : TimescaleScores F)
      (direction : TradeDirection) (fraction : F) (reason : String)
      → IsEntry
          (books e)
          (fill_price e market)
          market.timestamp
          (try_enter e market scores direction fraction reason)
  unfolding try_enter
  try_enter-IsEntry e market scores direction fraction reason =
      subst
        (λ b.
          IsEntry b (get_or b.fill market.last_price) market.timestamp
            (try_enter e market scores direction fraction reason))
        (books-apply_window_overrides e reason)
        (open_sized-IsEntry (apply_window_overrides e reason) market direction _ reason)

  on_entry_signal-IsEntry :
      (signal : ActionSignal F) (name : String) (e : TradingEngine F) (market : MarketState F)
      (scores : TimescaleScores F) (rest : TradingEngine F × EntryOutcome)
      → IsEntry (books e) (fill_price e market) market.timestamp rest
      → IsEntry
          (books e)
          (fill_price e market)
          market.timestamp
          (on_entry_signal signal name e market scores rest)
  on_entry_signal-IsEntry reject_entry name e market scores rest h = refl
  on_entry_signal-IsEntry (enter direction fraction reason) name e market scores rest h =
      try_enter-IsEntry e market scores direction fraction reason
  on_entry_signal-IsEntry _ name e market scores rest h = h

  -- Whatever the actions signal, the search for an entry either buys at least one whole share at
  -- the fill price, with a usable fraction and cash in hand, or leaves the books alone.
  pub seek_entry-IsEntry :
      (actions : List (Action F)) (e : TradingEngine F) (market : MarketState F)
      (scores : TimescaleScores F)
      → IsEntry
          (books e)
          (fill_price e market)
          market.timestamp
          (seek_entry actions e market scores)
  unfolding seek_entry
  seek_entry-IsEntry [] e market scores = refl
  seek_entry-IsEntry (a ∷ rest) e market scores =
      on_entry_signal-IsEntry _ a.name e market scores _ (seek_entry-IsEntry rest e market scores)
