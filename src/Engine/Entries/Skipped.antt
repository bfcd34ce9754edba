-- ===== src/Engine/Entries/Skipped.antt =====
-- The engine after an entry that the sizing of crates/engine/src/tick_loop.rs skips.
use galactic_trading_firm.Prelude.{
  ◌≡◌, refl, Option, none, some, Bool, true, false, String, arith, if◌then◌else◌, ◌||◌,
}
use galactic_trading_firm.F64.{F64, lit, ◌<?◌, ◌⊗◌}
use galactic_trading_firm.Market.{MarketState}
use galactic_trading_firm.Scores.{TimescaleScores}
use galactic_trading_firm.Action.{TradeDirection}
use galactic_trading_firm.Engine.Position.{Fallible, ok, err, PositionManager, open_position}
use galactic_trading_firm.Engine.Exits.{fill_price}
use galactic_trading_firm.Time.{DateTime}
use galactic_trading_firm.Engine.State.{TradingEngine}
use galactic_trading_firm.Engine.Entries.{
  EntryOutcome, not_entered, apply_window_overrides, pay_if, buy_shares, open_sized, try_enter,
  is_unusable, is_unaffordable, whole_shares, clamped, max_position,
}

module _ {F : Type 0} ⦃f : F64 F⦄ where
  -- a skipped entry leaves this engine
  record IsLeft (e : TradingEngine F) (r : TradingEngine F × EntryOutcome) : Type 0 where
    left : r.1 ≡ not_entered → r.0 ≡ e

  if-IsLeft :
      (b : Bool) (e : TradingEngine F) (r : TradingEngine F × EntryOutcome)
      → IsLeft e r
      → IsLeft e (if b then (e, not_entered) else r)
  if-IsLeft true e r h = record { left = λ k. refl }
  if-IsLeft false e r h = h

  pay_if-IsLeft :
      (o : Fallible (PositionManager F)) (e : TradingEngine F) (dollars : F) (reason : String)
      → IsLeft e (pay_if o e dollars reason)
  pay_if-IsLeft (ok manager) e dollars reason = record { left = λ k. absurd (ground (arith, k)) }
  pay_if-IsLeft (err message) e dollars reason = record { left = λ k. refl }

  buy_shares-IsLeft :
      (e : TradingEngine F) (price shares : F) (ts : DateTime) (direction : TradeDirection)
      (reason : String)
      → IsLeft e (buy_shares e price shares ts direction reason)
  unfolding buy_shares
  buy_shares-IsLeft e price shares ts direction reason = if-IsLeft (shares <? lit 1) e _ (
      pay_if-IsLeft (open_position e.position_manager e.ticker direction price shares ts) e
        (shares ⊗ price) reason)

  open_sized-IsLeft :
      (e : TradingEngine F) (market : MarketState F) (direction : TradeDirection) (o : Option F)
      (reason : String)
      → IsLeft e (open_sized e market direction o reason)
  unfolding open_sized
  open_sized-IsLeft e market direction none reason = record { left = λ k. refl }
  open_sized-IsLeft e market direction (some size) reason =
      let price = fill_price e market in
      if-IsLeft (is_unusable size || is_unaffordable price e.available_capital) e _ (
        buy_shares-IsLeft e price
          (whole_shares (clamped (max_position e.session_config) size) e.available_capital price)
          market.timestamp direction reason)

  -- An entry signal whose entry is then skipped (by the exposure cap, an unusable size or price, no
  -- cash, or less than one share) leaves the engine as it was but for the exit overrides of the
  -- signal's window, which stay applied.
  pub try_enter-not_entered :
      (e : TradingEngine F) (market : MarketState F) (scores : TimescaleScores F)
      (direction : TradeDirection) (fraction : F) (reason : String)
      → (try_enter e market scores direction fraction reason).1 ≡ not_entered
      → (try_enter e market scores direction fraction reason).0 ≡ apply_window_overrides e reason
  unfolding try_enter
  try_enter-not_entered e market scores direction fraction reason =
      (open_sized-IsLeft (apply_window_overrides e reason) market direction _ reason).left
