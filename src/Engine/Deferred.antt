-- ===== src/Engine/Deferred.antt =====
-- crates/engine/src/tick_loop.rs: the operations by which a host changes the engine between two
-- ticks: partial fills, deferred fills, and undoing what a broker did not confirm.
pub mod Undo
use galactic_trading_firm.Prelude.{
  Option, none, some, Bool, true, false, List, [], ◌∷◌, String, if◌then◌else◌, ◌||◌,
}
use galactic_trading_firm.F64.{F64, ◌⊕◌, ◌⊖◌, ◌⊗◌, ◌≤?◌, lit, is_nan}
use galactic_trading_firm.Time.{DateTime, Chrono}
use galactic_trading_firm.Action.{Position, TradeDirection, ExitReason}
use galactic_trading_firm.Engine.Position.{
  PositionManager, TradeRecord, Fallible, ok, err, open_position, close_position, has_position,
  restore_position, cancel_position,
}
use galactic_trading_firm.Engine.State.{TradingEngine}
use galactic_trading_firm.Engine.Gates.{breaker_trips}
use galactic_trading_firm.Engine.Exits.{book_exit}

abbrev pub put_first {ℓ} : {A : Type ℓ} → A → Option (List A × A) → Option (List A × A)
put_first x none = some ([], x)
put_first x (some (rest, last)) = some (x ∷ rest, last)

-- `Vec::pop`: the list without its last item, and that item
unfoldable pub pop {ℓ} : {A : Type ℓ} → List A → Option (List A × A)
pop [] = none
pop (x ∷ xs) = put_first x (pop xs)

module _ {F : Type 0} ⦃f : F64 F⦄ where
  abbrev pub resize_to : Option (Position F) → TradingEngine F → F → TradingEngine F × Bool
  resize_to none e size = (e, false)
  resize_to (some p) e size =
      if is_nan size || size ≤? lit 0 || p.size ≤? size then (e, false) else (
        record e {
          position_manager = record (e.position_manager) {
            position = some (record p { size = size });
          };
          available_capital = e.available_capital ⊕ (p.size ⊖ size) ⊗ p.entry_price;
        },
        true,
      )

  unfoldable pub resize_open_position : TradingEngine F → F → TradingEngine F × Bool
  resize_open_position e size = resize_to e.position_manager.position e size

  abbrev pub refund :
      PositionManager F × Option (Position F)
      → TradingEngine F
      → TradingEngine F × Option (Position F)
  refund (manager, none) e = (e, none)
  refund (manager, some p) e = (
    record e {
      position_manager = manager;
      available_capital = e.available_capital ⊕ p.size ⊗ p.entry_price;
    },
    some p,
  )

  unfoldable pub undo_last_open : TradingEngine F → TradingEngine F × Option (Position F)
  undo_last_open e = refund (cancel_position e.position_manager) e

  -- the result of `open_position` is ignored
  abbrev pub manager_after : PositionManager F → Fallible (PositionManager F) → PositionManager F
  manager_after pm (ok pm') = pm'
  manager_after pm (err message) = pm

  abbrev pub reopen :
      Option (List (TradeRecord F) × TradeRecord F)
      → TradingEngine F
      → TradingEngine F × Option (TradeRecord F)
  reopen none e = (e, none)
  reopen (some (trades, trade)) e = (
    record e {
      completed_trades = trades;
      available_capital = e.available_capital ⊖ trade.size ⊗ trade.entry_price;
      position_manager = manager_after e.position_manager (
          open_position e.position_manager trade.ticker trade.direction trade.entry_price trade.size
            trade.entry_time);
    },
    some trade,
  )

  unfoldable pub undo_last_close : TradingEngine F → TradingEngine F × Option (TradeRecord F)
  undo_last_close e = reopen (pop e.completed_trades) e

  abbrev pub pay_forced :
      Fallible (PositionManager F) → TradingEngine F → F → Fallible (TradingEngine F)
  pay_forced (err message) e dollars = err message
  pay_forced (ok manager) e dollars =
      ok
        (record e { position_manager = manager; available_capital = e.available_capital ⊖ dollars })

  unfoldable pub force_open_position :
      TradingEngine F → String → TradeDirection → F → F → DateTime → Fallible (TradingEngine F)
  force_open_position e ticker direction price size timestamp =
      pay_forced (open_position e.position_manager ticker direction price size timestamp) e
        (size ⊗ price)

  abbrev pub position_of_trade : TradeRecord F → Position F
  position_of_trade trade = record {
    ticker = trade.ticker;
    direction = trade.direction;
    entry_price = trade.entry_price;
    current_price = trade.exit_price;
    size = trade.size;
    entry_time = trade.entry_time;
    unrealized_pnl = trade.pnl;
    unrealized_pnl_pct = trade.pnl_pct;
    high_water_mark = trade.high_water_mark;
    low_water_mark = trade.low_water_mark;
    hold_duration_ms = trade.hold_duration_ms;
  }

  abbrev pub put_back :
      Option (List (TradeRecord F) × TradeRecord F)
      → TradingEngine F
      → TradingEngine F × Option (TradeRecord F)
  put_back none e = (e, none)
  put_back (some (trades, trade)) e =
      let pnl = e.cumulative_realized_pnl ⊖ trade.pnl in
      (
        record e {
          completed_trades = trades;
          position_manager = restore_position e.position_manager (position_of_trade trade);
          available_capital = e.available_capital ⊖ (trade.size ⊗ trade.entry_price ⊕ trade.pnl);
          cumulative_realized_pnl = pnl;
          last_exit_time = e.last_exit_time_before;
          daily_loss_breaker_active = breaker_trips e.session_config e.initial_capital_snapshot pnl;
        },
        some trade,
      )

  unfoldable pub revert_last_close : TradingEngine F → TradingEngine F × Option (TradeRecord F)
  revert_last_close e =
      if has_position e.position_manager then (e, none) else put_back (pop e.completed_trades) e

module _ {F : Type 0} ⦃f : F64 F⦄ ⦃c : Chrono⦄ where
  abbrev pub book_forced :
      TradingEngine F
      → PositionManager F × Option (TradeRecord F)
      → DateTime
      → TradingEngine F × Option (TradeRecord F)
  book_forced e (manager, none) ts = (record e { position_manager = manager }, none)
  book_forced e (manager, some trade) ts =
      (book_exit (record e { position_manager = manager }) trade ts, some trade)

  unfoldable pub force_close_position :
      TradingEngine F → F → DateTime → ExitReason → TradingEngine F × Option (TradeRecord F)
  force_close_position e price ts reason =
      book_forced e (close_position e.position_manager price ts reason) ts
