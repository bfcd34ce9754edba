-- ===== src/Examples/Undone.antt =====
-- What the example engine undoes.
use galactic_trading_firm.Prelude.{◌≡◌, refl, some, [], ◌∷◌, ◌++◌}
use galactic_trading_firm.F64.{lit, ◌⊕◌, ◌⊖◌, ◌⊗◌}
use galactic_trading_firm.F64.Decimal.{decimal_f64, decimal-IsExact}
use galactic_trading_firm.Action.{long, score_exit}
use galactic_trading_firm.Engine.Position.{trade_of}
use galactic_trading_firm.Engine.Deferred.{
  force_close_position, revert_last_close, force_open_position, undo_last_close,
}
use galactic_trading_firm.Engine.Deferred.Undo.{
  IsReverted, revert_last_close-force_close_position, undo_opened,
  undo_last_open-force_open_position, reopened_position, deferred_exit_counts_twice,
}
use galactic_trading_firm.Examples.{engine, holding, clock, ten_shares, ten_o_clock}

revert_last_close-force_close_position_example :
    let (closed, trade) = force_close_position holding (lit 95) (ten_o_clock 5) score_exit in
    let (reverted, undone) = revert_last_close closed in
    IsReverted holding ten_shares (trade_of ten_shares (lit 95) (ten_o_clock 5) score_exit) reverted
    × (undone ≡ trade)
unfolding trade_of
revert_last_close-force_close_position_example =
    revert_last_close-force_close_position decimal-IsExact holding ten_shares (lit 95)
      (ten_o_clock 5) score_exit refl refl refl refl refl

undo_last_open-force_open_position_example :
    undo_opened (force_open_position engine "XYZ" long (lit 90) (lit 10) (ten_o_clock 0))
    ≡ some engine
undo_last_open-force_open_position_example =
    undo_last_open-force_open_position decimal-IsExact engine "XYZ" long (lit 90) (lit 10)
      (ten_o_clock 0) refl refl refl

deferred_exit_counts_twice_example :
    let trade = trade_of ten_shares (lit 95) (ten_o_clock 5) score_exit in
    let next = trade_of (reopened_position ten_shares) (lit 94) (ten_o_clock 6) score_exit in
    let (closed, removed) = force_close_position holding (lit 95) (ten_o_clock 5) score_exit in
    let (undone, again) = undo_last_close closed in
    let (last, result) = force_close_position undone (lit 94) (ten_o_clock 6) score_exit in
    (last.completed_trades ≡ holding.completed_trades ++ (next ∷ []))
    × (last.cumulative_realized_pnl ≡ holding.cumulative_realized_pnl ⊕ trade.pnl ⊕ next.pnl)
    × (last.available_capital
        ≡ holding.available_capital
          ⊕ (ten_shares.size ⊗ ten_shares.entry_price ⊕ trade.pnl)
          ⊖ ten_shares.size ⊗ ten_shares.entry_price
          ⊕ (ten_shares.size ⊗ ten_shares.entry_price ⊕ next.pnl))
deferred_exit_counts_twice_example =
    deferred_exit_counts_twice holding ten_shares (lit 95) (lit 94) (ten_o_clock 5) (ten_o_clock 6)
      score_exit refl
