-- ===== src/Engine/Deferred/Undo.antt =====
-- Pairs of operations of crates/engine/src/tick_loop.rs: a forced open or close, and what undoes it.
use galactic_trading_firm.Prelude.{
  ◌≡◌, refl, sym, ap, ◌∙◌, Option, none, some, List, [], ◌∷◌, ◌++◌, String,
}
use galactic_trading_firm.F64.{F64, ◌⊕◌, ◌⊖◌, ◌⊗◌}
use galactic_trading_firm.F64.Laws.{IsExact}
use galactic_trading_firm.Time.{DateTime, Chrono}
use galactic_trading_firm.Action.{Position, TradeDirection, ExitReason}
use galactic_trading_firm.Engine.Position.{
  Fallible, ok, err, TradeRecord, trade_of, new_position, open_position, close_position,
  restore_position, cancel_position,
}
use galactic_trading_firm.Engine.State.{TradingEngine}
use galactic_trading_firm.Engine.Gates.{record_exit, breaker_trips}
use galactic_trading_firm.Engine.Exits.{book_exit}
use galactic_trading_firm.Engine.Deferred.{
  pop, put_first, undo_last_open, undo_last_close, force_open_position, force_close_position,
  revert_last_close, book_forced, reopen, put_back, pay_forced,
}

pub pop-append : {A : Type 0} → (xs : List A) (x : A) → pop (xs ++ (x ∷ [])) ≡ some (xs, x)
unfolding pop
pop-append [] x = refl
pop-append (y ∷ xs) x = ap (put_first y) (pop-append xs x)

module _ {F : Type 0} ⦃f : F64 F⦄ ⦃c : Chrono⦄ where
  abbrev flat_of : TradingEngine F → TradingEngine F
  flat_of e = record e { position_manager = record { position = none } }

  pub force_close_position-eq :
      (e : TradingEngine F) (p : Position F) (price : F) (ts : DateTime) (reason : ExitReason)
      → e.position_manager.position ≡ some p
      → force_close_position e price ts reason
        ≡ (book_exit (flat_of e) (trade_of p price ts reason) ts, some (trade_of p price ts reason))
  unfolding force_close_position close_position
  force_close_position-eq e p price ts reason h =
      ap (λ o. book_forced e (close_position (record { position = o }) price ts reason) ts) h

  -- the position as `revert_last_close` leaves it: marked at the attempted exit price
  abbrev pub marked_at : Position F → TradeRecord F → Position F
  marked_at p trade = record p {
    current_price = trade.exit_price;
    unrealized_pnl = trade.pnl;
    unrealized_pnl_pct = trade.pnl_pct;
    hold_duration_ms = trade.hold_duration_ms;
  }

  pub record IsReverted (e : TradingEngine F) (p : Position F) (trade : TradeRecord F)
      (e' : TradingEngine F) : Type 0 where
    pub position : e'.position_manager.position ≡ some (marked_at p trade)
    pub trades : e'.completed_trades ≡ e.completed_trades
    pub cash : e'.available_capital ≡ e.available_capital
    pub realized : e'.cumulative_realized_pnl ≡ e.cumulative_realized_pnl
    pub clock : e'.last_exit_time ≡ e.last_exit_time
    pub breaker :
        e'.daily_loss_breaker_active
        ≡ breaker_trips e.session_config e.initial_capital_snapshot e.cumulative_realized_pnl
    pub threshold : e'.active_score_exit_threshold ≡ e.scoring_config.exit_threshold
    pub max_hold : e'.max_hold_ms ≡ e.default_max_hold_ms
    pub cutoff : e'.active_force_exit_minutes ≡ none

  revert-put_back :
      (e : TradingEngine F) (trade : TradeRecord F) (ts : DateTime)
      → revert_last_close (book_exit (flat_of e) trade ts)
        ≡ put_back (some (e.completed_trades, trade)) (book_exit (flat_of e) trade ts)
  unfolding revert_last_close book_exit record_exit
  revert-put_back e trade ts =
      ap (λ o. put_back o (book_exit (flat_of e) trade ts)) (pop-append e.completed_trades trade)

  put_back-IsReverted :
      {IsAmount : F → Type 0} (x : IsExact F IsAmount) (e : TradingEngine F) (p : Position F)
      (price : F) (ts : DateTime) (reason : ExitReason)
      → IsAmount e.available_capital
      → IsAmount (p.size ⊗ p.entry_price ⊕ (trade_of p price ts reason).pnl)
      → IsAmount e.cumulative_realized_pnl
      → IsAmount (trade_of p price ts reason).pnl
      → IsReverted e p
          (trade_of p price ts reason)
          (put_back
            (some (e.completed_trades, trade_of p price ts reason))
            (book_exit (flat_of e) (trade_of p price ts reason) ts)).0
  unfolding book_exit record_exit restore_position trade_of
  put_back-IsReverted x e p price ts reason cash cost realized pnl =
      let same = x.add-sub_cancel e.cumulative_realized_pnl _ realized pnl in
      record {
        position = refl;
        trades = refl;
        cash = x.add-sub_cancel e.available_capital _ cash cost;
        realized = same;
        clock = refl;
        breaker = ap (breaker_trips e.session_config e.initial_capital_snapshot) same;
        threshold = refl;
        max_hold = refl;
        cutoff = refl;
      }

  -- An exit that the broker did not confirm: `revert_last_close` after `force_close_position` gives
  -- back the trade, and restores the position (marked at the attempted exit price), the trades, the
  -- cash, the realized profit and the cooldown clock; the breaker is again that of the realized
  -- profit. The overrides of the entry window are not restored: they stay at the defaults that the
  -- exit put in. The amounts are such that a sum of two rounds nothing.
  pub revert_last_close-force_close_position :
      {IsAmount : F → Type 0} (x : IsExact F IsAmount) (e : TradingEngine F) (p : Position F)
      (price : F) (ts : DateTime) (reason : ExitReason)
      → e.position_manager.position ≡ some p
      → IsAmount e.available_capital
      → IsAmount (p.size ⊗ p.entry_price ⊕ (trade_of p price ts reason).pnl)
      → IsAmount e.cumulative_realized_pnl
      → IsAmount (trade_of p price ts reason).pnl
      → let (closed, trade) = force_close_position e price ts reason in
        let (reverted, undone) = revert_last_close closed in
        IsReverted e p (trade_of p price ts reason) reverted × (undone ≡ trade)
  revert_last_close-force_close_position x e p price ts reason open_in cash cost realized pnl =
      simp
        (
          force_close_position-eq e p price ts reason open_in,
          revert-put_back e (trade_of p price ts reason) ts,
        )
        (put_back-IsReverted x e p price ts reason cash cost realized pnl, refl)

  pub force_open_position-eq :
      (e : TradingEngine F) (ticker : String) (direction : TradeDirection) (price size : F)
      (ts : DateTime)
      → e.position_manager.position ≡ none
      → force_open_position e ticker direction price size ts
        ≡ ok (record e {
          position_manager = record {
            position = some (new_position ticker direction price size ts);
          };
          available_capital = e.available_capital ⊖ size ⊗ price;
        })
  unfolding force_open_position open_position
  force_open_position-eq e ticker direction price size ts h =
      ap
        (λ o.
          pay_forced (open_position (record { position = o }) ticker direction price size ts) e
            (size ⊗ price))
        h

  abbrev cash_and_position : TradingEngine F → Option (Position F) → F → TradingEngine F
  cash_and_position e o k = record e {
    position_manager = record { position = o };
    available_capital = k;
  }

  abbrev pub undo_opened : Fallible (TradingEngine F) → Option (TradingEngine F)
  undo_opened (err message) = none
  undo_opened (ok e) = some (undo_last_open e).0

  -- An entry of a flat engine that the broker did not confirm: `undo_last_open` after
  -- `force_open_position`, which succeeds, gives the very engine before the entry. The amounts
  -- are such that a sum of two rounds nothing.
  pub undo_last_open-force_open_position :
      {IsAmount : F → Type 0} (x : IsExact F IsAmount) (e : TradingEngine F) (ticker : String)
      (direction : TradeDirection) (price size : F) (ts : DateTime)
      → e.position_manager.position ≡ none
      → IsAmount e.available_capital
      → IsAmount (size ⊗ price)
      → undo_opened (force_open_position e ticker direction price size ts) ≡ some e
  unfolding undo_last_open cancel_position
  undo_last_open-force_open_position x e ticker direction price size ts flat cash cost =
      simp (force_open_position-eq e ticker direction price size ts flat) (
        ap (λ o. some (cash_and_position e o (e.available_capital ⊖ size ⊗ price ⊕ size ⊗ price)))
          (sym flat)
        ∙ ap (λ k. some (cash_and_position e e.position_manager.position k))
            (x.sub-add_cancel e.available_capital _ cash cost))

  reopened :
      (e : TradingEngine F) (trade : TradeRecord F) (ts : DateTime)
      → undo_last_close (book_exit (flat_of e) trade ts)
        ≡ reopen (some (e.completed_trades, trade)) (book_exit (flat_of e) trade ts)
  unfolding undo_last_close book_exit record_exit
  reopened e trade ts =
      ap (λ o. reopen o (book_exit (flat_of e) trade ts)) (pop-append e.completed_trades trade)

  -- the position that `undo_last_close` opens again
  abbrev pub reopened_position : Position F → Position F
  reopened_position p = new_position p.ticker p.direction p.entry_price p.size p.entry_time

  reopened-position :
      (e : TradingEngine F) (p : Position F) (price : F) (ts : DateTime) (reason : ExitReason)
      → let trade = trade_of p price ts reason in
        (reopen
          (some (e.completed_trades, trade))
          (book_exit (flat_of e) trade ts)).0.position_manager.position
        ≡ some (reopened_position p)
  unfolding book_exit record_exit open_position trade_of
  reopened-position e p price ts reason = refl

  -- An exit that is deferred as the replay does it, closed at one price, undone by
  -- `undo_last_close` and closed again at the next price, leaves one trade, that at the next price;
  -- but the realized profit of the day holds the profit of both closes, and the cash holds the
  -- profit of the first close besides that of the second.
  pub deferred_exit_counts_twice :
      (e : TradingEngine F) (p : Position F) (price next_price : F) (ts next_ts : DateTime)
      (reason : ExitReason)
      → e.position_manager.position ≡ some p
      → let trade = trade_of p price ts reason in
        let next = trade_of (reopened_position p) next_price next_ts reason in
        let (closed, removed) = force_close_position e price ts reason in
        let (undone, again) = undo_last_close closed in
        let (last, result) = force_close_position undone next_price next_ts reason in
        (last.completed_trades ≡ e.completed_trades ++ (next ∷ []))
        × (last.cumulative_realized_pnl ≡ e.cumulative_realized_pnl ⊕ trade.pnl ⊕ next.pnl)
        × (last.available_capital
            ≡ e.available_capital
              ⊕ (p.size ⊗ p.entry_price ⊕ trade.pnl)
              ⊖ p.size ⊗ p.entry_price
              ⊕ (p.size ⊗ p.entry_price ⊕ next.pnl))
  unfolding book_exit record_exit trade_of
  deferred_exit_counts_twice e p price next_price ts next_ts reason open_in =
      simp
        (
          force_close_position-eq e p price ts reason open_in,
          reopened e (trade_of p price ts reason) ts,
          force_close_position-eq _ (reopened_position p) next_price next_ts reason
              (reopened-position e p price ts reason),
        )
        (refl, refl, refl)
