-- ===== src/Live/Attribution.antt =====
-- crates/data_feed/src/live_session.rs: an exit that the broker does not confirm, taken back with the
-- entry data of its trade.
use galactic_trading_firm.Prelude.{
  ◌≡◌, refl, sym, ap, ◌∙◌, subst, Option, some, Bool, true, List, [], ◌∷◌, ◌++◌,
}
use galactic_trading_firm.F64.{F64, ◌⊕◌, ◌⊗◌}
use galactic_trading_firm.F64.Laws.{IsExact}
use galactic_trading_firm.Time.{DateTime, Chrono}
use galactic_trading_firm.Scores.{default_scores}
use galactic_trading_firm.Action.{Position, ExitReason}
use galactic_trading_firm.Engine.Position.{TradeRecord, trade_of}
use galactic_trading_firm.Engine.State.{TradingEngine}
use galactic_trading_firm.Engine.Gates.{get_or, record_exit}
use galactic_trading_firm.Engine.Exits.{book_exit}
use galactic_trading_firm.Engine.Deferred.{force_close_position, revert_last_close}
use galactic_trading_firm.Engine.Deferred.Undo.{
  IsReverted, force_close_position-eq, revert_last_close-force_close_position,
}
use galactic_trading_firm.Live.{
  TradeWithScores, LiveSession, last_of, paired, take_trade, trade_after, force_close, restash,
  reopen_after_unconfirmed_close,
}

last_of-append : {A : Type 0} (xs : List A) (x : A) → last_of (xs ++ (x ∷ [])) ≡ some x
unfolding last_of
last_of-append [] x = refl
last_of-append (y ∷ []) x = refl
last_of-append (y ∷ z ∷ rest) x = last_of-append (z ∷ rest) x

module _ {F : Type 0} ⦃f : F64 F⦄ ⦃c : Chrono⦄ where
  -- the trade as the session pairs it
  abbrev pub pair_of : LiveSession F → TradeRecord F → TradeWithScores F
  pair_of s trade = record {
    trade = trade;
    entry_scores = get_or s.entry_scores default_scores;
    exit_scores = s.last_scores;
    entry_reason = get_or s.entry_reason "";
    config_version_id = s.config_version_id;
    broker_entry_price = s.broker_entry_price;
  }

  closed_last :
      (e : TradingEngine F) (p : Position F) (price : F) (ts : DateTime) (reason : ExitReason)
      → e.position_manager.position ≡ some p
      → last_of (force_close_position e price ts reason).0.completed_trades
        ≡ some (trade_of p price ts reason)
  unfolding book_exit record_exit
  closed_last e p price ts reason h =
      rw (force_close_position-eq e p price ts reason h)
        (last_of-append e.completed_trades (trade_of p price ts reason))

  abbrev pub IsRestored : LiveSession F → Position F → TradeRecord F → LiveSession F × Bool → Type 0
  IsRestored s p trade (s', done) =
      (done ≡ true)
      × IsReverted s.engine p trade s'.engine
      × (s'.entry_scores ≡ some (get_or s.entry_scores default_scores))
      × (s'.entry_reason ≡ some (get_or s.entry_reason ""))
      × (s'.broker_entry_price ≡ s.broker_entry_price)

  restash-IsRestored :
      (s t : LiveSession F) (p : Position F) (trade : TradeRecord F)
      (r : TradingEngine F × Option (TradeRecord F))
      → IsReverted s.engine p trade r.0
      → r.1 ≡ some trade
      → IsRestored s p trade (restash t (pair_of s trade) r)
  restash-IsRestored s t p trade (e, o) rev h =
      subst (λ o. IsRestored s p trade (restash t (pair_of s trade) (e, o))) (sym h)
        (refl, rev, refl, refl, refl)

  trade_after-pair :
      (s : LiveSession F) (trade : TradeRecord F) (r : TradingEngine F × Option (TradeRecord F))
      → r.1 ≡ some trade
      → last_of r.0.completed_trades ≡ some trade
      → ((trade_after s r).1 ≡ some (pair_of s trade)) × ((trade_after s r).0.engine ≡ r.0)
  unfolding take_trade
  trade_after-pair s trade (e, o) h k =
      subst
        (λ o.
          ((trade_after s (e, o)).1 ≡ some (pair_of s trade))
          × ((trade_after s (e, o)).0.engine ≡ e))
        (sym h) (ap (paired s s.last_scores) k, refl)

  -- A forced exit of a session that holds a position gives the trade with the entry data of the session,
  -- and `reopen_after_unconfirmed_close` with that trade succeeds, restores the engine as a reverted
  -- close does, and restores the entry data: the scores and the reason (the defaults where the session
  -- had none) and the broker's entry price. The amounts are such that a sum of two rounds nothing.
  pub reopen_after_unconfirmed_close-force_close :
      {IsAmount : F → Type 0} (x : IsExact F IsAmount) (s : LiveSession F) (p : Position F)
      (price : F) (ts : DateTime) (reason : ExitReason)
      → s.engine.position_manager.position ≡ some p
      → IsAmount s.engine.available_capital
      → IsAmount (p.size ⊗ p.entry_price ⊕ (trade_of p price ts reason).pnl)
      → IsAmount s.engine.cumulative_realized_pnl
      → IsAmount (trade_of p price ts reason).pnl
      → let (closed, tws) = force_close s price ts reason in
        let pair = pair_of s (trade_of p price ts reason) in
        (tws ≡ some pair)
        × IsRestored s p (trade_of p price ts reason) (reopen_after_unconfirmed_close closed pair)
  unfolding force_close reopen_after_unconfirmed_close
  reopen_after_unconfirmed_close-force_close x s p price ts reason open_in cash cost realized pnl =
      let trade = trade_of p price ts reason in
      let r = force_close_position s.engine price ts reason in
      let same =
        ap (λ (r : TradingEngine F × Option (TradeRecord F)). r.1)
          (force_close_position-eq s.engine p price ts reason open_in) in
      let after =
        trade_after-pair s trade r same (closed_last s.engine p price ts reason open_in) in
      let back =
        revert_last_close-force_close_position x s.engine p price ts reason open_in cash cost
          realized pnl in
      (
        after.0,
        restash-IsRestored s (trade_after s r).0 p trade
            (revert_last_close (trade_after s r).0.engine)
            (subst (λ e. IsReverted s.engine p trade (revert_last_close e).0) (sym after.1) back.0)
            (subst (λ e. (revert_last_close e).1 ≡ some trade) (sym after.1) (back.1 ∙ same)),
      )
