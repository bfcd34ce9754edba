-- ===== src/Live.antt =====
-- crates/data_feed/src/live_session.rs: an engine with the entry data of its open position.
pub mod Attribution
use galactic_trading_firm.Prelude.{
  Option, none, some, Bool, true, false, List, [], ◌∷◌, String, if◌then◌else◌, ◌||◌,
}
use galactic_trading_firm.Prelude.Int.{ℤ}
use galactic_trading_firm.F64.{F64, ◌≤?◌, lit}
use galactic_trading_firm.Time.{DateTime, Chrono}
use galactic_trading_firm.Market.{MarketState}
use galactic_trading_firm.Scores.{
  TimescaleScores, TickEvent, nothing, position_opened, position_closed, TickResult, default_scores,
}
use galactic_trading_firm.Action.{Caught, returned, panicked, TradeDirection, ExitReason}
use galactic_trading_firm.Engine.Position.{TradeRecord, Fallible, ok, err}
use galactic_trading_firm.Engine.State.{TradingEngine}
use galactic_trading_firm.Engine.Gates.{get_or, suppress_entries_until as suppress_engine_until}
use galactic_trading_firm.Engine.Deferred.{
  resize_open_position, undo_last_open, force_open_position, revert_last_close,
  force_close_position,
}
use galactic_trading_firm.Engine.Tick.{on_tick as engine_on_tick}

pub record TradeWithScores (F : Type 0) : Type 0 where
  pub trade : TradeRecord F
  pub entry_scores : TimescaleScores F
  pub exit_scores : TimescaleScores F
  pub entry_reason : String
  pub config_version_id : ℤ
  pub broker_entry_price : Option F

pub record LiveSession (F : Type 0) : Type 0 where
  pub engine : TradingEngine F
  pub config_version_id : ℤ
  pub entry_scores : Option (TimescaleScores F)
  pub entry_reason : Option String
  pub broker_entry_price : Option F
  pub last_scores : TimescaleScores F
  pub last_result : Option (TickResult F)

-- `slice::last`
unfoldable pub last_of {ℓ} : {A : Type ℓ} → List A → Option A
last_of [] = none
last_of (x ∷ []) = some x
last_of (x ∷ y ∷ rest) = last_of (y ∷ rest)

module _ {F : Type 0} where
  abbrev pub unstashed : LiveSession F → LiveSession F
  unstashed s = record s { entry_scores = none; entry_reason = none; broker_entry_price = none }

  unfoldable pub set_broker_entry_price : LiveSession F → F → LiveSession F
  set_broker_entry_price s price = record s { broker_entry_price = some price }

  unfoldable pub take_entry_stash :
      LiveSession F → LiveSession F × (Option (TimescaleScores F) × Option String)
  take_entry_stash s =
      (record s { entry_scores = none; entry_reason = none }, (s.entry_scores, s.entry_reason))

  unfoldable pub suppress_entries_until : LiveSession F → DateTime → LiveSession F
  suppress_entries_until s until = record s { engine = suppress_engine_until s.engine until }

module _ {F : Type 0} ⦃f : F64 F⦄ where
  -- `LiveSession::new`
  abbrev pub new_session : TradingEngine F → ℤ → LiveSession F
  new_session engine config_version_id = record {
    engine = engine;
    config_version_id = config_version_id;
    entry_scores = none;
    entry_reason = none;
    broker_entry_price = none;
    last_scores = default_scores;
    last_result = none;
  }

  abbrev pub paired :
      LiveSession F → TimescaleScores F → Option (TradeRecord F) → Option (TradeWithScores F)
  paired s exit_scores none = none
  paired s exit_scores (some t) = some (record {
    trade = t;
    entry_scores = get_or s.entry_scores default_scores;
    exit_scores = exit_scores;
    entry_reason = get_or s.entry_reason "";
    config_version_id = s.config_version_id;
    broker_entry_price = s.broker_entry_price;
  })

  unfoldable pub take_trade :
      LiveSession F → TimescaleScores F → LiveSession F × Option (TradeWithScores F)
  take_trade s exit_scores = (unstashed s, paired s exit_scores (last_of s.engine.completed_trades))

  unfoldable pub undo_open : LiveSession F → LiveSession F
  undo_open s = unstashed (record s { engine = (undo_last_open s.engine).0 })

  abbrev pub restash :
      LiveSession F
      → TradeWithScores F
      → TradingEngine F × Option (TradeRecord F)
      → LiveSession F × Bool
  restash s tws (e, none) = (record s { engine = e }, false)
  restash s tws (e, some t) = (
    record s {
      engine = e;
      entry_scores = some tws.entry_scores;
      entry_reason = some tws.entry_reason;
      broker_entry_price = tws.broker_entry_price;
    },
    true,
  )

  unfoldable pub reopen_after_unconfirmed_close :
      LiveSession F → TradeWithScores F → LiveSession F × Bool
  reopen_after_unconfirmed_close s tws = restash s tws (revert_last_close s.engine)

  unfoldable pub resize_open : LiveSession F → F → LiveSession F × Bool
  resize_open s quantity =
      let (e, resized) = resize_open_position s.engine quantity in
      (record s { engine = e }, resized)

  abbrev pub adopted_into :
      LiveSession F
      → F
      → Option (TimescaleScores F)
      → String
      → Fallible (TradingEngine F)
      → Option (LiveSession F)
  adopted_into s price scores reason (err e) = none
  adopted_into s price scores reason (ok e) = some (record s {
    engine = e;
    entry_scores = some (get_or scores s.last_scores);
    entry_reason = some reason;
    broker_entry_price = some price;
  })

  -- `none` is an `Err`, whose text only goes into a log
  unfoldable pub adopt_broker_position :
      LiveSession F
      → String
      → TradeDirection
      → (quantity price : F) → DateTime
      → Option (TimescaleScores F)
      → String
      → Option (LiveSession F)
  adopt_broker_position s ticker direction quantity price ts scores reason =
      if quantity ≤? lit 0 || price ≤? lit 0
      then none
      else adopted_into s price scores reason
          (force_open_position s.engine ticker direction price quantity ts)

module _ {F : Type 0} ⦃f : F64 F⦄ ⦃c : Chrono⦄ where
  abbrev pub after_event :
      TickEvent → LiveSession F → TickResult F → LiveSession F × Option (TradeWithScores F)
  after_event position_opened s result = (
    record s {
      entry_scores = some result.scores;
      entry_reason = some result.entry_reason;
      broker_entry_price = none;
    },
    none,
  )
  after_event position_closed s result = take_trade s result.scores
  after_event nothing s result = (s, none)

  abbrev pub with_result :
      LiveSession F × Option (TradeWithScores F)
      → TickResult F
      → LiveSession F × Caught (TickResult F × Option (TradeWithScores F))
  with_result (s, trade) result = (record s { last_result = some result }, returned (result, trade))

  -- after a tick that unwinds only the engine is changed
  abbrev pub after_tick :
      LiveSession F
      → Caught (TickResult F)
      → LiveSession F × Caught (TickResult F × Option (TradeWithScores F))
  after_tick s panicked = (s, panicked)
  after_tick s (returned result) =
      with_result (after_event result.event (record s { last_scores = result.scores }) result)
        result

  unfoldable pub on_tick :
      LiveSession F
      → MarketState F
      → LiveSession F × Caught (TickResult F × Option (TradeWithScores F))
  on_tick s market =
      let (e, seen, result) = engine_on_tick s.engine market in
      after_tick (record s { engine = e }) result

  abbrev pub trade_after :
      LiveSession F
      → TradingEngine F × Option (TradeRecord F)
      → LiveSession F × Option (TradeWithScores F)
  trade_after s (e, none) = (record s { engine = e }, none)
  trade_after s (e, some t) = take_trade (record s { engine = e }) s.last_scores

  unfoldable pub force_close :
      LiveSession F → F → DateTime → ExitReason → LiveSession F × Option (TradeWithScores F)
  force_close s price ts reason = trade_after s (force_close_position s.engine price ts reason)
