-- ===== src/Book/Bar.antt =====
-- crates/data_feed/src/book.rs: `on_bar`, what a bar of one ticker does to a book, and the forced
-- closes. The rows of the live sink (block events, state) are left out.
use galactic_trading_firm.Prelude.{
  Option, none, some, Bool, true, false, List, [], ◌∷◌, String, if◌then◌else◌, leb, not, ◌&&◌, ◌||◌,
}
use galactic_trading_firm.Prelude.Maps.{Map, lookup}
use galactic_trading_firm.F64.{F64, ◌⊖◌, ◌⊘◌, ◌<?◌, lit}
use galactic_trading_firm.Time.{DateTime, Chrono}
use galactic_trading_firm.Market.{MarketState}
use galactic_trading_firm.Scores.{TickEvent, nothing, position_opened, position_closed, TickResult}
use galactic_trading_firm.Action.{Caught, returned, panicked, Position, ExitReason}
use galactic_trading_firm.Engine.Gates.{get_or}
use galactic_trading_firm.Broker.{OrderFill, Submitted, accepted, failed}
use galactic_trading_firm.Broker.Simulated.{if_positive}
use galactic_trading_firm.Broker.Trait.{Broker}
use galactic_trading_firm.Live.{
  LiveSession, TradeWithScores, on_tick as session_on_tick, undo_open, resize_open,
  set_broker_entry_price, reopen_after_unconfirmed_close,
}
use galactic_trading_firm.Book.{
  Book, contains_key, in_position, open_position_count, open_tickers, with_session, count_trade,
  roll_daily_pnl, write_session_row,
}
use galactic_trading_firm.Book.Swap.{apply_pending_where_flat}
use galactic_trading_firm.Book.Pending.{
  CloseOutcome, close_filled, flat, unsettled, with_broker, begin_exit_pending, close_at_broker,
  close_session, check_exit_pending,
}
use galactic_trading_firm.Book.Reconcile.{handle_failed_entry, reconcile_ticker}

pub record BarOutcome (F : Type 0) : Type 0 where
  pub result : TickResult F
  pub trade : Option (TradeWithScores F)
  pub dropped : List String

-- the session's tick, and what of it the bar still has to settle
pub record Ticked (F B : Type 0) : Type 0 where
  pub book : Book F B
  pub outcome : Caught (TickResult F × Option (TradeWithScores F))

module _ {F : Type 0} where
  abbrev pub without_event : TickResult F → TickResult F
  without_event result = record result { event = nothing }

module _ {F : Type 0} ⦃f : F64 F⦄ where
  -- a position of fewer shares than were asked for
  abbrev pub is_partial : F → F → Bool
  is_partial quantity shares = (lit 1 ⊘ lit 2 <? quantity) && (quantity <? shares ⊖ lit 1 ⊘ lit 2)

  abbrev pub resized : LiveSession F → F → F → LiveSession F
  resized s quantity shares =
      if is_partial quantity shares then (resize_open s (f.floor quantity)).0 else s

  abbrev pub priced : LiveSession F → F → LiveSession F
  priced s price = if lit 0 <? price then set_broker_entry_price s price else s

module _ {F B : Type 0} ⦃f : F64 F⦄ where
  abbrev pub reverted : Book F B → String → LiveSession F × Bool → Book F B × Bool
  reverted b ticker (s, undone) = (with_session b ticker s, undone)

  abbrev pub revert_session :
      Book F B → String → TradeWithScores F → Option (LiveSession F) → Book F B × Bool
  revert_session b ticker tws none = (b, false)
  revert_session b ticker tws (some s) = reverted b ticker (reopen_after_unconfirmed_close s tws)

  unfoldable pub revert_engine_close : Book F B → String → TradeWithScores F → Book F B × Bool
  revert_engine_close b ticker tws = revert_session b ticker tws (lookup ticker b.sessions)

  abbrev pub settle_fill : Book F B → String → F → OrderFill F → Option (LiveSession F) → Book F B
  settle_fill b ticker shares x none = b
  settle_fill b ticker shares x (some s) =
      with_session b ticker (priced (resized s x.quantity shares) x.fill_price)

  abbrev pub undo_session : Book F B → String → Option (LiveSession F) → Book F B
  undo_session b ticker none = b
  undo_session b ticker (some s) = with_session b ticker (undo_open s)

  -- with the trade, the configuration that waits is swapped in
  abbrev pub closed_outcome : Book F B → TickResult F → TradeWithScores F → Book F B × BarOutcome F
  closed_outcome b result tws =
      let (b', dropped) = apply_pending_where_flat b in
      (b', record { result = result; trade = some tws; dropped = dropped })

  abbrev pub kept_outcome : Book F B → TickResult F → Book F B × BarOutcome F
  kept_outcome b result = (b, record { result = result; trade = none; dropped = [] })

module _ {F B : Type 0} ⦃f : F64 F⦄ (api : Broker F B) where
  abbrev pub on_submitted : String → F → DateTime → Book F B × Submitted (OrderFill F) → Book F B
  on_submitted ticker shares ts (b, accepted x) =
      settle_fill b ticker shares x (lookup ticker b.sessions)
  on_submitted ticker shares ts (b, failed e) = handle_failed_entry api b ticker ts

  abbrev pub place_order : Book F B → String → DateTime → Position F → Book F B
  place_order b ticker ts p =
      let shares = f.floor p.size in
      if shares <? lit 1
      then undo_session b ticker (lookup ticker b.sessions)
      else on_submitted ticker shares ts
          (with_broker b (api.submit ticker p.direction shares b.broker))

  abbrev pub place_opened : Book F B → String → DateTime → Option (Position F) → Book F B
  place_opened b ticker ts none = b
  place_opened b ticker ts (some p) = place_order b ticker ts p

  abbrev pub position_in : Option (LiveSession F) → Option (Position F)
  position_in none = none
  position_in (some s) = s.engine.position_manager.position

  -- the order of an entry
  abbrev pub submit_entry : TickEvent → Book F B → String → DateTime → Book F B
  submit_entry position_opened b ticker ts =
      place_opened b ticker ts (position_in (lookup ticker b.sessions))
  submit_entry position_closed b ticker ts = b
  submit_entry nothing b ticker ts = b

  abbrev pub on_reverted :
      String
      → TickResult F
      → TradeWithScores F
      → Option String
      → DateTime
      → Book F B × Bool
      → Book F B × BarOutcome F
  on_reverted ticker result tws order_id ts (b, true) =
      kept_outcome
        (begin_exit_pending b ticker order_id tws.trade.exit_reason tws.trade.exit_price ts)
        (without_event result)
  on_reverted ticker result tws order_id ts (b, false) =
      closed_outcome (count_trade b tws none) result tws

  abbrev pub on_close_outcome :
      String
      → TickResult F
      → TradeWithScores F
      → DateTime
      → Book F B × CloseOutcome F
      → Book F B × BarOutcome F
  on_close_outcome ticker result tws ts (b, close_filled x) =
      closed_outcome (count_trade b tws (if_positive (some x.fill_price))) result tws
  on_close_outcome ticker result tws ts (b, flat) =
      closed_outcome (count_trade b tws none) result tws
  on_close_outcome ticker result tws ts (b, unsettled order_id) =
      on_reverted ticker result tws order_id ts (revert_engine_close b ticker tws)

  -- the close of an exit
  abbrev pub submit_exit :
      Option (TradeWithScores F)
      → Book F B
      → String
      → DateTime
      → TickResult F
      → Book F B × BarOutcome F
  submit_exit none b ticker ts result = kept_outcome b result
  submit_exit (some tws) b ticker ts result =
      if contains_key ticker b.exit_pending
      then kept_outcome (revert_engine_close b ticker tws).0 (without_event result)
      else on_close_outcome ticker result tws ts (close_at_broker api b ticker)

  abbrev pub with_outcome : Book F B × BarOutcome F → Book F B × Caught (Option (BarOutcome F))
  with_outcome (b, outcome) = (b, returned (some outcome))

  -- a tick that unwinds takes the bar with it
  abbrev pub settle_tick :
      String
      → DateTime
      → Book F B
      → Caught (TickResult F × Option (TradeWithScores F))
      → Book F B × Caught (Option (BarOutcome F))
  settle_tick ticker ts b panicked = (b, panicked)
  settle_tick ticker ts b (returned (result, trade)) =
      with_outcome (submit_exit trade (submit_entry result.event b ticker ts) ticker ts result)

module _ {F B : Type 0} ⦃f : F64 F⦄ ⦃c : Chrono⦄ where
  -- the capacity over the tickers, and an entry that the broker has not settled
  abbrev pub blocks_entries : Book F B → String → LiveSession F → Bool
  blocks_entries b ticker s =
      (leb b.config.session.max_concurrent_positions (open_position_count b) && not (in_position s))
      || contains_key ticker b.unreconciled

  abbrev pub gated_market : Book F B → String → LiveSession F → MarketState F → MarketState F
  gated_market b ticker s market =
      if blocks_entries b ticker s then record market { entries_blocked = true } else market

  unfoldable pub tick_session : Book F B → String → LiveSession F → MarketState F → Ticked F B
  tick_session b ticker s market =
      let (s', outcome) = session_on_tick s (gated_market b ticker s market) in
      record { book = with_session b ticker s'; outcome = outcome }

module _ {F B : Type 0} ⦃f : F64 F⦄ ⦃c : Chrono⦄ (api : Broker F B) where
  abbrev pub reconcile_first : Book F B → String → DateTime → Book F B
  reconcile_first b ticker ts =
      if contains_key ticker b.unreconciled then reconcile_ticker api b ticker ts else b

  abbrev pub recheck_first : Book F B → String → DateTime → F → Book F B
  recheck_first b ticker ts price =
      if contains_key ticker b.exit_pending
      then (check_exit_pending api b ticker ts (some price)).0
      else b

  -- what precedes the tick
  unfoldable pub ready : Book F B → String → DateTime → F → Book F B
  ready b ticker ts price =
      recheck_first (reconcile_first (write_session_row (roll_daily_pnl b ts) ts) ticker ts) ticker
        ts price

  -- the session may be gone by now, when the recheck has swapped a configuration in
  abbrev pub tick_if :
      Book F B
      → String
      → MarketState F
      → Option (LiveSession F)
      → Book F B × Caught (Option (BarOutcome F))
  tick_if b ticker market none = (b, returned none)
  tick_if b ticker market (some s) =
      let x = tick_session b ticker s market in
      settle_tick api ticker market.timestamp x.book x.outcome

  abbrev pub tick_ready :
      Book F B → String → MarketState F → Book F B × Caught (Option (BarOutcome F))
  tick_ready b ticker market = tick_if b ticker market (lookup ticker b.sessions)

  unfoldable pub on_bar :
      Book F B → String → MarketState F → Book F B × Caught (Option (BarOutcome F))
  on_bar b ticker market =
      if contains_key ticker b.sessions
      then tick_ready (ready b ticker market.timestamp market.last_price) ticker market
      else (b, returned none)

  abbrev pub engine_price : F → Option F → F
  engine_price price broker_exit = if lit 0 <? price then price else get_or broker_exit (lit 0)

  abbrev pub record_closed : Book F B → String → F → ExitReason → DateTime → Option F → Book F B
  record_closed b ticker price reason now broker_exit =
      close_session b ticker (engine_price price broker_exit) broker_exit now reason
        (lookup ticker b.sessions)

  abbrev pub on_forced : String → F → ExitReason → DateTime → Book F B × CloseOutcome F → Book F B
  on_forced ticker price reason now (b, close_filled x) =
      record_closed b ticker price reason now (if_positive (some x.fill_price))
  on_forced ticker price reason now (b, flat) = record_closed b ticker price reason now none
  on_forced ticker price reason now (b, unsettled order_id) =
      begin_exit_pending b ticker order_id reason price now

  unfoldable pub close_and_record : Book F B → String → F → ExitReason → DateTime → Book F B
  close_and_record b ticker price reason now =
      if contains_key ticker b.exit_pending
      then (check_exit_pending api b ticker now (if_positive (some price))).0
      else on_forced ticker price reason now (close_at_broker api b ticker)

  unfoldable pub flatten_each : List String → Book F B → ExitReason → Map F → DateTime → Book F B
  flatten_each [] b reason last_prices now = b
  flatten_each (t ∷ rest) b reason last_prices now =
      flatten_each rest (close_and_record b t (get_or (lookup t last_prices) (lit 0)) reason now)
        reason last_prices now

  unfoldable pub flatten_all : Book F B → ExitReason → Map F → DateTime → Book F B
  flatten_all b reason last_prices now = flatten_each (open_tickers b) b reason last_prices now
