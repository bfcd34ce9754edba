-- ===== src/Book/Pending.antt =====
-- crates/data_feed/src/book.rs: an exit that the broker has not confirmed. The engine keeps the
-- position, and the order, or the list of positions, is asked again until it is resolved.
use text.Mathlib.Text.{◌==◌}
use galactic_trading_firm.Prelude.{
  ℕ, ◌+◌, ◌-◌, ◌*◌, ◌/◌, ◌%◌, ◌^◌, Option, none, some, Bool, true, false, List, [], ◌∷◌, String,
  if◌then◌else◌, leb, ◌||◌,
}
use galactic_trading_firm.Prelude.Maps.{Map, lookup, insert, remove}
use galactic_trading_firm.F64.{F64, ◌<?◌, lit}
use galactic_trading_firm.Time.{DateTime, Chrono, nanos_per_second}
use galactic_trading_firm.Action.{ExitReason}
use galactic_trading_firm.Engine.Gates.{get_or}
use galactic_trading_firm.Broker.{
  OrderFill, order_rejected, connection_error, no_position, unconfirmed, working, Submitted,
  accepted, failed, BrokerPosition, OrderState, filled, still_working, terminal, OrderView,
}
use galactic_trading_firm.Broker.Simulated.{if_positive}
use galactic_trading_firm.Broker.Trait.{Broker}
use galactic_trading_firm.Live.{LiveSession, TradeWithScores, force_close}
use galactic_trading_firm.Book.{ExitPending, Book, with_session, count_trade, exit_pending_tickers}
use galactic_trading_firm.Book.Swap.{apply_pending_where_flat}

-- `EXIT_PENDING_ALERT_SECS`
abbrev pub exit_pending_alert_secs : ℕ
exit_pending_alert_secs = 5 * 60

-- without the text of a pending close, which is only logged
pub data CloseOutcome (F : Type 0) : Type 0 where
  close_filled : OrderFill F → CloseOutcome F
  flat : CloseOutcome F
  unsettled : (order_id : Option String) → CloseOutcome F

pub data ExitResolution (F : Type 0) : Type 0 where
  exit_filled broker_flat : (price : Option F) → ExitResolution F
  resubmit still : ExitResolution F

module _ {F : Type 0} where
  abbrev pub close_outcome : Submitted (OrderFill F) → CloseOutcome F
  close_outcome (accepted fill) = close_filled fill
  close_outcome (failed (no_position msg)) = flat
  close_outcome (failed (working order_id)) = unsettled (some order_id)
  close_outcome (failed (order_rejected msg)) = unsettled none
  close_outcome (failed (connection_error msg)) = unsettled none
  close_outcome (failed (unconfirmed msg)) = unsettled none

  abbrev pub is_held : String → List (BrokerPosition F) → Bool
  is_held ticker [] = false
  is_held ticker (p ∷ rest) = p.ticker == ticker || is_held ticker rest

  abbrev pub has_filled : String → List (BrokerPosition F) → Option F → ExitResolution F
  has_filled ticker list price = if is_held ticker list then resubmit else broker_flat price

  -- the three ways in which the list of positions decides
  abbrev pub by_list : String → Option F → Submitted (List (BrokerPosition F)) → ExitResolution F
  by_list ticker price (accepted list) = has_filled ticker list price
  by_list ticker price (failed e) = still

  abbrev pub by_list_only : String → Submitted (List (BrokerPosition F)) → ExitResolution F
  by_list_only ticker (accepted list) = if is_held ticker list then still else broker_flat none
  by_list_only ticker (failed e) = still

  abbrev pub new_exit_pending : Option String → ExitReason → F → DateTime → ExitPending F
  new_exit_pending order_id reason price now = record {
    order_id = order_id;
    reason = reason;
    engine_exit_price = price;
    since = now;
    checks = 0;
    alerted = false;
  }

  -- `num_seconds` of a time that has passed
  abbrev pub is_alerted : ExitPending F → DateTime → Bool
  is_alerted p now = p.alerted || leb exit_pending_alert_secs ((now - p.since) / nanos_per_second)

module _ {F B : Type 0} where
  abbrev pub with_broker : {A : Type 0} → Book F B → B × A → Book F B × A
  with_broker b (broker, a) = (record b { broker = broker }, a)

  abbrev pub classified : Book F B × Submitted (OrderFill F) → Book F B × CloseOutcome F
  classified (b, r) = (b, close_outcome r)

  unfoldable pub begin_exit_pending :
      Book F B → String → Option String → ExitReason → F → DateTime → Book F B
  begin_exit_pending b ticker order_id reason price now = record b {
    exit_pending = insert ticker (new_exit_pending order_id reason price now) b.exit_pending;
  }

  unfoldable pub keep_exit_pending : Book F B → String → ExitPending F → DateTime → Book F B
  keep_exit_pending b ticker p now = record b {
    exit_pending = insert ticker (record p { alerted = is_alerted p now }) b.exit_pending;
  }

module _ {F B : Type 0} (api : Broker F B) where
  unfoldable pub close_at_broker : Book F B → String → Book F B × CloseOutcome F
  close_at_broker b ticker = classified (with_broker b (api.close ticker b.broker))

module _ {F : Type 0} ⦃f : F64 F⦄ where
  abbrev pub fill_known : OrderView F → Option F
  fill_known v = if lit 0 <? v.filled_qty then v.avg_fill_price else none

module _ {F B : Type 0} ⦃f : F64 F⦄ (api : Broker F B) where
  abbrev pub resolved : {A : Type 0} → (A → ExitResolution F) → B × A → B × ExitResolution F
  resolved g (broker, a) = (broker, g a)

  abbrev pub by_state : String → OrderState → OrderView F → B → B × ExitResolution F
  by_state ticker filled v broker = (broker, exit_filled v.avg_fill_price)
  by_state ticker still_working v broker = (broker, still)
  by_state ticker (terminal status) v broker =
      resolved (by_list ticker (fill_known v)) (api.positions broker)

  abbrev pub by_status : String → B × Submitted (OrderView F) → B × ExitResolution F
  by_status ticker (broker, accepted v) = by_state ticker v.state v broker
  by_status ticker (broker, failed e) = resolved (by_list_only ticker) (api.positions broker)

  abbrev pub by_order : String → Option String → B → B × ExitResolution F
  by_order ticker none broker = resolved (by_list ticker none) (api.positions broker)
  by_order ticker (some order_id) broker = by_status ticker (api.order_status order_id broker)

  unfoldable pub resolve_exit_pending :
      Book F B → String → ExitPending F → Book F B × ExitResolution F
  resolve_exit_pending b ticker p = with_broker b (by_order ticker p.order_id b.broker)

module _ {F B : Type 0} ⦃f : F64 F⦄ ⦃c : Chrono⦄ where
  abbrev pub swap_if_pending : Book F B → Book F B
  swap_if_pending b = elim b.pending [ none ↦ b | some p ↦ (apply_pending_where_flat b).0 ]

  abbrev pub finished :
      Book F B → String → Option F → LiveSession F × Option (TradeWithScores F) → Book F B
  finished b ticker broker_exit (s, none) = with_session b ticker s
  finished b ticker broker_exit (s, some tws) =
      count_trade (with_session b ticker s) tws broker_exit

  abbrev pub close_session :
      Book F B → String → F → Option F → DateTime → ExitReason → Option (LiveSession F) → Book F B
  close_session b ticker price broker_exit now reason none = b
  close_session b ticker price broker_exit now reason (some s) =
      finished b ticker broker_exit (force_close s price now reason)

  unfoldable pub finish_exit_pending :
      Book F B → String → ExitPending F → F → Option F → DateTime → Book F B
  finish_exit_pending b ticker p price broker_exit now =
      swap_if_pending
        (close_session b ticker price broker_exit now p.reason (lookup ticker b.sessions))

module _ {F B : Type 0} ⦃f : F64 F⦄ ⦃c : Chrono⦄ (api : Broker F B) where
  abbrev pub on_resubmitted :
      String → ExitPending F → F → DateTime → Book F B × CloseOutcome F → Book F B × Bool
  on_resubmitted ticker p fallback now (b, close_filled x) =
      let price = if_positive (some x.fill_price) in
      (finish_exit_pending b ticker p (get_or price fallback) price now, true)
  on_resubmitted ticker p fallback now (b, flat) =
      (finish_exit_pending b ticker p fallback none now, true)
  on_resubmitted ticker p fallback now (b, unsettled order_id) =
      (keep_exit_pending b ticker (record p { order_id = order_id }) now, false)

  abbrev pub on_resolution :
      String → ExitPending F → F → DateTime → Book F B × ExitResolution F → Book F B × Bool
  on_resolution ticker p fallback now (b, exit_filled price) =
      let known = if_positive price in
      (finish_exit_pending b ticker p (get_or known fallback) known now, true)
  on_resolution ticker p fallback now (b, broker_flat price) =
      let known = if_positive price in
      (finish_exit_pending b ticker p (get_or known fallback) known now, true)
  on_resolution ticker p fallback now (b, resubmit) =
      on_resubmitted ticker p fallback now (close_at_broker api b ticker)
  on_resolution ticker p fallback now (b, still) = (keep_exit_pending b ticker p now, false)

  abbrev pub recheck :
      Book F B → String → DateTime → Option F → Option (ExitPending F) → Book F B × Bool
  recheck b ticker now last_price none = (b, false)
  recheck b ticker now last_price (some p) =
      let removed = record b { exit_pending = remove ticker b.exit_pending } in
      let checked = record p { checks = (p.checks + 1) % 2 ^ 32 } in
      on_resolution ticker checked (get_or (if_positive last_price) p.engine_exit_price) now
        (resolve_exit_pending api removed ticker checked)

  -- `true` when the exit is resolved
  unfoldable pub check_exit_pending : Book F B → String → DateTime → Option F → Book F B × Bool
  check_exit_pending b ticker now last_price =
      recheck b ticker now last_price (lookup ticker b.exit_pending)

  unfoldable pub check_each : List String → Book F B → DateTime → Map F → Book F B
  check_each [] b now last_prices = b
  check_each (t ∷ rest) b now last_prices =
      check_each rest (check_exit_pending b t now (lookup t last_prices)).0 now last_prices

  unfoldable pub check_exits_pending : Book F B → DateTime → Map F → Book F B
  check_exits_pending b now last_prices = check_each (exit_pending_tickers b) b now last_prices
