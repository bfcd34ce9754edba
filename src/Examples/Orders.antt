-- ===== src/Examples/Orders.antt =====
-- Brokers to wait on: one that fills its order after 400 ms, and one that answers nothing. The state
-- of the outside is its clock, in nanoseconds. And a simulated broker with two tickers.
use galactic_trading_firm.Prelude.{
  ℕ, ◌+◌, ◌*◌, ◌≤◌, ◌≡◌, refl, some, false, [], ◌∷◌, if◌then◌else◌, leb, arith,
}
use galactic_trading_firm.Prelude.Int.{pos}
use galactic_trading_firm.Prelude.Maps.{lookup, remove}
use galactic_trading_firm.F64.{lit}
use galactic_trading_firm.F64.Decimal.{Decimal, hundredths, decimal_f64}
use galactic_trading_firm.Action.{long, short}
use galactic_trading_firm.Engine.Position.{ok, err}
use galactic_trading_firm.Broker.{
  OrderFill, working, no_position, accepted, failed, OrderState, filled, still_working, OrderView,
  opening, closing, live_wait, close_wait, OrderApi, Formats, fill,
}
use galactic_trading_firm.Broker.Simulated.{
  SimulatedBroker, set_last_price_for, price_for, apply_slippage, submit_order, close_position,
}
use galactic_trading_firm.Broker.Simulated.Trades.{
  IsRoundTrip, answered, close_position-submit_order, close_position-close_position,
  submit_order-set_last_price_for,
}
use galactic_trading_firm.Broker.Lookup.{
  retry, poll_with_retries, lookup_by_client_id, resolve_after_poll_failure,
}
use galactic_trading_firm.Broker.Wait.{
  nanos_per_milli, finalize_timeout, round, wait_loop, wait_for_fill_with,
}
use galactic_trading_firm.Broker.Wait.Sound.{IsSound}
use galactic_trading_firm.Broker.Wait.Backed.{BackedBy}
use galactic_trading_firm.Broker.Wait.Ends.{wait_for_fill_with-BackedBy}
use galactic_trading_firm.Broker.Wait.Deadline.{IsClock, wait_for_fill_with_ends}
use galactic_trading_firm.Broker.Wait.Silent.{IsSilent, IsUndecided, wait_for_fill_with-IsUndecided}

instance abbrev plain : Formats
plain = record { show_number = λ n. "n"; show_state = λ s. "s" }

abbrev view_in : OrderState → OrderView Decimal
view_in state = record {
  id = "o-1";
  client_order_id = "gtf-primary-QQQ-1";
  symbol = "QQQ";
  state = state;
  filled_qty = lit 10;
  avg_fill_price = some (lit 500);
  filled_at = some 7;
}

abbrev ask_nanos : ℕ
ask_nanos = 20 * nanos_per_milli

abbrev state_at : ℕ → OrderState
state_at now = if leb (400 * nanos_per_milli) now then filled else still_working

abbrev filling : OrderApi Decimal ℕ
filling = record {
  get_order = λ id now. (ok (view_in (state_at now)), now + ask_nanos);
  get_order_by_client_id = λ id now. (ok (view_in (state_at now)), now + ask_nanos);
  cancel_order = λ id now. (ok tt, now + ask_nanos);
  positions = λ now. (ok [], now + ask_nanos);
  sleep = λ ms now. now + ms * nanos_per_milli;
  now = λ now. now;
  utc_now = λ now. now;
}

filling-IsSound : IsSound Decimal ℕ filling (λ w w'. w ≤ w') (λ v. v.id ≡ "o-1") (λ list. list ≡ [])
filling-IsSound = record {
  reach_refl = λ w. omega arith;
  reach_trans = λ u v w h k. omega arith;
  get_order_lem = λ id w. (omega arith, refl);
  get_order_by_client_id_lem = λ id w. (omega arith, refl);
  positions_lem = λ w. (omega arith, refl);
  sleep_lem = λ ms w. omega arith;
}

filling-IsClock : IsClock Decimal ℕ filling (λ w w'. w ≤ w')
filling-IsClock = record { now_le = λ w w' h. h; sleep_le = λ ms w. omega arith }

wait_for_fill_with_ends_example :
    (r : _) × (w' : ℕ) × (wait_for_fill_with filling "QQQ" long opening live_wait 61
        (view_in still_working)
        0
      ≡ some (r, w'))
    × BackedBy filling-IsSound "QQQ" long opening live_wait 0 r w'
wait_for_fill_with_ends_example =
    wait_for_fill_with_ends filling-IsSound filling-IsClock "QQQ" long opening live_wait 60
      (view_in still_working) 0 (omega arith) refl

abbrev the_fill : OrderFill Decimal
the_fill = record {
  ticker = "QQQ";
  direction = long;
  quantity = lit 10;
  fill_price = lit 500;
  filled_at = 7;
}

-- the second poll, after 540 ms, shows the fill
wait_for_fill_with-BackedBy_example :
    BackedBy filling-IsSound "QQQ" long opening live_wait 0
      (accepted the_fill)
      (540 * nanos_per_milli)
unfolding wait_for_fill_with wait_loop round poll_with_retries retry fill
wait_for_fill_with-BackedBy_example =
    wait_for_fill_with-BackedBy filling-IsSound "QQQ" long opening live_wait 3
      (view_in still_working) 0 (accepted the_fill) (540 * nanos_per_milli) refl refl

abbrev silent : OrderApi Decimal ℕ
silent = record {
  get_order = λ id now. (err "timeout", now + ask_nanos);
  get_order_by_client_id = λ id now. (err "timeout", now + ask_nanos);
  cancel_order = λ id now. (err "timeout", now + ask_nanos);
  positions = λ now. (err "timeout", now + ask_nanos);
  sleep = λ ms now. now + ms * nanos_per_milli;
  now = λ now. now;
  utc_now = λ now. now;
}

silent-IsSilent : IsSilent Decimal ℕ silent
silent-IsSilent = record {
  get_order_err = λ id w. tt;
  get_order_by_client_id_err = λ id w. tt;
  positions_err = λ w. tt;
}

-- three rounds of failed polls and lookups pass the 20 s
wait_for_fill_with-IsUndecided_example :
    IsUndecided silent-IsSilent "QQQ" short closing close_wait "o-1" (failed (working "o-1"))
unfolding wait_for_fill_with wait_loop round poll_with_retries lookup_by_client_id retry fill
    resolve_after_poll_failure finalize_timeout
wait_for_fill_with-IsUndecided_example =
    wait_for_fill_with-IsUndecided silent-IsSilent "QQQ" short closing close_wait 5
      (view_in still_working) 0 (failed (working "o-1")) (22_290 * nanos_per_milli) refl refl

abbrev two_tickers : SimulatedBroker Decimal
two_tickers = record {
  slippage_bps = lit 5;
  last_price = lit 500;
  ticker_prices = ("SPY", lit 600) ∷ ("QQQ", lit 500) ∷ [];
  positions = ("SPY", record { direction = long; quantity = lit 3; entry_price = lit 590 }) ∷ [];
}

close_position-submit_order_example :
    let (b1, r1) = submit_order two_tickers "QQQ" short (lit 10) 7 in
    let (b2, r2) = close_position b1 "QQQ" 8 in
    IsRoundTrip short "QQQ"
      (lit 10)
      (price_for two_tickers "QQQ")
      two_tickers.slippage_bps
      7
      8
      r1
      r2
    × (b2 ≡ record two_tickers { positions = remove "QQQ" two_tickers.positions })
unfolding price_for lookup
close_position-submit_order_example =
    close_position-submit_order two_tickers "QQQ" short (lit 10) 7 8 refl

-- bought at 500.25 and sold at 499.75
slipped_both_ways :
    (apply_slippage two_tickers (lit 500) long ≡ hundredths (pos 50_025))
    × (apply_slippage two_tickers (lit 500) short ≡ hundredths (pos 49_975))
unfolding apply_slippage
slipped_both_ways = (refl, refl)

close_position-close_position_example :
    let b1 = (close_position two_tickers "SPY" 7).0 in
    close_position b1 "SPY" 8 ≡ (b1, failed (no_position "SPY"))
close_position-close_position_example = close_position-close_position two_tickers "SPY" 7 8

submit_order-set_last_price_for_example :
    let b' = set_last_price_for two_tickers "QQQ" (lit 510) in
    ((submit_order b' "QQQ" long (lit 3) 9).1
      ≡ answered false "QQQ" long (lit 3) (lit 510) two_tickers.slippage_bps 9)
    × ((submit_order b' "SPY" long (lit 3) 9).1 ≡ (submit_order two_tickers "SPY" long (lit 3) 9).1)
unfolding lookup
submit_order-set_last_price_for_example =
    submit_order-set_last_price_for two_tickers "QQQ" "SPY" (lit 510) (lit 600) long (lit 3) 9 refl
      refl
