-- ===== src/Examples/Books.antt =====
-- A book on the simulated broker, with the example engine in ten shares, and a roster of books.
use galactic_trading_firm.Prelude.{
  ◌≡◌, ◌≤◌, refl, none, some, true, false, List, [], ◌∷◌, String, inl,
}
use galactic_trading_firm.Prelude.Int.{pos}
use galactic_trading_firm.Prelude.Maps.{lookup}
use galactic_trading_firm.F64.{lit}
use galactic_trading_firm.F64.Decimal.{Decimal, decimal_f64, decimal-IsExact}
use galactic_trading_firm.Scores.{default_scores}
use galactic_trading_firm.Action.{long, session_close, score_exit}
use galactic_trading_firm.Engine.Position.{trade_of}
use galactic_trading_firm.Broker.Simulated.{SimulatedBroker}
use galactic_trading_firm.Broker.Trait.{Broker, simulated}
use galactic_trading_firm.Live.{
  LiveSession, new_session, force_close, reopen_after_unconfirmed_close,
}
use galactic_trading_firm.Live.Attribution.{
  pair_of, IsRestored, reopen_after_unconfirmed_close-force_close,
}
use galactic_trading_firm.Book.{
  BookRole, BookSpec, StrategyConfig, ExitPending, Book, primary, shadow,
}
use galactic_trading_firm.Book.Pending.{check_exit_pending, check_exits_pending, new_exit_pending}
use galactic_trading_firm.Book.Rechecks.{Followed, check_exit_pending-Followed}
use galactic_trading_firm.Book.Bar.{flatten_all}
use galactic_trading_firm.Book.Ledger.Daily.{IsDaily, forced-IsDaily}
use galactic_trading_firm.Book.Roster.{
  Limits, BookPlan, WarmupInput, extend, apply_limits, days_for, days_of, warmup_plan,
}
use galactic_trading_firm.Book.Roster.Hosted.{IsHosting, apply_limits-IsHosting}
use galactic_trading_firm.Book.Roster.Warmup.{Sourced, warmup_plan_most}
use galactic_trading_firm.Examples.{engine, holding, clock, ten_shares, ten_o_clock, rules}

abbrev broker : SimulatedBroker Decimal
broker = record {
  slippage_bps = lit 5;
  last_price = lit 95;
  ticker_prices = ("XYZ", lit 95) ∷ [];
  positions = ("XYZ", record { direction = long; quantity = lit 10; entry_price = lit 90 }) ∷ [];
}

abbrev session : LiveSession Decimal
session = record (new_session holding (pos 7)) {
  entry_scores = some default_scores;
  entry_reason = some "window:morning";
  broker_entry_price = some (lit 90);
}

abbrev config : StrategyConfig Decimal
config = record { tickers = "XYZ" ∷ []; session = rules; build = λ ticker capital. some engine }

abbrev spec_of : String → BookRole → BookSpec Decimal
spec_of name role = record {
  name = name;
  role = role;
  config_version_id = none;
  tickers = none;
  capital = none;
  purpose = "";
}

abbrev book : Book Decimal (SimulatedBroker Decimal)
book = record {
  spec = spec_of "primary" primary;
  config = config;
  config_id = pos 7;
  pending = none;
  sessions = ("XYZ", session) ∷ [];
  ticker_list = "XYZ" ∷ [];
  broker = broker;
  log = [];
  capital = lit 1000;
  daily_pnl = lit 0;
  daily_pnl_date = none;
  session_row_date = none;
  unreconciled = [];
  exit_pending = [];
  orphan_sightings = [];
  flat_sightings = [];
}

abbrev waiting : ExitPending Decimal
waiting = new_exit_pending none score_exit (lit 94) (ten_o_clock 4)

abbrev unsure : Book Decimal (SimulatedBroker Decimal)
unsure = record book { exit_pending = ("XYZ", waiting) ∷ [] }

abbrev api : Broker Decimal (SimulatedBroker Decimal)
api = simulated (ten_o_clock 5)

forced-IsDaily_example :
    IsDaily api book (flatten_all api book session_close (("XYZ", lit 95) ∷ []) (ten_o_clock 5))
    × IsDaily api book (check_exits_pending api book (ten_o_clock 5) (("XYZ", lit 95) ∷ []))
forced-IsDaily_example =
    forced-IsDaily api book session_close (("XYZ", lit 95) ∷ []) (ten_o_clock 5)

-- the broker is asked again, closes the position, and the exit is resolved
check_exit_pending-Followed_example :
    Followed api broker "XYZ" "QQQ" waiting
      (ten_o_clock 5)
      unsure.exit_pending
      (check_exit_pending api unsure "XYZ" (ten_o_clock 5) (some (lit 95)))
unfolding lookup
check_exit_pending-Followed_example =
    check_exit_pending-Followed api unsure "XYZ" "QQQ" waiting (ten_o_clock 5) (some (lit 95)) refl
      refl

reopen_after_unconfirmed_close-force_close_example :
    let (closed, tws) = force_close session (lit 95) (ten_o_clock 5) score_exit in
    let pair = pair_of session (trade_of ten_shares (lit 95) (ten_o_clock 5) score_exit) in
    (tws ≡ some pair)
    × IsRestored session ten_shares
        (trade_of ten_shares (lit 95) (ten_o_clock 5) score_exit)
        (reopen_after_unconfirmed_close closed pair)
unfolding trade_of
reopen_after_unconfirmed_close-force_close_example =
    reopen_after_unconfirmed_close-force_close decimal-IsExact session ten_shares (lit 95)
      (ten_o_clock 5) score_exit refl refl refl refl refl

abbrev plan_of : String → BookRole → List String → BookPlan Decimal
plan_of name role tickers = record {
  spec = spec_of name role;
  config_id = pos 7;
  config = record config { tickers = tickers };
}

abbrev shadows : List (BookPlan Decimal)
shadows =
    plan_of "fast" shadow ("QQQ" ∷ "IWM" ∷ [])
    ∷ plan_of "same" shadow ("XYZ" ∷ [])
    ∷ plan_of "late" shadow []
    ∷ []

-- "fast" needs too many symbols, "same" fills the two places, and "late" comes too late
abbrev limits : Limits
limits = record { max_books = 2; max_symbols = 3 }

apply_limits-IsHosting_example :
    IsHosting limits
      (plan_of "primary" primary ("XYZ" ∷ []))
      (extend ("SPY" ∷ []) ("XYZ" ∷ []))
      (apply_limits (plan_of "primary" primary ("XYZ" ∷ []) ∷ shadows) limits "SPY")
apply_limits-IsHosting_example =
    apply_limits-IsHosting limits (plan_of "primary" primary ("XYZ" ∷ [])) shadows "SPY" refl
      (refl, (refl, (refl, tt)))

abbrev warm : WarmupInput
warm = record {
  book = "primary";
  is_primary = true;
  tickers = "XYZ" ∷ "QQQ" ∷ [];
  warmup_days = none;
}

abbrev warmer : WarmupInput
warmer = record { book = "fast"; is_primary = false; tickers = "QQQ" ∷ []; warmup_days = some 20 }

warmup_plan_most_example :
    (days_of warm ≤ days_for (warmup_plan (warm ∷ warmer ∷ []) "SPY") "QQQ")
    × Sourced (warm ∷ warmer ∷ []) "QQQ" (days_for (warmup_plan (warm ∷ warmer ∷ []) "SPY") "QQQ")
warmup_plan_most_example = warmup_plan_most (warm ∷ warmer ∷ []) "SPY" warm "QQQ" (inl refl) refl
