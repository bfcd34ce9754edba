-- ===== src/Book.antt =====
-- crates/data_feed/src/book.rs: the state of a book. Its sink is the replay log; the live sink, which
-- writes the same trades to a database, and the notifications are left out, and so are the fields
-- that only go into the live sink's rows. The broker's state is a field, its calls are `Broker`.
pub mod Roster
pub mod Swap
pub mod Pending
pub mod Reconcile
pub mod Sightings
pub mod Bar
pub mod Ledger
pub mod Resolution
pub mod Rechecks
use text.Mathlib.Text.{is_le}
use Prim.Native.String.{compare}
use galactic_trading_firm.Prelude.{
  ℕ, zero, suc, Option, none, some, Bool, true, false, List, [], ◌∷◌, ◌++◌, String, if◌then◌else◌,
  map,
}
use galactic_trading_firm.Prelude.Int.{ℤ}
use galactic_trading_firm.Prelude.Maps.{Map, lookup, insert, remove}
use galactic_trading_firm.F64.{F64, ◌⊕◌, lit}
use galactic_trading_firm.Time.{DateTime, NaiveDate, Chrono}
use galactic_trading_firm.Scores.{TimescaleScores}
use galactic_trading_firm.Action.{ExitReason}
use galactic_trading_firm.Session.{SessionConfig}
use galactic_trading_firm.Engine.Position.{is_some, has_position}
use galactic_trading_firm.Engine.Gates.{is_same_date}
use galactic_trading_firm.Engine.State.{TradingEngine}
use galactic_trading_firm.Live.{LiveSession, TradeWithScores}

pub data BookRole : Type 0 where
  primary shadow : BookRole

pub record BookSpec (F : Type 0) : Type 0 where
  pub name : String
  pub role : BookRole
  pub config_version_id : Option ℤ
  pub tickers : Option (List String)
  pub capital : Option F
  pub purpose : String

-- Of a strategy's configuration, what a book reads. `build` is `try_build_engine` on it
-- (crates/data_feed/src/config_watcher.rs), which looks the indicators and actions up in registries.
pub record StrategyConfig (F : Type 0) : Type 0 where
  pub tickers : List String
  pub session : SessionConfig F
  pub build : String → F → Option (TradingEngine F)

pub record ExitPending (F : Type 0) : Type 0 where
  pub order_id : Option String
  pub reason : ExitReason
  pub engine_exit_price : F
  pub since : DateTime
  pub checks : ℕ
  pub alerted : Bool

pub record Unreconciled (F : Type 0) : Type 0 where
  pub scores : Option (TimescaleScores F)
  pub reason : Option String
  pub since : DateTime
  pub attempts : ℕ

pub record ReplayTrade (F : Type 0) : Type 0 where
  pub book : String
  pub tws : TradeWithScores F
  pub broker_exit_price : Option F

pub record PendingConfig (F : Type 0) : Type 0 where
  pub id : ℤ
  pub config : StrategyConfig F

pub record Book (F B : Type 0) : Type 0 where
  pub spec : BookSpec F
  pub config : StrategyConfig F
  pub config_id : ℤ
  pub pending : Option (PendingConfig F)
  pub sessions : Map (LiveSession F)
  pub ticker_list : List String
  pub broker : B
  pub log : List (ReplayTrade F)
  pub capital : F
  pub daily_pnl : F
  pub daily_pnl_date : Option NaiveDate
  pub session_row_date : Option NaiveDate
  pub unreconciled : Map (Unreconciled F)
  pub exit_pending : Map (ExitPending F)
  pub orphan_sightings : Map ℕ
  pub flat_sightings : Map ℕ

abbrev pub key_of : {V : Type 0} → String × V → String
key_of (key, value) = key

-- `HashMap::keys`
abbrev pub keys : {V : Type 0} → Map V → List String
keys m = map key_of m

abbrev pub contains_key : {V : Type 0} → String → Map V → Bool
contains_key key m = is_some (lookup key m)

unfoldable pub insert_sorted : String → List String → List String
insert_sorted s [] = s ∷ []
insert_sorted s (t ∷ rest) =
    let later = insert_sorted s rest in if is_le (compare s t) then s ∷ t ∷ rest else t ∷ later

-- `Vec::sort` of texts
unfoldable pub sort : List String → List String
sort [] = []
sort (s ∷ rest) = insert_sorted s (sort rest)

module _ {F : Type 0} where
  abbrev pub is_primary : BookSpec F → Bool
  is_primary spec = elim spec.role [ primary ↦ true | shadow ↦ false ]

  abbrev pub follows_promoted : BookSpec F → Bool
  follows_promoted spec = elim spec.config_version_id [ none ↦ true | some id ↦ false ]

  -- `LiveSession::has_position`
  abbrev pub in_position : LiveSession F → Bool
  in_position s = has_position s.engine.position_manager

  abbrev pub open_of : Map (LiveSession F) → List String
  open_of [] = []
  open_of ((ticker, s) ∷ rest) = if in_position s then ticker ∷ open_of rest else open_of rest

  abbrev pub count_open : Map (LiveSession F) → ℕ
  count_open [] = 0
  count_open ((ticker, s) ∷ rest) = if in_position s then suc (count_open rest) else count_open rest

module _ {F B : Type 0} where
  unfoldable pub open_tickers : Book F B → List String
  open_tickers b = sort (open_of b.sessions)

  unfoldable pub open_position_count : Book F B → ℕ
  open_position_count b = count_open b.sessions

  unfoldable pub exit_pending_tickers : Book F B → List String
  exit_pending_tickers b = sort (keys b.exit_pending)

  unfoldable pub refresh_ticker_list : Book F B → Book F B
  refresh_ticker_list b = record b { ticker_list = sort (keys b.sessions) }

  abbrev pub with_session : Book F B → String → LiveSession F → Book F B
  with_session b ticker s = record b { sessions = insert ticker s b.sessions }

  -- `record_trade`, into the log
  unfoldable pub record_trade : Book F B → TradeWithScores F → Option F → Book F B
  record_trade b tws broker_exit_price = record b {
    log =
        b.log
        ++ (record { book = b.spec.name; tws = tws; broker_exit_price = broker_exit_price } ∷ []);
  }

module _ {F B : Type 0} ⦃f : F64 F⦄ where
  -- `self.daily_pnl += tws.trade.pnl` and `record_trade`
  unfoldable pub count_trade : Book F B → TradeWithScores F → Option F → Book F B
  count_trade b tws broker_exit_price =
      record_trade (record b { daily_pnl = b.daily_pnl ⊕ tws.trade.pnl }) tws broker_exit_price

module _ {F B : Type 0} ⦃f : F64 F⦄ ⦃c : Chrono⦄ where
  unfoldable pub roll_daily_pnl : Book F B → DateTime → Book F B
  roll_daily_pnl b ts =
      if is_same_date b.daily_pnl_date (c.eastern_date ts)
      then b
      else record b { daily_pnl_date = some (c.eastern_date ts); daily_pnl = lit 0 }

  -- with the replay sink, only the date is kept
  unfoldable pub write_session_row : Book F B → DateTime → Book F B
  write_session_row b ts = record b { session_row_date = some (c.eastern_date ts) }
