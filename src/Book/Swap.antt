-- ===== src/Book/Swap.antt =====
-- crates/data_feed/src/book.rs: a newer configuration, which a ticker takes when it is flat.
use text.Mathlib.Text.{◌==◌}
use galactic_trading_firm.Prelude.{
  Option, none, some, Bool, true, false, List, [], ◌∷◌, ◌++◌, String, if◌then◌else◌, not, ◌&&◌,
  ◌||◌,
}
use galactic_trading_firm.Prelude.Int.{ℤ}
use galactic_trading_firm.Prelude.Maps.{Map, lookup, remove}
use galactic_trading_firm.F64.{F64}
use galactic_trading_firm.Engine.State.{TradingEngine}
use galactic_trading_firm.Engine.Gates.{carry_day_state}
use galactic_trading_firm.Engine.Exits.{eq_ℤ}
use galactic_trading_firm.Live.{LiveSession, new_session}
use galactic_trading_firm.Book.{
  BookSpec, StrategyConfig, PendingConfig, Book, keys, in_position, refresh_ticker_list,
  with_session,
}

abbrev pub contains : String → List String → Bool
contains x [] = false
contains x (y ∷ rest) = y == x || contains x rest

abbrev pub tickers_or : Option (List String) → List String → List String
tickers_or none own = own
tickers_or (some []) own = own
tickers_or (some (t ∷ rest)) own = t ∷ rest

module _ {F : Type 0} where
  unfoldable pub effective_tickers : BookSpec F → StrategyConfig F → List String
  effective_tickers spec config = tickers_or spec.tickers config.tickers

  unfoldable pub apply_to : BookSpec F → StrategyConfig F → StrategyConfig F
  apply_to spec config = record config { tickers = effective_tickers spec config }

  abbrev pub carried : Option (LiveSession F) → TradingEngine F → TradingEngine F
  carried none e = e
  carried (some old) e = carry_day_state e old.engine

  abbrev pub needs_swap : ℤ → Option (LiveSession F) → Bool
  needs_swap id none = false
  needs_swap id (some s) = not (eq_ℤ s.config_version_id id) && not (in_position s)

  abbrev pub is_waiting : ℤ → Map (LiveSession F) → Bool
  is_waiting id [] = false
  is_waiting id ((ticker, s) ∷ rest) = not (eq_ℤ s.config_version_id id) || is_waiting id rest

module _ {F B : Type 0} where
  -- the deletion of rows of the live sink is left out
  unfoldable pub set_pending : Book F B → ℤ → StrategyConfig F → Book F B
  set_pending b version_id config = record b {
    pending = some (record { id = version_id; config = apply_to b.spec config });
  }

module _ {F B : Type 0} ⦃f : F64 F⦄ where
  abbrev pub rebuilt : Book F B → String → ℤ → Option (TradingEngine F) → Book F B × Option Bool
  rebuilt b ticker id none = (b, none)
  rebuilt b ticker id (some e) =
      (with_session b ticker (new_session (carried (lookup ticker b.sessions) e) id), some false)

  abbrev pub apply_config_to : Book F B → String → Option (PendingConfig F) → Book F B × Option Bool
  apply_config_to b ticker none = (b, none)
  apply_config_to b ticker (some p) =
      if contains ticker p.config.tickers
      then rebuilt b ticker p.id (p.config.build ticker b.capital)
      else (refresh_ticker_list (record b { sessions = remove ticker b.sessions }), some true)

  -- `some true`: dropped; `some false`: rebuilt; `none`: kept
  unfoldable pub apply_pending_to : Book F B → String → Book F B × Option Bool
  apply_pending_to b ticker = apply_config_to b ticker b.pending

  abbrev pub note_dropped : String → Book F B × Option Bool → Book F B × List String
  note_dropped ticker (b, some true) = (b, ticker ∷ [])
  note_dropped ticker (b, some false) = (b, [])
  note_dropped ticker (b, none) = (b, [])

  abbrev pub swap_one : Book F B → ℤ → String → Book F B × List String
  swap_one b id ticker =
      if needs_swap id (lookup ticker b.sessions)
      then note_dropped ticker (apply_pending_to b ticker)
      else (b, [])

  unfoldable pub swap_all : List String → Book F B → ℤ → Book F B × List String
  swap_all [] b id = (b, [])
  swap_all (t ∷ rest) b id =
      let (b1, gone) = swap_one b id t in
      let (b2, later) = swap_all rest b1 id in (b2, gone ++ later)

  -- the pending configuration becomes the book's when no session waits for it
  abbrev pub settle : PendingConfig F → Book F B × List String → Book F B × List String
  settle p (b, dropped) =
      if is_waiting p.id b.sessions
      then (b, dropped)
      else (record b { pending = none; config = p.config; config_id = p.id }, dropped)

  abbrev pub apply_where_flat : Book F B → Option (PendingConfig F) → Book F B × List String
  apply_where_flat b none = (b, [])
  apply_where_flat b (some p) = settle p (swap_all (keys b.sessions) b p.id)

  unfoldable pub apply_pending_where_flat : Book F B → Book F B × List String
  apply_pending_where_flat b = apply_where_flat b b.pending
