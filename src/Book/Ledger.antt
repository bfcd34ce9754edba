-- ===== src/Book/Ledger.antt =====
-- crates/data_feed/src/book.rs: the log of trades and the daily profit through the operations of a book.
pub mod Daily
pub mod Settled
pub mod Bars
pub mod Reports
use text.Mathlib.Text.{◌==◌}
use galactic_trading_firm.Prelude.{
  ◌≡◌, refl, sym, ap, ◌∙◌, subst, Option, none, some, Bool, true, false, List, [], ◌∷◌, ◌++◌,
  String, if◌then◌else◌, if_both,
}
use galactic_trading_firm.Prelude.Int.{ℤ}
use galactic_trading_firm.Prelude.Maps.{Map, lookup}
use galactic_trading_firm.F64.{F64, ◌⊕◌}
use galactic_trading_firm.Time.{DateTime, Chrono}
use galactic_trading_firm.Action.{ExitReason}
use galactic_trading_firm.Engine.State.{TradingEngine}
use galactic_trading_firm.Broker.{OrderFill, Submitted, accepted, failed, BrokerPosition}
use galactic_trading_firm.Broker.Trait.{Broker}
use galactic_trading_firm.Live.{LiveSession, TradeWithScores, force_close}
use galactic_trading_firm.Book.{
  BookSpec, ReplayTrade, PendingConfig, Book, with_session, record_trade, count_trade, keys,
  ExitPending, Unreconciled, refresh_ticker_list,
}
use galactic_trading_firm.Book.Swap.{
  contains, rebuilt, apply_config_to, apply_pending_to, note_dropped, swap_one, swap_all,
  needs_swap, settle, is_waiting, apply_where_flat, apply_pending_where_flat,
}

-- what a swap of configurations and the sessions have no part in
abbrev pub Kept : Type 0 → Type 0 → Type 0
Kept F B = List (ReplayTrade F) × F × Map (ExitPending F) × Map (Unreconciled F) × B × BookSpec F

module _ {F B : Type 0} where
  abbrev pub kept : Book F B → Kept F B
  kept b = (b.log, b.daily_pnl, b.exit_pending, b.unreconciled, b.broker, b.spec)

module _ {F B : Type 0} ⦃f : F64 F⦄ where
  rebuilt-kept :
      (b : Book F B) (ticker : String) (id : ℤ) (e : Option (TradingEngine F))
      → kept (rebuilt b ticker id e).0 ≡ kept b
  rebuilt-kept b ticker id none = refl
  rebuilt-kept b ticker id (some e) = refl

  apply_config_to-kept :
      (b : Book F B) (ticker : String) (p : Option (PendingConfig F))
      → kept (apply_config_to b ticker p).0 ≡ kept b
  unfolding refresh_ticker_list
  apply_config_to-kept b ticker none = refl
  apply_config_to-kept b ticker (some p) =
      if_both (λ (r : Book F B × Option Bool). kept r.0 ≡ kept b) (contains ticker p.config.tickers)
        _ _ (rebuilt-kept b ticker p.id (p.config.build ticker b.capital)) refl

  note_dropped-kept :
      (ticker : String) (r : Book F B × Option Bool) → kept (note_dropped ticker r).0 ≡ kept r.0
  note_dropped-kept ticker (b, some true) = refl
  note_dropped-kept ticker (b, some false) = refl
  note_dropped-kept ticker (b, none) = refl

  swap_one-kept : (b : Book F B) (id : ℤ) (ticker : String) → kept (swap_one b id ticker).0 ≡ kept b
  unfolding apply_pending_to
  swap_one-kept b id ticker =
      if_both (λ (r : Book F B × List String). kept r.0 ≡ kept b)
        (needs_swap id (lookup ticker b.sessions)) _ _
        (note_dropped-kept ticker (apply_config_to b ticker b.pending)
          ∙ apply_config_to-kept b ticker b.pending)
        refl

  swap_all-kept : (ts : List String) (b : Book F B) (id : ℤ) → kept (swap_all ts b id).0 ≡ kept b
  unfolding swap_all
  swap_all-kept [] b id = refl
  swap_all-kept (t ∷ rest) b id = swap_all-kept rest (swap_one b id t).0 id ∙ swap_one-kept b id t

  settle-kept : (p : PendingConfig F) (r : Book F B × List String) → kept (settle p r).0 ≡ kept r.0
  settle-kept p (b, dropped) =
      if_both (λ (r : Book F B × List String). kept r.0 ≡ kept b) (is_waiting p.id b.sessions) _ _
        refl refl

  apply_where_flat-kept :
      (b : Book F B) (p : Option (PendingConfig F)) → kept (apply_where_flat b p).0 ≡ kept b
  apply_where_flat-kept b none = refl
  apply_where_flat-kept b (some p) =
      settle-kept p (swap_all (keys b.sessions) b p.id) ∙ swap_all-kept (keys b.sessions) b p.id

  pub apply_pending_where_flat-kept : (b : Book F B) → kept (apply_pending_where_flat b).0 ≡ kept b
  unfolding apply_pending_where_flat
  apply_pending_where_flat-kept b = apply_where_flat-kept b b.pending
