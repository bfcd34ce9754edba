-- ===== src/Engine/Tick/Prepared.antt =====
-- What precedes the actions of a tick (crates/engine/src/tick_loop.rs) leaves the books alone.
use galactic_trading_firm.Prelude.{◌≡◌, refl, ◌∙◌, Bool, true, false, arith, if◌then◌else◌}
use galactic_trading_firm.F64.{F64}
use galactic_trading_firm.Time.{DateTime, NaiveDate, Chrono}
use galactic_trading_firm.Market.{MarketState}
use galactic_trading_firm.Engine.State.{TradingEngine}
use galactic_trading_firm.Engine.Gates.{drop_stale_stop, start_new_session}
use galactic_trading_firm.Engine.Entries.Opening.{Books, books}
use galactic_trading_firm.Engine.Tick.{prepare}

module _ {F : Type 0} ⦃f : F64 F⦄ ⦃c : Chrono⦄ where
  books-drop_stale_stop : (e : TradingEngine F) → books (drop_stale_stop e) ≡ books e
  books-drop_stale_stop e = ground arith

  books-if :
      (b : Bool) (e1 e2 : TradingEngine F) (v : Books F)
      → books e1 ≡ v
      → books e2 ≡ v
      → books (if b then e1 else e2) ≡ v
  books-if true e1 e2 v h k = h
  books-if false e1 e2 v h k = k

  books-start_new_session :
      (e : TradingEngine F) (d : NaiveDate) (ts : DateTime)
      → books (start_new_session e d ts) ≡ books e
  unfolding start_new_session
  books-start_new_session e d ts = refl

  pub books-prepare :
      (e : TradingEngine F) (market : MarketState F) → books (prepare e market) ≡ books e
  unfolding prepare
  books-prepare e market =
      let ready = drop_stale_stop e in
      let same = books-drop_stale_stop e in
      books-if _ ready (start_new_session ready (c.eastern_date market.timestamp) market.timestamp)
        (books e) same (books-start_new_session ready _ market.timestamp ∙ same)
