-- ===== src/Book/Ledger/Reports.antt =====
-- crates/data_feed/src/book.rs: the trade that a bar reports, and the trades that it counts.
use galactic_trading_firm.Prelude.{◌≡◌, Option, none, some, false, String, ◌==◌, if◌then◌else◌}
use galactic_trading_firm.F64.{F64, lit}
use galactic_trading_firm.Time.{DateTime, NaiveDate, Chrono}
use galactic_trading_firm.Action.{Caught, returned, panicked}
use galactic_trading_firm.Broker.Trait.{Broker}
use galactic_trading_firm.Live.{TradeWithScores}
use galactic_trading_firm.Book.{ReplayTrade, Book, contains_key, roll_daily_pnl, write_session_row}
use galactic_trading_firm.Book.Bar.{BarOutcome, reconcile_first}
use galactic_trading_firm.Book.Ledger.Settled.{with_settled, plus_settled}
use galactic_trading_firm.Book.Ledger.Bars.{Counts}

module _ {F B : Type 0} ⦃f : F64 F⦄ ⦃c : Chrono⦄ (api : Broker F B) where
  -- the trade that a bar reports
  abbrev pub reported : Caught (Option (BarOutcome F)) → Option (TradeWithScores F)
  reported panicked = none
  reported (returned none) = none
  reported (returned (some o)) = o.trade

  -- the daily profit that a bar of an instant starts from: none on a new date
  abbrev pub day_start : Option NaiveDate → F → DateTime → F
  day_start none pnl ts = lit 0
  day_start (some d) pnl ts = if d == c.eastern_date ts then pnl else lit 0

  -- A bar of `ticker` at `ts` took the book `b` to `b'` and reported `trade`: there is at most one
  -- other trade, that of an exit which was pending, and it is counted before.
  abbrev pub Reported :
      Book F B → String → DateTime → Book F B → Option (TradeWithScores F) → Type 0
  Reported b ticker ts b' trade =
      (settled : Option (ReplayTrade F)) × (contains_key ticker b.exit_pending ≡ false
        → settled ≡ none)
      × Counts (with_settled b.log settled)
          (plus_settled (day_start b.daily_pnl_date b.daily_pnl ts) settled) b.spec b' trade

  abbrev rolled : Book F B → DateTime → Book F B
  rolled b ts = write_session_row (roll_daily_pnl b ts) ts

  abbrev IsRolled : Book F B → DateTime → Book F B → Type 0
  IsRolled b ts r =
      (r.log ≡ b.log)
      × (r.daily_pnl ≡ day_start b.daily_pnl_date b.daily_pnl ts)
      × (r.spec ≡ b.spec)
      × (r.exit_pending ≡ b.exit_pending)

  reconciled : Book F B → String → DateTime → Book F B
  reconciled b ticker ts = reconcile_first api (rolled b ts) ticker ts

  -- what comes before the tick counts at most the trade of a pending exit
  abbrev IsRechecked : Book F B → String → Book F B → Type 0
  IsRechecked b ticker r =
      (t : Option (ReplayTrade F)) × (contains_key ticker b.exit_pending ≡ false → t ≡ none)
      × (r.log ≡ with_settled b.log t)
      × (r.daily_pnl ≡ plus_settled b.daily_pnl t)
      × (r.spec ≡ b.spec)
