-- ===== src/Engine/Exits/Booked.antt =====
-- The bookkeeping of a close in crates/engine/src/tick_loop.rs (`record_exit` and what stands around
-- it), beside a description of it field by field.
use galactic_trading_firm.Prelude.{
  ◌≡◌, refl, Option, none, some, Bool, true, false, [], ◌∷◌, ◌++◌, if◌then◌else◌, ◌↔◌, ◌⊎◌, inl,
  inr, ◌&&◌, arith,
}
use galactic_trading_firm.F64.{F64, ◌⊕◌, ◌⊖◌, ◌⊗◌, ◌⊘◌, ◌<?◌, ◌≤?◌, lit}
use galactic_trading_firm.Time.{DateTime, Chrono}
use galactic_trading_firm.Action.{Position, ExitReason, TradeDirection, long, short}
use galactic_trading_firm.Session.{SessionConfig}
use galactic_trading_firm.Engine.Position.{TradeRecord, gain, trade_of}
use galactic_trading_firm.Engine.State.{TradingEngine}
use galactic_trading_firm.Engine.Gates.{record_exit, loss_reached, breaker_trips}
use galactic_trading_firm.Engine.Exits.{book_exit}

module _ {F : Type 0} ⦃f : F64 F⦄ ⦃c : Chrono⦄ where
  -- the profit of a position that was entered and left at these prices
  abbrev pub IsProfit : TradeDirection → F → F → F → F → Type 0
  IsProfit long entry_price exit_price size pnl = pnl ≡ (exit_price ⊖ entry_price) ⊗ size
  IsProfit short entry_price exit_price size pnl = pnl ≡ (entry_price ⊖ exit_price) ⊗ size

  -- the trade that closes `p`
  pub record IsTradeOf (p : Position F) (price : F) (ts : DateTime) (reason : ExitReason)
      (trade : TradeRecord F) : Type 0 where
    pub ticker : trade.ticker ≡ p.ticker
    pub direction : trade.direction ≡ p.direction
    pub entry_price : trade.entry_price ≡ p.entry_price
    pub exit_price : trade.exit_price ≡ price
    pub size : trade.size ≡ p.size
    pub entry_time : trade.entry_time ≡ p.entry_time
    pub exit_time : trade.exit_time ≡ ts
    pub exit_reason : trade.exit_reason ≡ reason
    pub profit : IsProfit p.direction p.entry_price price p.size trade.pnl

  -- the realized losses of the day have come to the session's limit
  abbrev pub LossReached : Option (SessionConfig F) → F → F → Type 0
  LossReached none capital pnl = ⊥
  LossReached (some sc) capital pnl =
      (max_loss : F) × (sc.max_daily_loss_pct ≡ some max_loss)
      × ((lit 0 <? capital) ≡ true)
      × ((max_loss ≤? f.neg pnl ⊘ capital) ≡ true)

  -- The whole bookkeeping of closing `p` for a reason.
  pub record IsBookedFor (reason : ExitReason) (e : TradingEngine F) (p : Position F) (price : F)
      (ts : DateTime) (e' : TradingEngine F) : Type 0 where
    pub trade : TradeRecord F
    pub of : IsTradeOf p price ts reason trade
    pub flat : e'.position_manager.position ≡ none
    pub trades : e'.completed_trades ≡ e.completed_trades ++ (trade ∷ [])
    pub cash : e'.available_capital ≡ e.available_capital ⊕ (p.size ⊗ p.entry_price ⊕ trade.pnl)
    pub realized : e'.cumulative_realized_pnl ≡ e.cumulative_realized_pnl ⊕ trade.pnl
    pub clock : e'.last_exit_time ≡ some ts
    pub clock_before : e'.last_exit_time_before ≡ e.last_exit_time
    pub threshold : e'.active_score_exit_threshold ≡ e.scoring_config.exit_threshold
    pub hold_limit : e'.max_hold_ms ≡ e.default_max_hold_ms
    pub cutoff : e'.active_force_exit_minutes ≡ none
    pub tripped : (e'.daily_loss_breaker_active ≡ true) ↔ (
        (e.daily_loss_breaker_active ≡ true)
        ⊎ LossReached e.session_config e.initial_capital_snapshot e'.cumulative_realized_pnl)
    -- all else but the monitor stop is as it was
    pub rest : e' ≡ record e {
      position_manager = e'.position_manager;
      completed_trades = e'.completed_trades;
      available_capital = e'.available_capital;
      cumulative_realized_pnl = e'.cumulative_realized_pnl;
      last_exit_time = e'.last_exit_time;
      last_exit_time_before = e'.last_exit_time_before;
      active_score_exit_threshold = e'.active_score_exit_threshold;
      max_hold_ms = e'.max_hold_ms;
      active_force_exit_minutes = e'.active_force_exit_minutes;
      daily_loss_breaker_active = e'.daily_loss_breaker_active;
      monitor_stop_price = e'.monitor_stop_price;
    }

  -- The whole bookkeeping of closing `p`, for some reason.
  pub record IsBooked (e : TradingEngine F) (p : Position F) (price : F) (ts : DateTime)
      (e' : TradingEngine F) : Type 0 where
    pub reason : ExitReason
    pub booked : IsBookedFor reason e p price ts e'

  IsProfit-gain :
      (d : TradeDirection) (entry_price price size : F)
      → IsProfit d entry_price price size (gain d entry_price price ⊗ size)
  IsProfit-gain long entry_price price size = refl
  IsProfit-gain short entry_price price size = refl

  trips :
      (rules : Option (SessionConfig F)) (capital pnl : F) (breaker : Bool)
      → ((if breaker_trips rules capital pnl then true else breaker) ≡ true)
        ↔ ((breaker ≡ true) ⊎ LossReached rules capital pnl)
  trips none capital pnl breaker = (λ h. inl h, λ h. elim h [ inl a ↦ a | inr n ↦ absurd n ])
  trips (some sc) capital pnl breaker = by_limit sc.max_daily_loss_pct refl
    where
      by_tests :
          (o : Option F) (max_loss : F) (a b : Bool)
          → o ≡ some max_loss
          → (lit 0 <? capital) ≡ a
          → (max_loss ≤? f.neg pnl ⊘ capital) ≡ b
          → ((if a && b then true else breaker) ≡ true) ↔ (
              (breaker ≡ true)
              ⊎ ((m : F) × (o ≡ some m)
                  × ((lit 0 <? capital) ≡ true)
                  × ((m ≤? f.neg pnl ⊘ capital) ≡ true)))
      by_tests o max_loss true true h a b = (λ t. inr (max_loss, h, a, b), λ t. refl)
      by_tests o max_loss true false h a b =
          (λ t. inl t, λ t. elim t [ inl k ↦ k | inr (m, k, x, y) ↦ ground arith ])
      by_tests o max_loss false b h a k =
          (λ t. inl t, λ t. elim t [ inl k ↦ k | inr (m, k, x, y) ↦ ground arith ])

      by_limit :
          (o : Option F)
          → sc.max_daily_loss_pct ≡ o
          → ((if loss_reached capital pnl o then true else breaker) ≡ true) ↔ (
              (breaker ≡ true)
              ⊎ ((m : F) × (o ≡ some m)
                  × ((lit 0 <? capital) ≡ true)
                  × ((m ≤? f.neg pnl ⊘ capital) ≡ true)))
      by_limit none h = (λ t. inl t, λ t. ground arith)
      by_limit (some max_loss) h = by_tests (some max_loss) max_loss _ _ refl refl refl

  pub book_exit-IsBookedFor :
      (e : TradingEngine F) (p : Position F) (price : F) (ts : DateTime) (reason : ExitReason)
      → IsBookedFor reason e p price ts (
          book_exit
            (record e { position_manager = record { position = none } })
            (trade_of p price ts reason)
            ts)
  unfolding book_exit record_exit trade_of
  book_exit-IsBookedFor e p price ts reason = record {
    trade = trade_of p price ts reason;
    of = record {
      ticker = refl;
      direction = refl;
      entry_price = refl;
      exit_price = refl;
      size = refl;
      entry_time = refl;
      exit_time = refl;
      exit_reason = refl;
      profit = IsProfit-gain p.direction p.entry_price price p.size;
    };
    flat = refl;
    trades = refl;
    cash = refl;
    realized = refl;
    clock = refl;
    clock_before = refl;
    threshold = refl;
    hold_limit = refl;
    cutoff = refl;
    tripped = trips e.session_config e.initial_capital_snapshot _ e.daily_loss_breaker_active;
    rest = refl;
  }

  pub book_exit-IsBooked :
      (e : TradingEngine F) (p : Position F) (price : F) (ts : DateTime) (reason : ExitReason)
      → IsBooked e p price ts (
          book_exit
            (record e { position_manager = record { position = none } })
            (trade_of p price ts reason)
            ts)
  book_exit-IsBooked e p price ts reason = record {
    reason = reason;
    booked = book_exit-IsBookedFor e p price ts reason;
  }
