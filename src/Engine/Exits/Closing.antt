-- ===== src/Engine/Exits/Closing.antt =====
-- The books of the engine before and after the exit stages of `on_tick`
-- (crates/engine/src/tick_loop.rs).
use galactic_trading_firm.Prelude.{
  ◌≡◌, refl, ap, ◌∙◌, subst, Option, none, some, Bool, true, false, List, [], ◌∷◌, if◌then◌else◌,
}
use galactic_trading_firm.F64.{F64}
use galactic_trading_firm.Time.{DateTime, Chrono}
use galactic_trading_firm.Market.{MarketState}
use galactic_trading_firm.Scores.{TimescaleScores}
use galactic_trading_firm.Action.{
  ActionSignal, Action, Position, ExitReason, exit, session_close, score_exit, breakeven_stop,
}
use galactic_trading_firm.Engine.Position.{trade_of, trade_if, close_position}
use galactic_trading_firm.Engine.State.{TradingEngine}
use galactic_trading_firm.Engine.Exits.Booked.{IsBooked, book_exit-IsBooked}
use galactic_trading_firm.Engine.Exits.{
  book_exit, close_and_book, fill_price, clock_exit, score_exit_stage, monitor_stage, action_exits,
  manage_position, unless_closed, on_exit_signal, book_if, is_deferred,
}

module _ {F : Type 0} ⦃f : F64 F⦄ ⦃c : Chrono⦄ where
  -- A stage that goes on changes nothing but, perhaps, the monitor stop.
  pub record IsKept (e e' : TradingEngine F) : Type 0 where
    pub kept : e' ≡ record e { monitor_stop_price = e'.monitor_stop_price }

  abbrev pub IsStage : TradingEngine F → Position F → F → DateTime → TradingEngine F × Bool → Type 0
  IsStage e p price ts (e', true) = IsBooked e p price ts e'
  IsStage e p price ts (e', false) = IsKept e e'

  -- An open position is closed, whatever the reason.
  pub close_and_book-eq :
      (e : TradingEngine F) (p : Position F) (price : F) (ts : DateTime) (reason : ExitReason)
      → e.position_manager.position ≡ some p
      → close_and_book e price ts reason ≡ (
        book_exit
            (record e { position_manager = record { position = none } })
            (trade_of p price ts reason)
            ts,
        true,
      )
  unfolding close_and_book close_position
  close_and_book-eq e p price ts reason h =
      ap
        (λ o.
          book_if (record e { position_manager = record { position = none } })
            (trade_if o price ts reason) ts)
        h

  close_and_book-IsBooked :
      (e : TradingEngine F) (p : Position F) (price : F) (ts : DateTime) (reason : ExitReason)
      → e.position_manager.position ≡ some p
      → IsStage e p price ts (close_and_book e price ts reason)
  close_and_book-IsBooked e p price ts reason h =
      simp (close_and_book-eq e p price ts reason h) (book_exit-IsBooked e p price ts reason)

  kept : (e : TradingEngine F) → IsKept e e
  kept e = record { kept = refl }

  if-IsStage :
      (b : Bool) (e : TradingEngine F) (p : Position F) (price : F) (ts : DateTime)
      (r : TradingEngine F × Bool)
      → IsStage e p price ts r
      → IsStage e p price ts (if b then r else (e, false))
  if-IsStage true e p price ts r h = h
  if-IsStage false e p price ts r h = kept e

  module _ (e : TradingEngine F) (p : Position F) (market : MarketState F)
      (open_in : e.position_manager.position ≡ some p) where
    clock_exit-IsStage : IsStage e p (fill_price e market) market.timestamp (clock_exit e market)
    unfolding clock_exit
    clock_exit-IsStage =
        if-IsStage _ e p _ _ _
          (close_and_book-IsBooked e p _ market.timestamp session_close open_in)

    score_exit_stage-IsStage :
        (scores : TimescaleScores F)
        → IsStage e p (fill_price e market) market.timestamp (score_exit_stage e market scores)
    unfolding score_exit_stage
    score_exit_stage-IsStage scores =
        if-IsStage _ e p _ _ _ (close_and_book-IsBooked e p _ market.timestamp score_exit open_in)

  -- A stage that only moved the monitor stop before it closed is a stage.
  IsStage-moved :
      (e : TradingEngine F) (p : Position F) (price : F) (ts : DateTime) (stop : Option F)
      (r : TradingEngine F × Bool)
      → IsStage (record e { monitor_stop_price = stop }) p price ts r
      → IsStage e p price ts r
  IsStage-moved e p price ts stop (e', true) h =
      let k = h.booked in
      record {
        reason = h.reason;
        booked = record {
          trade = k.trade;
          of = k.of;
          flat = k.flat;
          trades = k.trades;
          cash = k.cash;
          realized = k.realized;
          clock = k.clock;
          clock_before = k.clock_before;
          threshold = k.threshold;
          hold_limit = k.hold_limit;
          cutoff = k.cutoff;
          tripped = k.tripped;
          rest = k.rest;
        };
      }
  IsStage-moved e p price ts stop (e', false) h = record { kept = h.kept }

  module _ (e : TradingEngine F) (p : Position F) (market : MarketState F)
      (open_in : e.position_manager.position ≡ some p) where
    monitor_stage-IsStage :
        (scores : TimescaleScores F)
        → IsStage e p (fill_price e market) market.timestamp (monitor_stage e market scores)
    unfolding monitor_stage
    monitor_stage-IsStage scores = IsStage-moved e p _ _ _ _ (
        if-IsStage _ _ p _ _ _
          (close_and_book-IsBooked _ p _ market.timestamp breakeven_stop open_in))

    closed-IsStage :
        (reason : ExitReason)
        → IsStage e p
            (fill_price e market)
            market.timestamp
            ((close_and_book e (fill_price e market) market.timestamp reason).0, true)
    closed-IsStage reason =
        simp (close_and_book-eq e p (fill_price e market) market.timestamp reason open_in)
          (book_exit-IsBooked e p (fill_price e market) market.timestamp reason)

    if_else-IsStage :
        (b : Bool) (r s : TradingEngine F × Bool)
        → IsStage e p (fill_price e market) market.timestamp r
        → IsStage e p (fill_price e market) market.timestamp s
        → IsStage e p (fill_price e market) market.timestamp (if b then r else s)
    if_else-IsStage true r s h k = h
    if_else-IsStage false r s h k = k

    on_exit_signal-IsStage :
        (signal : ActionSignal F) (rest : TradingEngine F × Bool)
        → IsStage e p (fill_price e market) market.timestamp rest
        → IsStage e p (fill_price e market) market.timestamp (on_exit_signal signal e market rest)
    on_exit_signal-IsStage (exit reason) rest h =
        if_else-IsStage (is_deferred e reason) rest
          ((close_and_book e (fill_price e market) market.timestamp reason).0, true) h
          (closed-IsStage reason)
    on_exit_signal-IsStage _ rest h = h

    action_exits-IsStage :
        (scores : TimescaleScores F) (actions : List (Action F))
        → IsStage e p (fill_price e market) market.timestamp (action_exits actions e market scores)
    unfolding action_exits
    action_exits-IsStage scores [] = kept e
    action_exits-IsStage scores (a ∷ rest) =
        on_exit_signal-IsStage _ _ (action_exits-IsStage scores rest)

  -- The stages in their order make a stage.
  unless_closed-IsStage :
      (e : TradingEngine F) (p : Position F) (price : F) (ts : DateTime)
      (r : TradingEngine F × Bool) (rest : TradingEngine F → TradingEngine F × Bool)
      → IsStage e p price ts r
      → ((e1 : TradingEngine F) → IsKept e e1 → IsStage e1 p price ts (rest e1))
      → IsStage e p price ts (unless_closed r rest)
  unless_closed-IsStage e p price ts (e1, true) rest h k = h
  unless_closed-IsStage e p price ts (e1, false) rest h k =
      IsStage-moved e p price ts e1.monitor_stop_price (rest e1)
        (subst (λ x. IsStage x p price ts (rest e1)) h.kept (k e1 h))

  kept_position :
      (e e1 : TradingEngine F) (p : Position F)
      → IsKept e e1
      → e.position_manager.position ≡ some p
      → e1.position_manager.position ≡ some p
  kept_position e e1 p k h = ap (λ x. x.position_manager.position) k.kept ∙ h

  kept-fill_price :
      (e e1 : TradingEngine F) (market : MarketState F)
      → IsKept e e1
      → fill_price e1 market ≡ fill_price e market
  kept-fill_price e e1 market k = ap (λ x. fill_price x market) k.kept

  -- Whatever the actions do, managing an open position either books its close in full, at the fill
  -- price of the tick, or keeps the position, the trades and the cash as they were.
  pub manage_position-IsStage :
      (e : TradingEngine F) (p : Position F) (market : MarketState F) (scores : TimescaleScores F)
      → e.position_manager.position ≡ some p
      → IsStage e p (fill_price e market) market.timestamp (manage_position e market scores)
  unfolding manage_position
  manage_position-IsStage e p market scores h =
      unless_closed-IsStage e p _ _ (clock_exit e market) _ (clock_exit-IsStage e p market h)
        λ e1 k1.
          let h1 = kept_position e e1 p k1 h in
          rw (← kept-fill_price e e1 market k1) (
            unless_closed-IsStage e1 p _ _ (score_exit_stage e1 market scores) _
              (score_exit_stage-IsStage e1 p market h1 scores)
              λ e2 k2.
                let h2 = kept_position e1 e2 p k2 h1 in
                rw (← kept-fill_price e1 e2 market k2) (
                  unless_closed-IsStage e2 p _ _ (monitor_stage e2 market scores) _
                    (monitor_stage-IsStage e2 p market h2 scores)
                    λ e3 k3. rw (← kept-fill_price e2 e3 market k3) (
                      action_exits-IsStage e3 p market (kept_position e2 e3 p k3 h2) scores
                        e3.exit_actions)))
