-- ===== src/Engine/Tick/Breaker.antt =====
-- The daily loss breaker over a sequence of ticks of one trading day.
use galactic_trading_firm.Prelude.{
  ◌≡◌, ◌≢◌, refl, sym, ap, ◌∙◌, subst, Option, none, some, Bool, true, false, List, [], ◌∷◌, arith,
  String, inl,
}
use galactic_trading_firm.F64.{F64}
use galactic_trading_firm.Time.{DateTime, NaiveDate, Chrono}
use galactic_trading_firm.Market.{MarketState}
use galactic_trading_firm.Scores.{
  TimescaleScores, TickEvent, TickResult, nothing, position_opened, position_closed,
}
use galactic_trading_firm.Action.{Caught, returned, panicked, Position}
use galactic_trading_firm.Engine.Position.{is_some}
use galactic_trading_firm.Engine.State.{TradingEngine}
use galactic_trading_firm.Engine.Gates.{drop_stale_stop, entry_block_reason, first_of, is_same_date}
use galactic_trading_firm.Engine.Exits.Closing.{IsStage, manage_position-IsStage}
use galactic_trading_firm.Engine.Exits.{manage_position}
use galactic_trading_firm.Engine.Tick.{
  tick_holding, tick_flat, seek_unless, prepare, mark_position, inject_context, act, on_tick,
  score_market,
}
use galactic_trading_firm.Engine.Tick.Events.{
  IsTick, Happened, on_tick-IsTick, act-tick_flat, act-tick_holding,
}

abbrev pub NoneOpened : List TickEvent → Type 0
NoneOpened [] = Unit
NoneOpened (event ∷ events) = (event ≢ position_opened) × NoneOpened events

same_date : (o : Option NaiveDate) (d : NaiveDate) → o ≡ some d → is_same_date o d ≡ true
same_date o d h = ground arith

blocks :
    (b active : Bool) (rest : Option String)
    → active ≡ true
    → first_of b "entries_blocked" (first_of active "daily_loss_breaker" rest) ≢ none
blocks b active rest h = ground arith

module _ {F : Type 0} ⦃f : F64 F⦄ ⦃c : Chrono⦄ where
  -- a day on which the breaker has tripped
  abbrev pub IsHalted : NaiveDate → TradingEngine F → Type 0
  IsHalted d e = (e.current_session_date ≡ some d) × (e.daily_loss_breaker_active ≡ true)

  -- the events of a tick and of the ticks after it, of which there are none if it unwinds
  abbrev pub run_on :
      Caught (TickResult F)
      → TradingEngine F
      → TradingEngine F × List TickEvent
      → TradingEngine F × List TickEvent
  run_on panicked e later = (e, [])
  run_on (returned r) e (last, events) = (last, r.event ∷ events)

  -- ticks in a row, with the events that they report
  unfoldable pub run_ticks :
      TradingEngine F → List (MarketState F) → TradingEngine F × List TickEvent
  run_ticks e [] = (e, [])
  run_ticks e (market ∷ rest) =
      let (e', seen, r) = on_tick e market in run_on r e' (run_ticks e' rest)

  abbrev pub OnDate : NaiveDate → List (MarketState F) → Type 0
  OnDate d [] = Unit
  OnDate d (market ∷ rest) = (c.eastern_date market.timestamp ≡ d) × OnDate d rest

  IsHalted-drop_stale_stop :
      (d : NaiveDate) (e : TradingEngine F) → IsHalted d e → IsHalted d (drop_stale_stop e)
  IsHalted-drop_stale_stop d e h = ground arith

  IsHalted-prepare :
      (d : NaiveDate) (e : TradingEngine F) (market : MarketState F)
      → IsHalted d e
      → c.eastern_date market.timestamp ≡ d
      → IsHalted d (prepare e market)
  unfolding prepare
  IsHalted-prepare d e market h on =
      let ready = IsHalted-drop_stale_stop d e h in rw (on, same_date _ d ready.0) ready

  halted_blocks :
      (d : NaiveDate) (e : TradingEngine F) (market : MarketState F)
      → IsHalted d e
      → entry_block_reason e market ≢ none
  unfolding entry_block_reason
  halted_blocks d e market h = blocks market.entries_blocked e.daily_loss_breaker_active _ h.1

  stage-IsHalted :
      (d : NaiveDate) (e : TradingEngine F) (p : Position F) (price : F) (ts : DateTime)
      (r : TradingEngine F × Bool)
      → IsStage e p price ts r
      → IsHalted d e
      → IsHalted d r.0
  stage-IsHalted d e p price ts (e', true) s h =
      (ap (λ x. x.current_session_date) s.booked.rest ∙ h.0, s.booked.tripped.1 (inl h.1))
  stage-IsHalted d e p price ts (e', false) s h = (
    ap (λ x. x.current_session_date) s.kept ∙ h.0,
    ap (λ x. x.daily_loss_breaker_active) s.kept ∙ h.1,
  )

  module _ (d : NaiveDate) (e : TradingEngine F) (seen : MarketState F) (scores : TimescaleScores F)
      (h : IsHalted d e) where
    tick_flat-IsHalted :
        (o : Option String)
        → entry_block_reason e seen ≡ o
        → IsHalted d (seek_unless o e seen scores).0
    tick_flat-IsHalted none free = absurd (halted_blocks d e seen h free)
    tick_flat-IsHalted (some reason) blocked = h

    act-IsHalted :
        (o : Option (Position F))
        → e.position_manager.position ≡ o
        → IsHalted d (act e seen scores).0
    unfolding tick_flat tick_holding
    act-IsHalted none flat =
        subst (λ r. IsHalted d r.0) (sym (act-tick_flat e seen scores (ap is_some flat)))
          (tick_flat-IsHalted (entry_block_reason e seen) refl)
    act-IsHalted (some p) open_in =
        subst (λ r. IsHalted d r.0) (sym (act-tick_holding e seen scores (ap is_some open_in)))
          (stage-IsHalted d e p _ _ (manage_position e seen scores)
            (manage_position-IsStage e p seen scores open_in) h)

  on_tick-IsHalted :
      (d : NaiveDate) (e : TradingEngine F) (market : MarketState F)
      → IsHalted d e
      → c.eastern_date market.timestamp ≡ d
      → IsHalted d (on_tick e market).0
  unfolding on_tick mark_position
  on_tick-IsHalted d e market h on =
      let seen = inject_context (prepare e market) market in
      act-IsHalted d (mark_position (prepare e market) seen) seen
        (score_market (prepare e market) seen) (IsHalted-prepare d e market h on) _ refl

  not_opened :
      (e e' : TradingEngine F) (market : MarketState F) (event : TickEvent)
      → IsTick e market e' event
      → entry_block_reason (prepare e market) market ≢ none
      → event ≢ position_opened
  not_opened e e' market position_opened t blocked = absurd (blocked t.0)
  not_opened e e' market nothing t blocked = ground arith
  not_opened e e' market position_closed t blocked = ground arith

  run_on-IsHalted :
      (d : NaiveDate) (e e' : TradingEngine F) (market : MarketState F) (r : Caught (TickResult F))
      (later : TradingEngine F × List TickEvent)
      → Happened e market e' r
      → entry_block_reason (prepare e market) market ≢ none
      → IsHalted d e'
      → (IsHalted d later.0 × NoneOpened later.1)
      → let (last, events) = run_on r e' later in IsHalted d last × NoneOpened events
  run_on-IsHalted d e e' market panicked later t blocked here h = (here, tt)
  run_on-IsHalted d e e' market (returned r) later t blocked here h =
      (h.0, (not_opened e e' market r.event t blocked, h.1))

  -- Once the daily loss breaker has tripped, no tick of that day opens a position, and the breaker
  -- is still active at the end, however many ticks there are and whatever the market and the
  -- actions do.
  pub run_ticks-IsHalted :
      (d : NaiveDate) (e : TradingEngine F) (markets : List (MarketState F))
      → IsHalted d e
      → OnDate d markets
      → let (last, events) = run_ticks e markets in IsHalted d last × NoneOpened events
  unfolding run_ticks
  run_ticks-IsHalted d e [] h on = (h, tt)
  run_ticks-IsHalted d e (market ∷ rest) h on =
      let here = on_tick-IsHalted d e market h on.0 in
      run_on-IsHalted d e _ market (on_tick e market).2 _ (on_tick-IsTick e market)
        (halted_blocks d (prepare e market) market (IsHalted-prepare d e market h on.0)) here
        (run_ticks-IsHalted d (on_tick e market).0 rest here on.1)
