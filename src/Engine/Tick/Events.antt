-- ===== src/Engine/Tick/Events.antt =====
-- The event of a tick (crates/engine/src/tick_loop.rs), beside the engine before and after it.
use galactic_trading_firm.Prelude.{
  ◌≡◌, refl, sym, ap, ◌∙◌, subst, Option, none, some, Bool, true, false, String, Option-cases, inl,
  inr, List,
}
use galactic_trading_firm.F64.{F64}
use galactic_trading_firm.Time.{Chrono}
use galactic_trading_firm.Market.{MarketState}
use galactic_trading_firm.Scores.{
  TimescaleScores, TickEvent, TickResult, nothing, position_opened, position_closed,
}
use galactic_trading_firm.Action.{Caught, returned, panicked, Position, Action}
use galactic_trading_firm.Engine.Position.{marked, mark_if, update_on_tick, is_some, has_position}
use galactic_trading_firm.Engine.State.{TradingEngine}
use galactic_trading_firm.Engine.Gates.{get_or, entry_block_reason}
use galactic_trading_firm.Engine.Exits.{fill_price, manage_position}
use galactic_trading_firm.Engine.Exits.Booked.{IsBooked}
use galactic_trading_firm.Engine.Exits.Closing.{IsStage, manage_position-IsStage}
use galactic_trading_firm.Engine.Entries.{
  EntryOutcome, no_signal, not_entered, gated, opened, seek_entry,
}
use galactic_trading_firm.Engine.Entries.Opening.{
  Books, books, IsBought, IsEntry, seek_entry-IsEntry,
}
use galactic_trading_firm.Engine.Tick.Prepared.{books-prepare}
use galactic_trading_firm.Engine.Tick.{
  inject_context, score_market, closed_event, diagnoses, missed, entry_result, tick_holding,
  seek_unless, tick_flat, prepare, mark_position, act, on_tick,
}

module _ {F : Type 0} ⦃f : F64 F⦄ ⦃c : Chrono⦄ where
  abbrev remarked : MarketState F → Books F → Books F
  remarked market b = record b {
    manager = record { position = mark_if market.last_price market.timestamp b.manager.position };
  }

  -- the engine that the actions see
  abbrev pub seen_by_actions : TradingEngine F → MarketState F → TradingEngine F
  seen_by_actions e market = mark_position (prepare e market) market

  -- A tick, by the event that it reports.
  abbrev pub IsTick : TradingEngine F → MarketState F → TradingEngine F → TickEvent → Type 0
  IsTick e market e' position_closed =
      (p : Position F) × (e.position_manager.position ≡ some p)
      × IsBooked (seen_by_actions e market) (marked market.last_price market.timestamp p)
          (fill_price e market) market.timestamp e'
  IsTick e market e' position_opened =
      (entry_block_reason (prepare e market) market ≡ none)
      × IsBought (books e) (fill_price e market) market.timestamp e'
  IsTick e market e' nothing =
      (e'.completed_trades ≡ e.completed_trades)
      × (e'.available_capital ≡ e.available_capital)
      × (e'.position_manager.position
          ≡ mark_if market.last_price market.timestamp e.position_manager.position)

  -- A tick, by its result; where a diagnosis panics nothing has happened to the books.
  abbrev pub Happened :
      TradingEngine F → MarketState F → TradingEngine F → Caught (TickResult F) → Type 0
  Happened e market e' (returned r) = IsTick e market e' r.event
  Happened e market e' panicked = IsTick e market e' nothing

  module _ (e : TradingEngine F) (market : MarketState F) (scores : TimescaleScores F) where
    position-prepare : (prepare e market).position_manager ≡ e.position_manager
    position-prepare = ap (λ b. b.manager) (books-prepare e market)

    has_position-mark_if :
        (o : Option (Position F))
        → is_some (mark_if market.last_price market.timestamp o) ≡ is_some o
    has_position-mark_if none = refl
    has_position-mark_if (some p) = refl

    has_position-mark_position :
        has_position (seen_by_actions e market).position_manager ≡ has_position e.position_manager
    unfolding mark_position update_on_tick
    has_position-mark_position =
        has_position-mark_if (prepare e market).position_manager.position
        ∙ ap has_position position-prepare

    -- holding a position
    holding :
        (p : Position F)
        → e.position_manager.position ≡ some p
        → (r : TradingEngine F × Bool)
        → IsStage
            (seen_by_actions e market)
            (marked market.last_price market.timestamp p)
            (fill_price e market)
            market.timestamp
            r
        → IsTick e market r.0 (closed_event r.1)
    unfolding mark_position update_on_tick
    holding p h (e', true) s = (p, h, s)
    holding p h (e', false) s = (
      ap (λ x. x.completed_trades) s.kept ∙ ap (λ b. b.trades) (books-prepare e market),
      ap (λ x. x.available_capital) s.kept ∙ ap (λ b. b.cash) (books-prepare e market),
      ap (λ x. x.position_manager.position) s.kept
          ∙ ap (λ m. mark_if market.last_price market.timestamp m.position) position-prepare,
    )

    position-seen :
        (p : Position F)
        → e.position_manager.position ≡ some p
        → (seen_by_actions e market).position_manager.position
          ≡ some (marked market.last_price market.timestamp p)
    unfolding mark_position update_on_tick
    position-seen p h =
        ap (λ m. mark_if market.last_price market.timestamp m.position) position-prepare
        ∙ ap (mark_if market.last_price market.timestamp) h

    books-seen : e.position_manager.position ≡ none → books (seen_by_actions e market) ≡ books e
    unfolding mark_position update_on_tick
    books-seen h =
        ap (remarked market) (books-prepare e market)
        ∙ ap (λ o. record (books e) { manager = record { position = o } })
            (ap (mark_if market.last_price market.timestamp) h ∙ sym h)

    still_flat :
        e.position_manager.position ≡ none
        → e.position_manager.position
          ≡ mark_if market.last_price market.timestamp e.position_manager.position
    still_flat flat = flat ∙ sym (ap (mark_if market.last_price market.timestamp) flat)

    missing :
        (e' : TradingEngine F) (texts : Caught (List String))
        → IsTick e market e' nothing
        → Happened e market e' (missed scores texts)
    missing e' panicked h = h
    missing e' (returned texts) h = h

    -- flat, and free to enter
    entering :
        (o : EntryOutcome) (e' : TradingEngine F) (actions : List (Action F)) (seen : MarketState F)
        → entry_block_reason (prepare e market) market ≡ none
        → e.position_manager.position ≡ none
        → IsEntry (books e) (fill_price e market) market.timestamp (e', o)
        → Happened e market e' (entry_result o actions seen scores)
    entering (opened reason) e' actions seen free flat h = (free, h)
    entering no_signal e' actions seen free flat h =
        missing e' (diagnoses actions seen scores) (
          ap (λ b. b.trades) h,
          ap (λ b. b.cash) h,
          ap (λ b. b.manager.position) h ∙ still_flat flat,
        )
    entering not_entered e' actions seen free flat h =
        missing e' (diagnoses actions seen scores) (
          ap (λ b. b.trades) h,
          ap (λ b. b.cash) h,
          ap (λ b. b.manager.position) h ∙ still_flat flat,
        )
    entering (gated gate) e' actions seen free flat h =
        (ap (λ b. b.trades) h, ap (λ b. b.cash) h, ap (λ b. b.manager.position) h ∙ still_flat flat)

    seeking :
        (o : Option String) (seen : MarketState F)
        → entry_block_reason (prepare e market) market ≡ o
        → e.position_manager.position ≡ none
        → IsEntry (books e) (fill_price e market) market.timestamp (
            seek_entry
              (seen_by_actions e market).entry_actions
              (seen_by_actions e market)
              seen
              scores)
        → let (e', r) = seek_unless o (seen_by_actions e market) seen scores in
          Happened e market e' r
    seeking (some reason) seen blocked flat h =
        let b = books-seen flat in
        (ap (λ x. x.trades) b, ap (λ x. x.cash) b, ap (λ x. x.manager.position) b ∙ still_flat flat)
    seeking none seen free flat h = entering _ _ _ seen free flat h

  pub act-tick_flat :
      (e : TradingEngine F) (market : MarketState F) (scores : TimescaleScores F)
      → has_position e.position_manager ≡ false
      → act e market scores ≡ tick_flat e market scores
  unfolding act
  act-tick_flat e market scores h = rw h refl

  pub act-tick_holding :
      (e : TradingEngine F) (market : MarketState F) (scores : TimescaleScores F)
      → has_position e.position_manager ≡ true
      → act e market scores ≡ tick_holding e market scores
  unfolding act
  act-tick_holding e market scores h = rw h refl

  module _ (e : TradingEngine F) (market : MarketState F) (scores : TimescaleScores F) where
    abbrev seen_market : MarketState F
    seen_market = inject_context (prepare e market) market

    block-seen :
        entry_block_reason (seen_by_actions e market) seen_market
        ≡ entry_block_reason (prepare e market) market
    unfolding entry_block_reason inject_context mark_position
    block-seen = refl

    IsEntry-seen :
        e.position_manager.position ≡ none
        → IsEntry (books e) (fill_price e market) market.timestamp (
            seek_entry
              (seen_by_actions e market).entry_actions
              (seen_by_actions e market)
              seen_market
              scores)
    unfolding inject_context
    IsEntry-seen flat =
        let r =
          seek_entry (seen_by_actions e market).entry_actions (seen_by_actions e market) seen_market
            scores in
        subst (λ b. IsEntry b (get_or b.fill market.last_price) market.timestamp r)
          (books-seen e market scores flat)
          (seek_entry-IsEntry _ (seen_by_actions e market) seen_market scores)

    IsStage-seen :
        (p : Position F)
        → e.position_manager.position ≡ some p
        → IsStage
            (seen_by_actions e market)
            (marked market.last_price market.timestamp p)
            (fill_price e market)
            market.timestamp
            (manage_position (seen_by_actions e market) seen_market scores)
    unfolding inject_context mark_position
    IsStage-seen p h = rw (← ap (λ b. get_or b.fill market.last_price) (books-prepare e market)) (
        manage_position-IsStage (seen_by_actions e market) _ seen_market scores
          (position-seen e market scores p h))

    tick_flat-IsTick :
        e.position_manager.position ≡ none
        → let (e', r) = tick_flat (seen_by_actions e market) seen_market scores in
          Happened e market e' r
    unfolding tick_flat
    tick_flat-IsTick flat =
        seeking e market scores (entry_block_reason (seen_by_actions e market) seen_market)
          seen_market (sym block-seen) flat (IsEntry-seen flat)

    tick_holding-IsTick :
        (p : Position F)
        → e.position_manager.position ≡ some p
        → let (e', r) = tick_holding (seen_by_actions e market) seen_market scores in
          Happened e market e' r
    unfolding tick_holding
    tick_holding-IsTick p h =
        holding e market scores p h (manage_position (seen_by_actions e market) seen_market scores)
          (IsStage-seen p h)

  pub on_tick-IsTick :
      (e : TradingEngine F) (market : MarketState F)
      → let (e', seen, r) = on_tick e market in Happened e market e' r
  unfolding on_tick inject_context mark_position
  on_tick-IsTick e market =
      let scores = score_market (prepare e market) (inject_context (prepare e market) market) in
      let same = has_position-mark_position e market scores in
      elim (Option-cases e.position_manager.position) [
        | inl flat ↦
            subst (λ r. Happened e market r.0 r.1)
              (sym (act-tick_flat _ _ scores (same ∙ ap is_some flat)))
              (tick_flat-IsTick e market scores flat)
        | inr (p, h) ↦
            subst (λ r. Happened e market r.0 r.1)
              (sym (act-tick_holding _ _ scores (same ∙ ap is_some h)))
              (tick_holding-IsTick e market scores p h)
      ]
