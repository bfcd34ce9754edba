-- ===== src/Book/Ledger/Bars.antt =====
-- crates/data_feed/src/book.rs: what settling the entry or the exit of a bar counts.
use galactic_trading_firm.Prelude.{
  ◌+◌, ◌%◌, ◌^◌, ◌≡◌, ap, ◌∙◌, Option, none, some, Bool, true, false, List, [], ◌∷◌, ◌++◌, String,
  if_both,
}
use galactic_trading_firm.Prelude.Maps.{lookup}
use galactic_trading_firm.F64.{F64, ◌⊕◌, ◌<?◌, lit}
use galactic_trading_firm.Time.{DateTime}
use galactic_trading_firm.Scores.{
  TimescaleScores, TickEvent, nothing, position_opened, position_closed, TickResult,
}
use galactic_trading_firm.Action.{Position}
use galactic_trading_firm.Broker.{OrderFill, Submitted, accepted, failed, BrokerPosition}
use galactic_trading_firm.Broker.Lookup.{find_held}
use galactic_trading_firm.Broker.Simulated.{if_positive}
use galactic_trading_firm.Broker.Trait.{Broker}
use galactic_trading_firm.Live.{LiveSession, TradeWithScores, adopt_broker_position}
use galactic_trading_firm.Book.{
  BookSpec, ReplayTrade, Unreconciled, Book, contains_key, is_primary, record_trade, count_trade,
}
use galactic_trading_firm.Book.Pending.{
  CloseOutcome, close_filled, flat, unsettled, close_at_broker, begin_exit_pending,
}
use galactic_trading_firm.Book.Reconcile.{
  adopted, adopt_with, adopt, adopt_found, on_positions, reconcile_if, reconcile_ticker, roll_back,
  note_unreconciled, handle_failed_entry,
}
use galactic_trading_firm.Book.Bar.{
  BarOutcome, revert_session, revert_engine_close, settle_fill, undo_session, closed_outcome,
  on_submitted, place_opened, position_in, submit_entry, on_reverted, on_close_outcome, submit_exit,
}
use galactic_trading_firm.Book.Ledger.{Kept, apply_pending_where_flat-kept}

abbrev pub logged : {F : Type 0} → BookSpec F → TradeWithScores F → Option F → ReplayTrade F
logged spec tws price = record { book = spec.name; tws = tws; broker_exit_price = price }

module _ {F B : Type 0} ⦃f : F64 F⦄ where
  -- the same log, daily profit, name and pending exits
  abbrev pub Uncounted : Book F B → Book F B → Type 0
  Uncounted r b =
      (b.log ≡ r.log)
      × (b.daily_pnl ≡ r.daily_pnl)
      × (b.spec ≡ r.spec)
      × (b.exit_pending ≡ r.exit_pending)

  -- a log and a daily profit, and the one trade more that is counted, if there is one
  abbrev pub Counts :
      List (ReplayTrade F) → F → BookSpec F → Book F B → Option (TradeWithScores F) → Type 0
  Counts log pnl spec b none = (b.log ≡ log) × (b.daily_pnl ≡ pnl)
  Counts log pnl spec b (some tws) =
      (price : Option F) × (b.log ≡ log ++ (logged spec tws price ∷ []))
      × (b.daily_pnl ≡ pnl ⊕ tws.trade.pnl)

  -- the one trade that a bar counts, if it reports one
  abbrev pub CountedOnce : Book F B → Book F B → Option (TradeWithScores F) → Type 0
  CountedOnce r b o = Counts r.log r.daily_pnl r.spec b o

  adopt_with-Uncounted :
      (r b : Book F B) (p : BrokerPosition F) (now : DateTime) (scores : Option (TimescaleScores F))
      (reason : String) (s : Option (LiveSession F))
      → Uncounted r b
      → Uncounted r (adopt_with b p now scores reason s).0
  adopt_with-Uncounted r b p now scores reason none h = h
  adopt_with-Uncounted r b p now scores reason (some s) h =
      by_result
        (adopt_broker_position s p.ticker p.direction p.quantity p.entry_price now scores reason)
    where
      by_result : (o : Option (LiveSession F)) → Uncounted r (adopted b p.ticker o).0
      by_result none = h
      by_result (some s') = h

  settle_fill-Uncounted :
      (r b : Book F B) (ticker : String) (shares : F) (x : OrderFill F) (s : Option (LiveSession F))
      → Uncounted r b
      → Uncounted r (settle_fill b ticker shares x s)
  settle_fill-Uncounted r b ticker shares x none h = h
  settle_fill-Uncounted r b ticker shares x (some s) h = h

  undo_session-Uncounted :
      (r b : Book F B) (ticker : String) (s : Option (LiveSession F))
      → Uncounted r b
      → Uncounted r (undo_session b ticker s)
  undo_session-Uncounted r b ticker none h = h
  undo_session-Uncounted r b ticker (some s) h = h

  revert_session-Uncounted :
      (r b : Book F B) (ticker : String) (tws : TradeWithScores F) (s : Option (LiveSession F))
      → Uncounted r b
      → Uncounted r (revert_session b ticker tws s).0
  revert_session-Uncounted r b ticker tws none h = h
  revert_session-Uncounted r b ticker tws (some s) h = h

  closed_outcome-CountedOnce :
      (r b : Book F B) (result : TickResult F) (tws : TradeWithScores F) (price : Option F)
      → Uncounted r b
      → let (b', o) = closed_outcome (count_trade b tws price) result tws in
        CountedOnce r b' o.trade
  unfolding count_trade record_trade
  closed_outcome-CountedOnce r b result tws price (log, pnl, spec, pending) =
      let same = apply_pending_where_flat-kept (count_trade b tws price) in
      (
        price,
        ap (λ (x : Kept F B). x.0) same
            ∙ ap (λ l. l ++ (logged b.spec tws price ∷ [])) log
            ∙ ap (λ (spec : BookSpec F). r.log ++ (logged spec tws price ∷ [])) spec,
        ap (λ (x : Kept F B). x.1) same ∙ ap (λ p. p ⊕ tws.trade.pnl) pnl,
      )

module _ {F B : Type 0} ⦃f : F64 F⦄ (api : Broker F B) where
  adopt_found-Uncounted :
      (r b : Book F B) (now : DateTime) (u : Unreconciled F) (p : Option (BrokerPosition F))
      → Uncounted r b
      → Uncounted r (adopt_found api b now u p)
  unfolding adopt
  adopt_found-Uncounted r b now u none h = h
  adopt_found-Uncounted r b now u (some p) h =
      adopt_with-Uncounted r b p now u.scores _ (lookup p.ticker b.sessions) h

  on_positions-Uncounted :
      (r b : Book F B) (ticker : String) (now : DateTime) (u : Unreconciled F)
      (o : Submitted (List (BrokerPosition F)))
      → Uncounted r b
      → Uncounted r (on_positions api ticker now u (b, o))
  on_positions-Uncounted r b ticker now u (accepted list) h =
      adopt_found-Uncounted r b now u (find_held ticker list) h
  on_positions-Uncounted r b ticker now u (failed e) h = h

  reconcile_if-Uncounted :
      (r b : Book F B) (ticker : String) (now : DateTime) (u : Option (Unreconciled F))
      → Uncounted r b
      → Uncounted r (reconcile_if api b ticker now u)
  unfolding adopt
  reconcile_if-Uncounted r b ticker now none h = h
  reconcile_if-Uncounted r b ticker now (some u) h =
      on_positions-Uncounted r _ ticker now (record u { attempts = (u.attempts + 1) % 2 ^ 32 }) _ h

  pub reconcile_ticker-Uncounted :
      (r b : Book F B) (ticker : String) (now : DateTime)
      → Uncounted r b
      → Uncounted r (reconcile_ticker api b ticker now)
  unfolding reconcile_ticker
  reconcile_ticker-Uncounted r b ticker now h =
      reconcile_if-Uncounted r b ticker now (lookup ticker b.unreconciled) h

  roll_back-Uncounted :
      (r b : Book F B) (ticker : String) (until : DateTime) (s : Option (LiveSession F))
      → Uncounted r b
      → Uncounted r (roll_back api b ticker until s).0
  roll_back-Uncounted r b ticker until none h = h
  roll_back-Uncounted r b ticker until (some s) h = h

  note_unreconciled-Uncounted :
      (r b : Book F B) (ticker : String) (ts : DateTime)
      (stash : Option (TimescaleScores F) × Option String)
      → Uncounted r b
      → Uncounted r (note_unreconciled api ticker ts (b, stash))
  note_unreconciled-Uncounted r b ticker ts (scores, reason) h =
      if_both (Uncounted r) (is_primary b.spec) _ _ (reconcile_ticker-Uncounted r _ ticker ts h) h

  handle_failed_entry-Uncounted :
      (r b : Book F B) (ticker : String) (ts : DateTime)
      → Uncounted r b
      → Uncounted r (handle_failed_entry api b ticker ts)
  unfolding handle_failed_entry
  handle_failed_entry-Uncounted r b ticker ts h =
      note_unreconciled-Uncounted r _ ticker ts _
        (roll_back-Uncounted r b ticker _ (lookup ticker b.sessions) h)

  on_submitted-Uncounted :
      (r b : Book F B) (ticker : String) (shares : F) (ts : DateTime) (o : Submitted (OrderFill F))
      → Uncounted r b
      → Uncounted r (on_submitted api ticker shares ts (b, o))
  on_submitted-Uncounted r b ticker shares ts (accepted x) h =
      settle_fill-Uncounted r b ticker shares x (lookup ticker b.sessions) h
  on_submitted-Uncounted r b ticker shares ts (failed e) h =
      handle_failed_entry-Uncounted r b ticker ts h

  place_opened-Uncounted :
      (r b : Book F B) (ticker : String) (ts : DateTime) (p : Option (Position F))
      → Uncounted r b
      → Uncounted r (place_opened api b ticker ts p)
  place_opened-Uncounted r b ticker ts none h = h
  place_opened-Uncounted r b ticker ts (some p) h =
      if_both (Uncounted r) (f.floor p.size <? lit 1) _ _
        (undo_session-Uncounted r b ticker (lookup ticker b.sessions) h)
        (on_submitted-Uncounted r _ ticker _ ts _ h)

  pub submit_entry-Uncounted :
      (r b : Book F B) (event : TickEvent) (ticker : String) (ts : DateTime)
      → Uncounted r b
      → Uncounted r (submit_entry api event b ticker ts)
  submit_entry-Uncounted r b position_opened ticker ts h =
      place_opened-Uncounted r b ticker ts (position_in api (lookup ticker b.sessions)) h
  submit_entry-Uncounted r b position_closed ticker ts h = h
  submit_entry-Uncounted r b nothing ticker ts h = h

  abbrev pub Settled : Book F B → Book F B × BarOutcome F → Type 0
  Settled r (b, o) = CountedOnce r b o.trade

  on_reverted-Settled :
      (r b : Book F B) (ticker : String) (result : TickResult F) (tws : TradeWithScores F)
      (order_id : Option String) (ts : DateTime) (undone : Bool)
      → Uncounted r b
      → Settled r (on_reverted api ticker result tws order_id ts (b, undone))
  unfolding begin_exit_pending
  on_reverted-Settled r b ticker result tws order_id ts true (log, pnl, spec, pending) = (log, pnl)
  on_reverted-Settled r b ticker result tws order_id ts false h =
      closed_outcome-CountedOnce r b result tws none h

  on_close_outcome-Settled :
      (r b : Book F B) (ticker : String) (result : TickResult F) (tws : TradeWithScores F)
      (ts : DateTime) (o : CloseOutcome F)
      → Uncounted r b
      → Settled r (on_close_outcome api ticker result tws ts (b, o))
  unfolding revert_engine_close
  on_close_outcome-Settled r b ticker result tws ts (close_filled x) h =
      closed_outcome-CountedOnce r b result tws (if_positive (some x.fill_price)) h
  on_close_outcome-Settled r b ticker result tws ts flat h =
      closed_outcome-CountedOnce r b result tws none h
  on_close_outcome-Settled r b ticker result tws ts (unsettled order_id) h =
      on_reverted-Settled r _ ticker result tws order_id ts _
        (revert_session-Uncounted r b ticker tws (lookup ticker b.sessions) h)

  pub submit_exit-Settled :
      (r b : Book F B) (trade : Option (TradeWithScores F)) (ticker : String) (ts : DateTime)
      (result : TickResult F)
      → Uncounted r b
      → Settled r (submit_exit api trade b ticker ts result)
  unfolding revert_engine_close close_at_broker
  submit_exit-Settled r b none ticker ts result (log, pnl, spec, pending) = (log, pnl)
  submit_exit-Settled r b (some tws) ticker ts result h =
      if_both (Settled r) (contains_key ticker b.exit_pending) _ _
        (both_of (revert_session-Uncounted r b ticker tws (lookup ticker b.sessions) h))
        (on_close_outcome-Settled r _ ticker result tws ts _ h)
    where
      both_of :
          Uncounted r (revert_session b ticker tws (lookup ticker b.sessions)).0
          → CountedOnce r (revert_session b ticker tws (lookup ticker b.sessions)).0 none
      both_of (log, pnl, spec, pending) = (log, pnl)
