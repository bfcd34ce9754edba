-- ===== src/Book/Ledger/Settled.antt =====
-- crates/data_feed/src/book.rs: a recheck of one pending exit counts at most one trade.
use galactic_trading_firm.Prelude.{
  ◌≡◌, refl, ap, ◌∙◌, Option, none, some, List, [], ◌∷◌, ◌++◌, String,
}
use galactic_trading_firm.Prelude.Maps.{lookup}
use galactic_trading_firm.F64.{F64, ◌⊕◌}
use galactic_trading_firm.Time.{DateTime, Chrono}
use galactic_trading_firm.Action.{ExitReason}
use galactic_trading_firm.Broker.Trait.{Broker}
use galactic_trading_firm.Live.{LiveSession, TradeWithScores, force_close}
use galactic_trading_firm.Book.{
  ReplayTrade, PendingConfig, Book, ExitPending, record_trade, count_trade,
}
use galactic_trading_firm.Book.Swap.{apply_pending_where_flat}
use galactic_trading_firm.Book.Pending.{
  CloseOutcome, close_filled, flat, unsettled, ExitResolution, exit_filled, broker_flat, resubmit,
  still, finished, close_session, swap_if_pending, finish_exit_pending, on_resubmitted,
  on_resolution, recheck, check_exit_pending, close_at_broker, resolve_exit_pending,
  keep_exit_pending,
}
use galactic_trading_firm.Book.Ledger.{Kept, kept, apply_pending_where_flat-kept}

module _ {F : Type 0} ⦃f : F64 F⦄ where
  -- a log and a daily profit with the trade of a settled exit, if there is one
  abbrev pub with_settled : List (ReplayTrade F) → Option (ReplayTrade F) → List (ReplayTrade F)
  with_settled log none = log
  with_settled log (some t) = log ++ (t ∷ [])

  abbrev pub plus_settled : F → Option (ReplayTrade F) → F
  plus_settled pnl none = pnl
  plus_settled pnl (some t) = pnl ⊕ t.tws.trade.pnl

module _ {F B : Type 0} ⦃f : F64 F⦄ where
  abbrev pub AtMostOne : Book F B → Book F B → Type 0
  AtMostOne r b =
      (t : Option (ReplayTrade F)) × (b.log ≡ with_settled r.log t)
      × (b.daily_pnl ≡ plus_settled r.daily_pnl t)
      × (b.spec ≡ r.spec)

  AtMostOne-kept : (r b b' : Book F B) → kept b' ≡ kept b → AtMostOne r b → AtMostOne r b'
  AtMostOne-kept r b b' same (t, log, pnl, spec) = (
    t,
    ap (λ (x : Kept F B). x.0) same ∙ log,
    ap (λ (x : Kept F B). x.1) same ∙ pnl,
    ap (λ (x : Kept F B). x.5) same ∙ spec,
  )

module _ {F B : Type 0} ⦃f : F64 F⦄ ⦃c : Chrono⦄ where
  finished-AtMostOne :
      (b : Book F B) (ticker : String) (price : Option F)
      (r : LiveSession F × Option (TradeWithScores F))
      → AtMostOne b (finished b ticker price r)
  unfolding count_trade record_trade
  finished-AtMostOne b ticker price (s, none) = (none, refl, refl, refl)
  finished-AtMostOne b ticker price (s, some tws) = (some _, refl, refl, refl)

  close_session-AtMostOne :
      (b : Book F B) (ticker : String) (price : F) (exit_price : Option F) (now : DateTime)
      (reason : ExitReason) (s : Option (LiveSession F))
      → AtMostOne b (close_session b ticker price exit_price now reason s)
  close_session-AtMostOne b ticker price exit_price now reason none = (none, refl, refl, refl)
  close_session-AtMostOne b ticker price exit_price now reason (some s) =
      finished-AtMostOne b ticker exit_price (force_close s price now reason)

  swap_if_pending-AtMostOne : (r b : Book F B) → AtMostOne r b → AtMostOne r (swap_if_pending b)
  swap_if_pending-AtMostOne r b h = by_config b.pending
    where
      by_config :
          (o : Option (PendingConfig F))
          → AtMostOne r (elim o [ none ↦ b | some p ↦ (apply_pending_where_flat b).0 ])
      by_config none = h
      by_config (some p) =
          AtMostOne-kept r b (apply_pending_where_flat b).0 (apply_pending_where_flat-kept b) h

  finish_exit_pending-AtMostOne :
      (b : Book F B) (ticker : String) (p : ExitPending F) (price : F) (exit_price : Option F)
      (now : DateTime)
      → AtMostOne b (finish_exit_pending b ticker p price exit_price now)
  unfolding finish_exit_pending
  finish_exit_pending-AtMostOne b ticker p price exit_price now =
      swap_if_pending-AtMostOne b _
        (close_session-AtMostOne b ticker price exit_price now p.reason (lookup ticker b.sessions))

module _ {F B : Type 0} ⦃f : F64 F⦄ ⦃c : Chrono⦄ (api : Broker F B) where
  on_resubmitted-AtMostOne :
      (b : Book F B) (ticker : String) (p : ExitPending F) (fallback : F) (now : DateTime)
      (o : CloseOutcome F)
      → AtMostOne b (on_resubmitted api ticker p fallback now (b, o)).0
  unfolding keep_exit_pending
  on_resubmitted-AtMostOne b ticker p fallback now (close_filled x) =
      finish_exit_pending-AtMostOne b ticker p _ _ now
  on_resubmitted-AtMostOne b ticker p fallback now flat =
      finish_exit_pending-AtMostOne b ticker p _ _ now
  on_resubmitted-AtMostOne b ticker p fallback now (unsettled order_id) = (none, refl, refl, refl)

  on_resolution-AtMostOne :
      (b : Book F B) (ticker : String) (p : ExitPending F) (fallback : F) (now : DateTime)
      (o : ExitResolution F)
      → AtMostOne b (on_resolution api ticker p fallback now (b, o)).0
  unfolding keep_exit_pending close_at_broker
  on_resolution-AtMostOne b ticker p fallback now (exit_filled price) =
      finish_exit_pending-AtMostOne b ticker p _ _ now
  on_resolution-AtMostOne b ticker p fallback now (broker_flat price) =
      finish_exit_pending-AtMostOne b ticker p _ _ now
  on_resolution-AtMostOne b ticker p fallback now resubmit =
      on_resubmitted-AtMostOne (record b { broker = (api.close ticker b.broker).0 }) ticker p
        fallback now _
  on_resolution-AtMostOne b ticker p fallback now still = (none, refl, refl, refl)

  recheck-AtMostOne :
      (b : Book F B) (ticker : String) (now : DateTime) (price : Option F)
      (p : Option (ExitPending F))
      → AtMostOne b (recheck api b ticker now price p).0
  unfolding resolve_exit_pending
  recheck-AtMostOne b ticker now price none = (none, refl, refl, refl)
  recheck-AtMostOne b ticker now price (some p) = on_resolution-AtMostOne _ ticker _ _ now _

  pub check_exit_pending-AtMostOne :
      (b : Book F B) (ticker : String) (now : DateTime) (price : Option F)
      → AtMostOne b (check_exit_pending api b ticker now price).0
  unfolding check_exit_pending
  check_exit_pending-AtMostOne b ticker now price =
      recheck-AtMostOne b ticker now price (lookup ticker b.exit_pending)
