-- ===== src/Book/Ledger/Daily.antt =====
-- crates/data_feed/src/book.rs: the daily profit of a book is the sum of the trades that it logs.
use mathlib.Core.List.{append-nil, append_assoc}
use galactic_trading_firm.Prelude.{
  ◌≡◌, refl, sym, ap, ◌∙◌, subst, Option, none, some, List, [], ◌∷◌, ◌++◌, String, if_both,
}
use galactic_trading_firm.Prelude.Maps.{Map, lookup}
use galactic_trading_firm.F64.{F64, ◌⊕◌}
use galactic_trading_firm.Time.{DateTime, Chrono}
use galactic_trading_firm.Action.{ExitReason}
use galactic_trading_firm.Broker.Simulated.{if_positive}
use galactic_trading_firm.Broker.Trait.{Broker}
use galactic_trading_firm.Live.{LiveSession, TradeWithScores, force_close}
use galactic_trading_firm.Book.{
  ReplayTrade, PendingConfig, contains_key, Book, ExitPending, with_session, record_trade,
  count_trade, open_tickers, exit_pending_tickers,
}
use galactic_trading_firm.Book.Swap.{apply_pending_where_flat}
use galactic_trading_firm.Book.Pending.{
  CloseOutcome, close_filled, flat, unsettled, ExitResolution, exit_filled, broker_flat, resubmit,
  still, finished, close_session, swap_if_pending, finish_exit_pending, on_resubmitted,
  on_resolution, recheck, check_exit_pending, check_each, check_exits_pending, close_at_broker,
  resolve_exit_pending, keep_exit_pending, begin_exit_pending,
}
use galactic_trading_firm.Book.Bar.{on_forced, close_and_record, flatten_each, flatten_all}
use galactic_trading_firm.Book.Ledger.{Kept, kept, apply_pending_where_flat-kept}

module _ {F : Type 0} ⦃f : F64 F⦄ where
  -- a log and a daily profit that are reached from others by counting trades
  pub data Counted (log : List (ReplayTrade F)) (pnl : F) : List (ReplayTrade F) → F → Type 0 where
    start : Counted log pnl log pnl
    count :
        (log' : List (ReplayTrade F)) (pnl' : F) (t : ReplayTrade F)
        → Counted log pnl log' pnl'
        → Counted log pnl (log' ++ (t ∷ [])) (pnl' ⊕ t.tws.trade.pnl)

  -- `pnl` and the profits of the trades, added one after the other
  unfoldable pub total : F → List (ReplayTrade F) → F
  total pnl [] = pnl
  total pnl (t ∷ rest) = total (pnl ⊕ t.tws.trade.pnl) rest

  total-append :
      (pnl : F) (ts : List (ReplayTrade F)) (t : ReplayTrade F)
      → total pnl (ts ++ (t ∷ [])) ≡ total pnl ts ⊕ t.tws.trade.pnl
  unfolding total
  total-append pnl [] t = refl
  total-append pnl (x ∷ rest) t = total-append (pnl ⊕ x.tws.trade.pnl) rest t

  Counted-total :
      (log : List (ReplayTrade F)) (pnl : F) (log' : List (ReplayTrade F)) (pnl' : F)
      → Counted log pnl log' pnl'
      → (ts : List (ReplayTrade F)) × (log' ≡ log ++ ts) × (pnl' ≡ total pnl ts)
  unfolding total
  Counted-total log pnl log' pnl' start = ([], sym (append-nil log), refl)
  Counted-total log pnl log' pnl' (count l p t h) =
      let (ts, same, sum) = Counted-total log pnl l p h in
      (
        ts ++ (t ∷ []),
        ap (λ l. l ++ (t ∷ [])) same ∙ append_assoc log ts (t ∷ []),
        ap (λ p. p ⊕ t.tws.trade.pnl) sum ∙ sym (total-append pnl ts t),
      )

module _ {F B : Type 0} ⦃f : F64 F⦄ where
  abbrev pub IsCounted : Book F B → Book F B → Type 0
  IsCounted u b = Counted u.log u.daily_pnl b.log b.daily_pnl

  pub kept-IsCounted : (u b b' : Book F B) → kept b' ≡ kept b → IsCounted u b → IsCounted u b'
  kept-IsCounted u b b' h k = subst (λ (x : Kept F B). Counted u.log u.daily_pnl x.0 x.1) (sym h) k

  pub count_trade-IsCounted :
      (u b : Book F B) (tws : TradeWithScores F) (price : Option F)
      → IsCounted u b
      → IsCounted u (count_trade b tws price)
  unfolding count_trade record_trade
  count_trade-IsCounted u b tws price h = count b.log b.daily_pnl _ h

module _ {F B : Type 0} ⦃f : F64 F⦄ ⦃c : Chrono⦄ where
  finished-IsCounted :
      (u b : Book F B) (ticker : String) (price : Option F)
      (r : LiveSession F × Option (TradeWithScores F))
      → IsCounted u b
      → IsCounted u (finished b ticker price r)
  finished-IsCounted u b ticker price (s, none) h = h
  finished-IsCounted u b ticker price (s, some tws) h =
      count_trade-IsCounted u (with_session b ticker s) tws price h

  pub close_session-IsCounted :
      (u b : Book F B) (ticker : String) (price : F) (exit_price : Option F) (now : DateTime)
      (reason : ExitReason) (s : Option (LiveSession F))
      → IsCounted u b
      → IsCounted u (close_session b ticker price exit_price now reason s)
  close_session-IsCounted u b ticker price exit_price now reason none h = h
  close_session-IsCounted u b ticker price exit_price now reason (some s) h =
      finished-IsCounted u b ticker exit_price (force_close s price now reason) h

  pub swap_if_pending-IsCounted : (u b : Book F B) → IsCounted u b → IsCounted u (swap_if_pending b)
  swap_if_pending-IsCounted u b h = by_config b.pending
    where
      by_config :
          (o : Option (PendingConfig F))
          → IsCounted u (elim o [ none ↦ b | some p ↦ (apply_pending_where_flat b).0 ])
      by_config none = h
      by_config (some p) =
          kept-IsCounted u b (apply_pending_where_flat b).0 (apply_pending_where_flat-kept b) h

  finish_exit_pending-IsCounted :
      (u b : Book F B) (ticker : String) (p : ExitPending F) (price : F) (exit_price : Option F)
      (now : DateTime)
      → IsCounted u b
      → IsCounted u (finish_exit_pending b ticker p price exit_price now)
  unfolding finish_exit_pending
  finish_exit_pending-IsCounted u b ticker p price exit_price now h =
      swap_if_pending-IsCounted u _ (
        close_session-IsCounted u b ticker price exit_price now p.reason (lookup ticker b.sessions)
          h)

module _ {F B : Type 0} ⦃f : F64 F⦄ ⦃c : Chrono⦄ (api : Broker F B) where
  on_resubmitted-IsCounted :
      (u b : Book F B) (ticker : String) (p : ExitPending F) (fallback : F) (now : DateTime)
      (o : CloseOutcome F)
      → IsCounted u b
      → IsCounted u (on_resubmitted api ticker p fallback now (b, o)).0
  unfolding keep_exit_pending
  on_resubmitted-IsCounted u b ticker p fallback now (close_filled x) h =
      finish_exit_pending-IsCounted u b ticker p _ _ now h
  on_resubmitted-IsCounted u b ticker p fallback now flat h =
      finish_exit_pending-IsCounted u b ticker p _ _ now h
  on_resubmitted-IsCounted u b ticker p fallback now (unsettled order_id) h = h

  on_resolution-IsCounted :
      (u b : Book F B) (ticker : String) (p : ExitPending F) (fallback : F) (now : DateTime)
      (o : ExitResolution F)
      → IsCounted u b
      → IsCounted u (on_resolution api ticker p fallback now (b, o)).0
  unfolding keep_exit_pending close_at_broker
  on_resolution-IsCounted u b ticker p fallback now (exit_filled price) h =
      finish_exit_pending-IsCounted u b ticker p _ _ now h
  on_resolution-IsCounted u b ticker p fallback now (broker_flat price) h =
      finish_exit_pending-IsCounted u b ticker p _ _ now h
  on_resolution-IsCounted u b ticker p fallback now resubmit h =
      on_resubmitted-IsCounted u _ ticker p fallback now _ h
  on_resolution-IsCounted u b ticker p fallback now still h = h

  recheck-IsCounted :
      (u b : Book F B) (ticker : String) (now : DateTime) (price : Option F)
      (p : Option (ExitPending F))
      → IsCounted u b
      → IsCounted u (recheck api b ticker now price p).0
  unfolding resolve_exit_pending
  recheck-IsCounted u b ticker now price none h = h
  recheck-IsCounted u b ticker now price (some p) h = on_resolution-IsCounted u _ ticker _ _ now _ h

  pub check_exit_pending-IsCounted :
      (u b : Book F B) (ticker : String) (now : DateTime) (price : Option F)
      → IsCounted u b
      → IsCounted u (check_exit_pending api b ticker now price).0
  unfolding check_exit_pending
  check_exit_pending-IsCounted u b ticker now price h =
      recheck-IsCounted u b ticker now price (lookup ticker b.exit_pending) h

  pub check_each-IsCounted :
      (ts : List String) (u b : Book F B) (now : DateTime) (last_prices : Map F)
      → IsCounted u b
      → IsCounted u (check_each api ts b now last_prices)
  unfolding check_each
  check_each-IsCounted [] u b now last_prices h = h
  check_each-IsCounted (t ∷ rest) u b now last_prices h =
      check_each-IsCounted rest u _ now last_prices
        (check_exit_pending-IsCounted u b t now (lookup t last_prices) h)

  on_forced-IsCounted :
      (u b : Book F B) (ticker : String) (price : F) (reason : ExitReason) (now : DateTime)
      (o : CloseOutcome F)
      → IsCounted u b
      → IsCounted u (on_forced api ticker price reason now (b, o))
  unfolding begin_exit_pending
  on_forced-IsCounted u b ticker price reason now (close_filled x) h =
      close_session-IsCounted u b ticker _ _ now reason (lookup ticker b.sessions) h
  on_forced-IsCounted u b ticker price reason now flat h =
      close_session-IsCounted u b ticker _ _ now reason (lookup ticker b.sessions) h
  on_forced-IsCounted u b ticker price reason now (unsettled order_id) h = h

  close_and_record-IsCounted :
      (u b : Book F B) (ticker : String) (price : F) (reason : ExitReason) (now : DateTime)
      → IsCounted u b
      → IsCounted u (close_and_record api b ticker price reason now)
  unfolding close_and_record close_at_broker
  close_and_record-IsCounted u b ticker price reason now h =
      if_both (IsCounted u) (contains_key ticker b.exit_pending) _ _
        (check_exit_pending-IsCounted u b ticker now (if_positive (some price)) h)
        (on_forced-IsCounted u _ ticker price reason now _ h)

  flatten_each-IsCounted :
      (ts : List String) (u b : Book F B) (reason : ExitReason) (last_prices : Map F)
      (now : DateTime)
      → IsCounted u b
      → IsCounted u (flatten_each api ts b reason last_prices now)
  unfolding flatten_each
  flatten_each-IsCounted [] u b reason last_prices now h = h
  flatten_each-IsCounted (t ∷ rest) u b reason last_prices now h =
      flatten_each-IsCounted rest u _ reason last_prices now
        (close_and_record-IsCounted u b t _ reason now h)

  pub flatten_all-IsCounted :
      (u b : Book F B) (reason : ExitReason) (last_prices : Map F) (now : DateTime)
      → IsCounted u b
      → IsCounted u (flatten_all api b reason last_prices now)
  unfolding flatten_all
  flatten_all-IsCounted u b reason last_prices now h =
      flatten_each-IsCounted (open_tickers b) u b reason last_prices now h

  -- the trades that were logged, and the daily profit as their sum
  abbrev pub IsDaily : Book F B → Book F B → Type 0
  IsDaily b b' =
      (ts : List (ReplayTrade F)) × (b'.log ≡ b.log ++ ts) × (b'.daily_pnl ≡ total b.daily_pnl ts)

  -- Flattening a book, and rechecking its pending exits, log some trades, and the daily profit then is
  -- the profits of those trades added in turn to what it was.
  pub forced-IsDaily :
      (b : Book F B) (reason : ExitReason) (last_prices : Map F) (now : DateTime)
      → IsDaily b (flatten_all api b reason last_prices now)
        × IsDaily b (check_exits_pending api b now last_prices)
  unfolding check_exits_pending
  forced-IsDaily b reason last_prices now = (
    Counted-total _ _ _ _ (flatten_all-IsCounted b b reason last_prices now start),
    Counted-total _ _ _ _ (check_each-IsCounted (exit_pending_tickers b) b b now last_prices start),
  )
