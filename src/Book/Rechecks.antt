-- ===== src/Book/Rechecks.antt =====
-- crates/data_feed/src/book.rs: what a recheck of an exit that is not confirmed leaves.
use text.Mathlib.Text.{◌==◌}
use galactic_trading_firm.Prelude.{
  ℕ, ◌+◌, ◌-◌, ◌*◌, ◌/◌, ◌%◌, ◌^◌, ◌≤◌, ◌≡◌, ◌↔◌, ◌⊎◌, inl, inr, refl, ap, ◌∙◌, Option, none, some,
  Bool, true, false, String, ◌||◌, leb, tests, arith,
}
use galactic_trading_firm.Prelude.Maps.{Map, lookup, insert, remove}
use galactic_trading_firm.Prelude.Maps.Keys.{
  lookup-insert, lookup-insert_other, lookup-remove, lookup-remove_other,
}
use galactic_trading_firm.F64.{F64}
use galactic_trading_firm.Time.{DateTime, Chrono, nanos_per_second}
use galactic_trading_firm.Action.{ExitReason}
use galactic_trading_firm.Broker.Trait.{Broker}
use galactic_trading_firm.Live.{LiveSession, TradeWithScores, force_close}
use galactic_trading_firm.Book.{Book, ExitPending, PendingConfig, record_trade, count_trade}
use galactic_trading_firm.Book.Swap.{apply_pending_where_flat}
use galactic_trading_firm.Book.Pending.{
  CloseOutcome, close_filled, flat, unsettled, ExitResolution, exit_filled, broker_flat, resubmit,
  still, finished, close_session, swap_if_pending, finish_exit_pending, on_resubmitted,
  on_resolution, recheck, check_exit_pending, close_at_broker, resolve_exit_pending,
  keep_exit_pending, is_alerted, exit_pending_alert_secs,
}
use galactic_trading_firm.Book.Resolution.{
  IsConfirmed, IsResolution, IsSettled, closed_lem, by_order-IsResolution,
}
use galactic_trading_firm.Book.Ledger.{Kept, apply_pending_where_flat-kept}

le→leb : (a b : ℕ) → a ≤ b → leb a b ≡ true
le→leb a b h = ground arith

module _ {F : Type 0} where
  -- the same exit, asked about once more
  pub record IsSameExit (p : ExitPending F) (now : DateTime) (p' : ExitPending F) : Type 0 where
    pub reason : p'.reason ≡ p.reason
    pub price : p'.engine_exit_price ≡ p.engine_exit_price
    pub since : p'.since ≡ p.since
    -- a `u32`, which wraps around
    pub checks : p'.checks ≡ (p.checks + 1) % 2 ^ 32
    -- five minutes after its start the exit is alerted
    pub alerted :
        (p'.alerted ≡ true) ↔ ((p.alerted ≡ true) ⊎ (p.since + 300 * nanos_per_second ≤ now))

  alert_lem :
      (p : ExitPending F) (now : DateTime)
      → (is_alerted p now ≡ true) ↔ ((p.alerted ≡ true) ⊎ (p.since + 300 * nanos_per_second ≤ now))
  alert_lem p now = by_flag p.alerted
    where
      by_age :
          (since : ℕ)
          → (leb exit_pending_alert_secs ((now - since) / nanos_per_second) ≡ true)
            ↔ (since + 300 * nanos_per_second ≤ now)
      by_age since = (λ h. omega tests, λ h. le→leb _ _ (omega arith))

      by_flag :
          (b : Bool)
          → ((b || leb exit_pending_alert_secs ((now - p.since) / nanos_per_second)) ≡ true)
            ↔ ((b ≡ true) ⊎ (p.since + 300 * nanos_per_second ≤ now))
      by_flag true = (λ h. inl refl, λ h. refl)
      by_flag false = (
        λ h. inr ((by_age p.since).0 h),
        λ h. elim h [ inl e ↦ ground arith | inr old ↦ (by_age p.since).1 old ],
      )

module _ {F B : Type 0} ⦃f : F64 F⦄ ⦃c : Chrono⦄ where
  finished-pending :
      (b : Book F B) (ticker : String) (price : Option F)
      (r : LiveSession F × Option (TradeWithScores F))
      → (finished b ticker price r).exit_pending ≡ b.exit_pending
  unfolding count_trade record_trade
  finished-pending b ticker price (s, none) = refl
  finished-pending b ticker price (s, some tws) = refl

  close_session-pending :
      (b : Book F B) (ticker : String) (price : F) (exit_price : Option F) (now : DateTime)
      (reason : ExitReason) (s : Option (LiveSession F))
      → (close_session b ticker price exit_price now reason s).exit_pending ≡ b.exit_pending
  close_session-pending b ticker price exit_price now reason none = refl
  close_session-pending b ticker price exit_price now reason (some s) =
      finished-pending b ticker exit_price (force_close s price now reason)

  swap_if_pending-pending : (b : Book F B) → (swap_if_pending b).exit_pending ≡ b.exit_pending
  swap_if_pending-pending b = by_config b.pending
    where
      by_config :
          (o : Option (PendingConfig F))
          → (elim o as (λ _. Book F B) [
            | none ↦ b
            | some p ↦ (apply_pending_where_flat b).0
          ]).exit_pending
            ≡ b.exit_pending
      by_config none = refl
      by_config (some p) = ap (λ (x : Kept F B). x.2) (apply_pending_where_flat-kept b)

  finish_exit_pending-pending :
      (b : Book F B) (ticker : String) (p : ExitPending F) (price : F) (exit_price : Option F)
      (now : DateTime)
      → (finish_exit_pending b ticker p price exit_price now).exit_pending ≡ b.exit_pending
  unfolding finish_exit_pending
  finish_exit_pending-pending b ticker p price exit_price now =
      swap_if_pending-pending _
      ∙ close_session-pending b ticker price exit_price now p.reason (lookup ticker b.sessions)

module _ {F B : Type 0} ⦃f : F64 F⦄ ⦃c : Chrono⦄ (api : Broker F B) where
  -- what a recheck of `p` from the broker `w` leaves of the pending exits `m`
  abbrev pub Rechecked :
      B → String → ExitPending F → DateTime → Map (ExitPending F) → Book F B × Bool → Type 0
  Rechecked w ticker p now m (b, true) =
      (b.exit_pending ≡ remove ticker m) × IsConfirmed api w ticker p.order_id
  Rechecked w ticker p now m (b, false) =
      (p' : ExitPending F) × IsSameExit p now p'
      × (b.exit_pending ≡ insert ticker p' (remove ticker m))

  on_resubmitted-Rechecked :
      (w : B) (b : Book F B) (ticker : String) (p : ExitPending F) (fallback : F) (now : DateTime)
      (m : Map (ExitPending F)) (o : CloseOutcome F)
      → b.exit_pending ≡ remove ticker m
      → (IsSettled o → IsConfirmed api w ticker p.order_id)
      → Rechecked w ticker p now m (
          on_resubmitted api ticker
            (record p { checks = (p.checks + 1) % 2 ^ 32 })
            fallback
            now
            (b, o))
  unfolding keep_exit_pending
  on_resubmitted-Rechecked w b ticker p fallback now m (close_filled x) h k =
      (finish_exit_pending-pending b ticker _ _ _ now ∙ h, k tt)
  on_resubmitted-Rechecked w b ticker p fallback now m flat h k =
      (finish_exit_pending-pending b ticker _ _ _ now ∙ h, k tt)
  on_resubmitted-Rechecked w b ticker p fallback now m (unsettled order_id) h k = (
    _,
    record { reason = refl; price = refl; since = refl; checks = refl; alerted = alert_lem p now },
    ap (insert ticker _) h,
  )

  on_resolution-Rechecked :
      (w : B) (b : Book F B) (ticker : String) (p : ExitPending F) (fallback : F) (now : DateTime)
      (m : Map (ExitPending F)) (o : ExitResolution F)
      → b.exit_pending ≡ remove ticker m
      → IsResolution api w ticker p.order_id (b.broker, o)
      → Rechecked w ticker p now m (
          on_resolution api ticker
            (record p { checks = (p.checks + 1) % 2 ^ 32 })
            fallback
            now
            (b, o))
  unfolding keep_exit_pending close_at_broker
  on_resolution-Rechecked w b ticker p fallback now m (exit_filled price) h k =
      (finish_exit_pending-pending b ticker _ _ _ now ∙ h, inl k)
  on_resolution-Rechecked w b ticker p fallback now m (broker_flat price) h k =
      (finish_exit_pending-pending b ticker _ _ _ now ∙ h, inr (inl k))
  on_resolution-Rechecked w b ticker p fallback now m resubmit h (v, asked, after) =
      on_resubmitted-Rechecked w (record b { broker = (api.close ticker b.broker).0 }) ticker p
        fallback now m _ h λ settled. inr (inr (v, asked, b.broker, after, closed_lem _ settled))
  on_resolution-Rechecked w b ticker p fallback now m still h k = (
    _,
    record { reason = refl; price = refl; since = refl; checks = refl; alerted = alert_lem p now },
    ap (insert ticker _) h,
  )

  -- where the exits of `m` stand once that of `ticker` has been asked about
  abbrev pub Followed :
      B
      → String
      → String
      → ExitPending F
      → DateTime
      → Map (ExitPending F)
      → Book F B × Bool
      → Type 0
  Followed w ticker other p now m (b, true) =
      (lookup ticker b.exit_pending ≡ none)
      × (lookup other b.exit_pending ≡ lookup other m)
      × IsConfirmed api w ticker p.order_id
  Followed w ticker other p now m (b, false) =
      (p' : ExitPending F) × IsSameExit p now p'
      × (lookup ticker b.exit_pending ≡ some p')
      × (lookup other b.exit_pending ≡ lookup other m)

  Rechecked-Followed :
      (w : B) (ticker other : String) (p : ExitPending F) (now : DateTime) (m : Map (ExitPending F))
      (r : Book F B × Bool)
      → (ticker == other) ≡ false
      → Rechecked w ticker p now m r
      → Followed w ticker other p now m r
  Rechecked-Followed w ticker other p now m (b, true) h (left, shown) = (
    ap (lookup ticker) left ∙ lookup-remove ticker m,
    ap (lookup other) left ∙ lookup-remove_other ticker other m h,
    shown,
  )
  Rechecked-Followed w ticker other p now m (b, false) h (p', same, left) = (
    p',
    same,
    ap (lookup ticker) left ∙ lookup-insert ticker p' (remove ticker m),
    ap (lookup other) left
        ∙ lookup-insert_other ticker other p' (remove ticker m) h
        ∙ lookup-remove_other ticker other m h,
  )

  recheck-Rechecked :
      (b : Book F B) (ticker : String) (p : ExitPending F) (now : DateTime) (last_price : Option F)
      → Rechecked b.broker ticker p now b.exit_pending
          (recheck api b ticker now last_price (some p))
  unfolding resolve_exit_pending
  recheck-Rechecked b ticker p now last_price =
      let left = record b { exit_pending = remove ticker b.exit_pending } in
      let checked = record p { checks = (p.checks + 1) % 2 ^ 32 } in
      on_resolution-Rechecked b.broker (resolve_exit_pending api left ticker checked).0 ticker p _
        now b.exit_pending (resolve_exit_pending api left ticker checked).1 refl
        (by_order-IsResolution api b.broker ticker p.order_id)

  -- A recheck of a pending exit that says it is resolved leaves no pending exit of the ticker, and
  -- the broker has confirmed it: the exit's order is filled, or a list of positions, asked for at
  -- once or after the order, has none of the ticker, or after that list a new close was filled or met
  -- no position. One that says it is not leaves the exit pending with its reason, its price and its
  -- start, one check more (a `u32`), and the alert if it had it or has been pending for five minutes.
  -- The pending exits of the other tickers are as they were.
  pub check_exit_pending-Followed :
      (b : Book F B) (ticker other : String) (p : ExitPending F) (now : DateTime)
      (last_price : Option F)
      → (ticker == other) ≡ false
      → lookup ticker b.exit_pending ≡ some p
      → Followed b.broker ticker other p now b.exit_pending
          (check_exit_pending api b ticker now last_price)
  unfolding check_exit_pending
  check_exit_pending-Followed b ticker other p now last_price h k = rw k (
      Rechecked-Followed b.broker ticker other p now b.exit_pending
        (recheck api b ticker now last_price (some p)) h
        (recheck-Rechecked b ticker p now last_price))
