-- ===== src/Engine/Exits/Priority.antt =====
-- The force exit of crates/engine/src/tick_loop.rs, before the other exit stages.
use galactic_trading_firm.Prelude.{
  ℕ, ◌≤◌, ◌≡◌, refl, ap, ◌∙◌, ◌⊎◌, inl, inr, none, some, true, leb, arith,
}
use galactic_trading_firm.F64.{F64}
use galactic_trading_firm.Time.{DateTime, Chrono, eastern_minutes}
use galactic_trading_firm.Market.{MarketState}
use galactic_trading_firm.Scores.{TimescaleScores}
use galactic_trading_firm.Session.{SessionConfig}
use galactic_trading_firm.Session.Clock.{parse_hm_to_minutes}
use galactic_trading_firm.Action.{Position, session_close}
use galactic_trading_firm.Engine.State.{TradingEngine}
use galactic_trading_firm.Engine.Exits.{
  fill_price, clock_exit, manage_position, is_due, exit_cutoff, session_cutoff,
}
use galactic_trading_firm.Engine.Exits.Booked.{IsBookedFor, book_exit-IsBookedFor}
use galactic_trading_firm.Engine.Exits.Closing.{close_and_book-eq}

leb_of_le : (m n : ℕ) → m ≤ n → leb m n ≡ true
leb_of_le m n h = ground arith

module _ {F : Type 0} ⦃f : F64 F⦄ ⦃c : Chrono⦄ where
  -- The minute of the day at which positions are forced out: that of the entry's window if it set
  -- one, and else the session's setting.
  abbrev pub IsCutoff : TradingEngine F → ℕ → Type 0
  IsCutoff e m =
      (e.active_force_exit_minutes ≡ some m)
      ⊎ ((e.active_force_exit_minutes ≡ none)
          × ((sc : SessionConfig F) × (e.session_config ≡ some sc)
              × (parse_hm_to_minutes sc.force_exit_by ≡ some m)))

  exit_cutoff-eq : (e : TradingEngine F) (m : ℕ) → IsCutoff e m → exit_cutoff e ≡ some m
  exit_cutoff-eq e m (inl own) = rw own refl
  exit_cutoff-eq e m (inr (no_own, (sc, rules, setting))) =
      rw no_own (ap (session_cutoff {F = F}) rules ∙ setting)

  due_lem :
      (e : TradingEngine F) (m : ℕ) (ts : DateTime)
      → IsCutoff e m
      → m ≤ eastern_minutes ts
      → is_due (exit_cutoff e) ts ≡ true
  due_lem e m ts h k =
      ap (λ o. is_due o ts) (exit_cutoff-eq e m h) ∙ leb_of_le m (eastern_minutes ts) k

  -- From the minute of the cutoff on, in US/Eastern, an open position is closed at the fill price as
  -- a session close, booked in full, whatever the scores, the monitor actions and the exit actions
  -- say. The cutoff is that of the entry window if it set one, and else that of the session.
  pub manage_position-is_due :
      (e : TradingEngine F) (p : Position F) (market : MarketState F) (scores : TimescaleScores F)
      (m : ℕ)
      → e.position_manager.position ≡ some p
      → IsCutoff e m
      → m ≤ eastern_minutes market.timestamp
      → let (e', closed) = manage_position e market scores in
        (closed ≡ true) × IsBookedFor session_close e p (fill_price e market) market.timestamp e'
  unfolding manage_position clock_exit
  manage_position-is_due e p market scores m open_in cutoff late =
      rw
        (
          due_lem e m market.timestamp cutoff late,
          close_and_book-eq e p (fill_price e market) market.timestamp session_close open_in,
        )
        (refl, book_exit-IsBookedFor e p (fill_price e market) market.timestamp session_close)
