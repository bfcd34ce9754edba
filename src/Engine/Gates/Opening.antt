-- ===== src/Engine/Gates/Opening.antt =====
-- `entry_block_reason` of crates/engine/src/tick_loop.rs, beside the conditions for an entry.
use galactic_trading_firm.Prelude.{
  ℕ, ◌≤◌, ◌<◌, ◌≡◌, refl, ◌↔◌, Option, none, some, Bool, true, false, arith, String,
}
use galactic_trading_firm.Prelude.Int.{ℤ, pos, ◌≤ℤ◌, ◌<ℤ◌}
use galactic_trading_firm.Time.{DateTime, Chrono, eastern_minutes}
use galactic_trading_firm.Market.{MarketState}
use galactic_trading_firm.Session.{SessionConfig, no_new_entries_after_minutes}
use galactic_trading_firm.Session.Clock.{parse_hm_to_minutes}
use galactic_trading_firm.Engine.State.{TradingEngine}
use galactic_trading_firm.Engine.Gates.{
  first_of, is_before, is_early, is_late, is_cooling, session_block, entry_block_reason,
}

first_of-none :
    (b : Bool) (reason : String) (rest : Option String)
    → (first_of b reason rest ≡ none) ↔ ((b ≡ false) × (rest ≡ none))
first_of-none true reason rest = ground arith
first_of-none false reason rest = ground arith

module _ ⦃c : Chrono⦄ where
  -- The instant is at or after the end of the suppression, if there is one.
  abbrev pub SuppressionOver : Option DateTime → DateTime → Type 0
  SuppressionOver none ts = Unit
  SuppressionOver (some until) ts = until ≤ ts

  -- Enough whole minutes have passed since the open.
  abbrev pub PastOpen : ℕ → Option DateTime → DateTime → Type 0
  PastOpen minutes none ts = Unit
  PastOpen minutes (some start) ts = pos minutes ≤ℤ c.num_minutes ts start

  -- The clock in US/Eastern is before the last entry time, if that can be read.
  abbrev pub BeforeLast : Option ℕ → DateTime → Type 0
  BeforeLast none ts = Unit
  BeforeLast (some last) ts = eastern_minutes ts < last

  -- The cooldown, if there is one, has passed since the last exit.
  abbrev pub CooledDown : ℤ → Option DateTime → DateTime → Type 0
  CooledDown cooldown none ts = Unit
  CooledDown cooldown (some last_exit) ts =
      pos 0 <ℤ cooldown → cooldown ≤ℤ c.num_milliseconds ts last_exit

  is_before-false :
      (o : Option DateTime) (ts : DateTime) → (is_before ts o ≡ false) ↔ SuppressionOver o ts
  is_before-false none ts = (λ h. tt, λ h. refl)
  is_before-false (some until) ts = ground arith

  is_late-false : (o : Option ℕ) (ts : DateTime) → (is_late o ts ≡ false) ↔ BeforeLast o ts
  is_late-false none ts = (λ h. tt, λ h. refl)
  is_late-false (some last) ts = ground arith

module _ {F : Type 0} ⦃c : Chrono⦄ where
  -- The session's own rules.
  abbrev pub SessionOpen :
      Option (SessionConfig F) → Option DateTime → Option DateTime → DateTime → Type 0
  SessionOpen none start last_exit ts = Unit
  SessionOpen (some sc) start last_exit ts =
      PastOpen sc.avoid_first_minutes start ts
      × BeforeLast (parse_hm_to_minutes sc.no_new_entries_after) ts
      × CooledDown sc.entry_cooldown_ms last_exit ts

  is_early-false :
      (sc : SessionConfig F) (o : Option DateTime) (ts : DateTime)
      → (is_early sc o ts ≡ false) ↔ PastOpen sc.avoid_first_minutes o ts
  is_early-false sc none ts = (λ h. tt, λ h. refl)
  is_early-false sc (some start) ts = ground arith

  is_cooling-false :
      (sc : SessionConfig F) (o : Option DateTime) (ts : DateTime)
      → (is_cooling sc o ts ≡ false) ↔ CooledDown sc.entry_cooldown_ms o ts
  is_cooling-false sc none ts = (λ h. tt, λ h. refl)
  is_cooling-false sc (some last_exit) ts = ground arith

  session_block-none :
      (rules : Option (SessionConfig F)) (start last_exit : Option DateTime) (ts : DateTime)
      → (session_block rules start last_exit ts ≡ none) ↔ SessionOpen rules start last_exit ts
  session_block-none none start last_exit ts = (λ h. tt, λ h. refl)
  session_block-none (some sc) start last_exit ts = ground (
    arith,
    first_of-none (is_early sc start ts),
    is_early-false sc start ts,
    is_late-false (no_new_entries_after_minutes sc) ts,
    is_cooling-false sc last_exit ts,
  )

  -- The gates let an entry through exactly if the caller does not block entries, the daily loss
  -- breaker has not tripped, the instant is not before the end of a suppression, and the session's
  -- rules allow it: as many whole minutes since the open as are to be avoided, a clock in US/Eastern
  -- before the last entry time, and a cooldown, if it is above 0, that has passed since the last
  -- exit. A rule whose instant or time is missing allows it.
  pub entry_block_reason-none :
      (e : TradingEngine F) (market : MarketState F)
      → (entry_block_reason e market ≡ none) ↔ (
          (market.entries_blocked ≡ false)
          × (e.daily_loss_breaker_active ≡ false)
          × SuppressionOver e.entries_suppressed_until market.timestamp
          × SessionOpen e.session_config e.session_start_time e.last_exit_time market.timestamp)
  unfolding entry_block_reason
  entry_block_reason-none e market = ground (
    arith,
    first_of-none market.entries_blocked,
    first_of-none e.daily_loss_breaker_active,
    first_of-none (is_before market.timestamp e.entries_suppressed_until),
    is_before-false e.entries_suppressed_until market.timestamp,
    session_block-none e.session_config e.session_start_time e.last_exit_time market.timestamp,
  )
