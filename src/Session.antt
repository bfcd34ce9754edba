-- ===== src/Session.antt =====
-- crates/types/src/config.rs: the session rules of a strategy.
pub mod Clock
use galactic_trading_firm.Prelude.{ℕ, Option, String}
use galactic_trading_firm.Prelude.Int.{ℤ}
use Clock.{parse_hm_to_minutes}

pub record SessionConfig (F : Type 0) : Type 0 where
  pub no_new_entries_after : String
  pub force_exit_by : String
  pub avoid_first_minutes : ℕ
  pub max_concurrent_positions : ℕ
  pub max_capital_deployed_pct : F
  pub entry_cooldown_ms : ℤ
  pub max_daily_loss_pct : Option F
  pub max_position_pct : Option F
  pub warmup_days : Option ℕ

module _ {F : Type 0} where
  abbrev pub no_new_entries_after_minutes : SessionConfig F → Option ℕ
  no_new_entries_after_minutes sc = parse_hm_to_minutes sc.no_new_entries_after

  abbrev pub force_exit_by_minutes : SessionConfig F → Option ℕ
  force_exit_by_minutes sc = parse_hm_to_minutes sc.force_exit_by
