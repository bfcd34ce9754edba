-- ===== src/Actions/Exit/Cutoff.antt =====
-- The session close action (crates/actions/src/exit/session_close.rs) beside the force exit of
-- crates/engine/src/tick_loop.rs.
use Prim.Native.String.{String}
use galactic_trading_firm.Prelude.{
  ℕ, ◌≡◌, refl, ap, Option, none, some, List, [], ◌∷◌, if◌then◌else◌,
}
use galactic_trading_firm.Time.{Chrono, eastern_minutes}
use galactic_trading_firm.Market.{MarketState}
use galactic_trading_firm.Action.{hold, exit, Position, session_close}
use galactic_trading_firm.Session.Clock.{
  codes, split, parse_u32, parse_hm_to_minutes, two_parts, minutes_of,
}
use galactic_trading_firm.Engine.Exits.{is_due}
use galactic_trading_firm.Actions.Exit.{
  both, hm_parts, hour_and_minute, is_reached, evaluate_session_close,
}

module _ ⦃c : Chrono⦄ where
  reached_both :
      (h m : Option ℕ) (ts : ℕ)
      → is_reached (both h m) (eastern_minutes ts) ≡ is_due (minutes_of h m) ts
  reached_both none m ts = refl
  reached_both (some h) none ts = refl
  reached_both (some h) (some m) ts = refl

  reached_parts :
      (parts : List (List ℕ)) (ts : ℕ)
      → is_reached (hm_parts parts) (eastern_minutes ts) ≡ is_due (two_parts parts) ts
  reached_parts [] ts = refl
  reached_parts (a ∷ []) ts = refl
  reached_parts (a ∷ b ∷ []) ts = reached_both (parse_u32 a) (parse_u32 b) ts
  reached_parts (a ∷ b ∷ d ∷ rest) ts = refl

  -- On an open position the session close action exits exactly when the engine's force exit, read
  -- from the same setting, is due, whatever the text of the setting.
  pub evaluate_session_close-is_due :
      {F : Type 0} (force_exit_by : String) (p : Position F) (market : MarketState F)
      → evaluate_session_close force_exit_by (some p) market ≡ (
          if is_due (parse_hm_to_minutes force_exit_by) market.timestamp
          then exit session_close
          else hold)
  unfolding evaluate_session_close hour_and_minute parse_hm_to_minutes
  evaluate_session_close-is_due force_exit_by p market =
      ap (λ b. if b then exit session_close else hold)
        (reached_parts (split b':' (codes force_exit_by)) market.timestamp)
