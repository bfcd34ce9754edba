-- ===== src/Actions/Entry.antt =====
-- crates/actions/src/entry/entry_window.rs and entry_reject_gate.rs: the actions that open or bar
-- an entry when their conditions are met.
pub mod Diagnosis
use Prim.Native.String.{◌++◌ as append_str}
use galactic_trading_firm.Prelude.{
  ℕ, Option, none, some, Bool, true, false, List, [], ◌∷◌, String, if◌then◌else◌, ◌&&◌, ◌||◌, not,
  leb, ltb,
}
use galactic_trading_firm.Prelude.Maps.{Map}
use galactic_trading_firm.F64.{F64, lit}
use galactic_trading_firm.Time.{DateTime, Chrono, eastern_minutes}
use galactic_trading_firm.Market.{MarketState}
use galactic_trading_firm.Scores.{TimescaleScores}
use galactic_trading_firm.Action.{
  ActionSignal, hold, enter, reject_entry, Position, TradeDirection, Action, ActionPhase, returned,
}
use galactic_trading_firm.Engine.Position.{is_some}
use galactic_trading_firm.Engine.Tick.{join}
use galactic_trading_firm.Actions.Conditions.{
  WindowCondition, composite_min, composite_max, evaluate_condition, all_conditions_met,
  failing_conditions,
}

pub record EntryWindowAction (F : Type 0) : Type 0 where
  pub name : String
  pub conditions : List (WindowCondition F)
  pub direction : TradeDirection
  pub entry_after : Option ℕ
  pub entry_before : Option ℕ

pub record EntryRejectGateAction (F : Type 0) : Type 0 where
  pub name : String
  pub conditions : List (WindowCondition F)

-- `is_none_or(|a| now >= a)` and `is_none_or(|b| now < b)`
abbrev pub is_after : Option ℕ → ℕ → Bool
is_after none now = true
is_after (some a) now = leb a now

abbrev pub is_until : Option ℕ → ℕ → Bool
is_until none now = true
is_until (some b) now = ltb now b

abbrev pub is_composite : {F : Type 0} → WindowCondition F → Bool
is_composite (composite_min low) = true
is_composite (composite_max high) = true
is_composite _ = false

abbrev pub report_of : String → List String → Option String
report_of name [] = none
report_of name (s ∷ rest) = some (append_str name (append_str ": " (join ", " (s ∷ rest))))

module _ {F : Type 0} ⦃c : Chrono⦄ where
  unfoldable pub clock_open : EntryWindowAction F → DateTime → Bool
  clock_open w ts =
      if not (is_some w.entry_after) && not (is_some w.entry_before)
      then true
      else is_after w.entry_after (eastern_minutes ts)
        && is_until w.entry_before (eastern_minutes ts)

module _ {F : Type 0} ⦃f : F64 F⦄ where
  -- the bounds on the composite are met
  unfoldable pub composite_ok :
      List (WindowCondition F) → TimescaleScores F → Option (Map (Option F)) → Bool
  composite_ok [] scores outputs = true
  composite_ok (x ∷ rest) scores outputs =
      (if is_composite x then evaluate_condition x scores outputs else true)
      && composite_ok rest scores outputs

  unfoldable pub evaluate_reject_gate :
      EntryRejectGateAction F
      → Option (Position F)
      → MarketState F
      → TimescaleScores F
      → ActionSignal F
  evaluate_reject_gate g position market scores =
      if is_some position
      then hold
      else if all_conditions_met g.conditions scores scores.indicator_scores
      then reject_entry
      else hold

module _ {F : Type 0} ⦃f : F64 F⦄ ⦃c : Chrono⦄ where
  unfoldable pub evaluate_window :
      EntryWindowAction F → Option (Position F) → MarketState F → TimescaleScores F → ActionSignal F
  evaluate_window w position market scores =
      if is_some position || not (clock_open w market.timestamp)
      then hold
      else if all_conditions_met w.conditions scores scores.indicator_scores
      then enter w.direction (lit 1) (append_str "window:" w.name)
      else hold

  unfoldable pub diagnose_window :
      (F → String) → EntryWindowAction F → MarketState F → TimescaleScores F → Option String
  diagnose_window show w market scores =
      if not (clock_open w market.timestamp)
      then none
      else if not (composite_ok w.conditions scores scores.indicator_scores)
      then none
      else report_of w.name (failing_conditions show w.conditions scores scores.indicator_scores)

  -- the window as an action of the engine
  abbrev pub entry_window : (F → String) → EntryWindowAction F → Action F
  entry_window show w = record {
    name = w.name;
    phase = ActionPhase.entry;
    evaluate = λ position market scores. returned (evaluate_window w position market scores);
    diagnose = λ market scores. returned (diagnose_window show w market scores);
  }
