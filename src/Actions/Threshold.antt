-- ===== src/Actions/Threshold.antt =====
-- crates/actions/src/entry/score_threshold.rs. `show n x` is the text of `{:.n}`.
use Prim.Native.String.{◌++◌ as append_str}
use galactic_trading_firm.Prelude.{ℕ, Option, String, if◌then◌else◌}
use galactic_trading_firm.F64.{F64, ◌≤?◌, lit}
use galactic_trading_firm.Scores.{TimescaleScores}
use galactic_trading_firm.Action.{ActionSignal, hold, enter, Position, long, short}
use galactic_trading_firm.Engine.Position.{is_some}

pub record ScoreThresholdEntry (F : Type 0) : Type 0 where
  pub entry_threshold : F
  pub short_threshold : F

abbrev compared : String → String → String → String
compared a sign b = append_str "composite " (append_str a (append_str sign b))

module _ {F : Type 0} ⦃f : F64 F⦄ where
  unfoldable pub evaluate_score_threshold :
      (ℕ → F → String)
      → ScoreThresholdEntry F
      → Option (Position F)
      → TimescaleScores F
      → ActionSignal F
  evaluate_score_threshold show s position scores =
      if is_some position
      then hold
      else if s.entry_threshold ≤? scores.composite
      then enter long (lit 1) (compared (show 3 scores.composite) " >= " (show 3 s.entry_threshold))
      else if scores.composite ≤? s.short_threshold
      then enter short (lit 1)
          (compared (show 3 scores.composite) " <= " (show 3 s.short_threshold))
      else hold
