-- ===== src/Engine/Exits/Ratchet.antt =====
-- The loop over the monitor actions of crates/engine/src/tick_loop.rs, on a stop that is set.
use galactic_trading_firm.Prelude.{◌≡◌, Option, none, some, true, List, [], ◌∷◌}
use galactic_trading_firm.F64.{F64, ◌≤?◌, IsNumber}
use galactic_trading_firm.F64.Laws.{IsOrdered}
use galactic_trading_firm.F64.Order.{max-le, min-le}
use galactic_trading_firm.Time.{Chrono}
use galactic_trading_firm.Market.{MarketState}
use galactic_trading_firm.Scores.{TimescaleScores}
use galactic_trading_firm.Action.{
  Action, ActionSignal, hold, enter, exit, modify_stop, scale_position, reject_entry, Position,
  TradeDirection, long, short,
}
use galactic_trading_firm.Engine.Exits.{tightened, apply_monitor, evaluate_guarded, run_monitors}

module _ {F : Type 0} ⦃f : F64 F⦄ ⦃c : Chrono⦄ (o : IsOrdered F) where
  -- a stop that protects at least as much as another, for each direction
  abbrev pub IsAsTight : TradeDirection → F → F → Type 0
  IsAsTight long stop stop' = (stop ≤? stop') ≡ true
  IsAsTight short stop stop' = (stop' ≤? stop) ≡ true

  IsNumber-right : (d : TradeDirection) (s s' : F) → IsAsTight d s s' → IsNumber s'
  IsNumber-right long s s' h = (o.number_of_le s s' h).1
  IsNumber-right short s s' h = (o.number_of_le s' s h).0

  tight_trans :
      (d : TradeDirection) (s s' s2 : F) → IsAsTight d s s' → IsAsTight d s' s2 → IsAsTight d s s2
  tight_trans long s s' s2 h k = o.le_trans s s' s2 h k
  tight_trans short s s' s2 h k = o.le_trans s2 s' s k h

  tight_refl : (d : TradeDirection) (s : F) → IsNumber s → IsAsTight d s s
  tight_refl long s h = h
  tight_refl short s h = h

  tightened-IsAsTight :
      (d : TradeDirection) (cur stop : F)
      → IsNumber cur
      → IsAsTight d cur (tightened (some cur) d stop)
  tightened-IsAsTight long cur stop h = max-le o cur stop h
  tightened-IsAsTight short cur stop h = min-le o cur stop h

  -- what the loop leaves of a stop that was set
  abbrev pub StillStopped : TradeDirection → F → Option F → Type 0
  StillStopped d s none = ⊥
  StillStopped d s (some s') = IsAsTight d s s'

  step-StillStopped :
      (d : TradeDirection) (cur : F) (signal : ActionSignal F)
      → IsNumber cur
      → StillStopped d cur (apply_monitor signal d (some cur))
  step-StillStopped d cur (modify_stop stop) h = tightened-IsAsTight d cur stop h
  step-StillStopped d cur hold h = tight_refl d cur h
  step-StillStopped d cur (enter direction fraction reason) h = tight_refl d cur h
  step-StillStopped d cur (exit reason) h = tight_refl d cur h
  step-StillStopped d cur (scale_position delta reason) h = tight_refl d cur h
  step-StillStopped d cur reject_entry h = tight_refl d cur h

  module _ (position : Option (Position F)) (market : MarketState F)
      (scores : TimescaleScores F) where
    StillStopped-trans :
        (d : TradeDirection) (s s' : F) (o' : Option F)
        → IsAsTight d s s'
        → StillStopped d s' o'
        → StillStopped d s o'
    StillStopped-trans d s s' none h k = elim k [ ]
    StillStopped-trans d s s' (some s2) h k = tight_trans d s s' s2 h k

    after_step :
        (actions : List (Action F)) (d : TradeDirection) (s : F) (next : Option F)
        → StillStopped d s next
        → ((s' : F)
            → IsNumber s'
            → StillStopped d s' (run_monitors actions position market scores d (some s')))
        → StillStopped d s (run_monitors actions position market scores d next)
    after_step actions d s none h ih = elim h [ ]
    after_step actions d s (some s') h ih =
        StillStopped-trans d s s' _ h (ih s' (IsNumber-right d s s' h))

    -- A stop that is set is never loosened or removed by the monitor actions, however many they are
    -- and whatever they ask for (NaN included): of a long position it only rises, of a short one it
    -- only falls. The stop must be a number, and the order that of floating-point numbers.
    pub run_monitors-StillStopped :
        (actions : List (Action F)) (d : TradeDirection) (s : F)
        → IsNumber s
        → StillStopped d s (run_monitors actions position market scores d (some s))
    unfolding run_monitors
    run_monitors-StillStopped [] d s h = tight_refl d s h
    run_monitors-StillStopped (a ∷ actions) d s h =
        after_step actions d s _
          (step-StillStopped d s (evaluate_guarded a position market scores) h)
          (run_monitors-StillStopped actions d)
