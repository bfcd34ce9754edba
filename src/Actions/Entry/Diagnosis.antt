-- ===== src/Actions/Entry/Diagnosis.antt =====
-- `evaluate` and `diagnose` of crates/actions/src/entry/entry_window.rs together.
use Prim.Native.String.{◌++◌ as append_str}
use galactic_trading_firm.Prelude.{
  ℕ, ◌≤◌, ◌<◌, ◌≡◌, refl, ap, Option, none, some, Bool, true, false, List, [], ◌∷◌, ◌⊎◌, inl, inr,
  String, not, ◌&&◌, if◌then◌else◌, leb, ltb, arith,
}
use galactic_trading_firm.Prelude.Decides.{Decides, both_lem, equal_lem, leb_lem, ltb_lem}
use galactic_trading_firm.Prelude.Maps.{Map}
use galactic_trading_firm.F64.{F64, ◌≤?◌, lit}
use galactic_trading_firm.Time.{DateTime, Chrono, eastern_minutes}
use galactic_trading_firm.Market.{MarketState}
use galactic_trading_firm.Scores.{TimescaleScores}
use galactic_trading_firm.Action.{ActionSignal, hold, enter}
use galactic_trading_firm.Engine.Position.{is_some}
use galactic_trading_firm.Actions.Conditions.{
  WindowCondition, composite_min, composite_max, all_conditions_met, failing_conditions,
  evaluate_condition, describe,
}
use galactic_trading_firm.Actions.Entry.{
  EntryWindowAction, clock_open, composite_ok, evaluate_window, diagnose_window, report_of,
  is_after, is_until, is_composite,
}

-- not before the start of a window, and before its end, where it has them
abbrev pub NotBefore : Option ℕ → ℕ → Type 0
NotBefore none now = Unit
NotBefore (some a) now = a ≤ now

abbrev pub NotPast : Option ℕ → ℕ → Type 0
NotPast none now = Unit
NotPast (some b) now = now < b

clock_lem :
    (after before : Option ℕ) (now : ℕ)
    → Decides
        (if not (is_some after) && not (is_some before)
          then true
          else is_after after now && is_until before now)
        (NotBefore after now × NotPast before now)
clock_lem none none now = (tt, tt)
clock_lem none (some b) now = both_lem true (ltb now b) Unit (now < b) tt (ltb_lem now b)
clock_lem (some a) none now = both_lem (leb a now) true (a ≤ now) Unit (leb_lem a now) tt
clock_lem (some a) (some b) now =
    both_lem (leb a now) (ltb now b) (a ≤ now) (now < b) (leb_lem a now) (ltb_lem now b)

first_met :
    (is_bound met rest_met rest_bounds : Bool)
    → (met && rest_met) ≡ true
    → (rest_met ≡ true → rest_bounds ≡ true)
    → ((if is_bound then met else true) && rest_bounds) ≡ true
first_met is_bound met rest_met rest_bounds h k = ground (arith, k)

module _ {F : Type 0} ⦃f : F64 F⦄ (show : F → String) where
  -- Nothing fails exactly if all conditions are met.
  abbrev IsReported : Bool → List String → Type 0
  IsReported true failing = failing ≡ []
  IsReported false failing = (text : String) × (rest : List String) × (failing ≡ text ∷ rest)

  one_more :
      (b met : Bool) (text : String) (failing : List String)
      → IsReported met failing
      → IsReported (b && met) (if b then failing else text ∷ failing)
  one_more true met text failing h = h
  one_more false met text failing h = (text, failing, refl)

  failing_conditions-IsReported :
      (conditions : List (WindowCondition F)) (scores : TimescaleScores F)
      (outputs : Option (Map (Option F)))
      → IsReported
          (all_conditions_met conditions scores outputs)
          (failing_conditions show conditions scores outputs)
  unfolding all_conditions_met failing_conditions
  failing_conditions-IsReported [] scores outputs = refl
  failing_conditions-IsReported (x ∷ rest) scores outputs =
      one_more (evaluate_condition x scores outputs) (all_conditions_met rest scores outputs)
        (describe show x scores outputs) (failing_conditions show rest scores outputs)
        (failing_conditions-IsReported rest scores outputs)

module _ {F : Type 0} ⦃f : F64 F⦄ ⦃c : Chrono⦄ where
  -- the clock in US/Eastern is inside the window, whose ends may be missing
  abbrev pub InWindow : EntryWindowAction F → DateTime → Type 0
  InWindow w ts =
      NotBefore w.entry_after (eastern_minutes ts) × NotPast w.entry_before (eastern_minutes ts)

  abbrev pub AllMet : List (WindowCondition F) → TimescaleScores F → Type 0
  AllMet [] scores = Unit
  AllMet (x ∷ rest) scores =
      (evaluate_condition x scores scores.indicator_scores ≡ true) × AllMet rest scores

  -- the bounds on the composite among the conditions
  abbrev pub CompositeMet : List (WindowCondition F) → TimescaleScores F → Type 0
  CompositeMet [] scores = Unit
  CompositeMet (composite_min low ∷ rest) scores =
      ((low ≤? scores.composite) ≡ true) × CompositeMet rest scores
  CompositeMet (composite_max high ∷ rest) scores =
      ((scores.composite ≤? high) ≡ true) × CompositeMet rest scores
  CompositeMet (_ ∷ rest) scores = CompositeMet rest scores

  -- the outcomes of a window for a flat engine
  abbrev pub Outcome :
      EntryWindowAction F
      → MarketState F
      → TimescaleScores F
      → ActionSignal F
      → Option String
      → Type 0
  Outcome w market scores signal report =
      (InWindow w market.timestamp
        × AllMet w.conditions scores
        × (signal ≡ enter w.direction (lit 1) (append_str "window:" w.name))
        × (report ≡ none))
      ⊎ (((InWindow w market.timestamp → CompositeMet w.conditions scores → ⊥)
            × (signal ≡ hold)
            × (report ≡ none))
          ⊎ (InWindow w market.timestamp
              × CompositeMet w.conditions scores
              × (AllMet w.conditions scores → ⊥)
              × (signal ≡ hold)
              × ((text : String) × (report ≡ some text))))

  met_lem :
      (conditions : List (WindowCondition F)) (scores : TimescaleScores F)
      → Decides
          (all_conditions_met conditions scores scores.indicator_scores)
          (AllMet conditions scores)
  unfolding all_conditions_met
  met_lem [] scores = tt
  met_lem (x ∷ rest) scores =
      both_lem (evaluate_condition x scores scores.indicator_scores) _ _ _
        (equal_lem (evaluate_condition x scores scores.indicator_scores)) (met_lem rest scores)

  composite_lem :
      (conditions : List (WindowCondition F)) (scores : TimescaleScores F)
      → Decides
          (composite_ok conditions scores scores.indicator_scores)
          (CompositeMet conditions scores)
  unfolding composite_ok evaluate_condition
  composite_lem [] scores = tt
  composite_lem (composite_min low ∷ rest) scores =
      both_lem (low ≤? scores.composite) _ _ _ (equal_lem (low ≤? scores.composite))
        (composite_lem rest scores)
  composite_lem (composite_max high ∷ rest) scores =
      both_lem (scores.composite ≤? high) _ _ _ (equal_lem (scores.composite ≤? high))
        (composite_lem rest scores)
  composite_lem (_ ∷ rest) scores = composite_lem rest scores

module _ {F : Type 0} ⦃f : F64 F⦄ ⦃c : Chrono⦄ (show : F → String) where
  judged :
      (w : EntryWindowAction F) (market : MarketState F) (scores : TimescaleScores F)
      (clock met composite : Bool) (failing : List String)
      → Decides clock (InWindow w market.timestamp)
      → Decides met (AllMet w.conditions scores)
      → Decides composite (CompositeMet w.conditions scores)
      → IsReported show met failing
      → (met ≡ true → composite ≡ true)
      → Outcome w market scores
          (if not clock
            then hold
            else if met
            then enter w.direction (lit 1) (append_str "window:" w.name)
            else hold)
          (if not clock then none else if not composite then none else report_of w.name failing)
  judged w market scores false met composite failing k m o h i = inr (inl (λ x y. k x, refl, refl))
  judged w market scores true true false failing k m o h i = cc (i refl)
  judged w market scores true true true failing k m o h i = inl (k, m, refl, rw h refl)
  judged w market scores true false false failing k m o h i = inr (inl (λ x y. o y, refl, refl))
  judged w market scores true false true failing k m o h i =
      inr (inr (k, o, m, refl, (_, ap (report_of w.name) h.2)))

  -- the composite bounds are among the conditions
  composite_ok_of_met :
      (conditions : List (WindowCondition F)) (scores : TimescaleScores F)
      (outputs : Option (Map (Option F)))
      → all_conditions_met conditions scores outputs ≡ true
      → composite_ok conditions scores outputs ≡ true
  unfolding all_conditions_met composite_ok
  composite_ok_of_met [] scores outputs h = refl
  composite_ok_of_met (x ∷ rest) scores outputs h =
      first_met (is_composite x) (evaluate_condition x scores outputs)
        (all_conditions_met rest scores outputs) (composite_ok rest scores outputs) h
        (composite_ok_of_met rest scores outputs)

  -- For a flat engine an entry window does one of three things. While the clock in US/Eastern is
  -- inside it and all its conditions are met, it enters in its direction and reports nothing. While
  -- the clock is outside it or one of its bounds on the composite is not met, it holds and reports
  -- nothing. While the clock is inside it and those bounds are met, but not all conditions, it holds
  -- and reports a text.
  pub evaluate_window-Outcome :
      (w : EntryWindowAction F) (market : MarketState F) (scores : TimescaleScores F)
      → Outcome w market scores
          (evaluate_window w none market scores)
          (diagnose_window show w market scores)
  unfolding evaluate_window diagnose_window clock_open
  evaluate_window-Outcome w market scores =
      judged w market scores _ _ _ _
        (clock_lem w.entry_after w.entry_before (eastern_minutes market.timestamp))
        (met_lem w.conditions scores) (composite_lem w.conditions scores)
        (failing_conditions-IsReported show w.conditions scores scores.indicator_scores)
        (composite_ok_of_met w.conditions scores scores.indicator_scores)
