-- ===== src/Engine/Scoring/Floor.antt =====
-- The minimum aggregation of crates/engine/src/scoring.rs.
use galactic_trading_firm.Prelude.{
  ◌≡◌, refl, sym, ap, ◌∙◌, subst, Option, none, some, Bool, true, false, List, [], ◌∷◌, ◌⊎◌, inl,
  inr, not, Bool-cases, if◌then◌else◌,
}
use galactic_trading_firm.Prelude.Maps.{Map, lookup}
use galactic_trading_firm.Prelude.Decides.{Decides, both_lem}
use galactic_trading_firm.F64.{F64, ◌<?◌, ◌≤?◌, min, lit, IsNumber}
use galactic_trading_firm.F64.Laws.{IsOrdered}
use galactic_trading_firm.F64.Order.{min-le, min-le_right, min-cases, first_extreme}
use galactic_trading_firm.Scores.{
  TimescaleScores, ScoringConfig, AgreementConfig, AggregationMethod,
}
use galactic_trading_firm.Engine.Outputs.{score_of}
use galactic_trading_firm.Engine.Scoring.{
  available, fold_min, min_of_found, min_score, raw_composite_by, gate_fails_in, with_agreement,
  is_below, indicator_gate_fails, compute_composite_with_indicators,
}

module _ {F : Type 0} ⦃f : F64 F⦄ where
  abbrev pub AllBelow : List F → F → Type 0
  AllBelow [] top = Unit
  AllBelow (x ∷ xs) top = ((x ≤? top) ≡ true) × AllBelow xs top

  abbrev pub AllAbove : F → List F → Type 0
  AllAbove bottom [] = Unit
  AllAbove bottom (x ∷ xs) = ((bottom ≤? x) ≡ true) × AllAbove bottom xs

  abbrev pub IsIn : F → List F → Type 0
  IsIn a [] = ⊥
  IsIn a (x ∷ xs) = (a ≡ x) ⊎ IsIn a xs

  -- the minimum of what was found, or zero when nothing was
  abbrev pub IsFloor : F → List F → Type 0
  IsFloor score [] = score ≡ lit 0
  IsFloor score (x ∷ xs) = AllAbove score (x ∷ xs) × ((score ≡ f.infinity) ⊎ IsIn score (x ∷ xs))

  -- an indicator's score, where there is one, is not below its minimum
  abbrev pub Passes : Option F → F → Type 0
  Passes none low = Unit
  Passes (some s) low = (s <? low) ≡ false

  abbrev pub AllPass : Map F → Map (Option F) → Type 0
  AllPass [] outputs = Unit
  AllPass ((id, low) ∷ rest) outputs =
      Passes (score_of (lookup id outputs)) low × AllPass rest outputs

  abbrev pub GatesPass : Map F → Option (Map (Option F)) → Type 0
  GatesPass gates none = Unit
  GatesPass gates (some outputs) = AllPass gates outputs

  -- the minimum where the gates pass, else zero
  abbrev pub Gated : Type 0 → F → List F → Type 0
  Gated P score found = (P → IsFloor score found) × ((P → ⊥) → score ≡ lit 0)

  is_below-false : (o : Option F) (low : F) → is_below o low ≡ false → Passes o low
  is_below-false none low h = tt
  is_below-false (some s) low h = h

  is_below-true : (o : Option F) (low : F) → is_below o low ≡ true → Passes o low → ⊥
  is_below-true none low h = cc
  is_below-true (some s) low h = λ k. cc

  all_lem :
      (gates : Map F) (outputs : Map (Option F))
      → Decides (not (indicator_gate_fails gates outputs)) (AllPass gates outputs)
  unfolding indicator_gate_fails
  all_lem [] outputs = tt
  all_lem ((id, low) ∷ rest) outputs =
      let o = score_of (lookup id outputs) in
      elim (Bool-cases (is_below o low)) [
        | inl e ↦ rw e (λ h. is_below-true o low e h.0)
        | inr e ↦ rw e (
            both_lem true (not (indicator_gate_fails rest outputs)) (Passes o low) _
              (is_below-false o low e) (all_lem rest outputs))
      ]

  gates_lem :
      (gates : Map F) (outputs : Option (Map (Option F)))
      → Decides (not (gate_fails_in gates outputs)) (GatesPass gates outputs)
  gates_lem gates none = tt
  gates_lem gates (some outputs) = all_lem gates outputs

  module _ (o : IsOrdered F) where
    folded :
        (xs : List F) (top acc : F)
        → IsNumber acc
        → AllBelow xs top
        → ((fold_min acc xs ≤? acc) ≡ true)
          × AllAbove (fold_min acc xs) xs
          × ((fold_min acc xs ≡ acc) ⊎ IsIn (fold_min acc xs) xs)
    unfolding fold_min
    folded [] top acc number below = (number, tt, inl refl)
    folded (x ∷ xs) top acc number below =
        let down = min-le o acc x number in
        let right = min-le_right o acc x number (o.number_of_le x top below.0).0 in
        let later = folded xs top (min acc x) (o.number_of_le _ _ down).0 below.1 in
        (
          o.le_trans _ _ _ later.0 down,
          (o.le_trans _ _ _ later.0 right, later.1),
          first_extreme _ _ acc x (min-cases acc x) later.2,
        )

    min_of_found-IsFloor :
        (found : List F)
        → IsNumber f.infinity
        → AllBelow found f.infinity
        → IsFloor (min_of_found found) found
    min_of_found-IsFloor [] number below = refl
    min_of_found-IsFloor (x ∷ xs) number below =
        let bounds = folded (x ∷ xs) f.infinity f.infinity number below in (bounds.1, bounds.2)

    -- the agreement between the timescales has no part in the composite
    abbrev pub NoAgreement : Option (AgreementConfig F) → Type 0
    NoAgreement none = Unit
    NoAgreement (some ac) = ac.enabled ≡ false

    unagreed :
        (o : Option (AgreementConfig F)) (scores : TimescaleScores F) (config : ScoringConfig F)
        (raw : F)
        → NoAgreement o
        → with_agreement o scores config raw ≡ raw
    unagreed none scores config raw h = refl
    unagreed (some ac) scores config raw h = rw h refl

    gated :
        (b : Bool) (P : Type 0) (score : F) (found : List F)
        → Decides (not b) P
        → IsFloor score found
        → Gated P (if b then lit 0 else score) found
    gated true P score found fails h = (λ p. absurd (fails p), λ n. refl)
    gated false P score found passes h = (λ p. h, λ n. absurd (n passes))

    -- Under the minimum aggregation, with the agreement between timescales switched off: where an
    -- indicator with a minimum is below it the composite is zero. Elsewhere the composite is at most
    -- every timescale score that is there and has a weight, and is one of them (or infinity), and
    -- it is zero when there is none. The scores are numbers and infinity is the largest, in the
    -- order of floating-point numbers.
    pub compute_composite_with_indicators-IsFloor :
        (scores : TimescaleScores F) (config : ScoringConfig F) (outputs : Option (Map (Option F)))
        → IsNumber f.infinity
        → AllBelow (available scores config.timescale_weights) f.infinity
        → config.aggregation ≡ AggregationMethod.min_score
        → NoAgreement config.agreement
        → Gated
            (GatesPass config.hard_gate_indicators outputs)
            (compute_composite_with_indicators scores config outputs).composite
            (available scores config.timescale_weights)
    unfolding min_score compute_composite_with_indicators
    compute_composite_with_indicators-IsFloor scores config outputs number below least off =
        let found = available scores config.timescale_weights in
        let raw = raw_composite_by config.aggregation scores config outputs in
        subst
          (λ x.
            Gated (GatesPass config.hard_gate_indicators outputs)
              (if gate_fails_in config.hard_gate_indicators outputs then lit 0 else x) found)
          (sym (
            unagreed config.agreement scores config raw off
            ∙ ap (λ m. raw_composite_by m scores config outputs) least))
          (gated (gate_fails_in config.hard_gate_indicators outputs) _ (min_score scores config)
            found (gates_lem config.hard_gate_indicators outputs)
            (min_of_found-IsFloor found number below))
