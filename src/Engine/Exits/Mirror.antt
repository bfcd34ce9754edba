-- ===== src/Engine/Exits/Mirror.antt =====
-- The score exit of crates/engine/src/tick_loop.rs, for long and for short positions.
use galactic_trading_firm.Prelude.{
  ◌≡◌, refl, sym, ap, ◌∙◌, Option, none, some, Bool, true, false, ◌&&◌, not, if◌then◌else◌,
}
use galactic_trading_firm.F64.{F64, ◌≤?◌, lit}
use galactic_trading_firm.F64.Laws.{IsSigned}
use galactic_trading_firm.Time.{Chrono}
use galactic_trading_firm.Market.{MarketState}
use galactic_trading_firm.Scores.{TimescaleScores}
use galactic_trading_firm.Action.{Position, TradeDirection, long, short, score_exit}
use galactic_trading_firm.Engine.Gates.{get_or}
use galactic_trading_firm.Engine.State.{TradingEngine}
use galactic_trading_firm.Engine.Exits.{
  fill_price, close_and_book, score_exit_hit, trend_ok, hourly_override, score_exit_stage,
}
use galactic_trading_firm.Engine.Exits.Closing.{close_and_book-eq}

module _ {F : Type 0} ⦃f : F64 F⦄ ⦃c : Chrono⦄ where
  abbrev pub negated : Option F → Option F
  negated none = none
  negated (some s) = some (f.neg s)

  -- the market seen from the other side
  abbrev pub mirrored : TimescaleScores F → TimescaleScores F
  mirrored scores = record scores {
    composite = f.neg scores.composite;
    one_hour = negated scores.one_hour;
  }

  -- the same trade from the other side: the direction is turned, the profit is the same
  abbrev pub holding : TradingEngine F → Position F → TradingEngine F
  holding e p = record e { position_manager = record { position = some p } }

  score_exit_hit_mirror :
      IsSigned F
      → (composite threshold : F)
      → score_exit_hit short composite threshold ≡ score_exit_hit long (f.neg composite) threshold
  score_exit_hit_mirror s composite threshold =
      sym (s.le-neg composite (f.neg threshold))
      ∙ ap (λ t. f.neg composite ≤? t) (s.neg_neg threshold)

  trend_ok_mirror :
      IsSigned F
      → (one_hour : Option F) (thresh : F)
      → trend_ok short (get_or one_hour (lit 0)) thresh
        ≡ trend_ok long (get_or (negated one_hour) (lit 0)) thresh
  trend_ok_mirror s none thresh = sym (s.zero-neg (f.neg thresh)) ∙ s.le-neg (lit 0) thresh
  trend_ok_mirror s (some h) thresh =
      sym (s.le-neg (f.neg thresh) h) ∙ ap (λ t. t ≤? f.neg h) (s.neg_neg thresh)

  hourly_override_mirror :
      IsSigned F
      → (limit one_hour : Option F) (p q : Position F) → p.unrealized_pnl ≡ q.unrealized_pnl
      → hourly_override limit short one_hour (some p)
        ≡ hourly_override limit long (negated one_hour) (some q)
  hourly_override_mirror s none one_hour p q same = refl
  hourly_override_mirror s (some thresh) one_hour p q same =
      rw (trend_ok_mirror s one_hour thresh, same) refl

  abbrev leaves : TradeDirection → F → F → Option F → Option F → Position F → Bool
  leaves d composite threshold limit one_hour p =
      score_exit_hit d composite threshold && not (hourly_override limit d one_hour (some p))

  leaves_mirror :
      IsSigned F
      → (composite threshold : F) (limit one_hour : Option F) (p q : Position F)
      → p.unrealized_pnl ≡ q.unrealized_pnl
      → leaves short composite threshold limit one_hour p
        ≡ leaves long (f.neg composite) threshold limit (negated one_hour) q
  leaves_mirror s composite threshold limit one_hour p q same =
      ap (λ b. b && not (hourly_override limit short one_hour (some p)))
        (score_exit_hit_mirror s composite threshold)
      ∙ ap (λ b. score_exit_hit long (f.neg composite) threshold && not b)
          (hourly_override_mirror s limit one_hour p q same)

  closes_if :
      (b : Bool) (e : TradingEngine F) (p : Position F) (market : MarketState F)
      → (if b
          then close_and_book
              (holding e p)
              (fill_price (holding e p) market)
              market.timestamp
              score_exit
          else (holding e p, false)).1
        ≡ b
  closes_if true e p market =
      ap (λ r. r.1)
        (close_and_book-eq (holding e p) p (fill_price (holding e p) market) market.timestamp
          score_exit refl)
  closes_if false e p market = refl

  -- The score exit treats both sides alike, the hourly override included: a short position leaves on
  -- the scores of a tick exactly when a long position with the same profit leaves on the opposite
  -- composite and hourly scores, with the same threshold and the same override. Where negation is
  -- that of a signed number.
  pub score_exit_stage_mirror :
      IsSigned F
      → (e : TradingEngine F) (p q : Position F) (market : MarketState F)
        (scores : TimescaleScores F)
      → p.direction ≡ short
      → q.direction ≡ long
      → p.unrealized_pnl ≡ q.unrealized_pnl
      → (score_exit_stage (holding e p) market scores).1
        ≡ (score_exit_stage (holding e q) market (mirrored scores)).1
  unfolding score_exit_stage
  score_exit_stage_mirror s e p q market scores down up same =
      let limit = e.scoring_config.hourly_exit_override in
      let threshold = e.active_score_exit_threshold in
      closes_if _ e p market
      ∙ ap (λ d. leaves d scores.composite threshold limit scores.one_hour p) down
      ∙ leaves_mirror s scores.composite threshold limit scores.one_hour p q same
      ∙ sym (
          ap (λ d. leaves d (f.neg scores.composite) threshold limit (negated scores.one_hour) q)
            up)
      ∙ sym (closes_if _ e q market)
