-- ===== src/Actions/Exit.antt =====
-- crates/actions/src/exit/session_close.rs, fixed_pct_stop.rs, profit_trailing_stop.rs and
-- vwap_stop.rs, and crates/actions/src/monitor/breakeven_stop.rs: actions on an open position.
pub mod Cutoff
pub mod Timeout
use Prim.Native.String.{String}
use galactic_trading_firm.Prelude.{
  ℕ, ◌+◌, ◌*◌, ◌%◌, ◌^◌, Option, none, some, Bool, true, false, List, [], ◌∷◌, if◌then◌else◌, leb,
  ◌&&◌, not,
}
use galactic_trading_firm.Prelude.Int.{ℤ, pos, ltb_ℤ}
use galactic_trading_firm.F64.{F64, ◌⊕◌, ◌⊖◌, ◌⊗◌, ◌⊘◌, ◌<?◌, ◌≤?◌, lit}
use galactic_trading_firm.Time.{Chrono, eastern_minutes}
use galactic_trading_firm.Market.{MarketState, PositionContext}
use galactic_trading_firm.Action.{
  ActionSignal, hold, exit, modify_stop, Position, TradeDirection, long, short, session_close,
  hard_stop, trailing_stop, filter_alignment,
}
use galactic_trading_firm.Session.Clock.{codes, split, parse_u32}

-- `parse_hm` of the action: the two numbers
abbrev pub both : Option ℕ → Option ℕ → Option (ℕ × ℕ)
both (some h) (some m) = some (h, m)
both _ _ = none

abbrev pub hm_parts : List (List ℕ) → Option (ℕ × ℕ)
hm_parts (h ∷ m ∷ []) = both (parse_u32 h) (parse_u32 m)
hm_parts _ = none

unfoldable pub hour_and_minute : String → Option (ℕ × ℕ)
hour_and_minute s = hm_parts (split b':' (codes s))

abbrev pub is_reached : Option (ℕ × ℕ) → ℕ → Bool
is_reached none now = false
is_reached (some (h, m)) now = leb ((h * 60 + m) % 2 ^ 32) now

module _ {F : Type 0} where
  unfoldable pub evaluate_session_close :
      ⦃c : Chrono⦄ → String → Option (Position F) → MarketState F → ActionSignal F
  evaluate_session_close force_exit_by none market = hold
  evaluate_session_close force_exit_by (some p) market =
      if is_reached (hour_and_minute force_exit_by) (eastern_minutes market.timestamp)
      then exit session_close
      else hold

module _ {F : Type 0} ⦃f : F64 F⦄ where
  abbrev pub loss_pct : Position F → F
  loss_pct p = elim (p.direction) [
    | long ↦ (p.entry_price ⊖ p.current_price) ⊘ p.entry_price
    | short ↦ (p.current_price ⊖ p.entry_price) ⊘ p.entry_price
  ]

  unfoldable pub evaluate_fixed_pct_stop : F → Option (Position F) → ActionSignal F
  evaluate_fixed_pct_stop stop_loss_pct none = hold
  evaluate_fixed_pct_stop stop_loss_pct (some p) =
      if stop_loss_pct ≤? loss_pct p then exit hard_stop else hold

  -- the best profit that the position has seen, as a fraction of the entry price
  abbrev pub peak_profit : Position F → F
  peak_profit p = elim (p.direction) [
    | long ↦ (p.high_water_mark ⊖ p.entry_price) ⊘ p.entry_price
    | short ↦ (p.entry_price ⊖ p.low_water_mark) ⊘ p.entry_price
  ]

  unfoldable pub evaluate_breakeven_stop : F → Option (Position F) → ActionSignal F
  evaluate_breakeven_stop trigger_pct none = hold
  evaluate_breakeven_stop trigger_pct (some p) =
      if trigger_pct ≤? peak_profit p then modify_stop p.entry_price else hold

  abbrev pub kept_at : TradeDirection → F → F → F
  kept_at long entry_price keep_pct = entry_price ⊗ (lit 1 ⊕ keep_pct)
  kept_at short entry_price keep_pct = entry_price ⊗ (lit 1 ⊖ keep_pct)

  unfoldable pub compute_stop : (giveback_fraction min_profit_pct : F) → Position F → Option F
  compute_stop giveback_fraction min_profit_pct p =
      let peak = peak_profit p in
      if peak <? min_profit_pct
      then none
      else if min_profit_pct ≤? peak
      then some (kept_at p.direction p.entry_price (peak ⊗ (lit 1 ⊖ giveback_fraction)))
      else none

  abbrev pub is_triggered : TradeDirection → F → Option F → Bool
  is_triggered direction price none = false
  is_triggered long price (some stop) = price ≤? stop
  is_triggered short price (some stop) = stop ≤? price

  unfoldable pub evaluate_profit_trailing_stop :
      (giveback_fraction min_profit_pct : F) → Option (Position F) → ActionSignal F
  evaluate_profit_trailing_stop giveback_fraction min_profit_pct none = hold
  evaluate_profit_trailing_stop giveback_fraction min_profit_pct (some p) =
      if is_triggered p.direction p.current_price (compute_stop giveback_fraction min_profit_pct p)
      then exit trailing_stop
      else hold

  abbrev pub context_holds : ℤ → Option (PositionContext F) → Bool
  context_holds scope none = false
  context_holds scope (some pc) = not (ltb_ℤ pc.max_hold_ms scope)

  abbrev pub in_scope : ℤ → MarketState F → Bool
  in_scope scope market =
      if not (ltb_ℤ (pos 0) scope) then true else context_holds scope market.position_context

  abbrev pub vwap_hit : TradeDirection → F → F → F → Bool
  vwap_hit short price vwap buf = vwap ⊗ (lit 1 ⊕ buf) <? price
  vwap_hit long price vwap buf = price <? vwap ⊗ (lit 1 ⊖ buf)

  unfoldable pub evaluate_vwap_stop :
      (buffer_pct : F) (scope_min_max_hold_ms : ℤ)
      → Option (Position F)
      → MarketState F
      → ActionSignal F
  evaluate_vwap_stop buffer_pct scope none market = hold
  evaluate_vwap_stop buffer_pct scope (some p) market =
      if not (
        f.is_finite market.session_vwap
        && lit 0 <? market.session_vwap
        && f.is_finite market.last_price
        && in_scope scope market)
      then hold
      else if vwap_hit p.direction market.last_price market.session_vwap (buffer_pct ⊘ lit 100)
      then exit filter_alignment
      else hold
