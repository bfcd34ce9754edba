-- ===== src/Engine/Entries.antt =====
-- crates/engine/src/tick_loop.rs: what `on_tick` does when it is flat and no gate blocks.
pub mod Opening
pub mod Skipped
use Prim.Native.String.{◌++◌ as append_str}
use Prim.Native.Char.{code}
use galactic_trading_firm.Prelude.{
  Option, none, some, Bool, List, [], ◌∷◌, String, if◌then◌else◌, ◌==◌, ◌||◌, not,
}
use galactic_trading_firm.Prelude.Int.{ℤ}
use galactic_trading_firm.Prelude.Maps.{Map, lookup}
use galactic_trading_firm.F64.{F64, ◌⊕◌, ◌⊖◌, ◌⊗◌, ◌⊘◌, ◌<?◌, ◌≤?◌, lit, clamp}
use galactic_trading_firm.Time.{DateTime}
use galactic_trading_firm.Market.{MarketState}
use galactic_trading_firm.Scores.{TimescaleScores}
use galactic_trading_firm.Action.{Action, ActionSignal, enter, reject_entry, TradeDirection}
use galactic_trading_firm.Session.{SessionConfig}
use galactic_trading_firm.Engine.Position.{PositionManager, Fallible, ok, err, open_position}
use galactic_trading_firm.Engine.State.{TradingEngine, WindowExitOverrides}
use galactic_trading_firm.Engine.Gates.{get_or}
use galactic_trading_firm.Engine.Exits.{evaluate_guarded, fill_price}

-- `str::strip_prefix`
unfoldable pub strip_prefix : String → String → Option String
strip_prefix String.[] s = some s
strip_prefix (String.◌∷◌ c p) String.[] = none
strip_prefix (String.◌∷◌ c p) (String.◌∷◌ d s) =
    let rest = strip_prefix p s in if code c == code d then rest else none

-- how the loop over the entry actions ends: with no entry signal, at a reject gate, or at the first
-- entry signal, with or without a position
pub data EntryOutcome : Type 0 where
  no_signal not_entered : EntryOutcome
  gated opened : String → EntryOutcome

module _ {F : Type 0} where
  abbrev pub with_threshold : Option F → TradingEngine F → TradingEngine F
  with_threshold none e = e
  with_threshold (some t) e = record e { active_score_exit_threshold = t }

  abbrev pub with_max_hold : Option ℤ → TradingEngine F → TradingEngine F
  with_max_hold none e = e
  with_max_hold (some h) e = record e { max_hold_ms = h }

  abbrev pub with_overrides : Option (WindowExitOverrides F) → TradingEngine F → TradingEngine F
  with_overrides none e = e
  with_overrides (some ovr) e =
      record (with_max_hold ovr.max_hold_ms (with_threshold ovr.score_exit_threshold e)) {
        active_force_exit_minutes = ovr.force_exit_by_minutes;
      }

  abbrev pub window_overrides :
      Map (WindowExitOverrides F) → Option String → Option (WindowExitOverrides F)
  window_overrides overrides none = none
  window_overrides overrides (some window_name) = lookup window_name overrides

  unfoldable pub apply_window_overrides : TradingEngine F → String → TradingEngine F
  apply_window_overrides e reason =
      with_overrides (window_overrides e.window_exit_overrides (strip_prefix "window:" reason)) e

  abbrev pub size_from : ActionSignal F → F → F
  size_from (enter direction fraction reason) size = fraction
  size_from _ size = size

  -- the loop over the sizing actions: the last fraction counts
  unfoldable pub run_sizing : List (Action F) → MarketState F → TimescaleScores F → F → F
  run_sizing [] market scores size = size
  run_sizing (a ∷ rest_actions) market scores size =
      run_sizing rest_actions market scores (size_from (evaluate_guarded a none market scores) size)

module _ {F : Type 0} ⦃f : F64 F⦄ where
  abbrev pub max_exposure : Option (SessionConfig F) → F
  max_exposure none = lit 1
  max_exposure (some sc) = sc.max_capital_deployed_pct

  -- the fraction after the cap on total exposure; `none` skips the entry
  abbrev pub cap_exposure : Option F → Option F → F → F → F → Option F
  cap_exposure (some deployed) (some total_cap) exposure capital size =
      let remaining = exposure ⊗ total_cap ⊖ deployed in
      if exposure <? (deployed ⊕ size ⊗ capital) ⊘ total_cap
      then (if remaining ≤? lit 0 then none else some (remaining ⊘ capital))
      else some size
  cap_exposure _ _ exposure capital size = some size

  abbrev pub position_pct : Option (SessionConfig F) → F
  position_pct none = lit 1
  position_pct (some sc) = get_or sc.max_position_pct (lit 1)

  abbrev pub max_position : Option (SessionConfig F) → F
  max_position session = clamp (lit 0) (lit 1) (position_pct session)

  abbrev pub is_unusable : F → Bool
  is_unusable size = not (f.is_finite size) || size ≤? lit 0

  abbrev pub is_unaffordable : F → F → Bool
  is_unaffordable price capital = price ≤? lit 0 || not (f.is_finite price) || capital ≤? lit 0

  abbrev pub clamped : F → F → F
  clamped limit size = if limit <? size then limit else size

  abbrev pub whole_shares : F → F → F → F
  whole_shares size capital price = f.floor (size ⊗ capital ⊘ price)

  abbrev pub pay_if :
      Fallible (PositionManager F) → TradingEngine F → F → String → TradingEngine F × EntryOutcome
  pay_if (err message) e dollars reason = (e, not_entered)
  pay_if (ok manager) e dollars reason = (
    record e { position_manager = manager; available_capital = e.available_capital ⊖ dollars },
    opened reason,
  )

  -- whole shares at the fill price, unless that is less than one
  unfoldable pub buy_shares :
      TradingEngine F → F → F → DateTime → TradeDirection → String → TradingEngine F × EntryOutcome
  buy_shares e price shares ts direction reason =
      if shares <? lit 1
      then (e, not_entered)
      else pay_if (open_position e.position_manager e.ticker direction price shares ts) e
          (shares ⊗ price) reason

  unfoldable pub open_sized :
      TradingEngine F
      → MarketState F
      → TradeDirection
      → Option F
      → String
      → TradingEngine F × EntryOutcome
  open_sized e market direction none reason = (e, not_entered)
  open_sized e market direction (some size) reason =
      let price = fill_price e market in
      if is_unusable size || is_unaffordable price e.available_capital
      then (e, not_entered)
      else buy_shares e price
          (whole_shares (clamped (max_position e.session_config) size) e.available_capital price)
          market.timestamp direction reason

  -- what follows the first entry signal
  unfoldable pub try_enter :
      TradingEngine F
      → MarketState F
      → TimescaleScores F
      → TradeDirection
      → F
      → String
      → TradingEngine F × EntryOutcome
  try_enter e market scores direction fraction reason =
      let e1 = apply_window_overrides e reason in
      let sized = run_sizing e1.sizing_actions market scores fraction in
      open_sized e1 market direction
        (cap_exposure market.total_deployed_capital market.total_initial_capital
          (max_exposure e1.session_config) e1.available_capital sized)
        reason

  abbrev pub on_entry_signal :
      ActionSignal F
      → String
      → TradingEngine F
      → MarketState F
      → TimescaleScores F
      → TradingEngine F × EntryOutcome
      → TradingEngine F × EntryOutcome
  on_entry_signal reject_entry name e market scores rest =
      (e, gated (append_str "reject_gate:" name))
  on_entry_signal (enter direction fraction reason) name e market scores rest =
      try_enter e market scores direction fraction reason
  on_entry_signal _ name e market scores rest = rest

  unfoldable pub seek_entry :
      List (Action F)
      → TradingEngine F
      → MarketState F
      → TimescaleScores F
      → TradingEngine F × EntryOutcome
  seek_entry [] e market scores = (e, no_signal)
  seek_entry (a ∷ rest_actions) e market scores =
      let rest = seek_entry rest_actions e market scores in
      on_entry_signal (evaluate_guarded a none market scores) a.name e market scores rest
