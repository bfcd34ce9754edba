-- ===== src/Actions/Build.antt =====
-- crates/actions/src/lib.rs: `build_actions`. A configuration's parameters are JSON, which only the
-- factories read; their type is the parameter `J`.
pub mod Ranked
use galactic_trading_firm.Prelude.{
  Option, none, some, Bool, List, [], ◌∷◌, ◌++◌, map, String, if◌then◌else◌,
}
use galactic_trading_firm.Prelude.Int.{ℤ, ltb_ℤ}
use galactic_trading_firm.Prelude.Maps.{Map, lookup}
use galactic_trading_firm.Prelude.Sorting.{sort_by}
use galactic_trading_firm.Action.{Action, ActionPhase, entry, monitor, exit, sizing}
use galactic_trading_firm.Engine.Position.{Fallible, ok, err}
use Prim.Native.String.{◌++◌ as append_str}

pub record ActionConfig (J : Type 0) : Type 0 where
  pub action_type : String
  pub instance_id : String
  pub phase : ActionPhase
  pub enabled : Bool
  pub priority : ℤ
  pub params : J

-- a list for each phase
pub record ByPhase (A : Type 0) : Type 0 where
  pub entry : List A
  pub monitor : List A
  pub exit : List A
  pub sizing : List A

abbrev pub push : {A : Type 0} → ActionPhase → A → ByPhase A → ByPhase A
push entry a x = record x { entry = x.entry ++ (a ∷ []) }
push monitor a x = record x { monitor = x.monitor ++ (a ∷ []) }
push exit a x = record x { exit = x.exit ++ (a ∷ []) }
push sizing a x = record x { sizing = x.sizing ++ (a ∷ []) }

module _ {A : Type 0} where
  abbrev pub is_later : ℤ × A → ℤ × A → Bool
  is_later (p, a) (q, b) = ltb_ℤ q p

  abbrev pub action_of : ℤ × A → A
  action_of (p, a) = a

  -- `sort_by_key`, then the priorities dropped
  abbrev pub ranked : List (ℤ × A) → List A
  ranked xs = map action_of (sort_by is_later xs)

  abbrev pub ranked_by_phase : ByPhase (ℤ × A) → ByPhase A
  ranked_by_phase x = record {
    entry = ranked x.entry;
    monitor = ranked x.monitor;
    exit = ranked x.exit;
    sizing = ranked x.sizing;
  }

module _ {F J : Type 0} (registry : Map (ActionConfig J → Action F)) where
  abbrev pub made : ActionConfig J → Option (ActionConfig J → Action F) → Fallible (ℤ × Action F)
  made c none = err (append_str "unknown action type: '" (append_str c.action_type "'"))
  made c (some factory) = ok (c.priority, factory c)

  abbrev pub keep_made :
      ActionPhase
      → (ByPhase (ℤ × Action F) → Fallible (ByPhase (ℤ × Action F)))
      → ByPhase (ℤ × Action F)
      → Fallible (ℤ × Action F)
      → Fallible (ByPhase (ℤ × Action F))
  keep_made phase next x (err e) = err e
  keep_made phase next x (ok a) = next (push phase a x)

  unfoldable pub collect :
      List (ActionConfig J) → ByPhase (ℤ × Action F) → Fallible (ByPhase (ℤ × Action F))
  collect [] x = ok x
  collect (c ∷ rest) x =
      if c.enabled
      then keep_made c.phase (collect rest) x (made c (lookup c.action_type registry))
      else collect rest x

  abbrev pub sorted_phases : Fallible (ByPhase (ℤ × Action F)) → Fallible (ByPhase (Action F))
  sorted_phases (err e) = err e
  sorted_phases (ok x) = ok (ranked_by_phase x)

  unfoldable pub build_actions : List (ActionConfig J) → Fallible (ByPhase (Action F))
  build_actions configs =
      sorted_phases (collect configs (record { entry = []; monitor = []; exit = []; sizing = [] }))
