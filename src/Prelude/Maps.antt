-- ===== src/Prelude/Maps.antt =====
-- Hash maps keyed by text, as association lists: the order of the list stands for the order in
-- which the table is iterated. An insertion overwrites in place, as a table keeps one entry a key.
pub mod Keys
use Prim.Native.String.{String}
use text.Mathlib.Text.{◌==◌}
use mathlib.Core.List.{List, [], ◌∷◌}
use mathlib.Core.Option.{Option, none, some}
use galactic_trading_firm.Prelude.Tests.{if◌then◌else◌}

abbrev pub Map {ℓ} : Type ℓ → Type ℓ
Map V = List (String × V)

module _ {ℓ} {V : Type ℓ} where
  -- `HashMap::get`
  unfoldable pub lookup : String → Map V → Option V
  lookup key [] = none
  lookup key ((other, value) ∷ rest) = if other == key then some value else lookup key rest

  -- `HashMap::insert`
  unfoldable pub insert : String → V → Map V → Map V
  insert key value [] = (key, value) ∷ []
  insert key value ((other, old) ∷ rest) =
      if other == key then (key, value) ∷ rest else (other, old) ∷ insert key value rest

  -- `HashMap::remove`, the table it leaves
  unfoldable pub remove : String → Map V → Map V
  remove key [] = []
  remove key ((other, value) ∷ rest) =
      let kept = remove key rest in if other == key then kept else (other, value) ∷ kept
