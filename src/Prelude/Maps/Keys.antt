-- ===== src/Prelude/Maps/Keys.antt =====
-- The hash maps of Prelude/Maps.antt: what a key reads after an insertion and a removal.
use text.Mathlib.Text.{◌==◌}
use text.Mathlib.TextPositions.{eq_refl}
use text.Mathlib.TextEquality.{eq_iff}
use galactic_trading_firm.Prelude.{
  ◌≡◌, refl, ap, none, some, false, [], ◌∷◌, String, Bool-cases, inl, inr,
}
use galactic_trading_firm.Prelude.Maps.{Map, lookup, insert, remove}

module _ {V : Type 0} where
  pub lookup-insert :
      (key : String) (value : V) (m : Map V) → lookup key (insert key value m) ≡ some value
  unfolding lookup insert
  lookup-insert key value [] = rw (eq_refl key)
  lookup-insert key value ((other, old) ∷ rest) = elim (Bool-cases (other == key)) [
    | inl same ↦ rw same (rw (eq_refl key) refl)
    | inr differs ↦ rw differs (rw differs (lookup-insert key value rest))
  ]

  pub lookup-remove : (key : String) (m : Map V) → lookup key (remove key m) ≡ none
  unfolding lookup remove
  lookup-remove key [] = refl
  lookup-remove key ((other, value) ∷ rest) = elim (Bool-cases (other == key)) [
    | inl same ↦ rw same (lookup-remove key rest)
    | inr differs ↦ rw differs (rw differs (lookup-remove key rest))
  ]

  pub remove-insert :
      (key : String) (value : V) (m : Map V) → remove key (insert key value m) ≡ remove key m
  unfolding remove insert
  remove-insert key value [] = rw (eq_refl key)
  remove-insert key value ((other, old) ∷ rest) = elim (Bool-cases (other == key)) [
    | inl same ↦ rw same (rw (eq_refl key) refl)
    | inr differs ↦
        rw differs (rw differs (ap (λ m. (other, old) ∷ m) (remove-insert key value rest)))
  ]

  pub lookup-remove_other :
      (key other : String) (m : Map V)
      → (key == other) ≡ false
      → lookup other (remove key m) ≡ lookup other m
  unfolding lookup remove
  lookup-remove_other key other [] h = refl
  lookup-remove_other key other ((k, v) ∷ rest) h = elim (Bool-cases (k == key)) [
    | inl same ↦
        rw ((eq_iff k key).0 same) (rw (eq_refl key) (rw h (lookup-remove_other key other rest h)))
    | inr differs ↦ rw differs (elim (Bool-cases (k == other)) [
      | inl one ↦ rw one refl
      | inr other_key ↦ rw other_key (lookup-remove_other key other rest h)
    ])
  ]

  pub lookup-insert_other :
      (key other : String) (value : V) (m : Map V)
      → (key == other) ≡ false
      → lookup other (insert key value m) ≡ lookup other m
  unfolding lookup insert
  lookup-insert_other key other value [] h = rw h
  lookup-insert_other key other value ((k, v) ∷ rest) h = elim (Bool-cases (k == key)) [
    | inl same ↦ rw ((eq_iff k key).0 same) (rw (eq_refl key) (rw h refl))
    | inr differs ↦ rw differs (elim (Bool-cases (k == other)) [
      | inl one ↦ rw one refl
      | inr other_key ↦ rw other_key (lookup-insert_other key other value rest h)
    ])
  ]
