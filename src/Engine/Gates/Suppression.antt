-- ===== src/Engine/Gates/Suppression.antt =====
-- `suppress_entries_until` of crates/engine/src/tick_loop.rs, called any number of times.
use galactic_trading_firm.Prelude.{
  ◌≡◌, refl, sym, ap, ◌∙◌, Option, none, some, Bool, true, false, List, [], ◌∷◌, ◌||◌, ltb, arith,
}
use galactic_trading_firm.Time.{DateTime}
use galactic_trading_firm.Engine.State.{TradingEngine}
use galactic_trading_firm.Engine.Gates.{is_before, later_of, suppress_entries_until}

is_before-later_of :
    (ts : DateTime) (o : Option DateTime) (until : DateTime)
    → is_before ts (some (later_of o until)) ≡ (is_before ts o || ltb ts until)
is_before-later_of ts none until = refl
is_before-later_of ts (some cur) until = ground arith

or_assoc : (a b c : Bool) → ((a || b) || c) ≡ (a || (b || c))
or_assoc true b c = refl
or_assoc false b c = refl

or_false : (a : Bool) → (a || false) ≡ a
or_false true = refl
or_false false = refl

abbrev pub before_any : DateTime → List DateTime → Bool
before_any ts [] = false
before_any ts (until ∷ rest) = ltb ts until || before_any ts rest

module _ {F : Type 0} where
  unfoldable pub suppress_all : TradingEngine F → List DateTime → TradingEngine F
  suppress_all e [] = e
  suppress_all e (until ∷ rest) = suppress_all (suppress_entries_until e until) rest

  -- After any calls of `suppress_entries_until`, entries are suppressed at an instant exactly if they
  -- were before, or the instant is before one of the times that were given: the order of the calls
  -- does not matter, and none of them shortens a suppression.
  pub suppress_all-is_before :
      (untils : List DateTime) (e : TradingEngine F) (ts : DateTime)
      → is_before ts (suppress_all e untils).entries_suppressed_until
        ≡ (is_before ts e.entries_suppressed_until || before_any ts untils)
  unfolding suppress_all suppress_entries_until
  suppress_all-is_before [] e ts = sym (or_false _)
  suppress_all-is_before (until ∷ rest) e ts =
      suppress_all-is_before rest (suppress_entries_until e until) ts
      ∙ ap (λ b. b || before_any ts rest) (is_before-later_of ts e.entries_suppressed_until until)
      ∙ or_assoc (is_before ts e.entries_suppressed_until) (ltb ts until) (before_any ts rest)
