-- ===== src/F64/Decimal.antt =====
-- Numbers with two decimals and the special values of `f64`: an instance on which the definitions
-- run, and which shows that the laws can be met.
use galactic_trading_firm.Prelude.{
  ℕ, zero, suc, ◌+◌, ◌*◌, ◌/◌, ◌≡◌, refl, Bool, true, false, not, arith,
}
use galactic_trading_firm.Prelude.Int.{ℤ, pos, negsuc, pos_part, neg_part, sub_ℕ, ltb_ℤ}
use galactic_trading_firm.F64.Defs.{F64}
use galactic_trading_firm.F64.Laws.{IsOrdered, IsSigned, IsExact, IsFinite}

pub data Decimal : Type 0 where
  hundredths : ℤ → Decimal
  infinity neg_infinity nan : Decimal

abbrev plus : ℤ → ℤ → ℤ
plus a b = sub_ℕ (pos_part a + pos_part b) (neg_part a + neg_part b)

abbrev minus : ℤ → ℤ → ℤ
minus a b = sub_ℕ (pos_part a + neg_part b) (neg_part a + pos_part b)

abbrev times : ℤ → ℤ → ℤ
times a b =
    sub_ℕ (pos_part a * pos_part b + neg_part a * neg_part b)
      (pos_part a * neg_part b + neg_part a * pos_part b)

abbrev opposite : ℤ → ℤ
opposite (pos zero) = pos 0
opposite (pos (suc n)) = negsuc n
opposite (negsuc n) = pos (suc n)

abbrev quotient : ℤ → ℕ → ℤ
quotient a n = sub_ℕ (pos_part a / n) (neg_part a / n)

abbrev signed_quotient : ℤ → ℤ → Decimal
signed_quotient a (pos zero) = nan
signed_quotient a (pos (suc n)) = hundredths (quotient a (suc n))
signed_quotient a (negsuc n) = hundredths (quotient (opposite a) (suc n))

abbrev neg_dec : Decimal → Decimal
neg_dec (hundredths a) = hundredths (opposite a)
neg_dec infinity = neg_infinity
neg_dec neg_infinity = infinity
neg_dec nan = nan

-- Of two finite numbers the result of `g`, and else NaN.
abbrev on_finite : (ℤ → ℤ → Decimal) → Decimal → Decimal → Decimal
on_finite g (hundredths a) (hundredths b) = g a b
on_finite g _ _ = nan

abbrev le_dec : Decimal → Decimal → Bool
le_dec (hundredths a) (hundredths b) = not (ltb_ℤ b a)
le_dec nan _ = false
le_dec (hundredths a) nan = false
le_dec (hundredths a) infinity = true
le_dec (hundredths a) neg_infinity = false
le_dec infinity nan = false
le_dec infinity infinity = true
le_dec infinity _ = false
le_dec neg_infinity nan = false
le_dec neg_infinity _ = true

abbrev lt_dec : Decimal → Decimal → Bool
lt_dec a nan = false
lt_dec nan (hundredths b) = false
lt_dec nan infinity = false
lt_dec nan neg_infinity = false
lt_dec (hundredths a) b = not (le_dec b (hundredths a))
lt_dec infinity b = not (le_dec b infinity)
lt_dec neg_infinity b = not (le_dec b neg_infinity)

abbrev floor_ℤ : ℤ → ℤ
floor_ℤ (pos n) = pos (n / 100 * 100)
floor_ℤ (negsuc n) = opposite (pos ((n + 100) / 100 * 100))

abbrev abs_dec : Decimal → Decimal
abs_dec (hundredths a) = hundredths (pos (pos_part a + neg_part a))
abs_dec neg_infinity = infinity
abs_dec a = a

abbrev floor_dec : Decimal → Decimal
floor_dec (hundredths a) = hundredths (floor_ℤ a)
floor_dec a = a

abbrev is_finite_dec : Decimal → Bool
is_finite_dec (hundredths a) = true
is_finite_dec _ = false

-- `exp` and `powf` are the first two terms of their series: nothing below rests on their values.
instance abbrev pub decimal_f64 : F64 Decimal
decimal_f64 = record {
  of_ℕ = λ n. hundredths (pos (n * 100));
  add = on_finite (λ a b. hundredths (plus a b));
  sub = on_finite (λ a b. hundredths (minus a b));
  mul = on_finite (λ a b. hundredths (quotient (times a b) 100));
  div = on_finite (λ a b. signed_quotient (times a (pos 100)) b);
  neg = neg_dec;
  abs = abs_dec;
  floor = floor_dec;
  exp = on_finite (λ a b. hundredths (plus a b)) (hundredths (pos 100));
  powf = λ a b.
      on_finite (λ x y. hundredths (plus (pos 100) (quotient (times (minus x (pos 100)) y) 100))) a
        b;
  lt = lt_dec;
  le = le_dec;
  is_finite = is_finite_dec;
  infinity = infinity;
  neg_infinity = neg_infinity;
  epsilon = hundredths (pos 0);
}

-- The laws go by cases.
number_of_le_dec : (a b : Decimal) → le_dec a b ≡ true → (le_dec a a ≡ true) × (le_dec b b ≡ true)
number_of_le_dec a b h = ground arith

le_dec_trans : (a b c : Decimal) → le_dec a b ≡ true → le_dec b c ≡ true → le_dec a c ≡ true
le_dec_trans a b c h k = ground arith

lt_dec-eq-not-le :
    (a b : Decimal) → le_dec a a ≡ true → le_dec b b ≡ true → lt_dec a b ≡ not (le_dec b a)
lt_dec-eq-not-le a b h k = ground arith

le_dec_of_lt : (a b : Decimal) → lt_dec a b ≡ true → le_dec a b ≡ true
le_dec_of_lt a b h = ground arith

le_dec_of_not_le :
    (a b : Decimal) → le_dec a a ≡ true → le_dec b b ≡ true → le_dec a b ≡ false → le_dec b a ≡ true
le_dec_of_not_le a b h k e = ground arith

pub decimal-IsOrdered : IsOrdered Decimal
decimal-IsOrdered = record {
  number_of_le = number_of_le_dec;
  le_trans = le_dec_trans;
  lt-eq-not-le = lt_dec-eq-not-le;
  le_of_lt = le_dec_of_lt;
  le_of_not_le = le_dec_of_not_le;
}

neg_dec_neg : (a : Decimal) → neg_dec (neg_dec a) ≡ a
neg_dec_neg a = ground arith

le_dec-neg : (a b : Decimal) → le_dec (neg_dec a) (neg_dec b) ≡ le_dec b a
le_dec-neg a b = ground arith

pub decimal-IsSigned : IsSigned Decimal
decimal-IsSigned = record { neg_neg = neg_dec_neg; le-neg = le_dec-neg; zero-neg = λ a. refl }

abbrev add_dec : Decimal → Decimal → Decimal
add_dec = on_finite (λ a b. hundredths (plus a b))

abbrev sub_dec : Decimal → Decimal → Decimal
sub_dec = on_finite (λ a b. hundredths (minus a b))

abbrev IsNum : Decimal → Type 0
IsNum a = is_finite_dec a ≡ true

add-sub_dec : (a b : Decimal) → IsNum a → IsNum b → sub_dec (add_dec a b) b ≡ a
add-sub_dec a b h k = ground arith

sub-add_dec : (a b : Decimal) → IsNum a → IsNum b → add_dec (sub_dec a b) b ≡ a
sub-add_dec a b h k = ground arith

-- Every finite decimal is an amount.
pub decimal-IsExact : IsExact Decimal IsFinite
decimal-IsExact = record { add-sub_cancel = add-sub_dec; sub-add_cancel = sub-add_dec }
