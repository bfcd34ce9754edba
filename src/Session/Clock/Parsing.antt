-- ===== src/Session/Clock/Parsing.antt =====
-- The two ways in which the sources read a clock setting agree, and read what a clock shows.
use galactic_trading_firm.Prelude.{
  ℕ, ◌+◌, ◌-◌, ◌*◌, ◌/◌, ◌%◌, ◌<◌, ◌≡◌, refl, sym, Option, none, some, false, ap, List, [], ◌∷◌,
  ◌++◌, arith, inl, inr, ◌==◌, Bool-cases, Option-cases, String,
}
use galactic_trading_firm.Session.Clock.{
  codes, split, split_once, parse_digits, parse_u32, two_parts, once_parts, minutes_of,
  parse_hm_to_minutes, parse_hm,
}

abbrev after_once : ℕ → List ℕ → Option (List ℕ × List ℕ) → List (List ℕ)
after_once sep cs none = cs ∷ []
after_once sep cs (some (a, b)) = a ∷ split sep b

split-eq-split_once : (sep : ℕ) (cs : List ℕ) → split sep cs ≡ after_once sep cs (split_once sep cs)
unfolding split split_once
split-eq-split_once sep [] = refl
split-eq-split_once sep (c ∷ cs) = ground (arith, split-eq-split_once sep cs)

abbrev HasColon : List ℕ → Type 0
HasColon cs = (r : List ℕ × List ℕ) × (split_once b':' cs ≡ some r)

-- A part with a separator in it is no number.
parse_digits-HasColon : (acc : ℕ) (cs : List ℕ) → HasColon cs → parse_digits acc cs ≡ none
unfolding split_once parse_digits
parse_digits-HasColon acc [] (r, e) = cc
parse_digits-HasColon acc (c ∷ cs) (r, e) = elim (Option-cases (split_once b':' cs)) [
  | inl n ↦ ground arith
  | inr s ↦ ground (arith, parse_digits-HasColon (acc * 10 + (c - b'0')) cs s)
]

HasColon-tail : (c : ℕ) (cs : List ℕ) → (c == b':') ≡ false → HasColon (c ∷ cs) → HasColon cs
unfolding split_once
HasColon-tail c cs n (r, e) = elim (Option-cases (split_once b':' cs)) [
  | inl m ↦ absurd (ground arith)
  | inr s ↦ s
]

parse_u32-HasColon : (cs : List ℕ) → HasColon cs → parse_u32 cs ≡ none
unfolding parse_u32
parse_u32-HasColon [] h = refl
parse_u32-HasColon (c ∷ []) h = parse_digits-HasColon 0 (c ∷ []) h
parse_u32-HasColon (c ∷ d ∷ cs) h = elim (Bool-cases (c == b'+')) [
  | inl e ↦ rw e (parse_digits-HasColon 0 (d ∷ cs) (HasColon-tail c (d ∷ cs) (ground arith) h))
  | inr e ↦ rw e (parse_digits-HasColon 0 (c ∷ d ∷ cs) h)
]

minutes_of-none : (o : Option ℕ) → minutes_of o none ≡ none
minutes_of-none none = refl
minutes_of-none (some h) = refl

three_parts : (a b : List ℕ) (cs : List ℕ) → two_parts (a ∷ b ∷ split b':' cs) ≡ none
three_parts a b cs =
    rw (split-eq-split_once b':' cs)
      (elim (Option-cases (split_once b':' cs)) [ inl n ↦ rw n | inr (r, e) ↦ rw e ])

parts_agree : (cs : List ℕ) → two_parts (split b':' cs) ≡ once_parts (split_once b':' cs)
parts_agree cs = rw (split-eq-split_once b':' cs) (elim (Option-cases (split_once b':' cs)) [
  | inl n ↦ rw n
  | inr ((a, b), e) ↦ rw e (
      rw (split-eq-split_once b':' b) (elim (Option-cases (split_once b':' b)) [
        | inl n ↦ rw n
        | inr ((b1, b2), s) ↦ rw s (
            rw (parse_u32-HasColon b ((b1, b2), s))
              (rw (minutes_of-none (parse_u32 a)) (three_parts a b1 b2)))
      ]))
])

-- The two readings of a clock setting, by all its parts and by its first colon, agree on every text.
pub parse_hm-eq-parse_hm_to_minutes : (s : String) → parse_hm s ≡ parse_hm_to_minutes s
unfolding parse_hm parse_hm_to_minutes
parse_hm-eq-parse_hm_to_minutes s = sym (parts_agree (codes s))

-- A number of two digits, as a clock shows it.
abbrev pub two_digits : ℕ → List ℕ
two_digits n = (b'0' + n / 10) ∷ (b'0' + n % 10) ∷ []

split-digits :
    (a b c d : ℕ)
    → (a == b':') ≡ false
    → (b == b':') ≡ false
    → (c == b':') ≡ false
    → (d == b':') ≡ false
    → split b':' (a ∷ b ∷ b':' ∷ c ∷ d ∷ []) ≡ (a ∷ b ∷ []) ∷ (c ∷ d ∷ []) ∷ []
unfolding split
split-digits a b c d ha hb hc hd = rw (ha, hb, hc, hd)

parse_u32-two_digits : (n : ℕ) → n < 60 → parse_u32 (two_digits n) ≡ some n
unfolding parse_u32
parse_u32-two_digits n h = ground arith

no_colon : (n : ℕ) → n < 10 → ((b'0' + n) == b':') ≡ false
no_colon n h = ground arith

-- What a clock shows, "HH:MM", is read back as minutes after midnight, from every text with these
-- characters, at hours below 24 and minutes below 60.
pub parse_hm_to_minutes_shown :
    (s : String) (h m : ℕ)
    → h < 24
    → m < 60
    → codes s ≡ two_digits h ++ (b':' ∷ two_digits m)
    → parse_hm_to_minutes s ≡ some (h * 60 + m)
unfolding parse_hm_to_minutes
parse_hm_to_minutes_shown s h m hh mm e =
    rw
      (
        e,
        split-digits _ _ _ _ (no_colon (h / 10) (omega arith)) (no_colon (h % 10) (omega arith))
            (no_colon (m / 10) (omega arith)) (no_colon (m % 10) (omega arith)),
        parse_u32-two_digits h (omega arith),
        parse_u32-two_digits m mm,
      )
      (ap some (omega arith))
