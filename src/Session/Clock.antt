-- ===== src/Session/Clock.antt =====
-- "HH:MM" settings: `SessionConfig::parse_hm_to_minutes` of crates/types/src/config.rs, and the
-- variant by `split_once` of crates/engine/src/tick_loop.rs and
-- crates/actions/src/entry/entry_window.rs. A text is read as its code points. `u32` arithmetic
-- wraps, as in a release build.
pub mod Parsing
use Prim.Native.Char.{code}
use Prim.Native.String.{String}
use galactic_trading_firm.Prelude.{
  ℕ, ◌+◌, ◌-◌, ◌*◌, ◌%◌, ◌^◌, Option, none, some, Bool, List, [], ◌∷◌, ◌&&◌, if◌then◌else◌, leb,
  ltb, ◌==◌,
}

abbrev pub codes : String → List ℕ
codes String.[] = []
codes (String.◌∷◌ first rest) = code first ∷ codes rest

abbrev pub prepend : ℕ → List (List ℕ) → List (List ℕ)
prepend c [] = (c ∷ []) ∷ []
prepend c (p ∷ ps) = (c ∷ p) ∷ ps

-- `str::split` by one character: always one part more than there are separators.
unfoldable pub split : ℕ → List ℕ → List (List ℕ)
split sep [] = [] ∷ []
split sep (c ∷ cs) = let parts = split sep cs in if c == sep then [] ∷ parts else prepend c parts

abbrev pub put_before : ℕ → Option (List ℕ × List ℕ) → Option (List ℕ × List ℕ)
put_before c none = none
put_before c (some (a, b)) = some (c ∷ a, b)

-- `str::split_once`: at the first separator.
unfoldable pub split_once : ℕ → List ℕ → Option (List ℕ × List ℕ)
split_once sep [] = none
split_once sep (c ∷ cs) =
    let rest = split_once sep cs in if c == sep then some ([], cs) else put_before c rest

abbrev pub is_digit : ℕ → Bool
is_digit c = leb b'0' c && leb c b'9'

-- The digits, checked against the width of `u32` at each step.
unfoldable pub parse_digits : ℕ → List ℕ → Option ℕ
parse_digits acc [] = some acc
parse_digits acc (c ∷ cs) =
    let acc' = acc * 10 + (c - b'0') in
    let rest = parse_digits acc' cs in if is_digit c && ltb acc' (2 ^ 32) then rest else none

-- `str::parse::<u32>`: one leading `+` is allowed, and there must be a digit.
unfoldable pub parse_u32 : List ℕ → Option ℕ
unfolding parse_digits
parse_u32 [] = none
parse_u32 (c ∷ []) = parse_digits 0 (c ∷ [])
parse_u32 (c ∷ d ∷ cs) = if c == b'+' then parse_digits 0 (d ∷ cs) else parse_digits 0 (c ∷ d ∷ cs)

abbrev pub minutes_of : Option ℕ → Option ℕ → Option ℕ
minutes_of (some h) (some m) = some ((h * 60 + m) % 2 ^ 32)
minutes_of _ _ = none

-- the parts of a split, of which there must be two
abbrev pub two_parts : List (List ℕ) → Option ℕ
two_parts (h ∷ m ∷ []) = minutes_of (parse_u32 h) (parse_u32 m)
two_parts _ = none

unfoldable pub parse_hm_to_minutes : String → Option ℕ
unfolding split parse_u32
parse_hm_to_minutes s = two_parts (split b':' (codes s))

abbrev pub once_parts : Option (List ℕ × List ℕ) → Option ℕ
once_parts none = none
once_parts (some (h, m)) = minutes_of (parse_u32 h) (parse_u32 m)

unfoldable pub parse_hm : String → Option ℕ
unfolding split_once parse_u32
parse_hm s = once_parts (split_once b':' (codes s))
