-- ===== src/Book/Roster.antt =====
-- crates/data_feed/src/book.rs: which books a process hosts, and how much history each symbol gets.
-- A `BTreeSet` of symbols is a list without repetition, a `BTreeMap` a list of pairs with one entry a
-- key; the order of their keys goes into no result but the order of the warnings.
pub mod Hosted
pub mod Warmup
use text.Mathlib.Text.{◌==◌}
use galactic_trading_firm.Prelude.{
  ℕ, zero, suc, Option, none, some, Bool, true, false, List, [], ◌∷◌, ◌++◌, String, if◌then◌else◌,
  length, leb, ltb, not, ◌&&◌, ◌||◌, map,
}
use galactic_trading_firm.Prelude.Int.{ℤ}
use galactic_trading_firm.Prelude.Maps.{Map, lookup, insert}
use galactic_trading_firm.Engine.Gates.{get_or}
use galactic_trading_firm.Book.{BookSpec, StrategyConfig, is_primary, contains_key}
use galactic_trading_firm.Book.Swap.{contains, apply_to}

pub data BookError : Type 0 where
  no_primary : BookError
  multiple_primaries : List String → BookError

pub data Roster (F : Type 0) : Type 0 where
  valid : List (BookSpec F) → Roster F
  invalid : BookError → Roster F

pub record Limits : Type 0 where
  pub max_books : ℕ
  pub max_symbols : ℕ

pub record BookPlan (F : Type 0) : Type 0 where
  pub spec : BookSpec F
  pub config_id : ℤ
  pub config : StrategyConfig F

-- why a plan was skipped, without the wording
pub data SkipReason : Type 0 where
  max_books_reached : SkipReason
  too_many_symbols : (needed : ℕ) → SkipReason

module _ {F : Type 0} where
  abbrev pub primaries_of : List (BookSpec F) → List (BookSpec F)
  primaries_of [] = []
  primaries_of (s ∷ rest) =
      let later = primaries_of rest in if is_primary s then s ∷ later else later

  abbrev pub shadows_of : List (BookSpec F) → List (BookSpec F)
  shadows_of [] = []
  shadows_of (s ∷ rest) = let later = shadows_of rest in if is_primary s then later else s ∷ later

  abbrev pub name_of : BookSpec F → String
  name_of s = s.name

  abbrev pub by_primaries : List (BookSpec F) → List (BookSpec F) → Roster F
  by_primaries [] shadows = invalid no_primary
  by_primaries (p ∷ []) shadows = valid (p ∷ shadows)
  by_primaries (p ∷ q ∷ rest) shadows = invalid (multiple_primaries (map name_of (p ∷ q ∷ rest)))

  unfoldable pub validate_roster : List (BookSpec F) → Roster F
  validate_roster specs = by_primaries (primaries_of specs) (shadows_of specs)

  -- `BookPlan::new`
  abbrev pub new_plan : BookSpec F → ℤ → StrategyConfig F → BookPlan F
  new_plan spec config_id config = record {
    spec = spec;
    config_id = config_id;
    config = apply_to spec config;
  }

-- `BTreeSet::extend`
unfoldable pub extend : List String → List String → List String
extend set [] = set
extend set (t ∷ rest) = extend (if contains t set then set else t ∷ set) rest

abbrev pub exceeds : Limits → List String → List String → Bool
exceeds limits symbols union =
    ltb limits.max_symbols (length union) && ltb (length symbols) (length union)

-- the loop's variables, each list in the order of its pushes
pub record Hosting (F : Type 0) : Type 0 where
  pub kept : List (BookPlan F)
  pub skipped : List (BookPlan F × SkipReason)
  pub symbols : List String

module _ {F : Type 0} where
  abbrev pub keep : Hosting F → BookPlan F → List String → Hosting F
  keep h plan symbols = record h { kept = h.kept ++ (plan ∷ []); symbols = symbols }

  abbrev pub skip : Hosting F → BookPlan F → SkipReason → Hosting F
  skip h plan why = record h { skipped = h.skipped ++ ((plan, why) ∷ []) }

  abbrev pub host_shadow : Limits → Hosting F → BookPlan F → List String → Hosting F
  host_shadow limits h plan union =
      if leb limits.max_books (length h.kept)
      then skip h plan max_books_reached
      else if exceeds limits h.symbols union
      then skip h plan (too_many_symbols (length union))
      else keep h plan union

  abbrev pub host : Limits → Hosting F → BookPlan F → Hosting F
  host limits h plan =
      let union = extend h.symbols plan.config.tickers in
      if is_primary plan.spec then keep h plan union else host_shadow limits h plan union

  unfoldable pub host_all : Limits → List (BookPlan F) → Hosting F → Hosting F
  host_all limits [] h = h
  host_all limits (plan ∷ rest) h = host_all limits rest (host limits h plan)

  unfoldable pub apply_limits : List (BookPlan F) → Limits → String → Hosting F
  apply_limits plans limits index =
      host_all limits plans (record { kept = []; skipped = []; symbols = index ∷ [] })

-- `DEFAULT_WARMUP_DAYS`
abbrev pub default_warmup_days : ℕ
default_warmup_days = 8

pub record WarmupInput : Type 0 where
  pub book : String
  pub is_primary : Bool
  pub tickers : List String
  pub warmup_days : Option ℕ

pub record WarmupRaise : Type 0 where
  pub symbol : String
  pub days : ℕ
  pub book : String

pub record WarmupPlan : Type 0 where
  pub days : Map ℕ
  pub raised : List WarmupRaise

-- the days of a symbol, and the book that set them
pub record Traded : Type 0 where
  pub days : ℕ
  pub by : String

-- `WarmupPlan::days_for`
abbrev pub days_for : WarmupPlan → String → ℕ
days_for plan symbol = get_or (lookup symbol plan.days) default_warmup_days

abbrev pub days_of : WarmupInput → ℕ
days_of b = get_or b.warmup_days default_warmup_days

-- the earlier book wins a tie
abbrev pub is_enough : Option Traded → ℕ → Bool
is_enough none d = false
is_enough (some t) d = leb d t.days

abbrev pub raise_one : WarmupInput → Map Traded → String → Map Traded
raise_one b traded t =
    if is_enough (lookup t traded) (days_of b)
    then traded
    else insert t (record { days = days_of b; by = b.book }) traded

unfoldable pub raise_all : List String → WarmupInput → Map Traded → Map Traded
raise_all [] b traded = traded
raise_all (t ∷ rest) b traded = raise_all rest b (raise_one b traded t)

unfoldable pub traded_by : List WarmupInput → Map Traded → Map Traded
traded_by [] traded = traded
traded_by (b ∷ rest) traded = traded_by rest (raise_all b.tickers b traded)

-- the tickers of the primary
abbrev pub primary_trades : List WarmupInput → String → Bool
primary_trades [] symbol = false
primary_trades (b ∷ rest) symbol =
    b.is_primary && contains symbol b.tickers || primary_trades rest symbol

abbrev pub raised_if : List WarmupInput → String → Traded → List WarmupRaise → List WarmupRaise
raised_if books symbol t later =
    if ltb default_warmup_days t.days && primary_trades books symbol
    then record { symbol = symbol; days = t.days; book = t.by } ∷ later
    else later

unfoldable pub days_by : Map Traded → Map ℕ
days_by [] = []
days_by ((symbol, t) ∷ rest) = (symbol, t.days) ∷ days_by rest

unfoldable pub raised_by : List WarmupInput → Map Traded → List WarmupRaise
raised_by books [] = []
raised_by books ((symbol, t) ∷ rest) = raised_if books symbol t (raised_by books rest)

-- `books.iter().map(|b| b.days()).max()`
unfoldable pub max_days : List WarmupInput → Option ℕ
max_days [] = none
max_days (b ∷ rest) = elim (max_days rest) [
  | none ↦ some (days_of b)
  | some d ↦ some (if leb (days_of b) d then d else days_of b)
]

unfoldable pub warmup_plan : List WarmupInput → String → WarmupPlan
warmup_plan books index =
    let traded = traded_by books [] in
    record {
      days =
          if contains_key index traded
          then days_by traded
          else insert index (get_or (max_days books) default_warmup_days) (days_by traded);
      raised = raised_by books traded;
    }
