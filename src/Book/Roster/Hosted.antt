-- ===== src/Book/Roster/Hosted.antt =====
-- crates/data_feed/src/book.rs: the books and the symbols that `apply_limits` keeps.
use text.Mathlib.Text.{◌==◌}
use text.Mathlib.TextPositions.{eq_refl}
use galactic_trading_firm.Prelude.{
  ℕ, ◌≤◌, ◌≡◌, refl, ap, true, false, List, [], ◌∷◌, ◌++◌, String, if◌then◌else◌, length,
  length-append, leb, arith, Bool-cases, inl, inr,
}
use galactic_trading_firm.Book.{is_primary}
use galactic_trading_firm.Book.Swap.{contains}
use galactic_trading_firm.Book.Roster.{
  Limits, BookPlan, SkipReason, max_books_reached, too_many_symbols, extend, exceeds, Hosting, keep,
  skip, host_shadow, host, host_all, apply_limits,
}

-- the larger of two
abbrev pub larger : ℕ → ℕ → ℕ
larger m n = if leb m n then n else m

abbrev pub AllIn : List String → List String → Type 0
AllIn set [] = Unit
AllIn set (t ∷ rest) = (contains t set ≡ true) × AllIn set rest

contains-added :
    (x t : String) (set : List String)
    → contains x set ≡ true
    → contains x (if contains t set then set else t ∷ set) ≡ true
contains-added x t set h = elim (Bool-cases (contains t set)) [
  | inl here ↦ rw here h
  | inr absent ↦ rw absent (elim (Bool-cases (t == x)) [ inl c ↦ rw c | inr c ↦ rw c h ])
]

added-contains :
    (t : String) (set : List String) → contains t (if contains t set then set else t ∷ set) ≡ true
added-contains t set = elim (Bool-cases (contains t set)) [
  | inl here ↦ rw here here
  | inr absent ↦ rw absent (rw (eq_refl t))
]

contains-extend :
    (ts set : List String) (x : String) → contains x set ≡ true → contains x (extend set ts) ≡ true
unfolding extend
contains-extend [] set x h = h
contains-extend (t ∷ rest) set x h = contains-extend rest _ x (contains-added x t set h)

AllIn-extend : (xs ts set : List String) → AllIn set xs → AllIn (extend set ts) xs
AllIn-extend [] ts set h = tt
AllIn-extend (x ∷ rest) ts set (h, later) =
    (contains-extend ts set x h, AllIn-extend rest ts set later)

extend-AllIn : (ts set : List String) → AllIn (extend set ts) ts
unfolding extend
extend-AllIn [] set = tt
extend-AllIn (t ∷ rest) set = (contains-extend rest _ t (added-contains t set), extend-AllIn rest _)

module _ {F : Type 0} where
  -- the symbols of every plan are in the set
  abbrev pub Covers : List String → List (BookPlan F) → Type 0
  Covers set [] = Unit
  Covers set (plan ∷ rest) = AllIn set plan.config.tickers × Covers set rest

  Covers-extend :
      (plans : List (BookPlan F)) (set ts : List String)
      → Covers set plans
      → Covers (extend set ts) plans
  Covers-extend [] set ts h = tt
  Covers-extend (plan ∷ rest) set ts (h, later) =
      (AllIn-extend plan.config.tickers ts set h, Covers-extend rest set ts later)

  Covers-append :
      (plans : List (BookPlan F)) (plan : BookPlan F) (set : List String)
      → Covers set plans
      → AllIn set plan.config.tickers
      → Covers set (plans ++ (plan ∷ []))
  Covers-append [] plan set h k = (k, tt)
  Covers-append (p ∷ rest) plan set (h, later) k = (h, Covers-append rest plan set later k)

  abbrev pub AllShadows : List (BookPlan F) → Type 0
  AllShadows [] = Unit
  AllShadows (plan ∷ rest) = (is_primary plan.spec ≡ false) × AllShadows rest

  -- what holds of the books hosted so far, the first of which is the primary `p`
  pub record IsHosting (limits : Limits) (p : BookPlan F) (start : List String) (h : Hosting F)
      : Type 0 where
    pub first : (rest : List (BookPlan F)) × (h.kept ≡ p ∷ rest)
    pub books : length h.kept ≤ larger 1 limits.max_books
    pub covered : Covers h.symbols h.kept
    pub symbols : length h.symbols ≤ larger (length start) limits.max_symbols

  skip-IsHosting :
      (limits : Limits) (p : BookPlan F) (start : List String) (h : Hosting F) (plan : BookPlan F)
      (why : SkipReason)
      → IsHosting limits p start h
      → IsHosting limits p start (skip h plan why)
  skip-IsHosting limits p start h plan why i = record {
    first = i.first;
    books = i.books;
    covered = i.covered;
    symbols = i.symbols;
  }

  keep-IsHosting :
      (limits : Limits) (p : BookPlan F) (start : List String) (h : Hosting F) (plan : BookPlan F)
      (union : List String)
      → leb limits.max_books (length h.kept) ≡ false
      → exceeds limits h.symbols union ≡ false
      → Covers union h.kept
      → AllIn union plan.config.tickers
      → IsHosting limits p start h
      → IsHosting limits p start (keep h plan union)
  keep-IsHosting limits p start h plan union few fits covers own i =
      let (rest, same) = i.first in
      let n = length-append h.kept (plan ∷ []) in
      let s = i.symbols in
      record {
        first = (rest ++ (plan ∷ []), ap (λ l. l ++ (plan ∷ [])) same);
        books = rw n (ground (arith, few));
        covered = Covers-append h.kept plan union covers own;
        symbols = ground (arith, fits, s);
      }

  host_shadow-IsHosting :
      (limits : Limits) (p : BookPlan F) (start : List String) (h : Hosting F) (plan : BookPlan F)
      → IsHosting limits p start h
      → IsHosting limits p start (host_shadow limits h plan (extend h.symbols plan.config.tickers))
  host_shadow-IsHosting limits p start h plan i =
      let union = extend h.symbols plan.config.tickers in
      elim (Bool-cases (leb limits.max_books (length h.kept))) [
        | inl full ↦ rw full (skip-IsHosting limits p start h plan max_books_reached i)
        | inr few ↦ rw few (elim (Bool-cases (exceeds limits h.symbols union)) [
          | inl over ↦
              rw over (skip-IsHosting limits p start h plan (too_many_symbols (length union)) i)
          | inr fits ↦ rw fits (
              keep-IsHosting limits p start h plan union few fits
                (Covers-extend h.kept h.symbols plan.config.tickers i.covered)
                (extend-AllIn plan.config.tickers h.symbols) i)
        ])
      ]

  host_all-IsHosting :
      (limits : Limits) (p : BookPlan F) (start : List String) (shadows : List (BookPlan F))
      (h : Hosting F)
      → AllShadows shadows
      → IsHosting limits p start h
      → IsHosting limits p start (host_all limits shadows h)
  unfolding host_all
  host_all-IsHosting limits p start [] h s i = i
  host_all-IsHosting limits p start (plan ∷ rest) h (s, later) i =
      host_all-IsHosting limits p start rest (host limits h plan) later
        (rw s (host_shadow-IsHosting limits p start h plan i))

  -- A roster with its primary first and shadows after it: the hosting keeps the primary first, keeps no
  -- more books than `max_books` or one, has subscribed to every ticker of every book that it keeps, and
  -- holds no more symbols than `max_symbols` or those that the primary and the index need.
  pub apply_limits-IsHosting :
      (limits : Limits) (p : BookPlan F) (shadows : List (BookPlan F)) (index : String)
      → is_primary p.spec ≡ true
      → AllShadows shadows
      → IsHosting limits p
          (extend (index ∷ []) p.config.tickers)
          (apply_limits (p ∷ shadows) limits index)
  unfolding apply_limits host_all
  apply_limits-IsHosting limits p shadows index h s =
      host_all-IsHosting limits p (extend (index ∷ []) p.config.tickers) shadows _ s (
        rw h (record {
          first = ([], refl);
          books = ground arith;
          covered = (extend-AllIn p.config.tickers (index ∷ []), tt);
          symbols = ground arith;
        }))
