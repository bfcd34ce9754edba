-- ===== src/Book/Roster/Warmup.antt =====
-- crates/data_feed/src/book.rs: the days of history that `warmup_plan` gives a traded symbol.
use text.Mathlib.Text.{◌==◌}
use mathlib.Core.Bool.{true≢false}
use text.Mathlib.TextPositions.{eq_refl}
use text.Mathlib.TextEquality.{eq_iff}
use galactic_trading_firm.Prelude.{
  ℕ, ◌≤◌, ◌≡◌, refl, sym, ap, ◌∙◌, subst, Option, none, some, true, false, List, [], ◌∷◌, String,
  leb, leb→le, arith, Bool-cases, ◌⊎◌, inl, inr,
}
use galactic_trading_firm.Prelude.Maps.{Map, lookup, insert}
use galactic_trading_firm.Prelude.Maps.Keys.{lookup-insert, lookup-insert_other}
use galactic_trading_firm.Engine.Gates.{get_or}
use galactic_trading_firm.Engine.Position.{is_some}
use galactic_trading_firm.Book.Swap.{contains}
use galactic_trading_firm.Book.Roster.{
  WarmupInput, Traded, days_for, days_of, is_enough, raise_one, raise_all, traded_by, days_by,
  warmup_plan,
}

abbrev pub IsAmong : WarmupInput → List WarmupInput → Type 0
IsAmong b [] = ⊥
IsAmong b (x ∷ rest) = (b ≡ x) ⊎ IsAmong b rest

abbrev pub Trades : WarmupInput → String → Type 0
Trades b t = contains t b.tickers ≡ true

abbrev IsEnough : Map Traded → String → ℕ → Type 0
IsEnough m t n = is_enough (lookup t m) n ≡ true

enough_below :
    (o : Option Traded) (n d : ℕ) → is_enough o n ≡ true → is_enough o d ≡ false → leb n d ≡ true
enough_below none n d h k = absurd (ground arith)
enough_below (some r) n d h k = ground arith

raise_one-raises :
    (b : WarmupInput) (m : Map Traded) (t : String) → IsEnough (raise_one b m t) t (days_of b)
raise_one-raises b m t = elim (Bool-cases (is_enough (lookup t m) (days_of b))) [
  | inl had ↦ rw had had
  | inr less ↦ rw less (rw (lookup-insert t _ m) (ground arith))
]

raise_one-keeps :
    (b : WarmupInput) (m : Map Traded) (u t : String) (n : ℕ)
    → IsEnough m t n
    → IsEnough (raise_one b m u) t n
raise_one-keeps b m u t n h = elim (Bool-cases (is_enough (lookup u m) (days_of b))) [
  | inl had ↦ rw had h
  | inr less ↦ rw less (elim (Bool-cases (u == t)) [
    | inl same ↦
        let is = (eq_iff u t).0 same in
        rw is (
          rw (lookup-insert t _ m) (
            enough_below (lookup t m) n (days_of b) h
              (subst (λ x. is_enough (lookup x m) (days_of b) ≡ false) is less)))
    | inr differs ↦ rw (lookup-insert_other u t _ m differs) h
  ])
]

raise_all-keeps :
    (ts : List String) (b : WarmupInput) (m : Map Traded) (t : String) (n : ℕ)
    → IsEnough m t n
    → IsEnough (raise_all ts b m) t n
unfolding raise_all
raise_all-keeps [] b m t n h = h
raise_all-keeps (u ∷ rest) b m t n h =
    raise_all-keeps rest b (raise_one b m u) t n (raise_one-keeps b m u t n h)

raise_all-raises :
    (ts : List String) (b : WarmupInput) (m : Map Traded) (t : String)
    → contains t ts ≡ true
    → IsEnough (raise_all ts b m) t (days_of b)
unfolding raise_all
raise_all-raises [] b m t h = absurd (ground arith)
raise_all-raises (u ∷ rest) b m t h = elim (Bool-cases (u == t)) [
  | inl same ↦ raise_all-keeps rest b (raise_one b m u) t (days_of b) (
      subst (λ x. IsEnough (raise_one b m u) x (days_of b)) ((eq_iff u t).0 same)
        (raise_one-raises b m u))
  | inr differs ↦ raise_all-raises rest b (raise_one b m u) t (sym (rw differs refl) ∙ h)
]

traded_by-keeps :
    (books : List WarmupInput) (m : Map Traded) (t : String) (n : ℕ)
    → IsEnough m t n
    → IsEnough (traded_by books m) t n
unfolding traded_by
traded_by-keeps [] m t n h = h
traded_by-keeps (b ∷ rest) m t n h =
    traded_by-keeps rest (raise_all b.tickers b m) t n (raise_all-keeps b.tickers b m t n h)

traded_by-raises :
    (books : List WarmupInput) (m : Map Traded) (b : WarmupInput) (t : String)
    → IsAmong b books
    → Trades b t
    → IsEnough (traded_by books m) t (days_of b)
unfolding traded_by
traded_by-raises [] m b t among h = elim among [ ]
traded_by-raises (x ∷ rest) m b t (inl same) h =
    subst (λ y. IsEnough (traded_by rest (raise_all x.tickers x m)) t (days_of y)) (sym same)
      (traded_by-keeps rest (raise_all x.tickers x m) t (days_of x)
        (raise_all-raises x.tickers x m t (subst (λ y. Trades y t) same h)))
traded_by-raises (x ∷ rest) m b t (inr later) h =
    traded_by-raises rest (raise_all x.tickers x m) b t later h

-- a book that trades the symbol and asks for so many days
abbrev pub Sourced : List WarmupInput → String → ℕ → Type 0
Sourced books t n = (b : WarmupInput) × IsAmong b books × Trades b t × (days_of b ≡ n)

abbrev AllSourced : List WarmupInput → Map Traded → Type 0
AllSourced books m = (t : String) (r : Traded) → lookup t m ≡ some r → Sourced books t r.days

same_some : (r r' : Traded) → some r ≡ some r' → r ≡ r'
same_some r r' h = ap (λ o. get_or o r) h

raise_one-AllSourced :
    (books : List WarmupInput) (b : WarmupInput) (m : Map Traded) (u : String)
    → IsAmong b books
    → Trades b u
    → AllSourced books m
    → AllSourced books (raise_one b m u)
raise_one-AllSourced books b m u among trades all t r =
    elim (Bool-cases (is_enough (lookup u m) (days_of b))) [
      | inl had ↦ λ h. all t r (subst (λ x. lookup t x ≡ some r) (rw had refl) h)
      | inr less ↦ by_key less
    ]
  where
    new : Traded
    new = record { days = days_of b; by = b.book }

    set_here : is_enough (lookup u m) (days_of b) ≡ false → raise_one b m u ≡ insert u new m
    set_here less = rw less

    by_key :
        is_enough (lookup u m) (days_of b) ≡ false
        → lookup t (raise_one b m u) ≡ some r
        → Sourced books t r.days
    by_key less h = elim (Bool-cases (u == t)) [
      | inl same ↦
          let is = (eq_iff u t).0 same in
          let found =
            sym (ap (lookup t) (subst (λ x. raise_one b m u ≡ insert x new m) is (set_here less)))
            ∙ h in
          (
            b,
            among,
            subst (Trades b) is trades,
            ap (λ (x : Traded). x.days) (same_some new r (sym (lookup-insert t new m) ∙ found)),
          )
      | inr differs ↦
          all t r
            (sym (lookup-insert_other u t new m differs) ∙ sym (ap (lookup t) (set_here less)) ∙ h)
    ]

raise_all-AllSourced :
    (ts : List String) (books : List WarmupInput) (b : WarmupInput) (m : Map Traded)
    → IsAmong b books
    → ((t : String) → contains t ts ≡ true → Trades b t)
    → AllSourced books m
    → AllSourced books (raise_all ts b m)
unfolding raise_all
raise_all-AllSourced [] books b m among trades all = all
raise_all-AllSourced (u ∷ rest) books b m among trades all =
    raise_all-AllSourced rest books b (raise_one b m u) among
      (λ t h. trades t (elim (Bool-cases (u == t)) [ inl c ↦ rw c | inr c ↦ rw c h ]))
      (raise_one-AllSourced books b m u among (trades u (rw (eq_refl u))) all)

traded_by-AllSourced :
    (rest books : List WarmupInput) (m : Map Traded)
    → ((b : WarmupInput) → IsAmong b rest → IsAmong b books)
    → AllSourced books m
    → AllSourced books (traded_by rest m)
unfolding traded_by
traded_by-AllSourced [] books m within all = all
traded_by-AllSourced (b ∷ rest) books m within all =
    traded_by-AllSourced rest books (raise_all b.tickers b m) (λ x h. within x (inr h))
      (raise_all-AllSourced b.tickers books b m (within b (inl refl)) (λ t h. h) all)

lookup-days_by :
    (m : Map Traded) (t : String) (r : Traded)
    → lookup t m ≡ some r
    → lookup t (days_by m) ≡ some r.days
unfolding days_by lookup
lookup-days_by [] t r h = absurd (ground arith)
lookup-days_by ((u, x) ∷ rest) t r h = elim (Bool-cases (u == t)) [
  | inl same ↦
      rw same (ap some (ap (λ (y : Traded). y.days) (same_some x r (sym (rw same refl) ∙ h))))
  | inr differs ↦ rw differs (lookup-days_by rest t r (sym (rw differs refl) ∙ h))
]

found_of : (o : Option Traded) (n : ℕ) → is_enough o n ≡ true → (r : Traded) × (o ≡ some r)
found_of none n h = absurd (ground arith)
found_of (some r) n h = (r, refl)

untraded :
    (books : List WarmupInput) (index t : String) (r : Traded)
    → lookup t (traded_by books []) ≡ some r
    → is_some (lookup index (traded_by books [])) ≡ false
    → (index == t) ≡ false
untraded books index t r h k = elim (Bool-cases (index == t)) [
  | inl same ↦
      let found =
        subst (λ x. lookup x (traded_by books []) ≡ some r) (sym ((eq_iff index t).0 same)) h in
      absurd (true≢false (sym (ap is_some found) ∙ k))
  | inr differs ↦ differs
]

planned :
    (books : List WarmupInput) (index t : String) (r : Traded)
    → lookup t (traded_by books []) ≡ some r
    → days_for (warmup_plan books index) t ≡ r.days
unfolding warmup_plan
planned books index t r h = elim (Bool-cases (is_some (lookup index (traded_by books [])))) [
  | inl hosted ↦ rw hosted (rw (lookup-days_by (traded_by books []) t r h) refl)
  | inr unhosted ↦ rw unhosted (
      rw
        (lookup-insert_other index t _ (days_by (traded_by books []))
          (untraded books index t r h unhosted))
        (rw (lookup-days_by (traded_by books []) t r h) refl))
]

nothing_looked_up : (t : String) (r : Traded) → lookup t [] ≡ some r → ⊥
unfolding lookup
nothing_looked_up t r h = absurd (ground arith)

-- The history of a symbol that books trade is the most that one of them asks for: no book that trades
-- it asks for more, and one of them asks for just that.
pub warmup_plan_most :
    (books : List WarmupInput) (index : String) (b : WarmupInput) (t : String)
    → IsAmong b books
    → Trades b t
    → (days_of b ≤ days_for (warmup_plan books index) t)
      × Sourced books t (days_for (warmup_plan books index) t)
warmup_plan_most books index b t among trades =
    let enough = traded_by-raises books [] b t among trades in
    let (r, found) = found_of (lookup t (traded_by books [])) (days_of b) enough in
    let same = planned books index t r found in
    let most = subst (λ o. is_enough o (days_of b) ≡ true) found enough in
    let (x, in_books, source, asks) =
      traded_by-AllSourced books books [] (λ x h. h) (λ t r h. absurd (nothing_looked_up t r h)) t r
        found in
    (rw same (leb→le (days_of b) r.days most), (x, in_books, source, asks ∙ sym same))
