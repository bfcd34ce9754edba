-- ===== src/Actions/Build/Ranked.antt =====
-- crates/actions/src/lib.rs: which actions `build_actions` gives a phase, and in which order.
use galactic_trading_firm.Prelude.{
  ◌≡◌, refl, sym, ap, ◌∙◌, subst, Option, none, some, Bool, true, false, ◌&&◌, List, [], ◌∷◌, ◌++◌,
  if◌then◌else◌, Bool-cases, inl, inr, arith, map,
}
use galactic_trading_firm.Prelude.Int.{ℤ, ltb_ℤ}
use galactic_trading_firm.Prelude.Maps.{Map, lookup}
use galactic_trading_firm.Prelude.Sorting.{sort_by, All, Agrees, IsIn, IsSorted}
use galactic_trading_firm.Prelude.Sorting.Order.{sort_by-IsSorted}
use galactic_trading_firm.Action.{Action, ActionPhase, entry, monitor, exit, sizing}
use galactic_trading_firm.Engine.Position.{Fallible, ok, err}
use galactic_trading_firm.Actions.Build.{
  ActionConfig, ByPhase, push, collect, made, keep_made, sorted_phases, build_actions, ranked,
  ranked_by_phase, is_later, action_of,
}

abbrev pub of_phase : {A : Type 0} → ActionPhase → ByPhase A → List A
of_phase entry x = x.entry
of_phase monitor x = x.monitor
of_phase exit x = x.exit
of_phase sizing x = x.sizing

abbrev pub same_phase : ActionPhase → ActionPhase → Bool
same_phase entry entry = true
same_phase monitor monitor = true
same_phase exit exit = true
same_phase sizing sizing = true
same_phase _ _ = false

earlier : (p q : ℤ) → ltb_ℤ q p ≡ true → ltb_ℤ p q ≡ false
earlier p q h = ground (arith, h)

chained : (p q r : ℤ) → ltb_ℤ q p ≡ false → ltb_ℤ r q ≡ false → ltb_ℤ r p ≡ false
chained p q r h k = ground (arith, h, k)

append_nil : {A : Type 0} (xs : List A) → xs ++ [] ≡ xs
append_nil [] = refl
append_nil (x ∷ xs) = ap (λ l. x ∷ l) (append_nil xs)

append_one :
    {A : Type 0} (xs : List A) (x : A) (ys : List A) → (xs ++ (x ∷ [])) ++ ys ≡ xs ++ (x ∷ ys)
append_one [] x ys = refl
append_one (y ∷ xs) x ys = ap (λ l. y ∷ l) (append_one xs x ys)

of_phase-push :
    {A : Type 0} (p q : ActionPhase) (a : A) (x : ByPhase A) (ys : List A)
    → of_phase p (push q a x) ++ ys ≡ of_phase p x ++ (if same_phase p q then a ∷ ys else ys)
of_phase-push entry entry a x ys = append_one x.entry a ys
of_phase-push monitor monitor a x ys = append_one x.monitor a ys
of_phase-push exit exit a x ys = append_one x.exit a ys
of_phase-push sizing sizing a x ys = append_one x.sizing a ys
of_phase-push entry monitor a x ys = refl
of_phase-push entry exit a x ys = refl
of_phase-push entry sizing a x ys = refl
of_phase-push monitor entry a x ys = refl
of_phase-push monitor exit a x ys = refl
of_phase-push monitor sizing a x ys = refl
of_phase-push exit entry a x ys = refl
of_phase-push exit monitor a x ys = refl
of_phase-push exit sizing a x ys = refl
of_phase-push sizing entry a x ys = refl
of_phase-push sizing monitor a x ys = refl
of_phase-push sizing exit a x ys = refl

module _ {A : Type 0} where
  -- `a` does not come after `b` in the order of priority
  abbrev pub NotAfter : ℤ × A → ℤ × A → Type 0
  NotAfter (p, a) (q, b) = ltb_ℤ q p ≡ false

  is_later-Agrees : Agrees (is_later {A = A}) (λ x. Unit) NotAfter
  is_later-Agrees = record {
    swapped = λ x y h. earlier x.0 y.0 h;
    kept = λ x y n m h. h;
    trans = λ x y z h k. chained x.0 y.0 z.0 h k;
  }

  all_of : (xs : List (ℤ × A)) → All (λ x. Unit) xs
  all_of [] = tt
  all_of (x ∷ xs) = (tt, all_of xs)

  of_phase-ranked :
      (p : ActionPhase) (x : ByPhase (ℤ × A))
      → of_phase p (ranked_by_phase x) ≡ ranked (of_phase p x)
  of_phase-ranked entry x = refl
  of_phase-ranked monitor x = refl
  of_phase-ranked exit x = refl
  of_phase-ranked sizing x = refl

  of_phase-none :
      (p : ActionPhase)
      → of_phase {A = A} p (record { entry = []; monitor = []; exit = []; sizing = [] }) ≡ []
  of_phase-none entry = refl
  of_phase-none monitor = refl
  of_phase-none exit = refl
  of_phase-none sizing = refl

module _ {F J : Type 0} (registry : Map (ActionConfig J → Action F)) where
  abbrev pub with_made :
      ActionConfig J
      → Option (ActionConfig J → Action F)
      → List (ℤ × Action F)
      → List (ℤ × Action F)
  with_made c none later = later
  with_made c (some factory) later = (c.priority, factory c) ∷ later

  -- the enabled configurations of a phase, in their order, with what their factories make
  abbrev pub candidates : ActionPhase → List (ActionConfig J) → List (ℤ × Action F)
  candidates p [] = []
  candidates p (c ∷ rest) =
      let later = candidates p rest in
      if c.enabled && same_phase p c.phase
      then with_made c (lookup c.action_type registry) later
      else later

  -- the configuration that no factory is registered for
  abbrev pub Unknown : List (ActionConfig J) → Type 0
  Unknown configs =
      (c : ActionConfig J) × IsIn c configs
      × (c.enabled ≡ true)
      × (lookup c.action_type registry ≡ none)

  abbrev IsCollected :
      ActionPhase
      → List (ActionConfig J)
      → ByPhase (ℤ × Action F)
      → Fallible (ByPhase (ℤ × Action F))
      → Type 0
  IsCollected p configs x (ok y) = of_phase p y ≡ of_phase p x ++ candidates p configs
  IsCollected p configs x (err e) = Unknown configs

  Unknown-cons :
      (c : ActionConfig J) (rest : List (ActionConfig J)) → Unknown rest → Unknown (c ∷ rest)
  Unknown-cons c rest (d, i, on, h) = (d, inr i, on, h)

  after_skip :
      (p : ActionPhase) (c : ActionConfig J) (rest : List (ActionConfig J))
      (x : ByPhase (ℤ × Action F)) (r : Fallible (ByPhase (ℤ × Action F)))
      → candidates p (c ∷ rest) ≡ candidates p rest
      → IsCollected p rest x r
      → IsCollected p (c ∷ rest) x r
  after_skip p c rest x (ok y) same h = h ∙ ap (λ l. of_phase p x ++ l) (sym same)
  after_skip p c rest x (err e) same h = Unknown-cons c rest h

  after_push :
      (p : ActionPhase) (c : ActionConfig J) (rest : List (ActionConfig J)) (a : ℤ × Action F)
      (x : ByPhase (ℤ × Action F)) (r : Fallible (ByPhase (ℤ × Action F)))
      → candidates p (c ∷ rest)
        ≡ (if same_phase p c.phase then a ∷ candidates p rest else candidates p rest)
      → IsCollected p rest (push c.phase a x) r
      → IsCollected p (c ∷ rest) x r
  after_push p c rest a x (ok y) same h =
      h ∙ of_phase-push p c.phase a x (candidates p rest) ∙ ap (λ l. of_phase p x ++ l) (sym same)
  after_push p c rest a x (err e) same h = Unknown-cons c rest h

  keep_made-IsCollected :
      (p : ActionPhase) (c : ActionConfig J) (rest : List (ActionConfig J))
      (x : ByPhase (ℤ × Action F)) (o : Option (ActionConfig J → Action F))
      → c.enabled ≡ true
      → lookup c.action_type registry ≡ o
      → ((z : ByPhase (ℤ × Action F)) → IsCollected p rest z (collect registry rest z))
      → IsCollected p
          (c ∷ rest)
          x
          (keep_made registry c.phase (collect registry rest) x (made registry c o))
  keep_made-IsCollected p c rest x none on found ih = (c, inl refl, on, found)
  keep_made-IsCollected p c rest x (some factory) on found ih =
      after_push p c rest (c.priority, factory c) x _ (rw on (rw found refl))
        (ih (push c.phase (c.priority, factory c) x))

  collect-IsCollected :
      (p : ActionPhase) (configs : List (ActionConfig J)) (x : ByPhase (ℤ × Action F))
      → IsCollected p configs x (collect registry configs x)
  unfolding collect
  collect-IsCollected p [] x = sym (append_nil (of_phase p x))
  collect-IsCollected p (c ∷ rest) x =
      let kept =
        keep_made registry c.phase (collect registry rest) x
          (made registry c (lookup c.action_type registry)) in
      let goal =
        λ (b : Bool). IsCollected p (c ∷ rest) x (if b then kept else collect registry rest x) in
      elim (Bool-cases c.enabled) [
        | inl on ↦ subst goal (sym on) (
            keep_made-IsCollected p c rest x (lookup c.action_type registry) on refl
              (collect-IsCollected p rest))
        | inr off ↦
            subst goal (sym off)
              (after_skip p c rest x _ (rw off refl) (collect-IsCollected p rest x))
      ]

  -- For a phase: its actions are those of its candidates in a stable order of priority. An error
  -- names an enabled configuration without a factory.
  abbrev pub IsBuilt : ActionPhase → List (ActionConfig J) → Fallible (ByPhase (Action F)) → Type 0
  IsBuilt p configs (ok y) =
      (of_phase p y ≡ map action_of (sort_by is_later (candidates p configs)))
      × IsSorted NotAfter (sort_by is_later (candidates p configs))
  IsBuilt p configs (err e) = Unknown configs

  sorted_phases-IsBuilt :
      (p : ActionPhase) (configs : List (ActionConfig J)) (r : Fallible (ByPhase (ℤ × Action F)))
      → IsCollected p configs (record { entry = []; monitor = []; exit = []; sizing = [] }) r
      → IsBuilt p configs (sorted_phases registry r)
  sorted_phases-IsBuilt p configs (ok y) h = (
    of_phase-ranked p y ∙ ap ranked (h ∙ ap (λ l. l ++ candidates p configs) (of_phase-none p)),
    sort_by-IsSorted is_later-Agrees (candidates p configs) (all_of (candidates p configs)),
  )
  sorted_phases-IsBuilt p configs (err e) h = h

  -- When every enabled configuration has a factory, a phase's actions are what the factories make of
  -- its enabled configurations, in order of priority, equal ones in the order of the configurations.
  -- It fails only where an enabled configuration has no factory.
  pub build_actions-IsBuilt :
      (p : ActionPhase) (configs : List (ActionConfig J))
      → IsBuilt p configs (build_actions registry configs)
  unfolding build_actions
  build_actions-IsBuilt p configs =
      sorted_phases-IsBuilt p configs _ (collect-IsCollected p configs _)
