-- ===== src/Prelude/Sorting/Order.antt =====
-- A stable sort puts a list in order, and a search of a list in order finds a best element.
use mathlib.Core.List.{reverse_aux, reverse}
use mathlib.Core.Path.{◌≡◌, refl, subst}
use mathlib.Core.Logic.{◌⊎◌, inl, inr}
use mathlib.Core.Bool.{Bool, true, false}
use mathlib.Core.Option.{Option, none, some}
use mathlib.Core.List.{List, [], ◌∷◌}
use native.Mathlib.Omega.{arith}
use galactic_trading_firm.Prelude.Tests.{if◌then◌else◌, Bool-cases}
use galactic_trading_firm.Prelude.Sorting.{
  insert_by, sort_by, find, All, IsIn, IsSorted, Agrees, IsBest,
}

module _ {ℓ} {A : Type ℓ} where
  module _ (P : A → Type 0) where
    All-insert_by :
        (after : A → A → Bool) (x : A) (ys : List A) → P x → All P ys → All P (insert_by after x ys)
    unfolding insert_by
    All-insert_by after x [] h k = (h, tt)
    All-insert_by after x (y ∷ ys) h (k, later) = elim (Bool-cases (after x y)) [
      | inl c ↦ rw c (k, All-insert_by after x ys h later)
      | inr c ↦ rw c (h, (k, later))
    ]

    All-sort_by : (after : A → A → Bool) (xs : List A) → All P xs → All P (sort_by after xs)
    unfolding sort_by
    All-sort_by after [] h = tt
    All-sort_by after (x ∷ xs) (h, later) =
        All-insert_by after x (sort_by after xs) h (All-sort_by after xs later)

    All-uninsert :
        (after : A → A → Bool) (x : A) (ys : List A) → All P (insert_by after x ys) → P x × All P ys
    unfolding insert_by
    All-uninsert after x [] h = h
    All-uninsert after x (y ∷ ys) h = elim (Bool-cases (after x y)) [
      | inl c ↦
          let (k, later) =
            subst (λ b. All P (if b then y ∷ insert_by after x ys else x ∷ y ∷ ys)) c h in
          let (hx, rest) = All-uninsert after x ys later in (hx, (k, rest))
      | inr c ↦ subst (λ b. All P (if b then y ∷ insert_by after x ys else x ∷ y ∷ ys)) c h
    ]

    All-unsort : (after : A → A → Bool) (xs : List A) → All P (sort_by after xs) → All P xs
    unfolding sort_by
    All-unsort after [] h = tt
    All-unsort after (x ∷ xs) h =
        let (hx, rest) = All-uninsert after x (sort_by after xs) h in (hx, All-unsort after xs rest)

    All-unreverse : (xs ys : List A) → All P (reverse_aux xs ys) → All P xs × All P ys
    All-unreverse [] ys h = (tt, h)
    All-unreverse (x ∷ xs) ys h = let (k, (hx, l)) = All-unreverse xs (x ∷ ys) h in ((hx, k), l)

    All-reverse : (xs ys : List A) → All P xs → All P ys → All P (reverse_aux xs ys)
    All-reverse [] ys h k = k
    All-reverse (x ∷ xs) ys (hx, h) k = All-reverse xs (x ∷ ys) h (hx, k)

  insert_by-IsIn :
      (after : A → A → Bool) (t x : A) (ys : List A)
      → IsIn t (insert_by after x ys)
      → IsIn t (x ∷ ys)
  unfolding insert_by
  insert_by-IsIn after t x [] h = h
  insert_by-IsIn after t x (y ∷ ys) h = elim (Bool-cases (after x y)) [
    | inl c ↦ elim (subst (λ b. IsIn t (if b then y ∷ insert_by after x ys else x ∷ y ∷ ys)) c h) [
      | inl e ↦ inr (inl e)
      | inr l ↦ elim (insert_by-IsIn after t x ys l) [ inl e ↦ inl e | inr k ↦ inr (inr k) ]
    ]
    | inr c ↦ subst (λ b. IsIn t (if b then y ∷ insert_by after x ys else x ∷ y ∷ ys)) c h
  ]

  sort_by-IsIn :
      (after : A → A → Bool) (t : A) (xs : List A) → IsIn t (sort_by after xs) → IsIn t xs
  unfolding sort_by
  sort_by-IsIn after t [] h = h
  sort_by-IsIn after t (x ∷ xs) h = elim (insert_by-IsIn after t x (sort_by after xs) h) [
    | inl e ↦ inl e
    | inr l ↦ inr (sort_by-IsIn after t xs l)
  ]

  reverse-IsIn : (t : A) (xs ys : List A) → IsIn t (reverse_aux xs ys) → IsIn t xs ⊎ IsIn t ys
  reverse-IsIn t [] ys h = inr h
  reverse-IsIn t (x ∷ xs) ys h = elim (reverse-IsIn t xs (x ∷ ys) h) [
    | inl l ↦ inl (inr l)
    | inr k ↦ elim k [ inl e ↦ inl (inl e) | inr l ↦ inr l ]
  ]

  All-trans :
      (R : A → A → Type 0) (x y : A) (zs : List A)
      → ((z : A) → R y z → R x z)
      → All (R y) zs
      → All (R x) zs
  All-trans R x y [] f h = tt
  All-trans R x y (z ∷ zs) f (h, later) = (f z h, All-trans R x y zs f later)

  module _ {after : A → A → Bool} {N : A → Type 0} {R : A → A → Type 0} (a : Agrees after N R) where
    insert_by-IsSorted :
        (x : A) (ys : List A) → N x → All N ys → IsSorted R ys → IsSorted R (insert_by after x ys)
    unfolding insert_by
    insert_by-IsSorted x [] n ns s = (tt, tt)
    insert_by-IsSorted x (y ∷ ys) n (m, ns) (h, s) = elim (Bool-cases (after x y)) [
      | inl c ↦
          rw c (All-insert_by (R y) after x ys (a.swapped x y c) h, insert_by-IsSorted x ys n ns s)
      | inr c ↦
          let r = a.kept x y n m c in
          rw c ((r, All-trans R x y ys (λ z k. a.trans x y z r k) h), (h, s))
    ]

    pub sort_by-IsSorted : (xs : List A) → All N xs → IsSorted R (sort_by after xs)
    unfolding sort_by
    sort_by-IsSorted [] h = tt
    sort_by-IsSorted (x ∷ xs) (n, ns) =
        insert_by-IsSorted x (sort_by after xs) n (All-sort_by N after xs ns)
          (sort_by-IsSorted xs ns)

  reverse-IsSorted :
      (R : A → A → Type 0) (xs ys : List A)
      → IsSorted R xs
      → IsSorted (λ x y. R y x) ys
      → All (λ z. All (λ y. R y z) ys) xs
      → IsSorted (λ x y. R y x) (reverse_aux xs ys)
  reverse-IsSorted R [] ys s r cross = r
  reverse-IsSorted R (x ∷ xs) ys (h, s) r (c, cross) =
      reverse-IsSorted R xs (x ∷ ys) s (c, r) (paired xs h cross)
    where
      paired :
          (zs : List A)
          → All (R x) zs
          → All (λ z. All (λ y. R y z) ys) zs
          → All (λ z. R x z × All (λ y. R y z) ys) zs
      paired [] h c = tt
      paired (z ∷ zs) (h, hs) (c, cs) = ((h, c), paired zs hs cs)

  module _ (R : A → A → Type 0) (p : A → Bool) where
    cons_IsBest :
        (x : A) (xs : List A) (o : Option A) → p x ≡ false → IsBest R p xs o → IsBest R p (x ∷ xs) o
    cons_IsBest x xs none c b = record { lower = (c, b.lower) }
    cons_IsBest x xs (some t) c (i, q, later) = (inr i, q, ((λ k. ground (arith, c, k)), later))

    matched : (t : A) (xs : List A) → All (R t) xs → All (λ x. p x ≡ true → R t x) xs
    matched t [] h = tt
    matched t (x ∷ xs) (h, later) = ((λ k. h), matched t xs later)

    pub find-IsBest :
        (xs : List A) → All (λ x. R x x) xs → IsSorted R xs → IsBest R p xs (find p xs)
    unfolding find
    find-IsBest [] r s = record { lower = tt }
    find-IsBest (x ∷ xs) (r, rs) (h, s) = elim (Bool-cases (p x)) [
      | inl c ↦ rw c (inl refl, c, ((λ k. r), matched x xs h))
      | inr c ↦ rw c (cons_IsBest x xs (find p xs) c (find-IsBest xs rs s))
    ]

    pub sort_by-IsBest :
        (after : A → A → Bool) (xs : List A) (o : Option A)
        → IsBest R p (sort_by after xs) o
        → IsBest R p xs o
    sort_by-IsBest after xs none b = record {
      lower = All-unsort (λ x. p x ≡ false) after xs b.lower;
    }
    sort_by-IsBest after xs (some t) (i, q, h) =
        (sort_by-IsIn after t xs i, q, All-unsort (λ x. p x ≡ true → R t x) after xs h)

    pub reverse-IsBest : (xs : List A) (o : Option A) → IsBest R p (reverse xs) o → IsBest R p xs o
    reverse-IsBest xs none b =
        let (h, _) = All-unreverse (λ x. p x ≡ false) xs [] b.lower in record { lower = h }
    reverse-IsBest xs (some t) (i, q, b) =
        let (h, _) = All-unreverse (λ x. p x ≡ true → R t x) xs [] b in
        (elim (reverse-IsIn t xs [] i) [ inl k ↦ k | inr k ↦ absurd k.lower ], q, h)

  emptied : (R : A → A → Type 0) (xs : List A) → All (λ z. All (λ y. R y z) []) xs
  emptied R [] = tt
  emptied R (x ∷ xs) = (tt, emptied R xs)

  module _ {after : A → A → Bool} {N : A → Type 0} {R : A → A → Type 0} (a : Agrees after N R)
      (r : (x : A) → N x → R x x) (p : A → Bool) where
    reflexive : (xs : List A) → All N xs → All (λ x. R x x) xs
    reflexive [] h = tt
    reflexive (x ∷ xs) (h, later) = (r x h, reflexive xs later)

    -- The first match of a list sorted upwards is the least one.
    pub find-sort_by : (xs : List A) → All N xs → IsBest R p xs (find p (sort_by after xs))
    find-sort_by xs h = sort_by-IsBest R p after xs _ (
        find-IsBest R p _ (All-sort_by (λ x. R x x) after xs (reflexive xs h))
          (sort_by-IsSorted a xs h))

    -- The first match from the end is the greatest one.
    pub find-reverse :
        (xs : List A) → All N xs → IsBest (λ x y. R y x) p xs (find p (reverse (sort_by after xs)))
    find-reverse xs h =
        let sorted = sort_by after xs in
        let same = All-sort_by (λ x. R x x) after xs (reflexive xs h) in
        sort_by-IsBest (λ x y. R y x) p after xs _
          (reverse-IsBest (λ x y. R y x) p sorted _
            (find-IsBest (λ x y. R y x) p (reverse sorted)
              (All-reverse (λ x. R x x) sorted [] same tt)
              (reverse-IsSorted R sorted [] (sort_by-IsSorted a xs h) tt (emptied R sorted))))
