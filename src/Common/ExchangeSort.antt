-- ===== src/Common/ExchangeSort.antt =====
-- The sort that the program writes out twice: for each place from the left, every later element that
-- is smaller is exchanged with the one that stands there.
use Prim.Native.Nat.{ℕ, zero, suc, ◌≤◌}
use mathlib.Core.Path.{◌≡◌, refl, ap, ◌∙◌}
use mathlib.Core.Logic.{inl, inr}
use mathlib.Core.Bool.{Bool, true, false}
use mathlib.Core.List.{List, [], ◌∷◌, map, Perm}
use mathlib.Core.List.Perm
use native.Mathlib.Omega.{arith}
use mediarr.Common.Tests.{if◌then◌else◌, Bool-cases}
use mediarr.Common.Lists.{length, length-map}

-- What a sort needs of its test `greater`.
pub record IsOrder {ℓ} {A : Type ℓ} (greater : A → A → Bool) : Type ℓ where
  pub irrefl : (a : A) → greater a a ≡ false
  pub asym : (a b : A) → greater a b ≡ true → greater b a ≡ false
  pub trans : (a b c : A) → greater a b ≡ false → greater b c ≡ false → greater a c ≡ false

module _ {ℓ} {A : Type ℓ} (greater : A → A → Bool) where
  -- The inner loop: `x` stands at the place, and the smallest is found there in the end.
  unfoldable pub pass : A → List A → A × List A
  pass x [] = (x, [])
  pass x (y ∷ ys) =
      let (m, rest) = pass (if greater x y then y else x) ys in
      (m, (if greater x y then x else y) ∷ rest)

  -- One round for each place.
  unfoldable pub sort_rounds : ℕ → List A → List A
  unfolding pass
  sort_rounds zero xs = xs
  sort_rounds (suc n) [] = []
  sort_rounds (suc n) (x ∷ xs) = let (m, rest) = pass x xs in m ∷ sort_rounds n rest

  unfoldable pub exchange_sort : List A → List A
  unfolding sort_rounds
  exchange_sort xs = sort_rounds (length xs) xs

  -- `a` is not above any of the elements.
  abbrev pub LeAll : A → List A → Type 0
  LeAll a [] = Unit
  LeAll a (x ∷ xs) = (greater a x ≡ false) × LeAll a xs

  abbrev pub IsSorted : List A → Type 0
  IsSorted [] = Unit
  IsSorted (x ∷ xs) = LeAll x xs × IsSorted xs

  pass-perm : (x : A) (ys : List A) → Perm (x ∷ ys) ((pass x ys).0 ∷ (pass x ys).1)
  unfolding pass
  pass-perm x [] = Perm.refl (x ∷ [])
  pass-perm x (y ∷ ys) = elim (Bool-cases (greater x y)) [
    | inl e ↦ rw e (Perm.trans (Perm.cons x (pass-perm y ys)) (Perm.swap _ x _))
    | inr e ↦ rw e (
        Perm.trans (Perm.swap y x ys) (Perm.trans (Perm.cons y (pass-perm x ys)) (Perm.swap _ y _)))
  ]

  sort_rounds-perm : (n : ℕ) (xs : List A) → Perm xs (sort_rounds n xs)
  unfolding sort_rounds
  sort_rounds-perm zero xs = Perm.refl xs
  sort_rounds-perm (suc n) [] = Perm.refl []
  sort_rounds-perm (suc n) (x ∷ xs) =
      Perm.trans (pass-perm x xs) (Perm.cons _ (sort_rounds-perm n ((pass x xs).1)))

  -- Nothing is lost and nothing is added.
  pub exchange_sort-perm : (xs : List A) → Perm xs (exchange_sort xs)
  unfolding exchange_sort
  exchange_sort-perm xs = sort_rounds-perm (length xs) xs

  length-pass : (x : A) (ys : List A) → length ((pass x ys).1) ≡ length ys
  unfolding pass
  length-pass x [] = refl
  length-pass x (y ∷ ys) = ap suc (length-pass (if greater x y then y else x) ys)

  length-sort_rounds : (n : ℕ) (xs : List A) → length (sort_rounds n xs) ≡ length xs
  unfolding sort_rounds
  length-sort_rounds zero xs = refl
  length-sort_rounds (suc n) [] = refl
  length-sort_rounds (suc n) (x ∷ xs) =
      ap suc (length-sort_rounds n ((pass x xs).1) ∙ length-pass x xs)

  pub length-exchange_sort : (xs : List A) → length (exchange_sort xs) ≡ length xs
  unfolding exchange_sort
  length-exchange_sort xs = length-sort_rounds (length xs) xs

  pass-LeAll :
      (a x : A) (ys : List A)
      → greater a x ≡ false
      → LeAll a ys
      → (greater a ((pass x ys).0) ≡ false) × LeAll a ((pass x ys).1)
  unfolding pass
  pass-LeAll a x [] h all = (h, tt)
  pass-LeAll a x (y ∷ ys) h (k, all) = elim (Bool-cases (greater x y)) [
    | inl e ↦ rw e (let (p, q) = pass-LeAll a y ys k all in (p, (h, q)))
    | inr e ↦ rw e (let (p, q) = pass-LeAll a x ys h all in (p, (k, q)))
  ]

  sort_rounds-LeAll : (a : A) (n : ℕ) (xs : List A) → LeAll a xs → LeAll a (sort_rounds n xs)
  unfolding sort_rounds
  sort_rounds-LeAll a zero xs all = all
  sort_rounds-LeAll a (suc n) [] all = tt
  sort_rounds-LeAll a (suc n) (x ∷ xs) (h, all) =
      let (p, q) = pass-LeAll a x xs h all in (p, sort_rounds-LeAll a n ((pass x xs).1) q)

  pass_sorted : (x : A) (ys : List A) → LeAll x ys → pass x ys ≡ (x, ys)
  unfolding pass
  pass_sorted x [] all = refl
  pass_sorted x (y ∷ ys) (h, all) = rw h (rw (pass_sorted x ys all) refl)

  sort_rounds_sorted : (n : ℕ) (xs : List A) → IsSorted xs → sort_rounds n xs ≡ xs
  unfolding sort_rounds
  sort_rounds_sorted zero xs sorted = refl
  sort_rounds_sorted (suc n) [] sorted = refl
  sort_rounds_sorted (suc n) (x ∷ xs) (all, sorted) =
      rw (pass_sorted x xs all) (ap (λ r. x ∷ r) (sort_rounds_sorted n xs sorted))

  -- A sorted list stays as it is.
  pub exchange_sort_sorted : (xs : List A) → IsSorted xs → exchange_sort xs ≡ xs
  unfolding exchange_sort
  exchange_sort_sorted xs sorted = sort_rounds_sorted (length xs) xs sorted

  module _ (o : IsOrder greater) where
    least_step :
        (b : Bool) (m x y : A) (rest : List A)
        → greater x y ≡ b
        → (greater m (if b then y else x) ≡ false) × LeAll m rest
        → (greater m x ≡ false) × (greater m (if b then x else y) ≡ false) × LeAll m rest
    least_step true m x y rest e (p, q) = let r = o.trans m y x p (o.asym x y e) in (r, r, q)
    least_step false m x y rest e (p, q) = (p, o.trans m x y p e, q)

    pass-least :
        (x : A) (ys : List A)
        → (greater ((pass x ys).0) x ≡ false) × LeAll ((pass x ys).0) ((pass x ys).1)
    unfolding pass
    pass-least x [] = (o.irrefl x, tt)
    pass-least x (y ∷ ys) =
        let (p, q, r) =
          least_step (greater x y) _ x y _ refl (pass-least (if greater x y then y else x) ys) in
        (p, (q, r))

    sort_rounds-IsSorted : (n : ℕ) (xs : List A) → length xs ≤ n → IsSorted (sort_rounds n xs)
    unfolding sort_rounds
    sort_rounds-IsSorted zero [] h = tt
    sort_rounds-IsSorted zero (x ∷ xs) h = absurd (omega arith)
    sort_rounds-IsSorted (suc n) [] h = tt
    sort_rounds-IsSorted (suc n) (x ∷ xs) h = (
      sort_rounds-LeAll _ n ((pass x xs).1) ((pass-least x xs).1),
      sort_rounds-IsSorted n ((pass x xs).1) (omega (arith, length-pass x xs)),
    )

    pub exchange_sort-IsSorted : (xs : List A) → IsSorted (exchange_sort xs)
    unfolding exchange_sort
    exchange_sort-IsSorted xs = sort_rounds-IsSorted (length xs) xs (omega arith)

module _ {ℓ κ} {A : Type ℓ} {B : Type κ} (greater : B → B → Bool) (f : A → B) where
  pub on-IsOrder : IsOrder greater → IsOrder (λ x y. greater (f x) (f y))
  on-IsOrder o = record {
    irrefl = λ x. o.irrefl (f x);
    asym = λ x y. o.asym (f x) (f y);
    trans = λ x y z. o.trans (f x) (f y) (f z);
  }

  pass-map :
      (x : A) (ys : List A)
      → pass greater (f x) (map f ys) ≡ (
        f ((pass (λ x y. greater (f x) (f y)) x ys).0),
        map f ((pass (λ x y. greater (f x) (f y)) x ys).1),
      )
  unfolding pass
  pass-map x [] = refl
  pass-map x (y ∷ ys) = elim (Bool-cases (greater (f x) (f y))) [
    | inl e ↦ rw e (rw (pass-map y ys) refl)
    | inr e ↦ rw e (rw (pass-map x ys) refl)
  ]

  sort_rounds-map :
      (n : ℕ) (xs : List A)
      → sort_rounds greater n (map f xs) ≡ map f (sort_rounds (λ x y. greater (f x) (f y)) n xs)
  unfolding sort_rounds
  sort_rounds-map zero xs = refl
  sort_rounds-map (suc n) [] = refl
  sort_rounds-map (suc n) (x ∷ xs) = rw (pass-map x xs) (
      ap (λ r. f ((pass (λ x y. greater (f x) (f y)) x xs).0) ∷ r)
        (sort_rounds-map n ((pass (λ x y. greater (f x) (f y)) x xs).1)))

  -- To sort the values of `f` is to sort the arguments by their values.
  pub exchange_sort-map :
      (xs : List A)
      → exchange_sort greater (map f xs) ≡ map f (exchange_sort (λ x y. greater (f x) (f y)) xs)
  unfolding exchange_sort
  exchange_sort-map xs = rw (length-map xs f) (sort_rounds-map (length xs) xs)
