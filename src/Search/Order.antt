-- ===== src/Search/Order.antt =====
-- search/manager.go: the order of the results, and what `sort.Slice` is documented to do.
use mathlib.Core.List.{Perm}
use mediarr.Common.{
  if◌then◌else◌, nat_eq, string_eq, ◌≡◌, sym, ◌∙◌, Bool, true, false, not, ◌&&◌, List, arith,
}
use mediarr.Common.Int.{ℤ, ltb_ℤ}
use mediarr.Common.ExchangeSort.{
  exchange_sort, IsSorted, IsOrder, exchange_sort-perm, exchange_sort-IsSorted, on-IsOrder,
}
use mediarr.Search.{SearchResult, before}

-- First by `lt`, and by `rest` where it does not tell two elements apart.
abbrev lex : {A : Type 0} → (A → A → Bool) → (A → A → Bool) → A → A → Bool
lex lt rest a b = if lt a b then true else if lt b a then false else rest a b

module _ {A : Type 0} (lt rest : A → A → Bool) (o : IsOrder lt) (r : IsOrder rest) where
  lex_trans :
      (a b c : A) → lex lt rest a b ≡ false → lex lt rest b c ≡ false → lex lt rest a c ≡ false
  lex_trans a b c h k = grind (arith, o.asym, o.trans, r.trans)

  lex-IsOrder : IsOrder (lex lt rest)
  lex-IsOrder = record {
    irrefl = λ a. rw (o.irrefl a) (r.irrefl a);
    asym = λ a b h. grind (arith, o.asym, r.asym);
    trans = lex_trans;
  }

greater-IsOrder : IsOrder (λ a b. ltb_ℤ b a)
greater-IsOrder = record {
  irrefl = λ a. ground arith;
  asym = λ a b h. ground arith;
  trans = λ a b c h k. ground arith;
}

-- A result with freeleech stands before one without.
abbrev freeleech_first : SearchResult → SearchResult → Bool
freeleech_first a b = a.is_freeleech && not b.is_freeleech

freeleech_first-IsOrder : IsOrder freeleech_first
freeleech_first-IsOrder = record {
  irrefl = λ a. ground arith;
  asym = λ a b h. ground arith;
  trans = λ a b c h k. ground arith;
}

abbrev by_greatest : (SearchResult → ℤ) → SearchResult → SearchResult → Bool
by_greatest f a b = ltb_ℤ (f b) (f a)

by_greatest-IsOrder : (f : SearchResult → ℤ) → IsOrder (by_greatest f)
by_greatest-IsOrder f = on-IsOrder (λ a b. ltb_ℤ b a) f greater-IsOrder

abbrev by_all : SearchResult → SearchResult → Bool
by_all = lex freeleech_first (
    lex (by_greatest (λ a. a.score)) (
      lex (by_greatest (λ a. a.seeders))
        (lex (by_greatest (λ a. a.size)) (by_greatest (λ a. a.publish_date)))))

before_lem : (a b : SearchResult) → before a b ≡ by_all a b
unfolding before
before_lem a b = ground arith

-- The test of `SortResults` is what `sort.Slice` asks for, a strict weak order.
pub before-IsOrder : IsOrder before
before-IsOrder =
    let all : IsOrder by_all = lex-IsOrder _ _ freeleech_first-IsOrder (
      lex-IsOrder _ _ (by_greatest-IsOrder (λ a. a.score)) (
        lex-IsOrder _ _ (by_greatest-IsOrder (λ a. a.seeders)) (
          lex-IsOrder _ _ (by_greatest-IsOrder (λ a. a.size))
            (by_greatest-IsOrder (λ a. a.publish_date))))) in
    record {
      irrefl = λ a. before_lem a a ∙ all.irrefl a;
      asym = λ a b h. before_lem b a ∙ all.asym a b (sym (before_lem a b) ∙ h);
      trans = λ a b c h k.
          before_lem a c ∙ all.trans a b c (sym (before_lem a b) ∙ h) (sym (before_lem b c) ∙ k);
    }

-- What the documentation of `sort.Slice` says: the elements are the same, and none stands behind one
-- that it is less than, where `less` is a strict weak order.
pub record IsSort {A : Type 0} (sort_slice : (A → A → Bool) → List A → List A) : Type 0 where
  pub same : (less : A → A → Bool) (xs : List A) → Perm xs (sort_slice less xs)
  pub in_order :
      (less : A → A → Bool) (xs : List A)
      → IsOrder less
      → IsSorted (λ a b. less b a) (sort_slice less xs)

-- The exchange sort is such a sort.
pub exchange_sort-IsSort :
    {A : Type 0} → IsSort (λ (less : A → A → Bool). exchange_sort (λ a b. less b a))
exchange_sort-IsSort = record {
  same = λ less xs. exchange_sort-perm (λ a b. less b a) xs;
  in_order = λ less xs o.
      exchange_sort-IsSorted (λ a b. less b a)
        (record {
          irrefl = o.irrefl;
          asym = λ a b h. o.asym b a h;
          trans = λ a b c h k. o.trans c b a k h;
        })
        xs;
}
