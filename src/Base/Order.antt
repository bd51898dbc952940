-- ===== src/Base/Order.antt =====
-- Comparisons that answer with an `Ordering`, as Python compares the keys of a sort.
use Prim.Native.Nat.{ℕ, ◌+◌, compare, Ordering}
use Prim.Native.Char.{code}
use Prim.Native.String.{String}
use mathlib.Core.Path.{◌≡◌, refl}
use mathlib.Core.Bool.{Bool, true, false}
use mathlib.Core.Option.{Option, none, some}
use mathlib.Core.List.{List, [], ◌∷◌}
use native.Mathlib.Omega.{arith}
use brokerops.Base.Int.{ℤ, pos_part, neg_part}
use brokerops.Base.Sort.{IsOrder}

-- The first comparison that tells two keys apart decides: a comparison of tuples.
abbrev pub then_by : Ordering → Ordering → Ordering
then_by Ordering.lt o = Ordering.lt
then_by Ordering.gt o = Ordering.gt
then_by Ordering.eq o = o

abbrev pub flip : Ordering → Ordering
flip Ordering.lt = Ordering.gt
flip Ordering.gt = Ordering.lt
flip Ordering.eq = Ordering.eq

-- What two comparisons in a row determine of the third.
abbrev pub join : Ordering → Ordering → Option Ordering
join Ordering.eq o = some o
join Ordering.lt Ordering.gt = none
join Ordering.lt o = some Ordering.lt
join Ordering.gt Ordering.lt = none
join Ordering.gt o = some Ordering.gt

abbrev pub at_most : Ordering → Bool
at_most Ordering.gt = false
at_most Ordering.lt = true
at_most Ordering.eq = true

pub record IsComparison {ℓ} {A : Type ℓ} (cmp : A → A → Ordering) : Type ℓ where
  pub flips : (x y : A) → cmp y x ≡ flip (cmp x y)
  pub joins : (x y z : A) (o : Ordering) → join (cmp x y) (cmp y z) ≡ some o → cmp x z ≡ o

module _ {ℓ} {A : Type ℓ} where
  -- Tuples compare by their first part, then by the second.
  pub then_by-IsComparison :
      (f g : A → A → Ordering)
      → IsComparison f
      → IsComparison g
      → IsComparison (λ x y. then_by (f x y) (g x y))
  then_by-IsComparison f g hf hg = record {
    flips = λ x y. ground (arith, hf.flips x y, hg.flips x y);
    joins = λ x y z o h. ground (
      arith,
      hf.joins x y z Ordering.lt,
      hf.joins x y z Ordering.eq,
      hf.joins x y z Ordering.gt,
      hg.joins x y z Ordering.lt,
      hg.joins x y z Ordering.eq,
      hg.joins x y z Ordering.gt,
    );
  }

  pub comparison-IsOrder :
      (f : A → A → Ordering) → IsComparison f → IsOrder (λ x y. at_most (f x y))
  comparison-IsOrder f h = record {
    total = λ x y e. ground (arith, h.flips x y);
    trans = λ x y z e d. ground (arith, h.joins x y z Ordering.lt, h.joins x y z Ordering.eq);
  }

  pub by_key-IsComparison :
      {B : Type 0} (key : A → B) (f : B → B → Ordering)
      → IsComparison f
      → IsComparison (λ x y. f (key x) (key y))
  by_key-IsComparison key f h = record {
    flips = λ x y. h.flips (key x) (key y);
    joins = λ x y z o e. h.joins (key x) (key y) (key z) o e;
  }

pub compare-IsComparison : IsComparison compare
compare-IsComparison = record { flips = λ x y. ground arith; joins = λ x y z o e. ground arith }

abbrev pub compare_ℤ : ℤ → ℤ → Ordering
compare_ℤ a b = compare (pos_part a + neg_part b) (pos_part b + neg_part a)

pub compare_ℤ-IsComparison : IsComparison compare_ℤ
compare_ℤ-IsComparison = record { flips = λ x y. ground arith; joins = λ x y z o e. ground arith }

-- Texts compare by their code points.
abbrev pub codes : String → List ℕ
codes String.[] = []
codes (String.◌∷◌ c s) = code c ∷ codes s

unfoldable pub compare_codes : List ℕ → List ℕ → Ordering
compare_codes [] [] = Ordering.eq
compare_codes [] (y ∷ ys) = Ordering.lt
compare_codes (x ∷ xs) [] = Ordering.gt
compare_codes (x ∷ xs) (y ∷ ys) = then_by (compare x y) (compare_codes xs ys)

codes_flips : (xs ys : List ℕ) → compare_codes ys xs ≡ flip (compare_codes xs ys)
unfolding compare_codes
codes_flips [] [] = refl
codes_flips [] (y ∷ ys) = refl
codes_flips (x ∷ xs) [] = refl
codes_flips (x ∷ xs) (y ∷ ys) = ground (arith, codes_flips xs ys)

codes_joins :
    (xs ys zs : List ℕ) (o : Ordering)
    → join (compare_codes xs ys) (compare_codes ys zs) ≡ some o
    → compare_codes xs zs ≡ o
unfolding compare_codes
codes_joins [] [] zs o h = cc
codes_joins [] (y ∷ ys) [] o h = cc
codes_joins [] (y ∷ ys) (z ∷ zs) o h = ground arith
codes_joins (x ∷ xs) [] [] o h = cc
codes_joins (x ∷ xs) [] (z ∷ zs) o h = cc
codes_joins (x ∷ xs) (y ∷ ys) [] o h = ground arith
codes_joins (x ∷ xs) (y ∷ ys) (z ∷ zs) o h = ground (
  arith,
  codes_joins xs ys zs Ordering.lt,
  codes_joins xs ys zs Ordering.eq,
  codes_joins xs ys zs Ordering.gt,
)

unfoldable pub compare_text : String → String → Ordering
unfolding compare_codes
compare_text s t = compare_codes (codes s) (codes t)

pub compare_text-IsComparison : IsComparison compare_text
unfolding compare_text
compare_text-IsComparison = record {
  flips = λ x y. codes_flips (codes x) (codes y);
  joins = λ x y z o e. codes_joins (codes x) (codes y) (codes z) o e;
}
