-- ===== src/Base/Sorting.antt =====
-- What `ORDER BY` and `WHERE` keep: how often a test is passed, and the order.
use Prim.Native.Nat.{suc}
use mathlib.Core.Path.{◌≡◌, refl, ap, ◌∙◌}
use mathlib.Core.List.{List, [], ◌∷◌, Memᴰ}
use mathlib.Core.Bool.{Bool, true, false, ◌&&◌}
use mathlib.Core.Logic.{inl, inr}
use native.Mathlib.Omega.{arith}
use fmxevolution_go.Base.Tests.{Bool-cases, if◌then◌else◌, if-cases}
use fmxevolution_go.Base.Lists.{
  All-imp, All-insert_sorted, any, count, filter, insert_sorted, order_by,
}
use fmxevolution_go.Base.Pairs.{AllPairs}

module _ {ℓ} {A : Type ℓ} where
  pub any-member :
      (p : A → Bool) (xs : List A) → any p xs ≡ true → (x : A) × Memᴰ x xs × (p x ≡ true)
  any-member p [] h = absurd cc
  any-member p (x ∷ xs) h = elim (Bool-cases (p x)) [
    | inl hit ↦ (x, Memᴰ.head refl, hit)
    | inr miss ↦ let (y, m, k) = any-member p xs (ground arith) in (y, Memᴰ.tail m, k)
  ]

  pub count-filter :
      (p q : A → Bool) (xs : List A) → count p (filter q xs) ≡ count (λ x. p x && q x) xs
  count-filter p q [] = refl
  count-filter p q (x ∷ xs) = ground (arith, count-filter p q xs)

  pub count_same : (p q : A → Bool) (xs : List A) → ((x : A) → p x ≡ q x) → count p xs ≡ count q xs
  count_same p q [] h = refl
  count_same p q (x ∷ xs) h = ground (arith, h x, count_same p q xs h)

  module _ (before : A → A → Bool) where
    count-insert_sorted :
        (p : A → Bool) (a : A) (xs : List A)
        → count p (insert_sorted before a xs) ≡ count p (a ∷ xs)
    unfolding insert_sorted
    count-insert_sorted p a [] = refl
    count-insert_sorted p a (x ∷ xs) = ground (arith, count-insert_sorted p a xs)

    pub count-order_by : (p : A → Bool) (xs : List A) → count p (order_by before xs) ≡ count p xs
    unfolding order_by
    count-order_by p [] = refl
    count-order_by p (x ∷ xs) =
        count-insert_sorted p x (order_by before xs)
        ∙ ap (λ n. if p x then suc n else n) (count-order_by p xs)

module _ {ℓ κ} {A : Type ℓ} (R : A → A → Type κ) (before : A → A → Bool)
    (first : (x y : A) → before x y ≡ true → R x y)
    (second : (x y : A) → before x y ≡ false → R y x)
    (trans : (x y z : A) → R x y → R y z → R x z) where
  insert_sorted-sorted :
      (a : A) (xs : List A) → AllPairs R xs → AllPairs R (insert_sorted before a xs)
  unfolding insert_sorted
  insert_sorted-sorted a [] h = (tt, tt)
  insert_sorted-sorted a (x ∷ xs) h =
      if-cases (AllPairs R) (before a x)
        (λ k. ((first a x k, All-imp (R x) (R a) (λ y r. trans a x y (first a x k) r) xs h.0), h))
        (λ k.
          (All-insert_sorted (R x) before a xs (second a x k) h.0, insert_sorted-sorted a xs h.1))

  pub order_by-sorted : (xs : List A) → AllPairs R (order_by before xs)
  unfolding order_by
  order_by-sorted [] = tt
  order_by-sorted (x ∷ xs) = insert_sorted-sorted x (order_by before xs) (order_by-sorted xs)
