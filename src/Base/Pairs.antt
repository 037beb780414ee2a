-- ===== src/Base/Pairs.antt =====
-- Relations between two lists in pairs, and between the elements of one list.
use Prim.Native.Nat.{ℕ, zero, suc}
use mathlib.Core.List.{List, [], ◌∷◌}
use mathlib.Core.Bool.{Bool}
use fmxevolution_go.Base.Tests.{if-cases}
use fmxevolution_go.Base.Lists.{
  All, All-take, All-order_by, All-insert_sorted, filter, filter-All, take, insert_sorted, order_by,
}

-- Two lists of one length whose elements are related in pairs.
module _ {ℓ κ} {A : Type ℓ} (R : A → A → Type κ) where
  pub data Pointwise : List A → List A → Type (ℓ ⊔ κ) where
    done : Pointwise [] []
    pair : {x y : A} {xs ys : List A} → R x y → Pointwise xs ys → Pointwise (x ∷ xs) (y ∷ ys)

  pub Pointwise-refl : ((x : A) → R x x) → (xs : List A) → Pointwise xs xs
  Pointwise-refl r [] = done
  Pointwise-refl r (x ∷ xs) = pair (r x) (Pointwise-refl r xs)

module _ {ℓ κ μ ν} {A : Type ℓ} {R : A → A → Type κ} {S : A → A → Type μ} (T : A → A → Type ν) where
  -- One change of the elements behind another.
  pub Pointwise-trans :
      ((x y z : A) → R x y → S y z → T x z)
      → {xs ys zs : List A} → Pointwise R xs ys
      → Pointwise S ys zs
      → Pointwise T xs zs
  Pointwise-trans f done done = done
  Pointwise-trans f (pair r rs) (pair s ss) = pair (f _ _ _ r s) (Pointwise-trans f rs ss)

module _ {ℓ κ μ} {A : Type ℓ} (R : A → A → Type κ) (S : A → A → Type μ) where
  pub Pointwise-imp :
      ((x y : A) → R x y → S x y) → {xs ys : List A} → Pointwise R xs ys → Pointwise S xs ys
  Pointwise-imp f done = done
  Pointwise-imp f (pair r rs) = pair (f _ _ r) (Pointwise-imp f rs)

module _ {ℓ κ μ ν} {A : Type ℓ} {R : A → A → Type κ} (P : A → Type μ) (Q : A → Type ν) where
  -- What the changed elements take over from the elements.
  pub All-Pointwise :
      ((x y : A) → P x → R x y → Q y) → {xs ys : List A} → Pointwise R xs ys → All P xs → All Q ys
  All-Pointwise f done h = tt
  All-Pointwise f (pair r rs) h = (f _ _ h.0 r, All-Pointwise f rs h.1)

-- A relation between each element and all behind it.
module _ {ℓ κ} {A : Type ℓ} (R : A → A → Type κ) where
  abbrev pub AllPairs : List A → Type κ
  AllPairs [] = Unit
  AllPairs (x ∷ xs) = All (R x) xs × AllPairs xs

  pub AllPairs-filter : (p : A → Bool) (xs : List A) → AllPairs xs → AllPairs (filter p xs)
  AllPairs-filter p [] h = tt
  AllPairs-filter p (x ∷ xs) h =
      if-cases AllPairs (p x) (λ _. (filter-All (R x) p xs h.0, AllPairs-filter p xs h.1))
        (λ _. AllPairs-filter p xs h.1)

  pub AllPairs-take : (n : ℕ) (xs : List A) → AllPairs xs → AllPairs (take n xs)
  AllPairs-take zero xs h = tt
  AllPairs-take (suc n) [] h = tt
  AllPairs-take (suc n) (x ∷ xs) h = (All-take (R x) n xs h.0, AllPairs-take n xs h.1)

module _ {ℓ κ} {A : Type ℓ} (R : A → A → Type κ) (flip : (x y : A) → R x y → R y x)
    (before : A → A → Bool) where
  AllPairs-insert_sorted :
      (a : A) (xs : List A) → All (R a) xs → AllPairs R xs → AllPairs R (insert_sorted before a xs)
  unfolding insert_sorted
  AllPairs-insert_sorted a [] h k = (tt, tt)
  AllPairs-insert_sorted a (x ∷ xs) h k =
      if-cases (AllPairs R) (before a x) (λ _. (h, k))
        (λ _. (
          All-insert_sorted (R x) before a xs (flip a x h.0) k.0,
          AllPairs-insert_sorted a xs h.1 k.1,
        ))

  -- Sorting keeps a symmetric relation.
  pub AllPairs-order_by : (xs : List A) → AllPairs R xs → AllPairs R (order_by before xs)
  unfolding order_by
  AllPairs-order_by [] h = tt
  AllPairs-order_by (x ∷ xs) h =
      AllPairs-insert_sorted x (order_by before xs) (All-order_by (R x) before xs h.0)
        (AllPairs-order_by xs h.1)
