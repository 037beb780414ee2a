-- ===== src/Base/Guards.antt =====
-- Lemmas on options behind a guard, and on filtered lists.
use mathlib.Core.Path.{◌≡◌, refl}
use mathlib.Core.Bool.{Bool, true, false, ◌||◌}
use mathlib.Core.List.{List, [], ◌∷◌, ◌++◌}
use mathlib.Core.Option.{Option, none, some}
use native.Mathlib.Omega.{arith}
use fmxevolution_go.Base.Tests.{if◌then◌else◌}
use fmxevolution_go.Base.Lists.{filter, any}

pub some-injective : {A : Type 0} {x y : A} → ◌≡◌ {A = Option A} (some x) (some y) → x ≡ y
some-injective h = cc

pub none-some : {A : Type 0} {x : A} → ¬ (◌≡◌ {A = Option A} none (some x))
none-some h = cc

pub guarded :
    {A : Type 0} (b : Bool) {x y : A}
    → ◌≡◌ {A = Option A} (if b then none else some x) (some y)
    → (b ≡ false) × (x ≡ y)
guarded true h = absurd cc
guarded false h = (refl, some-injective h)

pub filter-append_own :
    {A : Type 0} (p : A → Bool) (xs : List A) (x : A)
    → p x ≡ false
    → filter p (xs ++ x ∷ []) ≡ filter p xs
filter-append_own p [] x h = ground arith
filter-append_own p (y ∷ xs) x h = ground (arith, filter-append_own p xs x h)

pub any-filter-false :
    {A : Type 0} (p q : A → Bool) (xs : List A) → any p xs ≡ false → any p (filter q xs) ≡ false
any-filter-false p q [] h = refl
any-filter-false p q (x ∷ xs) h = ground (arith, any-filter-false p q xs (ground arith))

pub any-or_false :
    {A : Type 0} (p q : A → Bool) (xs : List A)
    → any (λ x. p x || q x) xs ≡ false
    → any p xs ≡ false
any-or_false p q [] h = refl
any-or_false p q (x ∷ xs) h = ground (arith, any-or_false p q xs (ground arith))
