-- ===== src/Base/Frame.antt =====
-- What a step of Base.Effect keeps, however it ends, or where it ends in an error.
use mathlib.Core.Path.{◌≡◌, refl, ap, subst}
use mathlib.Core.Bool.{Bool, true, false}
use fmxevolution_go.Base.Effect.{
  M, Out, ok, err, ◌>>=◌, pure, raise, map_err, fail_if, attempt, from_out, or_value, Triple,
}

-- What is left to do behind a call that has been made.
abbrev behind : {S E A B : Type 0} → (A → M S E B) → Out E A × S → Out E B × S
behind f r = elim r.0 [ ok a ↦ f a r.1 | err e ↦ (err e, r.1) ]

abbrev mapped : {S E F A : Type 0} → (E → F) → Out E A × S → Out F A × S
mapped f r = elim r.0 [ ok a ↦ (ok a, r.1) | err e ↦ (err (f e), r.1) ]

abbrev valued : {S E A : Type 0} → A → Out E A × S → Out E A × S
valued d r = elim r.0 [ ok a ↦ (ok a, r.1) | err e ↦ (ok d, r.1) ]

-- However the step ends, `P` is kept.
pub record Keeps {S E A : Type 0} (P : S → Type 0) (m : M S E A) : Type 0 where
  pub kept : (w : S) → P w → P (m w).1

-- Where the step ends in an error, `P` is kept.
pub record KeepsOnError {S E A : Type 0} (P : S → Type 0) (m : M S E A) : Type 0 where
  pub kept : (w : S) → P w → (e : E) → (m w).0 ≡ err e → P (m w).1

module _ {S E : Type 0} {P : S → Type 0} where
  pub Keeps-bind :
      {A B : Type 0} {m : M S E A} {f : A → M S E B}
      → Keeps P m
      → ((a : A) → Keeps P (f a))
      → Keeps P (m >>= f)
  unfolding ◌>>=◌
  Keeps-bind {A} {B} {m} {f} p q = record { kept = λ w h. go (m w) (p.kept w h) }
    where
      go : (r : Out E A × S) → P r.1 → P (behind f r).1
      go (ok a, t) k = (q a).kept t k
      go (err e, t) k = k

  pub Keeps-fail_if : (b : Bool) (e : E) → Keeps P (fail_if b e)
  unfolding fail_if raise pure
  Keeps-fail_if true e = record { kept = λ w h. h }
  Keeps-fail_if false e = record { kept = λ w h. h }

  pub Keeps-pure : {A : Type 0} (a : A) → Keeps {E = E} P (pure a)
  unfolding pure
  Keeps-pure a = record { kept = λ w h. h }

  pub Keeps-from_out : {A : Type 0} (o : Out E A) → Keeps P (from_out o)
  unfolding from_out
  Keeps-from_out o = record { kept = λ w h. h }

  pub Keeps-map_err : {F A : Type 0} (g : F → E) {m : M S F A} → Keeps P m → Keeps P (map_err g m)
  unfolding map_err
  Keeps-map_err {F} {A} g {m} p = record { kept = λ w h. go (m w) (p.kept w h) }
    where
      go : (r : Out F A × S) → P r.1 → P (mapped g r).1
      go (ok a, t) k = k
      go (err e, t) k = k

  pub Keeps-or_value : {A : Type 0} (d : A) {m : M S E A} → Keeps P m → Keeps P (or_value d m)
  unfolding or_value
  Keeps-or_value {A} d {m} p = record { kept = λ w h. go (m w) (p.kept w h) }
    where
      go : (r : Out E A × S) → P r.1 → P (valued d r).1
      go (ok a, t) k = k
      go (err e, t) k = k

  pub KeepsOnError-kept : {A : Type 0} {m : M S E A} → Keeps P m → KeepsOnError P m
  KeepsOnError-kept p = record { kept = λ w h e x. p.kept w h }

  pub KeepsOnError-bind :
      {A B : Type 0} {m : M S E A} {f : A → M S E B}
      → Keeps P m
      → ((a : A) → KeepsOnError P (f a))
      → KeepsOnError P (m >>= f)
  unfolding ◌>>=◌
  KeepsOnError-bind {A} {B} {m} {f} p q = record { kept = λ w h. go (m w) (p.kept w h) }
    where
      go : (r : Out E A × S) → P r.1 → (e : E) → (behind f r).0 ≡ err e → P (behind f r).1
      go (ok a, t) k e x = (q a).kept t k e x
      go (err y, t) k e x = k

  -- A step that may fail, and behind it one that cannot.
  pub KeepsOnError-last :
      {A B : Type 0} {m : M S E A} (f : A → M S E B)
      → KeepsOnError P m
      → ((a : A) (t : S) (e : E) → ¬ ((f a t).0 ≡ err e))
      → KeepsOnError P (m >>= f)
  unfolding ◌>>=◌
  KeepsOnError-last {A} {B} {m} f p never = record { kept = λ w h. go (m w) (p.kept w h) }
    where
      go :
          (r : Out E A × S)
          → ((e : E) → r.0 ≡ err e → P r.1)
          → (e : E) → (behind f r).0 ≡ err e
          → P (behind f r).1
      go (ok a, t) k e x = absurd (never a t e x)
      go (err y, t) k e x = k y refl

  pub Triple-kept : {A : Type 0} {m : M S E A} → Keeps P m → Triple P m (λ _. P)
  Triple-kept p = record { at = λ w h a t e. subst P (ap (λ r. r.1) e) (p.kept w h) }

-- From a state with `P`, a step that ends well leaves `Q` and one that ends in an error leaves `R`.
abbrev pub Leaves : {S E A : Type 0} → (A → S → Type 0) → (S → Type 0) → Out E A × S → Type 0
Leaves Q R (ok a, t) = Q a t
Leaves Q R (err e, t) = R t

pub record Hoare {S E A : Type 0} (P : S → Type 0) (m : M S E A) (Q : A → S → Type 0)
    (R : S → Type 0) : Type 0 where
  pub leaves : (w : S) → P w → Leaves Q R (m w)

module _ {S E : Type 0} {P R : S → Type 0} where
  pub Hoare-bind :
      {A B : Type 0} {m : M S E A} {f : A → M S E B} (Q : A → S → Type 0) {T : B → S → Type 0}
      → Hoare P m Q R
      → ((a : A) → Hoare (Q a) (f a) T R)
      → Hoare P (m >>= f) T R
  unfolding ◌>>=◌
  Hoare-bind {A} {B} {m} {f} Q {T} p q = record { leaves = λ w h. go (m w) (p.leaves w h) }
    where
      go : (r : Out E A × S) → Leaves Q R r → Leaves T R (behind f r)
      go (ok a, t) k = (q a).leaves t k
      go (err e, t) k = k

  -- A step that keeps what it finds.
  pub Hoare-kept :
      {A : Type 0} {m : M S E A} → ((w : S) → P w → R w) → Keeps P m → Hoare P m (λ _. P) R
  Hoare-kept {A} {m} weaken p = record { leaves = λ w h. go (m w) (p.kept w h) }
    where
      go : (r : Out E A × S) → P r.1 → Leaves (λ _. P) R r
      go (ok a, t) k = k
      go (err e, t) k = weaken t k

  pub Hoare-pure :
      {A : Type 0} {Q : A → S → Type 0} (a : A)
      → ((w : S) → P w → Q a w)
      → Hoare {E = E} P (pure a) Q R
  unfolding pure
  Hoare-pure a f = record { leaves = λ w h. f w h }

  pub Hoare-map_err :
      {F A : Type 0} {Q : A → S → Type 0} (g : F → E) {m : M S F A}
      → Hoare P m Q R
      → Hoare P (map_err g m) Q R
  unfolding map_err
  Hoare-map_err {F} {A} {Q} g {m} p = record { leaves = λ w h. go (m w) (p.leaves w h) }
    where
      go : (r : Out F A × S) → Leaves Q R r → Leaves Q R (mapped g r)
      go (ok a, t) k = k
      go (err e, t) k = k

module _ {S E : Type 0} {P : S → Type 0} where
  pub Keeps-attempt : {A : Type 0} {m : M S E A} → Keeps P m → Keeps {E = E} P (attempt m)
  unfolding attempt
  Keeps-attempt p = record { kept = λ w h. p.kept w h }

  pub Keeps-raise : {A : Type 0} (e : E) → Keeps {A = A} P (raise e)
  unfolding raise
  Keeps-raise e = record { kept = λ w h. h }

  -- A step that keeps `P`, whatever its value.
  pub Keeps-Hoare :
      {A : Type 0} {m : M S E A} {Q : A → S → Type 0}
      → ((a : A) (w : S) → Q a w → P w)
      → Hoare P m Q P
      → Keeps P m
  Keeps-Hoare {A} {m} {Q} f p = record { kept = λ w h. go (m w) (p.leaves w h) }
    where
      go : (r : Out E A × S) → Leaves Q P r → P r.1
      go (ok a, t) k = f a t k
      go (err e, t) k = k
