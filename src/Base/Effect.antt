-- ===== src/Base/Effect.antt =====
-- Go functions that return `(value, error)` and change shared state: a state monad with errors. An
-- error leaves the state as the calls before it made it, as in Go.
use mathlib.Core.Path.{◌≡◌, refl, ap, subst₂}
use mathlib.Core.Option.{Option, none, some}
use native.Mathlib.Omega.{arith}
use mathlib.Core.Bool.{Bool, true, false}

pub data Out (E A : Type 0) : Type 0 where
  ok : A → Out E A
  err : E → Out E A

abbrev pub M : Type 0 → Type 0 → Type 0 → Type 0
M S E A = S → Out E A × S

infixl 5 ◌>>=◌ ◌>>◌
unfoldable pub ◌>>=◌ : {S E A B : Type 0} → M S E A → (A → M S E B) → M S E B
◌>>=◌ m f s = elim (m s).0 [ ok a ↦ f a (m s).1 | err e ↦ (err e, (m s).1) ]

abbrev pub ◌>>◌ : {S E B : Type 0} → M S E (Unit {0}) → M S E B → M S E B
m >> k = m >>= λ _. k

unfoldable pub pure : {S E A : Type 0} → A → M S E A
pure a s = (ok a, s)

unfoldable pub raise : {S E A : Type 0} → E → M S E A
raise e s = (err e, s)

-- `if err != nil { return f(err) }`
unfoldable pub map_err : {S E F A : Type 0} → (E → F) → M S E A → M S F A
map_err f m s = elim (m s).0 [ ok a ↦ (ok a, (m s).1) | err e ↦ (err (f e), (m s).1) ]

-- `if test { return nil, e }`
unfoldable pub fail_if : {S E : Type 0} → Bool → E → M S E (Unit {0})
unfolding raise pure
fail_if true e = raise e
fail_if false e = pure tt

-- `if err != nil || value == nil { return nil, e }` behind a call whose error is replaced by `e`
unfoldable pub require : {S E A : Type 0} → Option A → E → M S E A
unfolding raise pure
require none e = raise e
require (some a) e = pure a

-- The answer of a function without state.
unfoldable pub from_out : {S E A : Type 0} → Out E A → M S E A
from_out o s = (o, s)

-- The value of a call, or another one where it fails.
unfoldable pub or_value : {S E A : Type 0} → A → M S E A → M S E A
or_value d m s = elim (m s).0 [ ok a ↦ (ok a, (m s).1) | err e ↦ (ok d, (m s).1) ]

-- A call whose error is looked at.
unfoldable pub attempt : {S E A : Type 0} → M S E A → M S E (Out E A)
attempt m s = (ok (m s).0, (m s).1)

-- What a block that ends well has done, step by step.
pub >>=-ok :
    {S E A B : Type 0} (m : M S E A) (f : A → M S E B) (s : S) {b : B} {u : S}
    → (m >>= f) s ≡ (ok b, u)
    → (a : A) × (t : S) × (m s ≡ (ok a, t)) × (f a t ≡ (ok b, u))
unfolding ◌>>=◌
>>=-ok {S} {E} {A} {B} m f s {b} {u} h = split (m s) refl h
  where
    split :
        (r : Out E A × S)
        → m s ≡ r
        → ◌≡◌ {A = Out E B × S} (elim r.0 [ ok a ↦ f a r.1 | err e ↦ (err e, r.1) ]) (ok b, u)
        → (a : A) × (t : S) × (m s ≡ (ok a, t)) × (f a t ≡ (ok b, u))
    split (ok a, t) e k = (a, t, e, k)
    split (err x, t) e k = cc

-- What a block does behind a step that ends well.
pub >>=-run :
    {S E A B : Type 0} (m : M S E A) (f : A → M S E B) (s : S) {a : A} {t : S}
    → m s ≡ (ok a, t)
    → (m >>= f) s ≡ f a t
unfolding ◌>>=◌
>>=-run m f s h = rw (h, ◌>>=◌, h)

-- An error ends the block.
pub >>=-stop :
    {S E A B : Type 0} (m : M S E A) (f : A → M S E B) (s : S) {e : E} {t : S}
    → m s ≡ (err e, t)
    → (m >>= f) s ≡ (err e, t)
unfolding ◌>>=◌
>>=-stop m f s h = rw (h, ◌>>=◌, h)

pub fail_if-run : {S E : Type 0} (b : Bool) (e : E) (s : S) → b ≡ false → fail_if b e s ≡ (ok tt, s)
unfolding fail_if pure
fail_if-run b e s h = rw h

pub map_err-ok :
    {S E F A : Type 0} (g : E → F) (m : M S E A) (s : S) {a : A} {t : S}
    → map_err g m s ≡ (ok a, t)
    → m s ≡ (ok a, t)
unfolding map_err
map_err-ok {S} {E} {F} {A} g m s {a} {t} h = split (m s) refl h
  where
    split :
        (r : Out E A × S)
        → m s ≡ r
        → ◌≡◌ {A = Out F A × S}
            (elim r.0 [ ok x ↦ (ok x, r.1) | err e ↦ (err (g e), r.1) ])
            (ok a, t)
        → m s ≡ (ok a, t)
    split (ok x, t) e k = ground arith
    split (err x, t) e k = cc

pub ok-injective : {E A : Type 0} {a b : A} → ◌≡◌ {A = Out E A} (ok a) (ok b) → a ≡ b
ok-injective h = cc

pub ok-err : {E A R : Type 0} {a : A} {e : E} → ◌≡◌ {A = Out E A} (ok a) (err e) → R
ok-err h = absurd cc

-- If the step ends well from a state with `P`, its value and its state meet `Q`.
pub record Triple {S E A : Type 0} (P : S → Type 0) (m : M S E A) (Q : A → S → Type 0)
    : Type 0 where
  pub at : (w : S) → P w → (a : A) (t : S) → m w ≡ (ok a, t) → Q a t

pub Triple-bind :
    {S E A B : Type 0} {P : S → Type 0} {m : M S E A} {f : A → M S E B} (Q : A → S → Type 0)
    {R : B → S → Type 0}
    → Triple P m Q
    → ((a : A) → Triple (Q a) (f a) R)
    → Triple P (m >>= f) R
Triple-bind {m} {f} Q p q = record {
  at = λ w h b u e. let (a, t, e₁, e₂) = >>=-ok m f w e in (q a).at t (p.at w h a t e₁) b u e₂;
}

pub Triple-map_err :
    {S E F A : Type 0} {P : S → Type 0} {Q : A → S → Type 0} (g : E → F) {m : M S E A}
    → Triple P m Q
    → Triple P (map_err g m) Q
Triple-map_err g {m} p = record { at = λ w h a t e. p.at w h a t (map_err-ok g m w e) }

pub Triple-raise :
    {S E A : Type 0} {P : S → Type 0} {Q : A → S → Type 0} (e : E) → Triple {A = A} P (raise e) Q
unfolding raise
Triple-raise e = record { at = λ w h a t q. cc }

pub Triple-pure :
    {S E A : Type 0} {P : S → Type 0} {Q : A → S → Type 0} (a : A)
    → ((w : S) → P w → Q a w)
    → Triple {E = E} P (pure a) Q
unfolding pure
Triple-pure {S} {E} {A} {Q} a f = record {
  at = λ w h b t e. subst₂ Q (ok-injective (ap (λ x. x.0) e)) (ap (λ x. x.1) e) (f w h);
}

pub Triple-fail_if :
    {S E : Type 0} {P : S → Type 0} (b : Bool) (e : E)
    → Triple P (fail_if b e) (λ _ w. (b ≡ false) × P w)
unfolding fail_if
Triple-fail_if true e = Triple-raise e
Triple-fail_if false e = Triple-pure tt (λ w h. (refl, h))

pub Triple-fail_if_kept :
    {S E : Type 0} {P : S → Type 0} (b : Bool) (e : E) → Triple P (fail_if b e) (λ _. P)
unfolding fail_if
Triple-fail_if_kept true e = Triple-raise e
Triple-fail_if_kept false e = Triple-pure tt (λ w h. h)

pub Triple-require :
    {S E A : Type 0} {P : S → Type 0} (o : Option A) (e : E) → Triple P (require o e) (λ _. P)
unfolding require
Triple-require none e = Triple-raise e
Triple-require (some a) e = Triple-pure a (λ w h. h)

-- From a state with `P` the step ends well, with a value and a state that meet `Q`.
pub record Runs {S E A : Type 0} (P : S → Type 0) (m : M S E A) (Q : A → S → Type 0) : Type 0 where
  pub run : (w : S) → P w → (a : A) × (t : S) × (m w ≡ (ok a, t)) × Q a t

pub Runs-bind :
    {S E A B : Type 0} {P : S → Type 0} {m : M S E A} {f : A → M S E B} (Q : A → S → Type 0)
    {R : B → S → Type 0}
    → Runs P m Q
    → ((a : A) → Runs (Q a) (f a) R)
    → Runs P (m >>= f) R
unfolding ◌>>=◌
Runs-bind {m} {f} Q p q = record {
  run = λ w h.
      let (a, t, e, k) = p.run w h in
      let (b, u, e', k') = (q a).run t k in (b, u, rw (e, ◌>>=◌, e) e', k');
}

pub Runs-map_err :
    {S E F A : Type 0} {P : S → Type 0} {Q : A → S → Type 0} (g : E → F) {m : M S E A}
    → Runs P m Q
    → Runs P (map_err g m) Q
unfolding map_err
Runs-map_err g {m} p = record {
  run = λ w h. let (a, t, e, k) = p.run w h in (a, t, rw (e, map_err, e), k);
}

pub Runs-pure :
    {S E A : Type 0} {P : S → Type 0} {Q : A → S → Type 0} (a : A)
    → ((w : S) → P w → Q a w)
    → Runs {E = E} P (pure a) Q
unfolding pure
Runs-pure a f = record { run = λ w h. (a, w, refl, f w h) }

pub Runs-fail_if :
    {S E : Type 0} {P : S → Type 0} (b : Bool) (e : E) → b ≡ false → Runs P (fail_if b e) (λ _. P)
unfolding fail_if
Runs-fail_if true e h = record { run = λ w p. absurd cc }
Runs-fail_if false e h = Runs-pure tt (λ w p. p)
