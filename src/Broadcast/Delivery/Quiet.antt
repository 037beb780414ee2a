-- ===== src/Broadcast/Delivery/Quiet.antt =====
-- Which steps of a run call `SendText`.
use fmxevolution_go.Base.{
  ℕ, Bool, true, false, String, ◌≡◌, refl, ◌∙◌, Option, none, some, List, Time, arith,
  if◌then◌else◌,
}
use fmxevolution_go.Base.Effect.{M, Out, ok, err, pure, raise, map_err, fail_if, ◌>>=◌}
use fmxevolution_go.Domain.{GoError}
use fmxevolution_go.Broadcast.Model.{BroadcastJob, BroadcastRecipientProgress}
use fmxevolution_go.Broadcast.Env.{Env, World, SendTextResult, ask, request, check_context, db_call}
use fmxevolution_go.Broadcast.Processor.{save, list_progress, seed, settle, pace}

-- The step makes no call of `SendText`.
pub record Quiet {E A : Type 0} (m : M World E A) : Type 0 where
  pub at : (w : World) → (m w).1.outbox ≡ w.outbox

pub Quiet-bind :
    {E A B : Type 0} {m : M World E A} {f : A → M World E B}
    → Quiet m
    → ((a : A) → Quiet (f a))
    → Quiet (m >>= f)
unfolding ◌>>=◌
Quiet-bind {E} {A} {B} {m} {f} q h = record { at = λ w. split (m w) w (q.at w) }
  where
    split :
        (r : Out E A × World) (w : World)
        → r.1.outbox ≡ w.outbox
        → (let x : Out E B × World = elim r.0 [ ok a ↦ f a r.1 | err e ↦ (err e, r.1) ] in
            x.1.outbox)
          ≡ w.outbox
    split (ok a, t) w e = (h a).at t ∙ e
    split (err x, t) w e = e

pub Quiet-map_err : {E F A : Type 0} (g : E → F) {m : M World E A} → Quiet m → Quiet (map_err g m)
unfolding map_err
Quiet-map_err {E} {F} {A} g {m} q = record { at = λ w. split (m w) w (q.at w) }
  where
    split :
        (r : Out E A × World) (w : World)
        → r.1.outbox ≡ w.outbox
        → (let x : Out F A × World = elim r.0 [ ok a ↦ (ok a, r.1) | err e ↦ (err (g e), r.1) ] in
            x.1.outbox)
          ≡ w.outbox
    split (ok a, t) w e = e
    split (err x, t) w e = e

pub Quiet-pure : {E A : Type 0} (a : A) → Quiet {E = E} (pure a)
unfolding pure
Quiet-pure a = record { at = λ w. refl }

pub Quiet-raise : {E A : Type 0} (e : E) → Quiet {A = A} (raise e)
unfolding raise
Quiet-raise e = record { at = λ w. refl }

pub Quiet-ask : {E A : Type 0} (f : ℕ → A) → Quiet {E = E} (ask f)
unfolding ask
Quiet-ask f = record { at = λ w. refl }

pub Quiet-request : {A : Type 0} (f : ℕ → Out GoError A) → Quiet (request f)
unfolding request
Quiet-request f = record { at = λ w. refl }

pub Quiet-check_context : (env : Env) → Quiet (check_context env)
unfolding check_context
Quiet-check_context env = record { at = λ w. ground arith }

pub Quiet-save : (env : Env) (r : BroadcastRecipientProgress) → Quiet (save env r)
unfolding save db_call
Quiet-save env r = record { at = λ w. ground arith }

pub Quiet-list_progress : (env : Env) (job : BroadcastJob) → Quiet (list_progress env job)
unfolding list_progress db_call
Quiet-list_progress env job = record { at = λ w. ground arith }

pub Quiet-seed : (env : Env) (rs : List BroadcastRecipientProgress) → Quiet (seed env rs)
unfolding seed db_call
Quiet-seed env rs = record { at = λ w. ground arith }

pub Quiet-if :
    {E A : Type 0} (b : Bool) {m n : M World E A} → Quiet m → Quiet n → Quiet (if b then m else n)
Quiet-if true p q = p
Quiet-if false p q = q

pub Quiet-fail_if : {E : Type 0} (b : Bool) (e : E) → Quiet (fail_if b e)
unfolding fail_if
Quiet-fail_if true e = Quiet-raise e
Quiet-fail_if false e = Quiet-pure tt

pub ruleset quiet = (
  Quiet-bind, Quiet-map_err, Quiet-pure, Quiet-raise, Quiet-ask, Quiet-request, Quiet-check_context,
  Quiet-save, Quiet-list_progress, Quiet-seed, Quiet-if, Quiet-fail_if,
)

pub Quiet-settle :
    (env : Env) (at : Time) (r : BroadcastRecipientProgress)
    (a : Out GoError (Option SendTextResult))
    → Quiet (settle env at r a)
unfolding settle
Quiet-settle env at r (err e) = search quiet depth 8
Quiet-settle env at r (ok none) = search quiet depth 8
Quiet-settle env at r (ok (some x)) = search quiet depth 8

pub Quiet-pace : (env : Env) (first : Bool) (phone : String) → Quiet (pace env first phone)
unfolding pace
Quiet-pace env true phone = Quiet-pure tt
Quiet-pace env false phone = search quiet
