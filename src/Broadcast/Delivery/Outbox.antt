-- ===== src/Broadcast/Delivery/Outbox.antt =====
-- The calls of `SendText` that a run makes.
use mathlib.Core.List.{append-nil, append_assoc}
use fmxevolution_go.Base.{
  ℕ, suc, Bool, true, false, String, ◌≡◌, refl, sym, ap, ◌∙◌, Option, List, [], ◌∷◌, ◌++◌, map, ◌⊎◌,
  inl, inr, take, length,
}
use fmxevolution_go.Base.Effect.{M, Out, ok, err, pure, ◌>>=◌}
use fmxevolution_go.Domain.{GoError}
use fmxevolution_go.Broadcast.Model.{BroadcastJob, BroadcastRecipientProgress}
use fmxevolution_go.Broadcast.Env.{Env, World, SendCall, SendTextResult, send_text_call}
use fmxevolution_go.Broadcast.Processor.{Proc, ProcessorError, caught, deliver_one, deliver_all}
use fmxevolution_go.Broadcast.Delivery.Quiet.{Quiet, quiet, Quiet-settle, Quiet-pace}

-- The call that a run of a job makes for a row.
abbrev pub call_for : BroadcastJob → String → BroadcastRecipientProgress → SendCall
call_for job inst r = record {
  tenant = job.tenant_id;
  reference = inst;
  number = r.phone;
  text = job.message;
}

abbrev pub is_ok : {E A : Type 0} → Out E A → Bool
is_ok (ok a) = true
is_ok (err e) = false

-- The step makes the call `c` once, or fails without having made it.
record CallsOnce {E A : Type 0} (c : SendCall) (m : M World E A) : Type 0 where
  at :
      (w : World)
      → ((is_ok (m w).0 ≡ false) × ((m w).1.outbox ≡ w.outbox))
        ⊎ ((m w).1.outbox ≡ w.outbox ++ c ∷ [])

CallsOnce-bind :
    {E A B : Type 0} (c : SendCall) (m : M World E A) (f : A → M World E B)
    → Quiet m
    → ((a : A) → CallsOnce c (f a))
    → CallsOnce c (m >>= f)
unfolding ◌>>=◌
CallsOnce-bind {E} {A} {B} c m f q h = record { at = λ w. split (m w) w (q.at w) }
  where
    split :
        (r : Out E A × World) (w : World)
        → r.1.outbox ≡ w.outbox
        → (let x : Out E B × World = elim r.0 [ ok a ↦ f a r.1 | err e ↦ (err e, r.1) ] in
            ((is_ok x.0 ≡ false) × (x.1.outbox ≡ w.outbox)) ⊎ (x.1.outbox ≡ w.outbox ++ c ∷ []))
    split (ok a, t) w e = rw (← e) ((h a).at t)
    split (err x, t) w e = inl (refl, e)

CallsOnce-send :
    (env : Env) (c : SendCall) (f : Out GoError (Option SendTextResult) → Proc (Unit {0}))
    → ((a : Out GoError (Option SendTextResult)) → Quiet (f a))
    → CallsOnce c (caught (send_text_call env c) >>= f)
unfolding ◌>>=◌ send_text_call
CallsOnce-send env c f q = record { at = λ w. inr ((q (env.send_text w.tick c)).at _) }

CallsOnce-deliver_one :
    (env : Env) (job : BroadcastJob) (inst : String) (first : Bool) (r : BroadcastRecipientProgress)
    → CallsOnce (call_for job inst r) (deliver_one env job inst first r)
unfolding deliver_one
CallsOnce-deliver_one env job inst first r =
    search (CallsOnce-bind, CallsOnce-send, quiet, Quiet-settle, Quiet-pace) depth 12

-- Where a run stops: the calls for the first `k` rows are made, in order and once each.
abbrev pub Sends :
    BroadcastJob
    → String
    → List BroadcastRecipientProgress
    → World
    → Out ProcessorError (Unit {0}) × World
    → Type 0
Sends job inst rs w (answer, w') =
    (k : ℕ) × (w'.outbox ≡ w.outbox ++ map (call_for job inst) (take k rs))
    × (is_ok answer ≡ true → k ≡ length rs)

-- A run over a list of rows calls `SendText` for a prefix of the list: in the list's order, once
-- for each row of the prefix, with the row's number and the job's message, and makes no other call.
-- A run that ends without an error has called it for every row.
pub outbox-deliver_all :
    (env : Env) (job : BroadcastJob) (inst : String) (first : Bool)
    (rs : List BroadcastRecipientProgress) (w : World)
    → Sends job inst rs w (deliver_all env job inst first rs w)
unfolding deliver_all pure ◌>>=◌
outbox-deliver_all env job inst first [] w = (0, sym (append-nil w.outbox), λ _. refl)
outbox-deliver_all env job inst first (r ∷ rs) w =
    split (deliver_one env job inst first r w) ((CallsOnce-deliver_one env job inst first r).at w)
      (λ t. outbox-deliver_all env job inst false rs t)
  where
    c : SendCall
    c = call_for job inst r

    after : Out ProcessorError (Unit {0}) × World → Out ProcessorError (Unit {0}) × World
    after x = elim x.0 [ ok a ↦ deliver_all env job inst false rs x.1 | err e ↦ (err e, x.1) ]

    more :
        (t : World) (y : Out ProcessorError (Unit {0}) × World)
        → t.outbox ≡ w.outbox ++ c ∷ []
        → Sends job inst rs t y
        → Sends job inst (r ∷ rs) w y
    more t (answer, w') e (k, o, n) = (
      suc k,
      o ∙ ap (λ l. l ++ map (call_for job inst) (take k rs)) e ∙ append_assoc w.outbox _ _,
      λ h. ap suc (n h),
    )

    split :
        (x : Out ProcessorError (Unit {0}) × World)
        → ((is_ok x.0 ≡ false) × (x.1.outbox ≡ w.outbox)) ⊎ (x.1.outbox ≡ w.outbox ++ c ∷ [])
        → ((t : World) → Sends job inst rs t (deliver_all env job inst false rs t))
        → Sends job inst (r ∷ rs) w (after x)
    split (ok a, t) (inl (bad, e)) ih = cc
    split (ok a, t) (inr e) ih = more t (deliver_all env job inst false rs t) e (ih t)
    split (err x, t) (inl (bad, e)) ih = (0, e ∙ sym (append-nil w.outbox), λ h. cc)
    split (err x, t) (inr e) ih = (1, e, λ h. cc)
