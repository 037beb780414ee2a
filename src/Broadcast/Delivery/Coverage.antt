-- ===== src/Broadcast/Delivery/Coverage.antt =====
-- A run that ends without an error leaves no recipient of the job unsettled.
use fmxevolution_go.Base.{
  ℕ, Bool, true, false, String, ◌≡◌, refl, sym, ap, subst, ◌∙◌, Option, none, some, List, [], ◌∷◌,
  Time, arith, trim_space, to_lower, Bool-cases, inl, inr, All,
}
use fmxevolution_go.Base.Effect.{
  M, Out, ok, err, Triple, Triple-bind, Triple-map_err, Triple-raise, Triple-pure,
}
use fmxevolution_go.Domain.{GoError}
use fmxevolution_go.Broadcast.Model.{BroadcastJob, BroadcastRecipientProgress}
use fmxevolution_go.Broadcast.Repo.{save_recipient_progress}
use fmxevolution_go.Broadcast.Env.{
  Env, World, SendCall, SendTextResult, ask, check_context, db_call, send_text_call,
}
use fmxevolution_go.Broadcast.Recipients.{
  is_settled, is_permanent_send_error, is_confirmed_send_attempt,
}
use fmxevolution_go.Broadcast.Processor.{
  ProcessorError, no_evidence, save, settle, caught, pace, attempt, failed_for_good, still_pending,
  delivered, deliver_one, deliver_all,
}
use fmxevolution_go.Broadcast.Delivery.Rows.{Row, Covers, save-settled, save-keeps}

-- A step that leaves the tables as they are keeps what is known of them.
module _ (job : BroadcastJob) (rs : List BroadcastRecipientProgress) where
  abbrev Still : {A : Type 0} → A → World → Type 0
  Still a w = Covers job rs w

  Triple-same :
      {E A : Type 0} {m : M World E A}
      → ((w : World) → (m w).1.db ≡ w.db)
      → Triple (Covers job rs) m Still
  Triple-same same = record {
    at =
        λ w h a t e. subst (λ d. All (Row job rs) d.progress) (sym (same w) ∙ ap (λ x. x.1.db) e) h;
  }

  Triple-check_context : (env : Env) → Triple (Covers job rs) (check_context env) Still
  unfolding check_context
  Triple-check_context env = Triple-same (λ w. ground arith)

  Triple-ask : {E A : Type 0} (f : ℕ → A) → Triple {E = E} (Covers job rs) (ask f) Still
  unfolding ask
  Triple-ask f = Triple-same (λ w. refl)

  Triple-send :
      (env : Env) (c : SendCall)
      → Triple {E = ProcessorError} (Covers job rs) (caught (send_text_call env c)) Still
  unfolding send_text_call
  Triple-send env c = Triple-same (λ w. refl)

  Triple-pace :
      (env : Env) (first : Bool) (phone : String)
      → Triple (Covers job rs) (pace env first phone) Still
  unfolding pace
  Triple-pace env true phone = Triple-pure tt (λ w h. h)
  Triple-pace env false phone = Triple-map_err _ (Triple-check_context env)

-- What a save makes of the table, where the database accepts it.
save-ok :
    (env : Env) (q : BroadcastRecipientProgress) (w t : World)
    → save env q w ≡ (ok tt, t)
    → t.db.progress ≡ save_recipient_progress q w.db.progress
unfolding save db_call
save-ok env q w t h = ground arith

module _ (job : BroadcastJob) (r : BroadcastRecipientProgress)
    (rs : List BroadcastRecipientProgress) where
  module _ (env : Env) (q : BroadcastRecipientProgress) (b : q.broadcast_id ≡ r.broadcast_id)
      (p : q.phone ≡ r.phone) where
    Triple-save-keeps : Triple (Covers job (r ∷ rs)) (save env q) (λ _. Covers job (r ∷ rs))
    Triple-save-keeps = record {
      at = λ w h a t e. rw (save-ok env q w t e) (save-keeps job r rs q w.db.progress b p h);
    }

    Triple-save-settled :
        is_settled q ≡ true → Triple (Covers job (r ∷ rs)) (save env q) (λ _. Covers job rs)
    Triple-save-settled s = record {
      at = λ w h a t e. rw (save-ok env q w t e) (save-settled job r rs q w.db.progress b p s h);
    }

  is_settled-failed_for_good :
      (at : Time) (e : GoError) → is_settled (failed_for_good at e r) ≡ true
  unfolding is_settled failed_for_good trim_space to_lower
  is_settled-failed_for_good at e = refl

  is_settled-delivered : (at : Time) (x : SendTextResult) → is_settled (delivered at x r) ≡ true
  unfolding is_settled delivered trim_space to_lower
  is_settled-delivered at x = refl

  Triple-settle :
      (env : Env) (at : Time) (a : Out GoError (Option SendTextResult))
      → Triple (Covers job (r ∷ rs)) (settle env at r a) (λ _. Covers job rs)
  unfolding settle failed_for_good still_pending delivered
  Triple-settle env at (err e) = elim (Bool-cases (is_permanent_send_error e)) [
    | inl lost ↦
        rw (lost, settle)
          (Triple-bind (λ _. Covers job (r ∷ rs)) (Triple-ask job (r ∷ rs) env.clock)
            (λ t. Triple-map_err _ (
              Triple-save-settled env (failed_for_good t e r) refl refl
                (is_settled-failed_for_good t e))))
    | inr again ↦
        rw (again, settle)
          (Triple-bind (λ _. Covers job (r ∷ rs))
            (Triple-map_err _ (Triple-save-keeps env (still_pending e r) refl refl))
            (λ _. Triple-raise _))
  ]
  Triple-settle env at (ok none) =
      Triple-bind (λ _. Covers job (r ∷ rs))
        (Triple-map_err _ (Triple-save-keeps env (still_pending (no_evidence r.phone) r) refl refl))
        (λ _. Triple-raise _)
  Triple-settle env at (ok (some x)) = elim (Bool-cases (is_confirmed_send_attempt (some x))) [
    | inl sure ↦
        rw (sure, settle)
          (Triple-map_err _
            (Triple-save-settled env (delivered at x r) refl refl (is_settled-delivered at x)))
    | inr doubt ↦
        rw (doubt, settle)
          (Triple-bind (λ _. Covers job (r ∷ rs))
            (Triple-map_err _
              (Triple-save-keeps env (still_pending (no_evidence r.phone) r) refl refl))
            (λ _. Triple-raise _))
  ]

-- The key of a row stays through an attempt.
Triple-attempted :
    (job : BroadcastJob) (r : BroadcastRecipientProgress) (rs : List BroadcastRecipientProgress)
    (env : Env) (at : Time) (a : Out GoError (Option SendTextResult))
    → Triple (Covers job (r ∷ rs)) (settle env at (attempt at r) a) (λ _. Covers job rs)
unfolding attempt
Triple-attempted job r rs env at a = Triple-settle job (attempt at r) rs env at a

Triple-deliver_one :
    (job : BroadcastJob) (r : BroadcastRecipientProgress) (rs : List BroadcastRecipientProgress)
    (env : Env) (inst : String) (first : Bool)
    → Triple (Covers job (r ∷ rs)) (deliver_one env job inst first r) (λ _. Covers job rs)
unfolding deliver_one attempt
Triple-deliver_one job r rs env inst first =
    let all : List BroadcastRecipientProgress = r ∷ rs in
    Triple-bind (λ _. Covers job all) (Triple-map_err _ (Triple-check_context job all env))
      λ _.
        Triple-bind (λ _. Covers job all) (Triple-pace job all env first r.phone)
          λ _.
            Triple-bind (λ _. Covers job all) (Triple-ask job all env.clock)
              λ at.
                Triple-bind (λ _. Covers job all)
                  (Triple-map_err _ (Triple-save-keeps job r rs env (attempt at r) refl refl))
                  λ _.
                    Triple-bind (λ _. Covers job all)
                      (Triple-map_err _ (Triple-check_context job all env))
                      λ _.
                        Triple-bind (λ _. Covers job all) (Triple-send job all env _)
                          λ a. Triple-attempted job r rs env at a

pub Triple-deliver_all :
    (job : BroadcastJob) (env : Env) (inst : String) (first : Bool)
    (rs : List BroadcastRecipientProgress)
    → Triple (Covers job rs) (deliver_all env job inst first rs) (λ _. Covers job [])
unfolding deliver_all
Triple-deliver_all job env inst first [] = Triple-pure tt (λ w h. h)
Triple-deliver_all job env inst first (r ∷ rs) =
    Triple-bind (λ _. Covers job rs) (Triple-deliver_one job r rs env inst first)
      (λ _. Triple-deliver_all job env inst false rs)
