-- ===== src/Webhook/Lifecycle/Runs.antt =====
-- That a run of the retry worker makes at most one attempt at each row of the table.
use fmxevolution_go.Base.{
  suc, String, ◌≡◌, refl, sym, ap, subst, ◌∙◌, ◌⊎◌, inl, inr, [], ◌∷◌, if-cases, Option-cases, Time,
  AllPairs, Pointwise, Pointwise-refl, Pointwise-trans, Pointwise-imp, arith,
}
use fmxevolution_go.Webhook.Model.{WebhookDelivery, WebhookEndpoint, EventEnvelope}
use fmxevolution_go.Webhook.Repo.{replace_delivery, save_delivery, list_due_retries}
use fmxevolution_go.Webhook.Env.{Env, World, Answer, query}
use fmxevolution_go.Webhook.Retry.{
  current_endpoint, envelope_of, next_attempt, retry_delivery, update_delivery, retry_all,
  due_limit, process_due_retries,
}
use fmxevolution_go.Webhook.Service.{send_once}
use fmxevolution_go.Webhook.Lifecycle.{RowStep, next_attempt-Attempt}
use fmxevolution_go.Webhook.Lifecycle.Rows.{
  Rows, Apart, InHand, StepOf, Replaced, replace_delivery-Replaced, then-StepOf, save-replace,
  InHand-save, InHand-rest, list_due_retries-InHand,
}

current_endpoint-kept :
    (env : Env) (d : WebhookDelivery) (w : World)
    → (current_endpoint env d w).1.deliveries ≡ w.deliveries
unfolding current_endpoint query
current_endpoint-kept env d w = ground arith

pub send_once-kept :
    (env : Env) (e : WebhookEndpoint) (v : EventEnvelope) (body : String) (w : World)
    → (send_once env e v body w).1.deliveries ≡ w.deliveries
unfolding send_once
send_once-kept env e v body w = ground arith

abbrev pub Saves : WebhookDelivery → Rows → Rows → Type 0
Saves d rows rows' =
    (rows' ≡ rows)
    ⊎ ((sent : Answer) × (now : Time) × (rows' ≡ save_delivery (next_attempt sent now d) rows))

update_delivery-Saves :
    (env : Env) (sent : Answer) (now : Time) (d : WebhookDelivery) (w : World)
    → Saves d w.deliveries (update_delivery env (next_attempt sent now d) w).deliveries
unfolding update_delivery
update_delivery-Saves env sent now d w = elim (Option-cases (env.db_fault w.tick)) [
  | inl fine ↦ inr (sent, now, rw (fine, update_delivery))
  | inr (e, refused) ↦ inl (rw (refused, update_delivery))
]

-- What an attempt writes.
pub retry_delivery-Saves :
    (env : Env) (d : WebhookDelivery) (w : World)
    → Saves d w.deliveries (retry_delivery env d w).deliveries
unfolding retry_delivery
retry_delivery-Saves env d w =
    let (e, w₁) = current_endpoint env d w in
    let (sent, w₂) = send_once env e (envelope_of d) d.request_body w₁ in
    subst (λ l. Saves d l (retry_delivery env d w).deliveries)
      (send_once-kept env e (envelope_of d) d.request_body w₁ ∙ current_endpoint-kept env d w)
      (update_delivery-Saves env sent (env.clock w₂.tick) d (record w₂ { tick = suc w₂.tick }))

wider-StepOf :
    (d : WebhookDelivery) (ds : Rows) (r s : WebhookDelivery) → StepOf ds r s → StepOf (d ∷ ds) r s
wider-StepOf d ds r s (inl same) = inl same
wider-StepOf d ds r s (inr (found, step)) = inr (ground arith, step)

StepOf-RowStep : (ds : Rows) (r s : WebhookDelivery) → StepOf ds r s → RowStep r s
StepOf-RowStep ds r s (inl same) = inl same
StepOf-RowStep ds r s (inr (found, step)) = inr step

module _ (env : Env) where
  -- What a run over the rest does, behind what the attempt at `d` has written.
  behind-StepOf :
      (d : WebhookDelivery) (ds rows rows' : Rows)
      → InHand (d ∷ ds) rows
      → Saves d rows rows'
      → (final : Rows) → (InHand ds rows' → Pointwise (StepOf ds) rows' final)
      → Pointwise (StepOf (d ∷ ds)) rows final
  behind-StepOf d ds rows rows' h (inl same) final next =
      Pointwise-trans {R = λ x y. y ≡ x} _
        (λ x y z p q. wider-StepOf d ds x z (subst (λ t. StepOf ds t z) p q))
        (Pointwise-refl _ (λ x. refl) rows)
        (subst (λ l. Pointwise (StepOf ds) l final) same
          (next (subst (InHand ds) (sym same) (InHand-rest d ds rows h))))
  behind-StepOf d ds rows rows' h (inr (sent, now, wrote)) final next =
      let new = next_attempt sent now d in
      let step = next_attempt-Attempt sent now d h.waiting.0 in
      let id : new.id ≡ d.id = ap (λ x. x.id) step.1 in
      let made : rows' ≡ replace_delivery new rows =
        wrote ∙ save-replace d new ds rows id h.present.0 in
      Pointwise-trans _ (λ x y z p q. then-StepOf d new ds x y z id h.apart.0 step p q)
        (subst (Pointwise (Replaced d new) rows) (sym made)
          (replace_delivery-Replaced d new rows id h.rows_of.0))
        (next (subst (InHand ds) (sym made) (InHand-save d new ds rows id h)))

  retry_all-StepOf :
      (ds : Rows) (w : World)
      → InHand ds w.deliveries
      → Pointwise (StepOf ds) w.deliveries (retry_all env ds w).deliveries
  unfolding retry_all
  retry_all-StepOf [] w h = Pointwise-refl _ (λ x. inl refl) w.deliveries
  retry_all-StepOf (d ∷ ds) w h =
      let asked = record w { tick = suc w.tick } in
      if-cases {A = World} (λ v. Pointwise (StepOf (d ∷ ds)) w.deliveries v.deliveries)
        (env.cancelled w.tick) (λ _. Pointwise-refl _ (λ x. inl refl) w.deliveries)
        (λ _.
          behind-StepOf d ds w.deliveries _ h (retry_delivery-Saves env d asked) _
            (retry_all-StepOf ds (retry_delivery env d asked)))

-- What a run of the worker writes, where no two rows have one identifier and whatever the endpoints,
-- the clock and the database answer: each row of the table stays as it is, or it was waiting for an
-- attempt, and one was made and counted.
pub process_due_retries-RowStep :
    (env : Env) (w : World)
    → AllPairs Apart w.deliveries
    → Pointwise RowStep w.deliveries (process_due_retries env w).deliveries
unfolding process_due_retries query
process_due_retries-RowStep env w h = elim (Option-cases (env.db_fault (suc w.tick))) [
  | inl fine ↦
      let due = list_due_retries (env.clock w.tick) due_limit w.deliveries in
      rw (fine, process_due_retries, query, fine)
        (Pointwise-imp (StepOf due) RowStep (StepOf-RowStep due) (
          retry_all-StepOf env due (record w { tick = suc (suc w.tick) })
            (list_due_retries-InHand (env.clock w.tick) due_limit w.deliveries h)))
  | inr (e, refused) ↦
      rw (refused, process_due_retries, query, refused)
        (Pointwise-refl _ (λ x. inl refl) w.deliveries)
]
