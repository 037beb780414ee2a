-- ===== src/Webhook/Lifecycle/Rows.antt =====
-- The table of deliveries where the retry worker replaces rows of it, one behind the other.
use fmxevolution_go.Base.{
  ◌≡◌, refl, sym, subst, subst₂, All-both, ◌∙◌, ◌⊎◌, inl, inr, true, false, List, [], ◌∷◌, str_eq,
  eq_iff, eq_refl, str_eq-sym, Bool-cases, Time, ℕ, any, any_self, filter, All, All-imp, All-filter,
  All-take, All-order_by, filter-All, AllPairs, AllPairs-filter, AllPairs-take, AllPairs-order_by,
  Pointwise, done, pair, All-Pointwise, arith,
}
use fmxevolution_go.Webhook.Model.{WebhookDelivery}
use fmxevolution_go.Webhook.Repo.{
  status_retrying, has_delivery, replace_delivery, save_delivery, is_due, earlier_retry,
  list_due_retries,
}
use fmxevolution_go.Webhook.Lifecycle.{Attempt}

abbrev pub Rows : Type 0
Rows = List WebhookDelivery

-- Two deliveries with different identifiers.
abbrev pub Apart : WebhookDelivery → WebhookDelivery → Type 0
Apart d e = str_eq d.id e.id ≡ false

-- The rows with the identifier of `d` are `d`.
abbrev pub IsRow : Rows → WebhookDelivery → Type 0
IsRow rows d = All (λ r. has_delivery d.id r ≡ true → r ≡ d) rows

-- What a run of the worker has in hand: rows of the table that wait, each once.
pub record InHand (ds rows : Rows) : Type 0 where
  pub waiting : All (λ d. d.status ≡ status_retrying) ds
  pub apart : AllPairs Apart ds
  pub rows_of : All (IsRow rows) ds
  pub present : All (λ d. any (has_delivery d.id) rows ≡ true) ds

-- A row stays, or an attempt was made at it, which is one of those in hand.
abbrev pub StepOf : Rows → WebhookDelivery → WebhookDelivery → Type 0
StepOf ds r r' = (r' ≡ r) ⊎ ((any (λ d. has_delivery d.id r) ds ≡ true) × Attempt r r')

-- The row of `d` takes a step to `new`, and every other row stays.
abbrev pub Replaced : WebhookDelivery → WebhookDelivery → WebhookDelivery → WebhookDelivery → Type 0
Replaced d new r r' =
    ((has_delivery d.id r ≡ false) × (r' ≡ r))
    ⊎ ((has_delivery d.id r ≡ true) × (r ≡ d) × (r' ≡ new))

pub replace_delivery-Replaced :
    (d new : WebhookDelivery) (rows : Rows)
    → new.id ≡ d.id
    → IsRow rows d
    → Pointwise (Replaced d new) rows (replace_delivery new rows)
unfolding replace_delivery
replace_delivery-Replaced d new [] same h = done
replace_delivery-Replaced d new (r ∷ rs) same h =
    let rest = replace_delivery-Replaced d new rs same h.1 in
    elim (Bool-cases (has_delivery d.id r)) [
      | inl hit ↦
          rw (subst (λ i. has_delivery i r ≡ true) (sym same) hit)
            (pair (inr (hit, h.0 hit, refl)) rest)
      | inr miss ↦
          rw (subst (λ i. has_delivery i r ≡ false) (sym same) miss) (pair (inl (miss, refl)) rest)
    ]

any-replace_delivery :
    (id : _) (new : WebhookDelivery) (rows : Rows)
    → any (has_delivery id) (replace_delivery new rows) ≡ any (has_delivery id) rows
unfolding replace_delivery has_delivery
any-replace_delivery id new [] = refl
any-replace_delivery id new (r ∷ rs) =
    ground (arith, any-replace_delivery id new rs, eq_iff r.id new.id)

no_other :
    (d new : WebhookDelivery) (ds : Rows)
    → new.id ≡ d.id
    → All (Apart d) ds
    → any (λ e. has_delivery e.id new) ds ≡ false
unfolding has_delivery
no_other d new [] same h = refl
no_other d new (e ∷ es) same h =
    ground (arith, subst (λ i. str_eq i e.id ≡ false) (sym same) h.0, no_other d new es same h.1)

-- The attempts of the rest of a run, behind the one at `d`.
pub then-StepOf :
    (d new : WebhookDelivery) (ds : Rows) (r s t : WebhookDelivery)
    → new.id ≡ d.id
    → All (Apart d) ds
    → Attempt d new
    → Replaced d new r s
    → StepOf ds s t
    → StepOf (d ∷ ds) r t
then-StepOf d new ds r s t same apart step (inl (miss, kept)) (inl stays) = inl (stays ∙ kept)
then-StepOf d new ds r s t same apart step (inl (miss, kept)) (inr (found, a)) =
    let at : any (λ e. has_delivery e.id r) ds ≡ true =
      subst (λ x. any (λ e. has_delivery e.id x) ds ≡ true) kept found in
    inr (ground arith, subst (λ x. Attempt x t) kept a)
then-StepOf d new ds r s t same apart step (inr (hit, own, made)) (inl stays) =
    inr (ground arith, subst₂ Attempt (sym own) (sym (stays ∙ made)) step)
then-StepOf d new ds r s t same apart step (inr (hit, own, made)) (inr (found, a)) =
    let at : any (λ e. has_delivery e.id new) ds ≡ true =
      subst (λ x. any (λ e. has_delivery e.id x) ds ≡ true) made found in
    absurd (ground (arith, no_other d new ds same apart))

row_of :
    (d new e r s : WebhookDelivery)
    → new.id ≡ d.id
    → Apart d e
    → (has_delivery e.id r ≡ true → r ≡ e)
    → Replaced d new r s
    → has_delivery e.id s ≡ true
    → s ≡ e
unfolding has_delivery
row_of d new e r s same apart h (inl (miss, kept)) k =
    kept ∙ h (subst (λ x. has_delivery e.id x ≡ true) kept k)
row_of d new e r s same apart h (inr (hit, own, made)) k =
    let at : str_eq new.id e.id ≡ true = subst (λ x. has_delivery e.id x ≡ true) made k in
    absurd (ground (arith, subst (λ i. str_eq i e.id ≡ true) same at))

module _ (d new : WebhookDelivery) (ds rows : Rows) (same : new.id ≡ d.id) where
  pub save-replace :
      any (has_delivery d.id) rows ≡ true → save_delivery new rows ≡ replace_delivery new rows
  unfolding save_delivery
  save-replace h = rw (subst (λ i. any (has_delivery i) rows ≡ true) (sym same) h) refl

  -- What is in hand behind the first attempt.
  pub InHand-save : InHand (d ∷ ds) rows → InHand ds (replace_delivery new rows)
  InHand-save h = record {
    waiting = h.waiting.1;
    apart = h.apart.1;
    rows_of =
        All-imp (λ e. Apart d e × IsRow rows e) _
          (λ e k.
            All-Pointwise _ _ (λ r s p q. row_of d new e r s same k.0 p q)
              (replace_delivery-Replaced d new rows same h.rows_of.0) k.1)
          ds (All-both (Apart d) (IsRow rows) ds h.apart.0 h.rows_of.1);
    present = All-imp _ _ (λ e p. rw (any-replace_delivery e.id new rows) p) ds h.present.1;
  }

pub InHand-rest : (d : WebhookDelivery) (ds rows : Rows) → InHand (d ∷ ds) rows → InHand ds rows
InHand-rest d ds rows h = record {
  waiting = h.waiting.1;
  apart = h.apart.1;
  rows_of = h.rows_of.1;
  present = h.present.1;
}

unique-IsRow : (rows : Rows) → AllPairs Apart rows → All (IsRow rows) rows
unfolding has_delivery
unique-IsRow [] h = tt
unique-IsRow (r ∷ rs) h = (
  (λ _. refl, All-imp (Apart r) _ (λ x a k. absurd (ground (arith, str_eq-sym x.id r.id))) rs h.0),
  All-imp (λ d. Apart r d × IsRow rs d) (IsRow (r ∷ rs)) (λ d k. (λ e. absurd (ground arith), k.1))
      rs (All-both (Apart r) (IsRow rs) rs h.0 (unique-IsRow rs h.1)),
)

pub is_due-waits :
    (now : Time) (d : WebhookDelivery) → is_due now d ≡ true → d.status ≡ status_retrying
is_due-waits now d k = ground (arith, eq_iff d.status status_retrying)

module _ (now : Time) (limit : ℕ) (rows : Rows) where
  pub due-kept :
      (P : WebhookDelivery → Type 0)
      → All P (filter (is_due now) rows)
      → All P (list_due_retries now limit rows)
  unfolding list_due_retries
  due-kept P h = All-take P limit _ (All-order_by P earlier_retry _ h)

  -- What the worker takes up, where no two rows have one identifier.
  pub list_due_retries-InHand : AllPairs Apart rows → InHand (list_due_retries now limit rows) rows
  unfolding list_due_retries has_delivery
  list_due_retries-InHand h = record {
    waiting =
        due-kept (λ d. d.status ≡ status_retrying)
          (All-imp (λ d. is_due now d ≡ true) _ (is_due-waits now) _
            (All-filter (is_due now) rows));
    apart = AllPairs-take Apart limit _ (
        AllPairs-order_by Apart (λ x y k. str_eq-sym y.id x.id ∙ k) earlier_retry _
          (AllPairs-filter Apart (is_due now) rows h));
    rows_of =
        due-kept (IsRow rows) (filter-All (IsRow rows) (is_due now) rows (unique-IsRow rows h));
    present =
        due-kept (λ d. any (has_delivery d.id) rows ≡ true)
          (filter-All _ (is_due now) rows
            (All-imp _ _ (λ d k. k (has_delivery d.id) (eq_refl d.id)) rows (any_self rows)));
  }
