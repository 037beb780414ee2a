-- ===== src/Webhook/Service/Duplicate.antt =====
-- When an event counts as one that was dispatched before.
use mathlib.Core.List.{Memᴰ}
use fmxevolution_go.Base.{
  ℕ, ◌+◌, ◌-◌, ◌≤◌, true, false, none, some, str_eq, ◌&&◌, Bool-cases, any, eq_iff, trim_space,
  subst, any-member, String, not, ◌≡◌, sym, ap, ◌∙◌, inl, inr, Option-cases, suc, arith,
}
use fmxevolution_go.Base.Effect.{ok, pure, ◌>>=◌, or_value, ok-injective}
use fmxevolution_go.Webhook.Model.{WebhookDelivery, DispatchInput, Settings}
use fmxevolution_go.Webhook.Repo.{has_recent_delivery, is_recent}
use fmxevolution_go.Webhook.Events.{normalize_event_type}
use fmxevolution_go.Webhook.Env.{Env, World, ask, query}
use fmxevolution_go.Webhook.Service.Dispatch.{is_duplicate}

-- An inbound message of which a delivery is stored that is no older than the window, by the clock of
-- one of the calls.
abbrev pub SeenBefore : Env → Settings → String → String → DispatchInput → World → Type 0
SeenBefore env s tenant direction input w =
    (direction ≡ "inbound")
    × (str_eq (trim_space input.message_id) "" ≡ false)
    × ((n : ℕ) × (d : WebhookDelivery) × Memᴰ d w.deliveries
        × (d.tenant_id ≡ tenant)
        × (d.direction ≡ "inbound")
        × (d.event_type ≡ normalize_event_type (trim_space input.event_type) direction input.values)
        × (d.message_id ≡ trim_space input.message_id)
        × (env.clock n ≤ d.created_at + s.dedupe_window))

module _ (env : Env) (s : Settings) (tenant event msg : String) (u : World) where
  -- What the test for a duplicate answers, where it looks.
  is_duplicate-looks :
      str_eq msg "" ≡ false
      → env.db_fault (suc u.tick) ≡ none
      → is_duplicate env s tenant "inbound" event msg u ≡ (
        ok (
            any
              (is_recent tenant "inbound" event msg (env.clock u.tick - s.dedupe_window))
              u.deliveries),
        record u { tick = suc (suc u.tick) },
      )
  unfolding is_duplicate
  is_duplicate-looks named fine =
      rw (named, ◌>>=◌, ask, or_value, query, fine, has_recent_delivery, named, query, fine)

  is_duplicate-refused :
      (x : String)
      → str_eq msg "" ≡ false
      → env.db_fault (suc u.tick) ≡ some x
      → is_duplicate env s tenant "inbound" event msg u
        ≡ (ok false, record u { tick = suc (suc u.tick) })
  unfolding is_duplicate
  is_duplicate-refused x named refused =
      rw (named, ◌>>=◌, ask, or_value, query, refused, query, refused)

  is_duplicate-any :
      (t : World)
      → str_eq msg "" ≡ false
      → is_duplicate env s tenant "inbound" event msg u ≡ (ok true, t)
      → any (is_recent tenant "inbound" event msg (env.clock u.tick - s.dedupe_window)) u.deliveries
        ≡ true
  is_duplicate-any t named h = elim (Option-cases (env.db_fault (suc u.tick))) [
    | inl fine ↦ ok-injective (ap (λ r. r.0) (sym (is_duplicate-looks named fine) ∙ h))
    | inr (x, refused) ↦
        absurd (
          false-true
            (ok-injective (ap (λ r. r.0) (sym (is_duplicate-refused x named refused) ∙ h))))
  ]
    where
      false-true : ¬ (false ≡ true)
      false-true k = cc

  is_duplicate-inbound :
      (direction : String) (t : World)
      → is_duplicate env s tenant direction event msg u ≡ (ok true, t)
      → (direction ≡ "inbound") × (str_eq msg "" ≡ false)
  unfolding is_duplicate pure
  is_duplicate-inbound direction t h =
      elim (Bool-cases (str_eq direction "inbound" && not (str_eq msg ""))) [
        | inl looks ↦ ((eq_iff direction "inbound").0 (ground arith), ground arith)
        | inr skips ↦
            let quiet : is_duplicate env s tenant direction event msg u ≡ (ok false, u) =
              rw skips in
            absurd (false-true (ok-injective (ap (λ r. r.0) (sym quiet ∙ h))))
      ]
    where
      false-true : ¬ (false ≡ true)
      false-true k = cc

pub is_duplicate-SeenBefore :
    (env : Env) (s : Settings) (tenant direction : String) (input : DispatchInput) (w u t : World)
    → u.deliveries ≡ w.deliveries
    → is_duplicate env s tenant direction
        (normalize_event_type (trim_space input.event_type) direction input.values)
        (trim_space input.message_id)
        u
      ≡ (ok true, t)
    → SeenBefore env s tenant direction input w
unfolding is_recent
is_duplicate-SeenBefore env s tenant direction input w u t same h =
    let event = normalize_event_type (trim_space input.event_type) direction input.values in
    let msg = trim_space input.message_id in
    let (inbound, named) = is_duplicate-inbound env s tenant event msg u direction t h in
    let seen =
      is_duplicate-any env s tenant event msg u t named
        (subst (λ d. is_duplicate env s tenant d event msg u ≡ (ok true, t)) inbound h) in
    let (d, m, k) = any-member _ u.deliveries seen in
    (
      inbound,
      named,
      (
        u.tick,
        d,
        subst (Memᴰ d) same m,
        (eq_iff d.tenant_id tenant).0 (ground arith),
        (eq_iff d.direction "inbound").0 (ground arith),
        (eq_iff d.event_type event).0 (ground arith),
        (eq_iff d.message_id msg).0 (ground arith),
        ground arith,
      ),
    )
