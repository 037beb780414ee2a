-- ===== src/Broadcast/Service/Created.antt =====
-- What `Create` leaves in the table of jobs.
use fmxevolution_go.Base.{
  ℕ, zero, suc, ◌⊎◌, ◌+◌, ◌*◌, ◌^◌, ◌≤◌, ◌<◌, String, false, ◌||◌, ◌≡◌, refl, sym, ap, subst, ◌∙◌,
  if-cases, Option-cases, Option, none, some, List, [], ◌∷◌, ◌++◌, str_eq, is_pos, nonneg_part, pos,
  Time, second, or_else, arith, trim_space, Bool-cases, inl, inr, to_int64, to_int64-small,
  add_duration, after, if◌then◌else◌,
}
use fmxevolution_go.Base.Effect.{
  Triple-fail_if, Triple-fail_if_kept, Triple-require, M, Out, ok, Triple, Triple-bind,
  Triple-map_err, Triple-pure,
}
use fmxevolution_go.Domain.{GoError}
use fmxevolution_go.Broadcast.Model.{BroadcastJob, status_queued}
use fmxevolution_go.Broadcast.Env.{Env, World, ask, request, db_call}
use fmxevolution_go.Broadcast.Recipients.{BroadcastRecipient, eligible_broadcast_recipients}
use fmxevolution_go.Broadcast.Processor.{seed}
use fmxevolution_go.Broadcast.Service.{
  CreateInput, create, create_job, new_job, first_available_at, seed_recipient_snapshot,
  seed_snapshot, enrich_job, with_recipients, with_analytics, summarize_progress,
}

delay_end :
    (now : Time) (delay : ℕ)
    → delay * second < 2 ^ 63
    → (if is_pos (pos delay) then add_duration now (to_int64 (delay * second)) else now)
      ≡ now + delay * second
unfolding add_duration
delay_end now zero h = omega arith
delay_end now (suc d) h = ground (arith, to_int64-small (suc d * second) h)

first_available_at-none :
    (now : Time) (delay : ℕ)
    → delay * second < 2 ^ 63
    → first_available_at now (pos delay) none ≡ now + delay * second
unfolding first_available_at
first_available_at-none now delay h = delay_end now delay h

first_available_at-some :
    (now : Time) (delay : ℕ) (t : Time)
    → delay * second < 2 ^ 63
    → first_available_at now (pos delay) (some t)
      ≡ (if after t (now + delay * second) then t else now + delay * second)
unfolding first_available_at
first_available_at-some now delay t h = ap (λ x. if after t x then t else x) (delay_end now delay h)

-- Where the delay of a new job fits an `int64` in nanoseconds, the job is available when the delay
-- has passed or at the scheduled time, whichever is later.
pub first_available_at_lem :
    (now : Time) (delay : ℕ) (scheduled : Option Time)
    → delay * second < 2 ^ 63
    → let at = first_available_at now (pos delay) scheduled in
      (now + delay * second ≤ at)
      × (or_else scheduled 0 ≤ at)
      × ((at ≡ now + delay * second) ⊎ (scheduled ≡ some at))
first_available_at_lem now delay none h =
    rw (first_available_at-none now delay h) (omega arith, omega arith, inl refl)
first_available_at_lem now delay (some t) h = elim (Bool-cases (after t (now + delay * second))) [
  | inl late ↦
      rw (first_available_at-some now delay t h, late) (ground arith, omega arith, inr refl)
  | inr early ↦
      rw (first_available_at-some now delay t h, early) (omega arith, ground arith, inl refl)
]

-- The row that a call of `Create` has added to a table of jobs: a job in the queue with no attempt
-- made and at least one allowed, of the tenant, with the instance and the message of the request.
pub record Created (tenant : String) (input : CreateInput) (jobs jobs' : List BroadcastJob)
    : Type 0 where
  pub made : BroadcastJob
  pub row : jobs' ≡ jobs ++ made ∷ []
  pub queued : made.status ≡ status_queued
  pub untried : made.attempts ≡ 0
  pub allowed : 0 < nonneg_part made.max_attempts
  pub owner : made.tenant_id ≡ tenant
  pub instance_name : made.instance_id ≡ trim_space input.instance_id
  pub text : made.message ≡ trim_space input.message
  pub complete : (str_eq made.instance_id "" || str_eq made.message "") ≡ false

-- What is known of the table of jobs stays known through a call that leaves the table alone.
module _ (Q : List BroadcastJob → Type 0) where
  abbrev Jobs : World → Type 0
  Jobs w = Q w.db.jobs

  Triple-jobs :
      {E A : Type 0} {m : M World E A}
      → ((w : World) → (m w).1.db.jobs ≡ w.db.jobs)
      → Triple Jobs m (λ _. Jobs)
  Triple-jobs same = record { at = λ w h a t e. subst Q (sym (same w) ∙ ap (λ x. x.1.db.jobs) e) h }

  Triple-request : {A : Type 0} (f : ℕ → Out GoError A) → Triple Jobs (request f) (λ _. Jobs)
  unfolding request
  Triple-request f = Triple-jobs (λ w. refl)

  Triple-ask : {E A : Type 0} (f : ℕ → A) → Triple {E = E} Jobs (ask f) (λ _. Jobs)
  unfolding ask
  Triple-ask f = Triple-jobs (λ w. refl)

  Triple-seed :
      (env : Env) (job : BroadcastJob) (rs : List BroadcastRecipient)
      → Triple Jobs (seed_snapshot env job rs) (λ _. Jobs)
  unfolding seed_snapshot seed db_call
  Triple-seed env job [] = Triple-pure tt (λ w h. h)
  Triple-seed env job (r ∷ rs) = Triple-jobs (λ w. ground arith)

  Triple-snapshot :
      (env : Env) (job : BroadcastJob) → Triple Jobs (seed_recipient_snapshot env job) (λ _. Jobs)
  unfolding seed_recipient_snapshot
  Triple-snapshot env job =
      if-cases {A = M World GoError (Unit {0})} (λ m. Triple Jobs m (λ _. Jobs)) env.has_contacts
        (λ _.
          Triple-bind (λ _. Jobs) (Triple-request (λ t. env.list_contacts t job.tenant_id))
            λ contacts.
              Triple-seed env job (eligible_broadcast_recipients contacts job.instance_id))
        (λ _. Triple-pure tt (λ w h. h))

  Triple-enrich :
      (env : Env) (job : BroadcastJob) → Triple Jobs (enrich_job env false job) (λ _. Jobs)
  unfolding enrich_job with_recipients summarize_progress db_call
  Triple-enrich env job =
      Triple-bind (λ _. Jobs) (Triple-jobs (λ w. ground arith))
        λ s. Triple-pure (with_analytics s job) (λ w h. h)

module _ (env : Env) (tenant : String) (input : CreateInput) (jobs : List BroadcastJob) where
  abbrev IsComplete : List BroadcastJob → Type 0
  IsComplete l =
      ((str_eq (trim_space input.instance_id) "" || str_eq (trim_space input.message) "") ≡ false)
      × (l ≡ jobs)

  Triple-create_job :
      (at : Time)
      → Triple
          (λ w. IsComplete w.db.jobs)
          (create_job env
            (new_job tenant input (trim_space input.instance_id) (trim_space input.message) at))
          (λ _ t. Created tenant input jobs t.db.jobs)
  unfolding create_job db_call new_job
  Triple-create_job at = record {
    at = λ w h a t e. elim (Option-cases (env.db_fault w.tick)) [
      | inr (x, refused) ↦ absurd (ground arith)
      | inl fine ↦ record {
        made =
            record (new_job tenant input (trim_space input.instance_id) (trim_space input.message)
              at) { id = env.new_id w.tick 0; created_at = env.clock w.tick };
        row = ground arith;
        queued = refl;
        untried = refl;
        allowed = ground arith;
        owner = refl;
        instance_name = refl;
        text = refl;
        complete = h.0;
      }
    ];
  }

  Triple-create :
      Triple
        (λ w. w.db.jobs ≡ jobs)
        (create env tenant input)
        (λ _ t. Created tenant input jobs t.db.jobs)
  unfolding create
  Triple-create =
      let Done : List BroadcastJob → Type 0 = Created tenant input jobs in
      Triple-bind (λ _. Jobs IsComplete) (Triple-fail_if _ _)
        λ _.
          Triple-bind (λ _. Jobs IsComplete) (Triple-fail_if_kept _ _)
            λ _.
              Triple-bind (λ _. Jobs IsComplete) (Triple-fail_if_kept _ _)
                λ _.
                  Triple-bind (λ _. Jobs IsComplete) (Triple-fail_if_kept _ _)
                    λ _.
                      Triple-bind (λ _. Jobs IsComplete)
                        (Triple-map_err _ (Triple-request IsComplete _))
                        λ found.
                          Triple-bind (λ _. Jobs IsComplete) (Triple-require found _)
                            λ _.
                              Triple-bind (λ _. Jobs IsComplete) (Triple-ask IsComplete env.clock)
                                λ now.
                                  Triple-bind (λ _. Jobs IsComplete) (Triple-fail_if_kept _ _)
                                    λ _.
                                      Triple-bind (λ _. Jobs Done)
                                        (Triple-create_job (
                                          first_available_at now input.delay_sec
                                            input.scheduled_at))
                                        λ job.
                                          Triple-bind (λ _. Jobs Done)
                                            (Triple-snapshot Done env job)
                                            λ _. Triple-enrich Done env job

-- A call of `Create` that ends without an error has added exactly one row to the table of jobs,
-- behind all others: a job in the queue with no attempt made and at least one allowed, of the tenant,
-- with the instance and the message of the request without white space around them, neither empty.
pub create-Created :
    (env : Env) (tenant : String) (input : CreateInput) (w t : World) (job : BroadcastJob)
    → create env tenant input w ≡ (ok job, t)
    → Created tenant input w.db.jobs t.db.jobs
create-Created env tenant input w t job e =
    (Triple-create env tenant input w.db.jobs).at w refl job t e
