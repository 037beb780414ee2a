-- ===== src/SendStatus/Merge.antt =====
-- How successive calls of `Store` for a job add up.
use fmxevolution_go.Base.{
  String, true, ◌||◌, ◌≡◌, refl, ap, ◌∙◌, Option, none, some, str_eq, eq_iff, if◌then◌else◌,
  Bool-cases, Option-cases, inl, inr, put, is_some, arith,
}
use fmxevolution_go.SendStatus.{
  JobStatus, Entry, Registry, or_pointer, merge_status, stored_status, store, load, tenant_job_key,
  was_sent,
}

or_pointer-is_some :
    {A : Type 0} (new old : Option A) → is_some (or_pointer new old) ≡ (is_some new || is_some old)
unfolding or_pointer
or_pointer-is_some none old = refl
or_pointer-is_some (some a) old = refl

-- What was delivered or read counts as sent, whatever the status says.
pub receipt-was_sent :
    (j : JobStatus) → (is_some j.delivered_at || is_some j.read_at) ≡ true → was_sent j ≡ true
unfolding was_sent
receipt-was_sent j h = elim (Bool-cases (is_some j.read_at)) [
  | inl read ↦ rw (read, was_sent)
  | inr unread ↦
      let delivered : is_some j.delivered_at ≡ true = ground arith in
      rw (unread, delivered, was_sent)
]

merge_status-receipt :
    (old new : JobStatus)
    → (is_some old.delivered_at || is_some old.read_at) ≡ true
    → (is_some (merge_status old new).delivered_at || is_some (merge_status old new).read_at) ≡ true
unfolding merge_status
merge_status-receipt old new h = ground (
  arith,
  or_pointer-is_some new.delivered_at old.delivered_at,
  or_pointer-is_some new.read_at old.read_at,
)

module _ {L : Type 0} where
  put-load :
      (tenant job : String) (e : Entry) (key : String) (g : Registry L)
      → load tenant job (record g { jobs = put key e g.jobs })
        ≡ (if str_eq key (tenant_job_key tenant job) then some e.status else load tenant job g)
  unfolding load
  put-load tenant job e key g = elim (Bool-cases (str_eq key (tenant_job_key tenant job))) [
    | inl same ↦ rw (same, load)
    | inr other ↦ rw (other, load)
  ]

  load-store :
      (tenant job : String) (owner : String) (s : JobStatus) (g : Registry L)
      → load tenant job (store owner s g) ≡ (
          if str_eq (tenant_job_key owner s.job_id) (tenant_job_key tenant job)
          then some (stored_status owner s g)
          else load tenant job g)
  unfolding store load
  load-store tenant job owner s g =
      put-load tenant job (record { tenant_id = owner; status = stored_status owner s g })
        (tenant_job_key owner s.job_id) g

  stored_status-merge :
      (owner : String) (s : JobStatus) (e : Entry) (g : Registry L)
      → g.jobs (tenant_job_key owner s.job_id) ≡ some e
      → stored_status owner s g ≡ merge_status e.status s
  unfolding stored_status
  stored_status-merge owner s e g h = rw (h, stored_status)

  load-entry :
      (tenant job : String) (old : JobStatus) (g : Registry L)
      → load tenant job g ≡ some old
      → (e : Entry) × (g.jobs (tenant_job_key tenant job) ≡ some e) × (e.status ≡ old)
  unfolding load
  load-entry tenant job old g h = elim (Option-cases (g.jobs (tenant_job_key tenant job))) [
    | inl gone ↦ absurd (ground arith)
    | inr (e, there) ↦ (e, there, ground arith)
  ]

  stored_status-load :
      (tenant job owner : String) (s old : JobStatus) (g : Registry L)
      → load tenant job g ≡ some old
      → str_eq (tenant_job_key owner s.job_id) (tenant_job_key tenant job) ≡ true
      → stored_status owner s g ≡ merge_status old s
  stored_status-load tenant job owner s old g h same =
      let (e, there, is_old) = load-entry tenant job old g h in
      stored_status-merge owner s e g (ap g.jobs ((eq_iff _ _).0 same) ∙ there)
      ∙ ap (λ x. merge_status x s) is_old

  -- What is loaded behind a call of `Store`, where a report on the job is there: the report that
  -- comes in merged into it, if it is one for the same key, and else the report as it was.
  load-store_lem :
      (tenant job owner : String) (s old : JobStatus) (g : Registry L)
      → load tenant job g ≡ some old
      → load tenant job (store owner s g)
        ≡ some (
            if str_eq (tenant_job_key owner s.job_id) (tenant_job_key tenant job)
            then merge_status old s
            else old)
  load-store_lem tenant job owner s old g h =
      elim (Bool-cases (str_eq (tenant_job_key owner s.job_id) (tenant_job_key tenant job))) [
        | inl same ↦
            load-store tenant job owner s g
            ∙ rw (same, stored_status-load tenant job owner s old g h same)
        | inr other ↦ load-store tenant job owner s g ∙ rw (other, h)
      ]

  -- A job for which a receipt of delivery or of reading has come in counts as sent behind any further
  -- call of `Store`, whatever job and whatever status that call reports.
  pub store-was_sent :
      (tenant job owner : String) (s old : JobStatus) (g : Registry L)
      → load tenant job g ≡ some old
      → (is_some old.delivered_at || is_some old.read_at) ≡ true
      → (new : JobStatus) × (load tenant job (store owner s g) ≡ some new) × (was_sent new ≡ true)
  store-was_sent tenant job owner s old g h r =
      elim (Bool-cases (str_eq (tenant_job_key owner s.job_id) (tenant_job_key tenant job))) [
        | inl same ↦ (
          merge_status old s,
          load-store_lem tenant job owner s old g h ∙ rw same,
          receipt-was_sent (merge_status old s) (merge_status-receipt old s r),
        )
        | inr other ↦
            (old, load-store_lem tenant job owner s old g h ∙ rw other, receipt-was_sent old r)
      ]
