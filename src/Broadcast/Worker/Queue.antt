-- ===== src/Broadcast/Worker/Queue.antt =====
-- The dispatcher never drops a job that it has claimed.
use fmxevolution_go.Base.{
  ℕ, suc, ◌+◌, ◌-◌, ◌≤◌, ◌<◌, String, ◌≡◌, refl, ap, sym, ◌⊎◌, inl, inr, none, some, List, [], ◌∷◌,
  ◌++◌, map, ◌==◌, Bool-cases, Option-cases, Time, length, filter, length-append, length-take-le,
  arith, order_by,
}
use mathlib.Core.List.{append-nil, append_assoc}
use fmxevolution_go.Base.Effect.{◌>>=◌}
use fmxevolution_go.Broadcast.Model.{BroadcastJob}
use fmxevolution_go.Broadcast.Jobs.{claim_next, due_jobs, is_due, job_before, claimed}
use fmxevolution_go.Broadcast.Env.{Env, World, ask, db_call}
use fmxevolution_go.Broadcast.Worker.{
  Settings, enqueue_all, claim_limit, claim, enqueue_claimed, claim_batch, claim_and_enqueue,
}

enqueue_all-append :
    (capacity : ℕ) (jobs queue : List BroadcastJob)
    → length queue + length jobs ≤ capacity
    → enqueue_all capacity jobs queue ≡ queue ++ jobs
unfolding enqueue_all
enqueue_all-append capacity [] queue h = sym (append-nil queue)
enqueue_all-append capacity (j ∷ js) queue h = ground (
  arith,
  enqueue_all-append capacity js (queue ++ j ∷ []),
  length-append queue (j ∷ []),
  append_assoc queue (j ∷ []) js,
)

length-map {ℓ κ} :
    {A : Type ℓ} {B : Type κ} (f : A → B) (xs : List A) → length (map f xs) ≡ length xs
length-map f [] = refl
length-map f (x ∷ xs) = ap suc (length-map f xs)

length-due_jobs-le :
    (limit : ℕ) (now : Time) (jobs : List BroadcastJob)
    → 0 < limit
    → length (due_jobs limit now jobs) ≤ limit
unfolding due_jobs
length-due_jobs-le limit now jobs h =
    ground (arith, length-take-le limit (order_by job_before (filter (is_due now) jobs)))

pub length-claim_next-le :
    (worker : String) (limit : ℕ) (now : Time) (jobs : List BroadcastJob)
    → 0 < limit
    → length (claim_next worker limit now jobs).0 ≤ limit
unfolding claim_next
length-claim_next-le worker limit now jobs h = omega (
  arith,
  length-map (claimed worker now) (due_jobs limit now jobs),
  length-due_jobs-le limit now jobs,
)

-- A tick that claims jobs at a time and up to a limit.
pub record Claimed (w : World) (w' : World) (capacity : ℕ) : Type 0 where
  pub limit : ℕ
  pub now : Time
  pub table : w'.db.jobs ≡ (claim_next "dispatcher" limit now w.db.jobs).1
  pub queued : w'.queue ≡ w.queue ++ (claim_next "dispatcher" limit now w.db.jobs).0
  pub fits : length w'.queue ≤ capacity

-- A tick that changes nothing: the queue is full, or the database refuses the claim.
abbrev pub Idle : Env → Settings → World → World → Type 0
Idle env s w w' =
    ((s.queue_capacity ≡ length w.queue) ⊎ ((e : String) × (env.db_fault (suc w.tick) ≡ some e)))
    × ((w'.db.jobs ≡ w.db.jobs) × (w'.queue ≡ w.queue))

module _ (env : Env) (s : Settings) (w : World) (free : ℕ) where
  abbrev now : Time
  now = env.clock w.tick

  claim_batch_refused :
      (e : String)
      → env.db_fault (suc w.tick) ≡ some e
      → (claim_batch env s free w).1 ≡ record w { tick = suc (suc w.tick) }
  unfolding claim_batch ◌>>=◌ ask claim db_call
  claim_batch_refused e h = ground arith

  claim_batch_made :
      env.db_fault (suc w.tick) ≡ none
      → let c = claim_next "dispatcher" (claim_limit s free) now w.db.jobs in
        (claim_batch env s free w).1 ≡ record w {
          tick = suc (suc w.tick);
          db = record { jobs = c.1; progress = w.db.progress };
          queue = enqueue_all s.queue_capacity c.0 w.queue;
        }
  unfolding claim_batch ◌>>=◌ ask claim db_call enqueue_claimed
  claim_batch_made h = ground arith

  -- Where there is room, a batch is claimed as a whole, or not at all where the database fails.
  claim_batch-Claimed :
      length w.queue + free ≡ s.queue_capacity
      → 0 < free
      → 0 < s.claim_batch_size
      → let w' = (claim_batch env s free w).1 in Idle env s w w' ⊎ Claimed w w' s.queue_capacity
  claim_batch-Claimed room some_free b = elim (Option-cases (env.db_fault (suc w.tick))) [
    | inl fine ↦
        let limit : ℕ = claim_limit s free in
        let jobs : List BroadcastJob = (claim_next "dispatcher" limit now w.db.jobs).0 in
        let short : length jobs ≤ limit =
          length-claim_next-le "dispatcher" limit now w.db.jobs (ground arith) in
        let all : enqueue_all s.queue_capacity jobs w.queue ≡ w.queue ++ jobs =
          enqueue_all-append s.queue_capacity jobs w.queue (ground arith) in
        inr (
          rw (claim_batch_made fine) (record {
            limit = limit;
            now = now;
            table = refl;
            queued = all;
            fits = rw all (ground (arith, length-append w.queue jobs));
          }))
    | inr (e, bad) ↦ inl (inr (e, bad), rw (claim_batch_refused e bad) (refl, refl))
  ]

-- A tick of the dispatcher, where the queue is full or the database refuses the claim, leaves the
-- table of jobs and the queue as they are; or else it puts every
-- job that it marks as claimed in the table on the queue, in order, and the queue keeps within its
-- capacity: no claimed job is dropped.
pub claim_and_enqueue-Claimed :
    (env : Env) (s : Settings) (w : World)
    → length w.queue ≤ s.queue_capacity
    → 0 < s.claim_batch_size
    → let w' = (claim_and_enqueue env s w).1 in Idle env s w w' ⊎ Claimed w w' s.queue_capacity
unfolding claim_and_enqueue
claim_and_enqueue-Claimed env s w h b = elim (Bool-cases (s.queue_capacity - length w.queue == 0)) [
  | inl full ↦ inl (inl (ground arith), rw (full, claim_and_enqueue) (refl, refl))
  | inr room ↦
      rw (room, claim_and_enqueue)
        (claim_batch-Claimed env s w (s.queue_capacity - length w.queue) (omega arith)
          (ground arith) b)
]
