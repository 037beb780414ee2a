-- ===== src/Broadcast/Jobs/ClaimOnce.antt =====
-- What a claim of `ClaimNext` takes, and that no later claim takes it again.
use mathlib.Core.List.{Memᴰ}
use fmxevolution_go.Base.{
  All-filtered, filter, filter-All, All-both, ℕ, zero, suc, ◌+◌, ◌≤◌, ◌⊎◌, String, true, false, ◌≡◌,
  refl, ap, some, List, [], ◌∷◌, map, Bool-cases, inl, inr, Time, All, All-imp, All-filter,
  All-order_by, order_by, All-take, ltb, arith, str_eq, eq_iff, length, length-take-le,
}
use fmxevolution_go.Broadcast.Model.{BroadcastJob}
use fmxevolution_go.Broadcast.Jobs.{
  is_due, job_before, limited, due_jobs, claimed, has_id, update_jobs, claim_next,
}

pub limited-All :
    (P : BroadcastJob → Type 0) (n : ℕ) (jobs : List BroadcastJob)
    → All P jobs
    → All P (limited n jobs)
limited-All P n jobs h = elim (Bool-cases (ltb 0 n)) [
  | inl bounded ↦ rw bounded (All-take P n jobs h)
  | inr all ↦ rw all h
]

pub due_jobs-All :
    (limit : ℕ) (now : Time) (jobs : List BroadcastJob)
    → All (λ j. is_due now j ≡ true) (due_jobs limit now jobs)
unfolding due_jobs
due_jobs-All limit now jobs =
    limited-All _ limit _ (All-order_by _ job_before _ (All-filter (is_due now) jobs))

All-map :
    (P Q : BroadcastJob → Type 0) (f : BroadcastJob → BroadcastJob) (jobs : List BroadcastJob)
    → ((j : BroadcastJob) → P j → Q (f j))
    → All P jobs
    → All Q (map f jobs)
All-map P Q f [] g h = tt
All-map P Q f (j ∷ js) g h = (g j h.0, All-map P Q f js g h.1)

has_id-map-claimed :
    (worker : String) (now : Time) (jobs : List BroadcastJob) (i : String)
    → has_id (map (claimed worker now) jobs) i ≡ has_id jobs i
unfolding claimed
has_id-map-claimed worker now [] i = refl
has_id-map-claimed worker now (j ∷ js) i = ground (arith, has_id-map-claimed worker now js i)

-- A row with the identifier of a claimed job is not in the queue any more.
update_jobs-not_queued :
    (worker : String) (now : Time) (due jobs : List BroadcastJob)
    → All
        (λ j. str_eq j.status "queued" ≡ true → has_id due j.id ≡ false)
        (update_jobs (λ j. has_id due j.id) (claimed worker now) jobs)
unfolding update_jobs claimed
update_jobs-not_queued worker now due [] = tt
update_jobs-not_queued worker now due (j ∷ js) = elim (Bool-cases (has_id due j.id)) [
  | inl taken ↦ rw taken ((λ e. cc), update_jobs-not_queued worker now due js)
  | inr free ↦ rw free ((λ _. free), update_jobs-not_queued worker now due js)
]

-- A job that a claim hands out: a row of the table that was in the queue and whose time had come,
-- now marked as processing, one attempt further, and of the worker.
abbrev pub Taken : String → Time → List BroadcastJob → BroadcastJob → Type 0
Taken worker now jobs j =
    (i : BroadcastJob) × Memᴰ i jobs
    × (i.status ≡ "queued")
    × (i.available_at ≤ now)
    × (j ≡ record i {
      status = "processing";
      worker_id = worker;
      started_at = some now;
      attempts = i.attempts + 1;
    })

all_members : (jobs : List BroadcastJob) → All (λ i. Memᴰ i jobs) jobs
all_members [] = tt
all_members (j ∷ js) = (Memᴰ.head refl, All-imp _ _ (λ i m. Memᴰ.tail m) js (all_members js))

due_jobs-members :
    (limit : ℕ) (now : Time) (jobs : List BroadcastJob)
    → All (λ i. Memᴰ i jobs) (due_jobs limit now jobs)
unfolding due_jobs
due_jobs-members limit now jobs =
    limited-All _ limit _
      (All-order_by _ job_before _ (filter-All _ (is_due now) jobs (all_members jobs)))

due_jobs-Taken :
    (worker : String) (limit : ℕ) (now : Time) (jobs : List BroadcastJob)
    → All (Taken worker now jobs) (map (claimed worker now) (due_jobs limit now jobs))
unfolding claimed
due_jobs-Taken worker limit now jobs =
    All-map (λ i. Memᴰ i jobs × (is_due now i ≡ true)) _ (claimed worker now) _
      (λ i h. (
        i,
        h.0,
        (eq_iff i.status "queued").0 (ground (arith, h.1)),
        ground (arith, h.1),
        rw (one_more i.attempts) refl,
      ))
      (All-both _ _ _ (due_jobs-members limit now jobs) (due_jobs-All limit now jobs))
  where
    one_more : (n : ℕ) → suc n ≡ n + 1
    one_more n = omega arith

due_jobs-length :
    (limit : ℕ) (now : Time) (jobs : List BroadcastJob)
    → (limit ≡ 0) ⊎ (length (due_jobs limit now jobs) ≤ limit)
unfolding due_jobs
due_jobs-length zero now jobs = inl refl
due_jobs-length (suc n) now jobs =
    let bounded : ltb 0 (suc n) ≡ true = ground arith in
    inr (rw bounded (length-take-le (suc n) (order_by job_before (filter (is_due now) jobs))))

length-map-claimed :
    (worker : String) (now : Time) (jobs : List BroadcastJob)
    → length (map (claimed worker now) jobs) ≡ length jobs
length-map-claimed worker now [] = refl
length-map-claimed worker now (j ∷ js) = ap suc (length-map-claimed worker now js)

-- Every job that a claim hands out was a row of the table that was in the queue and whose time had
-- come, and is now marked as processing, one attempt further, and of the worker that claimed it;
-- there are no more of them than the limit, if there is one; and no row behind the claim that is in
-- the queue has the identifier of a job handed out, so that no claim hands it out again until it is
-- put back into the queue.
pub claim_next_once :
    (worker : String) (limit : ℕ) (now : Time) (jobs : List BroadcastJob)
    → let (got, table) = claim_next worker limit now jobs in
      All (Taken worker now jobs) got
      × ((limit ≡ 0) ⊎ (length got ≤ limit))
      × All (λ j. has_id got j.id ≡ false) (filter (λ j. str_eq j.status "queued") table)
unfolding claim_next
claim_next_once worker limit now jobs = (
  due_jobs-Taken worker limit now jobs,
  rw (length-map-claimed worker now (due_jobs limit now jobs)) (due_jobs-length limit now jobs),
  All-filtered _ (λ j. str_eq j.status "queued") _
      (All-imp _ _ (λ j h d. rw has_id-map-claimed (h d)) _
        (update_jobs-not_queued worker now (due_jobs limit now jobs) jobs)),
)
