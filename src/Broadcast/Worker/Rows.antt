-- ===== src/Broadcast/Worker/Rows.antt =====
-- That what the dispatcher writes to the table of jobs are steps of the life of a job.
use fmxevolution_go.Base.{true, ◌≡◌, List, str_eq, ◌⊎◌, All}
use fmxevolution_go.Broadcast.Model.{BroadcastJob}
use fmxevolution_go.Broadcast.Worker.Retry.{JobStep}

-- A row stays, or takes a step.
abbrev pub RowStep : BroadcastJob → BroadcastJob → Type 0
RowStep j k = (k ≡ j) ⊎ JobStep j k

-- No two rows have one identifier.
abbrev pub UniqueIds : List BroadcastJob → Type 0
UniqueIds jobs = All (λ j. All (λ i. str_eq i.id j.id ≡ true → i ≡ j) jobs) jobs
