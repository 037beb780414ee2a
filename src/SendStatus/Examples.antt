-- ===== src/SendStatus/Examples.antt =====
-- The theorems on the registry at concrete inputs.
use fmxevolution_go.Base.{
  ℕ, String, true, false, ◌≡◌, refl, none, some, [], ◌∷◌, ◌⊎◌, empty_map, put,
}
use fmxevolution_go.SendStatus.{
  JobStatus, Registry, Entry, ignored, mark_receipt, was_sent, store, load, tenant_job_key,
}
use fmxevolution_go.SendStatus.Merge.{store-was_sent}
use fmxevolution_go.SendStatus.Receipts.{Dropped, Recorded, mark_receipt-Recorded}

abbrev job : String → JobStatus
job status = record {
  job_id = "j1";
  instance_id = "i1";
  instance_name = "main";
  reference = "i1";
  number = "551";
  text = "hello";
  status = status;
  error = "";
  message_id = "m1";
  server_id = 3;
  queued_at = 5;
  started_at = none;
  finished_at = none;
  delivered_at = none;
  read_at = none;
  delivery_confirmed = false;
}

abbrev entry : Entry
entry = record { tenant_id = "t1"; status = job "sent" }

-- A registry with the job and one listener.
abbrev registry : Registry ℕ
registry = record {
  jobs = put "t1|j1" entry empty_map;
  message_index = put "i1|m1" "t1|j1" empty_map;
  listeners = 0 ∷ [];
}

mark_receipt-Recorded_example :
    (Dropped "i1" "m1" " Read " 9 registry
      × (mark_receipt "i1" "m1" " Read " 9 registry ≡ ignored registry))
    ⊎ Recorded "i1" "m1" " Read " 9 registry (mark_receipt "i1" "m1" " Read " 9 registry)
mark_receipt-Recorded_example = mark_receipt-Recorded "i1" "m1" " Read " 9 registry

abbrev read_job : JobStatus
read_job = record (job "sent") {
  delivered_at = some 9;
  read_at = some 9;
  delivery_confirmed = true;
}

abbrev read_registry : Registry ℕ
read_registry = record registry {
  jobs = put "t1|j1" (record { tenant_id = "t1"; status = read_job }) empty_map;
}

is_loaded_read : load "t1" "j1" read_registry ≡ some read_job
unfolding load tenant_job_key
is_loaded_read = refl

store-was_sent_example :
    (new : JobStatus) × (load "t1" "j1" (store "t1" (job "failed") read_registry) ≡ some new)
    × (was_sent new ≡ true)
store-was_sent_example =
    store-was_sent "t1" "j1" "t1" (job "failed") read_job read_registry is_loaded_read refl
