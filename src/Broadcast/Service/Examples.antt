-- ===== src/Broadcast/Service/Examples.antt =====
-- The theorems on requests at concrete inputs.
use fmxevolution_go.Base.{◌+◌, ◌*◌, ◌≤◌, ◌≡◌, refl, ◌⊎◌, none, some, pos, second, trim_space, arith}
use fmxevolution_go.Base.Effect.{ok, err, ◌>>=◌, map_err, fail_if, require}
use fmxevolution_go.Broadcast.Model.{BroadcastJob}
use fmxevolution_go.Broadcast.Env.{ask, request, db_call}
use fmxevolution_go.Broadcast.Recipients.{eligible_broadcast_recipients}
use fmxevolution_go.Broadcast.Processor.{seed}
use fmxevolution_go.Broadcast.Service.{
  CreateInput, create, create_job, new_job, first_available_at, seed_recipient_snapshot,
  seed_snapshot, enrich_job, summarize_progress,
}
use fmxevolution_go.Broadcast.Service.Created.{Created, create-Created, first_available_at_lem}
use fmxevolution_go.Broadcast.Examples.{env, world, job}

abbrev input : CreateInput
input = record {
  instance_id = " i1";
  message = "hi ";
  rate_per_hour = pos 60;
  delay_sec = pos 2;
  max_attempts = pos 0;
  scheduled_at = none;
}

abbrev created_job : BroadcastJob
created_job = elim (create env "t1" input world).0 [ ok j ↦ j | err e ↦ job ]

is_created : create env "t1" input world ≡ (ok created_job, (create env "t1" input world).1)
unfolding create ◌>>=◌ fail_if trim_space map_err request require ask create_job db_call
    seed_recipient_snapshot seed_snapshot eligible_broadcast_recipients new_job seed enrich_job
    summarize_progress
is_created = refl

create-Created_example : Created "t1" input world.db.jobs (create env "t1" input world).1.db.jobs
create-Created_example =
    create-Created env "t1" input world (create env "t1" input world).1 created_job is_created

first_available_at_lem_example :
    (10 + 2 * second ≤ first_available_at 10 (pos 2) (some 7))
    × (7 ≤ first_available_at 10 (pos 2) (some 7))
    × ((first_available_at 10 (pos 2) (some 7) ≡ 10 + 2 * second)
        ⊎ (some 7 ≡ some (first_available_at 10 (pos 2) (some 7))))
first_available_at_lem_example = first_available_at_lem 10 2 (some 7) (omega arith)
