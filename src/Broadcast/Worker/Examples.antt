-- ===== src/Broadcast/Worker/Examples.antt =====
-- The theorems on what worker and dispatcher write, at concrete inputs.
use fmxevolution_go.Base.{refl, put, empty_map, refl, [], ◌∷◌, true}
use fmxevolution_go.Base.Effect.{err}
use fmxevolution_go.Domain.{plain_error}
use fmxevolution_go.Broadcast.Model.{BroadcastJob}
use fmxevolution_go.Broadcast.Jobs.{claimed}
use fmxevolution_go.Broadcast.Env.{World}
use fmxevolution_go.Broadcast.Processor.{ProcessorError}
use fmxevolution_go.Broadcast.Worker.{conclude}
use fmxevolution_go.Broadcast.Worker.Concluded.{Ended, Written, failures_of, conclude-Written}
use fmxevolution_go.Broadcast.Examples.{env, world, job}

abbrev taken : BroadcastJob
taken = claimed "dispatcher" 9 job

abbrev working : World
working = record world { db = record { jobs = taken ∷ []; progress = [] } }

abbrev failure : ProcessorError
failure = record { error = plain_error "timeout"; retryable = true }

conclude-Written_example :
    Written env taken
      (Ended taken (failures_of env taken working) (env.clock 0) (err failure))
      (taken ∷ [])
      (conclude env taken (err failure) working).0
      (conclude env taken (err failure) working).1.db.jobs
conclude-Written_example = conclude-Written env taken (err failure) working

abbrev waiting : World
waiting = record world { next_instance_at = put "i1" 8 empty_map }
