-- ===== src/Gpu/Calls.antt =====
-- Any sequence of calls of internal/store/gpu_work.go, each with the clock of its transaction.
use personal_cloud_ai_servic.Gpu.Admitted.{acquire-Keeps, retry-Keeps}
use personal_cloud_ai_servic.Gpu.Release.{
  heartbeat_gpu_work, set_gpu_work_phase, request_gpu_work_cancellation, release_gpu_work,
}
use personal_cloud_ai_servic.Gpu.Acquire.{acquire_gpu_work}
use personal_cloud_ai_servic.Db.Keeps.{Keeps, After, Keeps-committed}
use personal_cloud_ai_servic.Gpu.Preserved.{
  HasGpuInvariant, enqueue-Keeps, heartbeat-Keeps, set_phase-Keeps, cancellation-Keeps,
  release-Keeps,
}
use personal_cloud_ai_servic.Db.{Clock, Db, committed}
use personal_cloud_ai_servic.Gpu.Enqueue.{
  observe_gpu_resource, enqueue_gpu_work, rewritten_resource, at_revision, observed, retry_gpu_work,
}
use personal_cloud_ai_servic.Prelude.{
  String, ℕ, Bool, Option, List, arith, find, ◌∷◌, some, [], none,
}
use personal_cloud_ai_servic.Domain.Gpu.{
  GpuWorkRequest, GpuResource, Observation, Phase, GpuReleaseEvidence,
}

pub data Call : Type 0 where
  enqueues : GpuWorkRequest → Call
  observes : String → ℕ → Observation → String → ℕ → Call
  acquires : String → String → ℕ → Call
  heartbeats : String → String → ℕ → Call
  enters_phase : String → String → Phase → String → Call
  cancels : String → Call
  releases : String → String → GpuReleaseEvidence → Call
  retries : String → Call

unfoldable pub step : (String → String → Bool) → Db → Clock × Call → Db
step before_id db (c, enqueues input) = committed db (enqueue_gpu_work c input db)
step before_id db (c, observes id revision o message valid_for) =
    committed db (observe_gpu_resource c id revision o message valid_for db)
step before_id db (c, acquires id token duration) =
    committed db (acquire_gpu_work c before_id id token duration db)
step before_id db (c, heartbeats id token duration) =
    committed db (heartbeat_gpu_work c id token duration db)
step before_id db (c, enters_phase id token phase external_id) =
    committed db (set_gpu_work_phase c id token phase external_id db)
step before_id db (c, cancels id) = committed db (request_gpu_work_cancellation c id db)
step before_id db (c, releases id token evidence) =
    committed db (release_gpu_work c id token evidence db)
step before_id db (c, retries id) = committed db (retry_gpu_work c id db)

unfoldable pub run : (String → String → Bool) → Db → List (Clock × Call) → Db
run before_id db [] = db
run before_id db (call ∷ calls) = run before_id (step before_id db call) calls

rewritten_resource-Keeps :
    (p : GpuResource → Bool) (f : GpuResource → GpuResource) (o : Option GpuResource) (db : Db)
    → HasGpuInvariant db
    → After HasGpuInvariant (rewritten_resource p f o db)
rewritten_resource-Keeps p f none db h = tt
rewritten_resource-Keeps p f (some r) db h = record { table = h.table }

observe-Keeps :
    (c : Clock) (id : String) (revision : ℕ) (o : Observation) (message : String) (valid_for : ℕ)
    → Keeps HasGpuInvariant (observe_gpu_resource c id revision o message valid_for)
unfolding observe_gpu_resource
observe-Keeps c id revision o message valid_for = record {
  at = λ db h. ground (
    arith,
    rewritten_resource-Keeps (at_revision id revision) (observed c o message valid_for)
        (find (at_revision id revision) db.gpu_resources) db h,
  );
}

step-HasGpuInvariant :
    (before_id : String → String → Bool) (db : Db) (call : Clock × Call)
    → HasGpuInvariant db
    → HasGpuInvariant (step before_id db call)
unfolding step
step-HasGpuInvariant b db (c, enqueues input) h = Keeps-committed (enqueue-Keeps c input) db h
step-HasGpuInvariant b db (c, observes id revision o message valid_for) h =
    Keeps-committed (observe-Keeps c id revision o message valid_for) db h
step-HasGpuInvariant b db (c, acquires id token duration) h =
    Keeps-committed (acquire-Keeps c b id token duration) db h
step-HasGpuInvariant b db (c, heartbeats id token duration) h =
    Keeps-committed (heartbeat-Keeps c id token duration) db h
step-HasGpuInvariant b db (c, enters_phase id token phase x) h =
    Keeps-committed (set_phase-Keeps c id token phase x) db h
step-HasGpuInvariant b db (c, cancels id) h = Keeps-committed (cancellation-Keeps c id) db h
step-HasGpuInvariant b db (c, releases id token e) h =
    Keeps-committed (release-Keeps c id token e) db h
step-HasGpuInvariant b db (c, retries id) h = Keeps-committed (retry-Keeps c id) db h

-- From a table of unique ids with one holder at most to each resource, and a lease on exactly the
-- holders, every sequence of calls leads to such a table.
pub run-HasGpuInvariant :
    (before_id : String → String → Bool) (db : Db) (calls : List (Clock × Call))
    → HasGpuInvariant db
    → HasGpuInvariant (run before_id db calls)
unfolding run
run-HasGpuInvariant b db [] h = h
run-HasGpuInvariant b db (call ∷ calls) h =
    run-HasGpuInvariant b (step b db call) calls (step-HasGpuInvariant b db call h)
