-- ===== src/Lifecycle.antt =====
-- The life of a generation job under the calls of generation_job.go, generation_dispatch.go and
-- generation_quota.go of internal/store, in any order.
pub mod History
pub mod Rewrites
pub mod Followed
pub mod Moved
pub mod Made
pub mod Sent
pub mod Calls
pub mod Submitted
use personal_cloud_ai_servic.Prelude.{◌≡◌, true}
use personal_cloud_ai_servic.Domain.Job.{JobState, can_transition}

-- The states that a job can come to by steps of the graph.
pub data Reaches (s : JobState) : JobState → Type 0 where
  stays : Reaches s s
  moves : (t u : JobState) → Reaches s t → can_transition t u ≡ true → Reaches s u
