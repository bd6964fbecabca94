-- ===== src/Lib.antt =====
-- The gateway's core, personal_cloud_ai_service: how a generation job lives and how it is dispatched,
-- alone or in a batch, how the one GPU is lent, how runs are charged, how an image LoRA is trained,
-- how accounts come from invites and are locked, and which miner runs beside all this.
--
-- The program is a Go service over PostgreSQL. Its store (internal/store) turns each call into one
-- transaction; the gateway's handlers and workers call the store, and the executors (ComfyUI, the
-- trainers) are reached only between such calls. A call is a function from the database to a result
-- with the next database or an error, and an error leaves the database of before. Row locks,
-- SERIALIZABLE and the advisory lock make a transaction one step, so interleavings are sequences of
-- calls.
--
-- - Prelude: tests, lists as tables, and texts.
-- - Domain: internal/domain/gpu_work.go (Domain/Gpu), generation_job.go (Domain/Job, with the facts on
--   its graph in Domain/Job/Graph), user.go (Domain/User), lora_training.go (Domain/Training), and the
--   rows of other tables (Domain/Invite, Domain/Miner, Domain/Rows).
-- - Db: the tables, the transaction monad, errors and clocks; Db/Keeps has a preservation rule for each
--   way to build a transaction.
-- - Gpu: internal/store/gpu_work.go. EnqueueGPUWork, ObserveGPUResource and RetryGPUWork are
--   enqueue_gpu_work, observe_gpu_resource and retry_gpu_work of Gpu/Enqueue; AcquireGPUWork is
--   acquire_gpu_work of Gpu/Acquire; HeartbeatGPUWork, SetGPUWorkPhase, RequestGPUWorkCancellation and
--   ReleaseGPUWork are in Gpu/Release. Gpu/Calls runs sequences of these calls.
-- - Jobs: internal/store/generation_job.go. Jobs/Create, Jobs/Claim, Jobs/Transition, Jobs/Cancel have one
--   function for each operation; Jobs/Notify is createGenerationJobNotification of
--   internal/store/notification.go.
-- - Dispatch: internal/store/generation_dispatch.go; Dispatch/Submission has the marks around the
--   submission, and Dispatch/Due describes which job is due and first in turn.
-- - Quota: internal/store/generation_quota.go; Quota/Refund and Quota/RoundTrip have
--   what a release takes back.
-- - Lifecycle: sequences of the calls of Jobs, Dispatch and Quota, and what they leave of a job: its
--   state (Lifecycle/Calls) and the marks of its submission (Lifecycle/Submitted).
-- - Batches: internal/store/generation_batch.go. CreateGenerationBatch is create_generation_batch of
--   Batches/Create; the cancellation and the winner are in Batches/Calls.
-- - Lora: internal/store/lora_training.go with the table's constraints. Lora/Create and Lora/Handoff
--   have one function for each statement; Lora/Steps has their sequences as a relation,
--   and what a sequence asks of UpdateLoraTrainingJob, which writes any state to any training.
-- - Accounts: internal/store/authentication.go; Accounts/Invites is internal/store/invite.go, and
--   Accounts/Registered runs sequences of its calls.
-- - Miners: internal/store/mining.go.
-- - Limiter: internal/security/limiter.go; Limiter/Abstract has the view that it implements.
-- - Examples: concrete rows, and the theorems at concrete calls.
--
-- Numbers are natural numbers: ids and counters are below 2^63 and 2^31 in the program and are taken
-- not to overflow; times are microseconds, and the durations of the GPU leases nanoseconds. Loops are
-- structural recursions on lists and texts, so no fuel is used. The order of texts in ORDER BY, the
-- LOWER of PostgreSQL, the Moscow calendar day and the clocks are arguments.
--
-- Not modelled: the handlers, the proxy and the workflow templates of internal/gateway, the agents,
-- media storage, telemetry and retention, which are input and output around this core; mining leases,
-- datasets and passwords; the listings; and of the modelled tables the href of a notification and the
-- CHECKs on the columns of generation_jobs that an UPDATE writes.
pub mod Prelude
pub mod Domain
pub mod Db
pub mod Gpu
pub mod Jobs
pub mod Dispatch
pub mod Quota
pub mod Batches
pub mod Limiter
pub mod Accounts
pub mod Miners
pub mod Lora
pub mod Lifecycle
pub mod Examples
