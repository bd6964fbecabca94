-- ===== src/Lora/Resumed.antt =====
-- A restart of the gateway loses no upload that the agent has not got (RecoverLoraTrainingJobs of
-- internal/store/lora_training.go).
use personal_cloud_ai_servic.Lora.Handoff.{is_unsent}
use personal_cloud_ai_servic.Prelude.{Bool, ◌&&◌, is_none}
use personal_cloud_ai_servic.Db.{Db}
use personal_cloud_ai_servic.Domain.Training.{Training, in_queue}

unfoldable pub is_resumable : Training → Bool
unfolding is_unsent
is_resumable j = is_unsent j && is_none j.cancellation_requested_at

abbrev waits : Training → Bool
waits j = in_queue j.state && is_none j.cancellation_requested_at
