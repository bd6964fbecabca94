-- ===== src/Lora.antt =====
-- The table lora_training_jobs (internal/database/migrations.go) and how the statements of
-- internal/store/lora_training.go write it: a statement whose result breaks a CHECK or a unique
-- index fails.
pub mod Create
pub mod Handoff
pub mod Table
pub mod Steps
pub mod Quiet
pub mod Kept
pub mod Lasting
pub mod Facts
pub mod Once
pub mod Constrained
pub mod Live
pub mod Resumed
use personal_cloud_ai_servic.Db.{Tx, ◌>>=◌, err, row_or, constraint, no_rows, ok, ◌>>◌, pure}
use personal_cloud_ai_servic.Domain.Training.{Training, dispatched, valid, in_queue}
use personal_cloud_ai_servic.Jobs.Create.{is_token_char, token_chars, is_public_token, same_owner}
use personal_cloud_ai_servic.Prelude.{
  ℕ, rune_count, Option, count, String, update, find, Bool, List, any, leb, false, ◌&&◌, ◌||◌, true,
  ◌==◌, str_eq, not, ltb, ◌∷◌, if◌then◌else◌, [],
}
use Prim.Native.Char.{code}

abbrev within : ℕ → ℕ → ℕ → Bool
within low high n = leb low n && leb n high

abbrev fits : ℕ → ℕ → String → Bool
fits low high s = within low high (rune_count s)

-- ^[A-Za-z0-9][A-Za-z0-9_-]+$.
unfoldable pub is_output_name : String → Bool
unfolding is_token_char token_chars
is_output_name String.[] = false
is_output_name (String.◌∷◌ c s) =
    is_token_char (code c)
    && not (code c == 95)
    && not (code c == 45)
    && token_chars s
    && not (str_eq s "")

-- The CHECKs on the columns that say what is trained. 0.000001 and 0.001 are given by their bits: on
-- doubles without a sign bit the order of the bits is the order of the values, and what has a sign
-- bit or is no number lies above both.
unfoldable pub recipe_checks : Training → Bool
unfolding rune_count is_output_name
recipe_checks j =
    fits 1 96 j.profile_id
    && (str_eq j.family "krea2" || str_eq j.family "flux2-klein")
    && fits 1 256 j.base_model
    && fits 3 80 j.name
    && fits 3 64 j.output_name
    && is_output_name j.output_name
    && fits 2 80 j.trigger_word
    && (str_eq j.concept_type "character"
        || str_eq j.concept_type "style"
        || str_eq j.concept_type "object"
        || str_eq j.concept_type "product")
    && (str_eq j.preset "quick" || str_eq j.preset "balanced" || str_eq j.preset "detailed")
    && ((j.resolution == 512) || (j.resolution == 768) || (j.resolution == 1024))
    && within 100 5000 j.max_train_steps
    && ((j.network_dim == 8)
        || (j.network_dim == 16)
        || (j.network_dim == 32)
        || (j.network_dim == 64))
    && within 1 64 j.network_alpha
    && within 0x3eb0c6f7a0b5ed8d 0x3f50624dd2f1a9fc j.learning_rate
    && ltb j.seed 0x8000000000000000
    && within 5 100 j.sample_count
    && within 1 536870912 j.dataset_bytes

-- The CHECKs on the other columns.
unfoldable pub progress_checks : Training → Bool
unfolding rune_count is_public_token valid
progress_checks j =
    is_public_token j.public_id
    && fits 0 128 j.username_snapshot
    && is_public_token j.request_id
    && fits 0 1024 j.dataset_path
    && valid j.state
    && fits 0 120 j.stage
    && leb j.progress 100
    && fits 0 1000 j.message
    && fits 0 2000 j.error_message
    && fits 0 96 j.agent_job_id
    && fits 0 255 j.artifact_name
    && ltb j.artifact_bytes 0x8000000000000000

unfoldable pub training_checks : Training → Bool
unfolding recipe_checks progress_checks
training_checks j = recipe_checks j && progress_checks j

-- A row of lora_training_jobs_user_active_idx.
unfoldable pub live : Training → Bool
unfolding in_queue dispatched
live j = in_queue j.state || dispatched j.state

unfoldable pub live_of : Option ℕ → Training → Bool
unfolding live
live_of user j = live j && same_owner j.user_id user

unfoldable pub user_active_unique : List Training → List Training → Bool
unfolding count live live_of
user_active_unique all [] = true
user_active_unique all (j ∷ js) =
    (not (live j) || leb (count (live_of j.user_id) all) 1) && user_active_unique all js

unfoldable pub has_training_id : ℕ → Training → Bool
has_training_id id j = j.id == id

unfoldable pub has_public_id : String → Training → Bool
has_public_id id j = str_eq j.public_id id

-- UPDATE lora_training_jobs SET f WHERE p, with the rows affected.
unfoldable pub update_trainings : (Training → Bool) → (Training → Training) → Tx ℕ
unfolding update any count training_checks user_active_unique
update_trainings p f db =
    let rows = update p f db.lora_training_jobs in
    if any (λ j. not (training_checks j)) rows || not (user_active_unique rows rows)
    then err constraint
    else ok (count p db.lora_training_jobs, record db { lora_training_jobs = rows })

-- UPDATE … RETURNING of one row.
unfoldable pub update_training : (Training → Bool) → (Training → Training) → Tx Training
unfolding find update_trainings
update_training p f = do
  job ← λ db. row_or no_rows (find p db.lora_training_jobs) db
  affected ← update_trainings p f
  pure (f job)
