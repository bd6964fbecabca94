-- ===== src/Batches/Charged.antt =====
-- A new batch is charged once for all its jobs, within the limits
-- (internal/store/generation_batch.go).
use personal_cloud_ai_servic.Batches.Stored.{charged_usage, charged_users, store_batch-Holds}
use personal_cloud_ai_servic.Db.Keeps.{Ends-bind, Ends-ok, Ends, Ends-imply, Ends-read}
use personal_cloud_ai_servic.Batches.{
  CreateBatchParams, batch_by_id, BatchCounts, batch_params_valid, is_batch_request,
}
use personal_cloud_ai_servic.Domain.Rows.{DailyUsage, Batch}
use personal_cloud_ai_servic.Db.{Clock, Db, pure, no_rows, ok}
use personal_cloud_ai_servic.Domain.User.{User}
use personal_cloud_ai_servic.Batches.Create.{
  store_batch, add_total_runs, add_runs, no_runs, over, charge_batch, create_new_batch,
  create_or_read, create_generation_batch, own_parent_batch, own_source_job,
}
use personal_cloud_ai_servic.Quota.{
  QuotaKind, has_user_id, is_usage, used_on, total_limit_of, total_used_of, daily_limit_of,
  image_quota, select_user, video_quota, quota_kind, select_usage,
}
use personal_cloud_ai_servic.Prelude.{
  List, ℕ, update, Option, if◌then◌else◌, ◌≡◌, arith, find, length, ◌∷◌, true, some, none, ap, ◌+◌,
  Option-cases, false, inl, inr, refl, ◌∙◌, subst, find_sound, Bool, find-update, Bool-cases, not,
  trim_space,
}

-- What a new batch costs its owner.
pub record IsChargedBatch (day user n : ℕ) (kind : QuotaKind) (db db' : Db) : Type 0 where
  pub owner : User
  pub found : find (has_user_id user) db.users ≡ some owner
  pub allowed : owner.can_use_quick_generation ≡ true
  pub within_total : over (total_limit_of kind owner) (total_used_of kind owner) n ≡ false
  pub within_day :
      over (daily_limit_of kind owner) (used_on kind (find (is_usage user day) db.daily_usage)) n
      ≡ false
  pub charged : find (has_user_id user) db'.users ≡ some (add_total_runs kind n owner)
  pub used :
      used_on kind (find (is_usage user day) db'.daily_usage)
      ≡ used_on kind (find (is_usage user day) db.daily_usage) + n

add_runs-same :
    (kind : QuotaKind) (user day n : ℕ) (d : DailyUsage)
    → is_usage user day (add_runs kind n d) ≡ is_usage user day d
add_runs-same image_quota user day n d = refl
add_runs-same video_quota user day n d = refl

add_runs-used :
    (kind : QuotaKind) (n : ℕ) (d : DailyUsage)
    → used_on kind (some (add_runs kind n d)) ≡ used_on kind (some d) + n
add_runs-used image_quota n d = refl
add_runs-used video_quota n d = refl

no_runs-used : (kind : QuotaKind) (user day : ℕ) → used_on kind (some (no_runs user day)) ≡ 0
no_runs-used image_quota user day = refl
no_runs-used video_quota user day = refl

first_usage :
    (kind : QuotaKind) (user day n : ℕ) (ds : List DailyUsage)
    → find (is_usage user day) (add_runs kind n (no_runs user day) ∷ ds)
      ≡ some (add_runs kind n (no_runs user day))
unfolding find
first_usage image_quota user day n ds = ground arith
first_usage video_quota user day n ds = ground arith

used_after :
    (kind : QuotaKind) (user day n : ℕ) (ds : List DailyUsage)
    → used_on kind (find (is_usage user day) (charged_usage kind user day n ds))
      ≡ used_on kind (find (is_usage user day) ds) + n
used_after kind user day n ds = elim (Option-cases (find (is_usage user day) ds)) [
  | inl e ↦
      rw (e, first_usage kind user day n ds)
        (add_runs-used kind n (no_runs user day) ∙ ap (λ x. x + n) (no_runs-used kind user day))
  | inr (d, e) ↦
      let q = is_usage user day in
      let after : find q (update q (add_runs kind n) ds) ≡ some (add_runs kind n d) =
        subst
          (λ t. find q (update q (add_runs kind n) ds) ≡ some (if t then add_runs kind n d else d))
          (find_sound q ds e)
          (find-update q q (add_runs kind n) ds (add_runs-same kind user day n) e) in
      rw (e, after) (add_runs-used kind n d)
]

total_runs-same :
    (kind : QuotaKind) (user n : ℕ) (u : User)
    → has_user_id user (add_total_runs kind n u) ≡ has_user_id user u
total_runs-same image_quota user n u = refl
total_runs-same video_quota user n u = refl

owner_after :
    (kind : QuotaKind) (user n : ℕ) (us : List User) (u : User)
    → find (has_user_id user) us ≡ some u
    → find (has_user_id user) (charged_users kind user n us) ≡ some (add_total_runs kind n u)
owner_after kind user n us u e =
    let q = has_user_id user in
    let f = add_total_runs kind n in
    subst (λ t. find q (update q f us) ≡ some (if t then f u else u)) (find_sound q us e)
      (find-update q q f us (total_runs-same kind user n) e)

abbrev Charges : ℕ → CreateBatchParams → Db → ((Batch × BatchCounts) × Bool) → Db → Type 0
Charges day p db answer db' =
    answer.1 ≡ true → IsChargedBatch day p.user_id (length p.jobs) (quota_kind p.template_id) db db'

stored-Charges :
    (c : Clock) (day : ℕ) (p : CreateBatchParams) (db : Db) (u : User)
    → find (has_user_id p.user_id) db.users ≡ some u
    → u.can_use_quick_generation ≡ true
    → over
        (total_limit_of (quota_kind p.template_id) u)
        (total_used_of (quota_kind p.template_id) u)
        (length p.jobs)
      ≡ false
    → over
        (daily_limit_of (quota_kind p.template_id) u)
        (used_on (quota_kind p.template_id) (find (is_usage p.user_id day) db.daily_usage))
        (length p.jobs)
      ≡ false
    → Ends (Charges day p db) (store_batch c day p (quota_kind p.template_id) db)
stored-Charges c day p db u found allowed total daily =
    let kind = quota_kind p.template_id in
    let n = length p.jobs in
    Ends-imply (store_batch c day p kind db) (store_batch-Holds c day p kind db) (λ answer db' h _.
      record {
        owner = u;
        found = found;
        allowed = allowed;
        within_total = total;
        within_day = daily;
        charged =
            ap (find (has_user_id p.user_id)) h.0 ∙ owner_after kind p.user_id n db.users u found;
        used =
            ap (λ ds. used_on kind (find (is_usage p.user_id day) ds)) h.1
            ∙ used_after kind p.user_id day n db.daily_usage;
      })

charge_batch-Charges :
    (c : Clock) (day : ℕ) (p : CreateBatchParams) (db : Db)
    → Ends (Charges day p db) (charge_batch c day p (quota_kind p.template_id) db)
unfolding charge_batch select_user select_usage
charge_batch-Charges c day p db =
    let kind = quota_kind p.template_id in
    let n = length p.jobs in
    Ends-read (Charges day p db) _ no_rows (λ db. find (has_user_id p.user_id) db.users) db
      (λ u found. elim (Bool-cases (not u.can_use_quick_generation)) [
        | inl e ↦ rw e tt
        | inr e ↦ elim (Bool-cases (over (total_limit_of kind u) (total_used_of kind u) n)) [
          | inl t ↦ rw (e, t) tt
          | inr t ↦
              elim (Bool-cases (
                over (daily_limit_of kind u)
                  (used_on kind (find (is_usage p.user_id day) db.daily_usage)) n)) [
                    | inl d ↦ rw (e, t, d) tt
                    | inr d ↦ rw (e, t, d) (stored-Charges c day p db u found (ground arith) t d)
                  ]
        ]
      ])

create_new-Charges :
    (c : Clock) (day : ℕ) (p : CreateBatchParams) (db : Db)
    → Ends (Charges day p db) (create_new_batch c day p db)
unfolding create_new_batch
create_new-Charges c day p db = elim (Bool-cases (not (own_parent_batch p db.generation_batches))) [
  | inl e ↦ rw e tt
  | inr e ↦ elim (Bool-cases (not (own_source_job p db.generation_jobs))) [
    | inl t ↦ rw (e, t) tt
    | inr t ↦ rw (e, t) (charge_batch-Charges c day p db)
  ]
]

create_or_read-Charges :
    (c : Clock) (day : ℕ) (p : CreateBatchParams) (o : Option Batch) (db : Db)
    → Ends (Charges day p db) (create_or_read c day p o db)
create_or_read-Charges c day p none db = create_new-Charges c day p db
create_or_read-Charges c day p (some b) db =
    Ends-bind (Charges day p db) (λ batch. pure (batch, false)) (batch_by_id p.user_id b.id) db
      (λ a db' e. λ made. absurd (ground arith))

create-Charges :
    (c : Clock) (day : ℕ) (p : CreateBatchParams) (db : Db)
    → Ends (Charges day p db) (create_generation_batch c day p db)
unfolding create_generation_batch
create-Charges c day p db = elim (Bool-cases (not (batch_params_valid p))) [
  | inl e ↦ rw e tt
  | inr e ↦ rw e (
      create_or_read-Charges c day p
        (find (is_batch_request p.user_id (trim_space p.request_id)) db.generation_batches) db)
]

-- Where CreateGenerationBatch makes a new batch, its owner may use quick generation, neither the
-- total nor the daily limit of the batch's kind is exceeded by all its jobs together, and the runs
-- charged to the owner, in total and on the day, grow by exactly the number of the jobs.
pub create_charges_all :
    (c : Clock) (day : ℕ) (p : CreateBatchParams) (db db' : Db) {batch : Batch × BatchCounts}
    → create_generation_batch c day p db ≡ ok ((batch, true), db')
    → IsChargedBatch day p.user_id (length p.jobs) (quota_kind p.template_id) db db'
create_charges_all c day p db db' success =
    Ends-ok (Charges day p db) (create_generation_batch c day p db) (create-Charges c day p db)
      success refl
