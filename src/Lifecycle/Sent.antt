-- ===== src/Lifecycle/Sent.antt =====
-- The calls of internal/store/generation_dispatch.go and generation_quota.go follow the graph.
use personal_cloud_ai_servic.Gpu.{text_valid}
use personal_cloud_ai_servic.Lifecycle.Rewrites.{step_rules}
use personal_cloud_ai_servic.Lifecycle.History.{
  Follows, IsStep, aside-Follows, record_transition-Keeps, affect-Keeps, select_own_job-Keeps,
  select_job-Keeps, update_job-Keeps, increment_revision-Keeps, owner_revision-Keeps, Origin,
}
use personal_cloud_ai_servic.Db.Keeps.{Keeps, keeps_rules, Keeps-pure}
use personal_cloud_ai_servic.Quota.{
  charge, refund, select_usage, select_user, book, reserve_kind, reserve_quick_generation_for_job,
  commit_quick_generation_for_job, QuotaKind, release_quick_generation_for_job, reserve_for,
  refund_owner, release_reserved,
}
use personal_cloud_ai_servic.Dispatch.Submission.{
  affect_one, begin_submission, postpone_dispatch, reject_submission, fence_resource_release,
}
use personal_cloud_ai_servic.Db.{Clock}
use personal_cloud_ai_servic.Dispatch.{
  queue_dispatch, touch_batch, claim_candidate, claim_next_dispatch, record_claim, next_candidate,
  clamp_batches,
}
use personal_cloud_ai_servic.Domain.Job.{Job}
use personal_cloud_ai_servic.Prelude.{
  ℕ, Option, String, Bool, Bool-cases, some, str_eq, none, refl, ◌||◌, not, inl, inr,
}

module _ (i : ℕ) (s : Origin) where
  pub queue-Keeps : (c : Clock) (id : ℕ) → Keeps (Follows i s) (queue_dispatch c id)
  unfolding queue_dispatch
  queue-Keeps c id =
      search (keeps_rules, step_rules, update_job-Keeps, increment_revision-Keeps) depth 20

  touch-Keeps : (c : Clock) (o : Option ℕ) → Keeps (Follows i s) (touch_batch c o)
  unfolding touch_batch
  touch-Keeps c none = record { at = λ db h. h }
  touch-Keeps c (some id) = record { at = λ db h. aside-Follows i s db _ h refl refl }

  record_claim-Keeps : (c : Clock) (a b : Job) → Keeps (Follows i s) (record_claim c a b)
  record_claim-Keeps c a b = search (keeps_rules, record_transition-Keeps) depth 10

  candidate-Keeps :
      (c : Clock) (token : String) (o : Option Job)
      → Keeps (Follows i s) (claim_candidate c token o)
  unfolding claim_candidate
  candidate-Keeps c token none = search keeps_rules
  candidate-Keeps c token (some j) =
      search
        (
          keeps_rules, step_rules, update_job-Keeps, record_claim-Keeps, touch-Keeps,
          owner_revision-Keeps, increment_revision-Keeps,
        )
        depth 20

  pub dispatch-Keeps :
      (c : Clock) (token : String) (n : ℕ) → Keeps (Follows i s) (claim_next_dispatch c token n)
  unfolding claim_next_dispatch
  dispatch-Keeps c token n = record {
    at = λ db h. elim (Bool-cases (str_eq token "" || not (text_valid token 96))) [
      | inl unfit ↦ rw unfit tt
      | inr fit ↦ rw fit ((candidate-Keeps c token (next_candidate c (clamp_batches n) db)).at db h)
    ];
  }

  affect_one-Keeps :
      (p : Job → Bool) (f : Job → Job) → IsStep f → Keeps (Follows i s) (affect_one p f)
  unfolding affect_one
  affect_one-Keeps p f good = search (keeps_rules, affect-Keeps, good) depth 10

  pub begin-Keeps :
      (c : Clock) (id : ℕ) (token : String) → Keeps (Follows i s) (begin_submission c id token)
  unfolding begin_submission
  begin-Keeps c id token = search (keeps_rules, step_rules, affect_one-Keeps) depth 10

  pub postpone-Keeps :
      (c : Clock) (id : ℕ) (token : String) → Keeps (Follows i s) (postpone_dispatch c id token)
  unfolding postpone_dispatch
  postpone-Keeps c id token = search (keeps_rules, step_rules, affect_one-Keeps) depth 10

  pub reject-Keeps :
      (c : Clock) (id : ℕ) (token : String) → Keeps (Follows i s) (reject_submission c id token)
  unfolding reject_submission
  reject-Keeps c id token = search (keeps_rules, step_rules, affect_one-Keeps) depth 10

  pub fence-Keeps :
      (c : Clock) (id : ℕ) (token : String)
      → Keeps (Follows i s) (fence_resource_release c id token)
  unfolding fence_resource_release
  fence-Keeps c id token = search (keeps_rules, step_rules, affect-Keeps) depth 10

  charge-Keeps : (kind : QuotaKind) (user day : ℕ) → Keeps (Follows i s) (charge kind user day)
  unfolding charge
  charge-Keeps kind user day = record { at = λ db h. aside-Follows i s db _ h refl refl }

  refund-Keeps : (kind : QuotaKind) (user day : ℕ) → Keeps (Follows i s) (refund kind user day)
  unfolding refund
  refund-Keeps kind user day = record { at = λ db h. aside-Follows i s db _ h refl refl }

  usage-Keeps : (user day : ℕ) → Keeps (Follows i s) (select_usage user day)
  unfolding select_usage
  usage-Keeps user day = record { at = λ db h. h }

  user-Keeps : (user : ℕ) → Keeps (Follows i s) (select_user user)
  unfolding select_user
  user-Keeps user = search keeps_rules

  book-Keeps :
      (c : Clock) (day id user : ℕ) (kind : QuotaKind)
      → Keeps (Follows i s) (book c day id user kind)
  unfolding book
  book-Keeps c day id user kind =
      search (keeps_rules, step_rules, charge-Keeps, update_job-Keeps, increment_revision-Keeps)
        depth 20

  reserve_kind-Keeps :
      (c : Clock) (day id user : ℕ) (kind : QuotaKind)
      → Keeps (Follows i s) (reserve_kind c day id user kind)
  unfolding reserve_kind
  reserve_kind-Keeps c day id user kind =
      search (keeps_rules, user-Keeps, usage-Keeps, book-Keeps) depth 20

  reserve_for-Keeps :
      (c : Clock) (day id user : ℕ) (job : Job) (o : Option ℕ)
      → Keeps (Follows i s) (reserve_for c day id user job o)
  reserve_for-Keeps c day id user job none = search (keeps_rules, reserve_kind-Keeps) depth 10
  reserve_for-Keeps c day id user job (some d) = search keeps_rules

  pub reserve-Keeps :
      (c : Clock) (day id user : ℕ)
      → Keeps (Follows i s) (reserve_quick_generation_for_job c day id user)
  unfolding reserve_quick_generation_for_job
  reserve-Keeps c day id user =
      search (keeps_rules, select_own_job-Keeps, reserve_for-Keeps) depth 10

  pub commit-Keeps :
      (c : Clock) (id : ℕ) → Keeps (Follows i s) (commit_quick_generation_for_job c id)
  unfolding commit_quick_generation_for_job
  commit-Keeps c id =
      search (keeps_rules, step_rules, select_job-Keeps, update_job-Keeps, increment_revision-Keeps)
        depth 20

  refund_owner-Keeps :
      (kind : QuotaKind) (o : Option ℕ) (day : ℕ) → Keeps (Follows i s) (refund_owner kind o day)
  refund_owner-Keeps kind none day = Keeps-pure tt
  refund_owner-Keeps kind (some user) day = refund-Keeps kind user day

  reserved-Keeps :
      (c : Clock) (id : ℕ) (job : Job) (o : Option ℕ)
      → Keeps (Follows i s) (release_reserved c id job o)
  reserved-Keeps c id job none = search keeps_rules
  reserved-Keeps c id job (some day) =
      search
        (keeps_rules, step_rules, refund_owner-Keeps, update_job-Keeps, increment_revision-Keeps)
        depth 20

  pub unreserve-Keeps :
      (c : Clock) (id : ℕ) → Keeps (Follows i s) (release_quick_generation_for_job c id)
  unfolding release_quick_generation_for_job
  unreserve-Keeps c id = search (keeps_rules, select_job-Keeps, reserved-Keeps) depth 10
