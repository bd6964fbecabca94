-- ===== src/Batches/Stored.antt =====
-- What the statements of CreateGenerationBatch (internal/store/generation_batch.go) leave of the runs charged.
use personal_cloud_ai_servic.Domain.Job.{Job, JobTransition}
use personal_cloud_ai_servic.Db.Keeps.{
  Keeps, keeps_rules, After, Keeps-pure, Keeps-fail, Keeps-bind, Ends-bind, After-bind, Ends-ok,
}
use personal_cloud_ai_servic.Jobs.{record_transition, increment_revision, increment_user_revision}
use personal_cloud_ai_servic.Jobs.Create.{insert_job}
use personal_cloud_ai_servic.Batches.{CreateBatchParams, batch_by_id, BatchChild, counted}
use personal_cloud_ai_servic.Domain.Rows.{DailyUsage, Batch}
use personal_cloud_ai_servic.Db.{Clock, Db, ◌>>◌, constraint}
use personal_cloud_ai_servic.Domain.User.{User}
use personal_cloud_ai_servic.Batches.Create.{
  store_batch, insert_batch, insert_child, insert_child_request, insert_children, add_total_runs,
  inserted_child, add_runs, no_runs, insert_one_child, finish_batch, charge_runs, new_batch,
}
use personal_cloud_ai_servic.Quota.{QuotaKind, has_user_id, is_usage}
use personal_cloud_ai_servic.Prelude.{
  List, ℕ, update, Option, if◌then◌else◌, ◌≡◌, arith, is_none, find, length, ◌∷◌, [], some, none,
  ap, refl,
}

-- The rows that hold the runs charged.
abbrev Holds : List User → List DailyUsage → Db → Type 0
Holds us ds db = (db.users ≡ us) × (db.daily_usage ≡ ds)

module _ (us : List User) (ds : List DailyUsage) where
  insert_batch-Keeps : (new : Db → Batch) → Keeps (Holds us ds) (λ db. insert_batch (new db) db)
  unfolding insert_batch
  insert_batch-Keeps new = record { at = λ db h. ground (arith, h) }

  insert_job-Keeps : (new : Job) → Keeps (Holds us ds) (insert_job new)
  unfolding insert_job
  insert_job-Keeps new = record { at = λ db h. ground (arith, h) }

  inserted_child-Keeps : (o : Option Job) → Keeps (Holds us ds) (inserted_child o)
  inserted_child-Keeps none = Keeps-fail constraint
  inserted_child-Keeps (some j) = Keeps-pure j

  insert_child-Keeps : (new : Job) → Keeps (Holds us ds) (insert_child new)
  unfolding insert_child
  insert_child-Keeps new = search (keeps_rules, insert_job-Keeps, inserted_child-Keeps) depth 10

  transition-Keeps : (t : JobTransition) → Keeps (Holds us ds) (record_transition t)
  unfolding record_transition
  transition-Keeps t = record { at = λ db h. h }

  insert_request-Keeps : (user : ℕ) (j : Job) → Keeps (Holds us ds) (insert_child_request user j)
  unfolding insert_child_request
  insert_request-Keeps user j = record { at = λ db h. ground (arith, h) }

  one_child-Keeps :
      (c : Clock) (p : CreateBatchParams) (day batch : ℕ) (child : BatchChild)
      → Keeps (Holds us ds) (insert_one_child c p day batch child)
  unfolding insert_one_child
  one_child-Keeps c p day batch child =
      search (keeps_rules, insert_child-Keeps, transition-Keeps, insert_request-Keeps) depth 20

  insert_children-Keeps :
      (c : Clock) (p : CreateBatchParams) (day batch : ℕ) (children : List BatchChild)
      → Keeps (Holds us ds) (insert_children c p day batch children)
  unfolding insert_children
  insert_children-Keeps c p day batch [] = Keeps-pure tt
  insert_children-Keeps c p day batch (child ∷ rest) =
      Keeps-bind (insert_one_child c p day batch child) (λ _. insert_children c p day batch rest)
        (one_child-Keeps c p day batch child) (λ _. insert_children-Keeps c p day batch rest)

  revision-Keeps : Keeps (Holds us ds) increment_revision
  unfolding increment_revision
  revision-Keeps = record { at = λ db h. h }

  user_revision-Keeps : (user : ℕ) → Keeps (Holds us ds) (increment_user_revision user)
  unfolding increment_user_revision
  user_revision-Keeps user = record { at = λ db h. h }

  counted-Keeps : (b : Batch) → Keeps (Holds us ds) (counted b)
  counted-Keeps b = record { at = λ db h. h }

  batch_by_id-Keeps : (user id : ℕ) → Keeps (Holds us ds) (batch_by_id user id)
  unfolding batch_by_id
  batch_by_id-Keeps user id = search (keeps_rules, counted-Keeps) depth 10

  finish-Keeps : (user id : ℕ) → Keeps (Holds us ds) (finish_batch user id)
  unfolding finish_batch
  finish-Keeps user id =
      search (keeps_rules, user_revision-Keeps, revision-Keeps, batch_by_id-Keeps) depth 20

-- The rows after the charge.
abbrev pub charged_usage : QuotaKind → ℕ → ℕ → ℕ → List DailyUsage → List DailyUsage
charged_usage kind user day n ds =
    if is_none (find (is_usage user day) ds)
    then add_runs kind n (no_runs user day) ∷ ds
    else update (is_usage user day) (add_runs kind n) ds

abbrev pub charged_users : QuotaKind → ℕ → ℕ → List User → List User
charged_users kind user n us = update (has_user_id user) (add_total_runs kind n) us

charge-Holds :
    (us : List User) (ds : List DailyUsage) (kind : QuotaKind) (user day n : ℕ) (db : Db)
    → Holds us ds db
    → After
        (Holds (charged_users kind user n us) (charged_usage kind user day n ds))
        (charge_runs kind user day n db)
unfolding charge_runs
charge-Holds us ds kind user day n db h =
    (ap (charged_users kind user n) h.0, ap (charged_usage kind user day n) h.1)

pub store_batch-Holds :
    (c : Clock) (day : ℕ) (p : CreateBatchParams) (kind : QuotaKind) (db : Db)
    → After
        (Holds
          (charged_users kind p.user_id (length p.jobs) db.users)
          (charged_usage kind p.user_id day (length p.jobs) db.daily_usage))
        (store_batch c day p kind db)
unfolding store_batch
store_batch-Holds c day p kind db =
    let n = length p.jobs in
    let P =
      Holds (charged_users kind p.user_id n db.users)
        (charged_usage kind p.user_id day n db.daily_usage) in
    Ends-bind (λ _ db'. P db')
      (λ id.
        insert_children c p day id p.jobs
        >> (charge_runs kind p.user_id day n >> finish_batch p.user_id id))
      (λ db. insert_batch (new_batch c p db.next_batch_id) db) db
      (λ id db1 e1.
        Ends-bind (λ _ db'. P db')
          (λ _. charge_runs kind p.user_id day n >> finish_batch p.user_id id)
          (insert_children c p day id p.jobs) db1
          (λ _ db2 e2.
            After-bind (charge_runs kind p.user_id day n db2) (λ _. finish_batch p.user_id id)
              (charge-Holds db.users db.daily_usage kind p.user_id day n db2 (
                Ends-ok (λ _. Holds db.users db.daily_usage) (insert_children c p day id p.jobs db1)
                  ((insert_children-Keeps db.users db.daily_usage c p day id p.jobs).at db1 (
                    Ends-ok (λ _. Holds db.users db.daily_usage)
                      (insert_batch (new_batch c p db.next_batch_id) db)
                      ((insert_batch-Keeps db.users db.daily_usage
                          (λ db. new_batch c p db.next_batch_id)).at
                        db (refl, refl))
                      e1))
                  e2))
              (λ _.
                finish-Keeps (charged_users kind p.user_id n db.users)
                  (charged_usage kind p.user_id day n db.daily_usage) p.user_id id)))
