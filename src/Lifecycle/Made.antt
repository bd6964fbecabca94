-- ===== src/Lifecycle/Made.antt =====
-- CreateGenerationJob and ClaimGenerationJob of internal/store/generation_job.go leave the jobs that
-- are there, and give out a new id.
use personal_cloud_ai_servic.Jobs.Claim.{
  link_request, finish_claim, select_request, claim_new, claim_or_adopt, look_up_request_job,
  insert_request, claim_generation_job, is_key, claim_normalized,
}
use personal_cloud_ai_servic.Lifecycle.History.{
  Follows, aside-Follows, record_transition-Keeps, user_revision-Keeps, increment_revision-Keeps,
  Origin,
}
use personal_cloud_ai_servic.Domain.Rows.{GenerationRequest}
use personal_cloud_ai_servic.Db.Keeps.{Keeps, keeps_rules}
use personal_cloud_ai_servic.Jobs.{has_job_id, owned_by}
use personal_cloud_ai_servic.Db.{Clock, Db}
use personal_cloud_ai_servic.Jobs.Create.{
  insert_job, check_parent, announce, select_request_job, create_generation_job, create_normalized,
  created_or_found, checks_pass, own_parent, conflicts, parent_exists,
}
use personal_cloud_ai_servic.Domain.Job.{CreateJobParams, Job}
use personal_cloud_ai_servic.Prelude.{
  ℕ, find, Option, Bool, ◌∷◌, Bool-cases, ◌+◌, any, some, refl, ◌<◌, inr, inl, none, ◌==◌, not, ◌≡◌,
  false, ◌||◌, arith, count,
}

module _ (i : ℕ) (s : Origin) where
  added_row :
      (new : Job) (db : Db)
      → Follows i s db
      → Follows i s (record db {
        generation_jobs = (record new { id = db.next_job_id }) ∷ db.generation_jobs;
        next_job_id = db.next_job_id + 1;
      })
  unfolding find has_job_id count
  added_row new db h =
      let bound : i < db.next_job_id = h.issued in
      let far : (db.next_job_id == i) ≡ false = ground arith in
      record {
        job = h.job;
        stored = rw far h.stored;
        follows = h.follows;
        released = h.released;
        issued = omega arith;
        begins = λ b. ground (arith, far, h.begins b);
        closes = λ b. ground (arith, far, h.closes b);
      }

  insert_job-Keeps : (new : Job) → Keeps (Follows i s) (insert_job new)
  unfolding insert_job
  insert_job-Keeps new = record {
    at = λ db h. elim (Bool-cases (checks_pass new)) [
      | inr unfit ↦ rw unfit tt
      | inl fit ↦ rw fit (elim (Bool-cases (any (conflicts new) db.generation_jobs)) [
        | inl old ↦ rw old h
        | inr free ↦
            rw free
              (elim (Bool-cases (
                not (any (λ u. owned_by new.user_id u.id) db.users)
                || not (parent_exists new.parent_job_id db.generation_jobs))) [
                  | inl stray ↦ rw stray tt
                  | inr kin ↦ rw kin (added_row new db h)
                ])
      ])
    ];
  }

  check_parent-Keeps : (p : CreateJobParams) → Keeps (Follows i s) (check_parent p)
  unfolding check_parent
  check_parent-Keeps p = record {
    at = λ db h. elim (Bool-cases (own_parent p db.generation_jobs)) [
      | inl own ↦ rw own h
      | inr stray ↦ rw stray tt
    ];
  }

  announce-Keeps : (p : CreateJobParams) (job : Job) → Keeps (Follows i s) (announce p job)
  unfolding announce
  announce-Keeps p job =
      search (keeps_rules, record_transition-Keeps, user_revision-Keeps, increment_revision-Keeps)
        depth 20

  select_request_job-Keeps : (p : CreateJobParams) → Keeps (Follows i s) (select_request_job p)
  unfolding select_request_job
  select_request_job-Keeps p = search keeps_rules

  created-Keeps :
      (p : CreateJobParams) (o : Option Job) → Keeps (Follows i s) (created_or_found p o)
  created-Keeps p none = search (keeps_rules, select_request_job-Keeps) depth 10
  created-Keeps p (some job) = search (keeps_rules, announce-Keeps) depth 10

  pub create-Keeps :
      (c : Clock) (p : CreateJobParams) → Keeps (Follows i s) (create_generation_job c p)
  unfolding create_generation_job create_normalized
  create-Keeps c p =
      search (keeps_rules, check_parent-Keeps, insert_job-Keeps, created-Keeps) depth 20

  link-Keeps : (q : GenerationRequest → Bool) (job : Job) → Keeps (Follows i s) (link_request q job)
  unfolding link_request
  link-Keeps q job = record { at = λ db h. aside-Follows i s db _ h refl refl }

  finish-Keeps : (p : CreateJobParams) (o : Option Job) → Keeps (Follows i s) (finish_claim p o)
  finish-Keeps p none = search (keeps_rules, select_request_job-Keeps, link-Keeps) depth 10
  finish-Keeps p (some job) = search (keeps_rules, announce-Keeps, link-Keeps) depth 10

  select_request-Keeps : (p : CreateJobParams) → Keeps (Follows i s) (select_request p)
  unfolding select_request
  select_request-Keeps p = search keeps_rules

  claim_new-Keeps : (c : Clock) (p : CreateJobParams) → Keeps (Follows i s) (claim_new c p)
  unfolding claim_new
  claim_new-Keeps c p =
      search (keeps_rules, check_parent-Keeps, select_request-Keeps, insert_job-Keeps, finish-Keeps)
        depth 20

  adopt-Keeps :
      (c : Clock) (p : CreateJobParams) (o : Option Job)
      → Keeps (Follows i s) (claim_or_adopt c p o)
  adopt-Keeps c p none = claim_new-Keeps c p
  adopt-Keeps c p (some job) = search (keeps_rules, link-Keeps) depth 10

  look_up-Keeps : (p : CreateJobParams) → Keeps (Follows i s) (look_up_request_job p)
  unfolding look_up_request_job
  look_up-Keeps p = record { at = λ db h. h }

  insert_request-Keeps : (p : CreateJobParams) → Keeps (Follows i s) (insert_request p)
  unfolding insert_request
  insert_request-Keeps p = record {
    at = λ db h. elim (Bool-cases (any (is_key p.user_id p.request_id) db.generation_requests)) [
      | inl old ↦ rw old h
      | inr new ↦ rw new (elim (Bool-cases (not (any (λ u. u.id == p.user_id) db.users))) [
        | inl stray ↦ rw stray tt
        | inr kin ↦ rw kin (aside-Follows i s db _ h refl refl)
      ])
    ];
  }

  pub claim-Keeps :
      (c : Clock) (p : CreateJobParams) → Keeps (Follows i s) (claim_generation_job c p)
  unfolding claim_generation_job claim_normalized
  claim-Keeps c p = search (keeps_rules, insert_request-Keeps, look_up-Keeps, adopt-Keeps) depth 20
