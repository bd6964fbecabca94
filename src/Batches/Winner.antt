-- ===== src/Batches/Winner.antt =====
-- The winner that SetGenerationBatchWinner of internal/store/generation_batch.go chooses.
use personal_cloud_ai_servic.Jobs.{owned_by, increment_revision}
use personal_cloud_ai_servic.Batches.Calls.{
  store_winner, is_public_job, set_winner, set_batch_winner,
}
use personal_cloud_ai_servic.Db.Keeps.{Ends, Ends-read, Ends-ok, Ends-imply}
use personal_cloud_ai_servic.Domain.Job.{Job, state_eq, completed}
use personal_cloud_ai_servic.Domain.Rows.{Batch}
use personal_cloud_ai_servic.Db.{Clock, Db, ok, ◌>>◌, no_rows}
use personal_cloud_ai_servic.Batches.{
  in_batch, has_batch_id, batch_by_id, BatchCounts, counted, is_own_batch,
}
use personal_cloud_ai_servic.Prelude.{
  ℕ, ◌≡◌, find, ◌&&◌, true, some, Bool-cases, update, String, List, arith, subst, ◌∷◌, trim_space,
  All, inl, not, inr, [], sym, find_sound, refl, find-All, ◌+◌, ◌||◌,
}

-- What a chosen winner is: a completed job of the batch, owned by the user, and the one stored.
abbrev pub IsWinner : ℕ → String → Db → Batch × BatchCounts → Db → Type 0
IsWinner user job_public_id db view db' =
    (j : Job) × (find (is_public_job user (trim_space job_public_id)) db.generation_jobs ≡ some j)
    × (in_batch view.0.id j ≡ true)
    × (state_eq j.state completed ≡ true)
    × (view.0.winner_job_id ≡ some j.id)

won :
    (c : Clock) (id job : ℕ) (batches : List Batch)
    → All
        (λ b. has_batch_id id b ≡ true → b.winner_job_id ≡ some job)
        (update (has_batch_id id) (set_winner c job) batches)
unfolding update set_winner
won c id job [] = tt
won c id job (b ∷ bs) = elim (Bool-cases (has_batch_id id b)) [
  | inl e ↦ rw e ((λ _. refl), won c id job bs)
  | inr e ↦ rw e ((λ t. absurd (ground arith)), won c id job bs)
]

abbrev HasWon : ℕ → ℕ → Batch × BatchCounts → Db → Type 0
HasWon id job view _ = (view.0.id ≡ id) × (view.0.winner_job_id ≡ some job)

winner_row :
    (c : Clock) (user id job : ℕ) (batches : List Batch) (b : Batch)
    → find
        (λ b. has_batch_id id b && owned_by b.user_id user)
        (update (has_batch_id id) (set_winner c job) batches)
      ≡ some b
    → (b.id ≡ id) × (b.winner_job_id ≡ some job)
unfolding has_batch_id
winner_row c user id job batches b found =
    let rows = update (has_batch_id id) (set_winner c job) batches in
    let sound = find_sound (λ b. has_batch_id id b && owned_by b.user_id user) rows found in
    (
      ground arith,
      find-All (λ b. has_batch_id id b && owned_by b.user_id user)
          (λ b. has_batch_id id b ≡ true → b.winner_job_id ≡ some job) rows (won c id job batches)
          found (ground arith),
    )

read_winner :
    (c : Clock) (user id job : ℕ) (db : Db)
    → Ends (HasWon id job) ((store_winner c id job >> batch_by_id user id) db)
unfolding store_winner increment_revision batch_by_id
read_winner c user id job db =
    Ends-read (HasWon id job) (λ b. counted b) no_rows
      (λ db. find (λ b. has_batch_id id b && owned_by b.user_id user) db.generation_batches)
      (record db {
        generation_batches = update (has_batch_id id) (set_winner c job) db.generation_batches;
        generation_job_revision = db.generation_job_revision + 1;
      })
      (λ b found. winner_row c user id job db.generation_batches b found)

-- Where SetGenerationBatchWinner succeeds, the winner of the batch that it answers with is the
-- user's job with the public id, which is completed and belongs to the batch.
pub chosen_job_completed :
    (c : Clock) (user : ℕ) (batch_public_id job_public_id : String) (db db' : Db)
    {view : Batch × BatchCounts}
    → set_batch_winner c user batch_public_id job_public_id db ≡ ok (view, db')
    → IsWinner user job_public_id db view db'
unfolding set_batch_winner
chosen_job_completed c user batch_public_id job_public_id db db' {view} success =
    Ends-ok (IsWinner user job_public_id db)
      (set_batch_winner c user batch_public_id job_public_id db)
      (Ends-read (IsWinner user job_public_id db) _ no_rows
        (λ db. find (is_own_batch user (trim_space batch_public_id)) db.generation_batches) db
        (λ b found.
          Ends-read (IsWinner user job_public_id db) _ no_rows
            (λ db. find (is_public_job user (trim_space job_public_id)) db.generation_jobs) db
            (λ j job_found.
              elim (Bool-cases (not (in_batch b.id j) || not (state_eq j.state completed))) [
                | inl bad ↦ rw bad tt
                | inr good ↦ rw good (
                    Ends-imply ((store_winner c b.id j.id >> batch_by_id user b.id) db)
                      (read_winner c user b.id j.id db)
                      (λ view db' h. (
                        j,
                        job_found,
                        subst (λ i. in_batch i j ≡ true) (sym h.0) (ground arith),
                        ground arith,
                        h.1,
                      )))
              ])))
      success
