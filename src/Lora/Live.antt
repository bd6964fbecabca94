-- ===== src/Lora/Live.antt =====
-- A queued training gets its turn, and a user has one at a time
-- (internal/store/lora_training.go).
use personal_cloud_ai_servic.Lora.Constrained.{
  QueuedOnly, IsConstrained, update_training-ok, claimed-IsConstrained,
}
use personal_cloud_ai_servic.Lora.Kept.{set_claimed-id}
use personal_cloud_ai_servic.Lora.Steps.{inserted-After}
use personal_cloud_ai_servic.Lora.Create.{
  create_training, insert_training, check_snapshot, new_training, is_snapshot,
}
use personal_cloud_ai_servic.Db.Keeps.{bind-ok, Ends-ok, After, Ends-bind, bind-err}
use personal_cloud_ai_servic.Lora.Table.{HasTrainingTable}
use personal_cloud_ai_servic.Db.{
  Clock, Db, ok, row_or, no_rows, err, training_already_active, Error, dataset_asset, constraint,
}
use personal_cloud_ai_servic.Lora.Handoff.{
  set_claimed, claim_next_training, next_training, claimable, training_precedes,
}
use personal_cloud_ai_servic.Lora.{
  training_checks, live_of, has_training_id, update_training, has_public_id, live,
}
use personal_cloud_ai_servic.Domain.Training.{
  Training, in_queue, is_uploading, CreateTrainingParams,
}
use personal_cloud_ai_servic.Prelude.{
  Bool, ◌≡◌, count, any, List, true, update, All, ◌∷◌, arith, [], inl, inr, refl, false, ℕ, find,
  some, ◌∙◌, ◌≤◌, subst, keep, none, count-found, sym, least-All, least-some, Option-cases,
  unique-All, All-keep, keep-All, if◌then◌else◌, find_sound, find-update, ap, ◌==◌, All-imply, ◌⊎◌,
  Bool-cases, str_eq, not, ◌||◌,
}

-- With unique ids, every training is found under its own.
self_found :
    (rows : List Training)
    → ((i : ℕ) → count (has_training_id i) rows ≤ 1)
    → All (λ k. find (has_training_id k.id) rows ≡ some k) rows
unfolding find count has_training_id
self_found [] h = tt
self_found (j ∷ js) h = (
  ground arith,
  All-imply js
      (λ k found.
        ground (
          arith,
          h k.id,
          count-found (has_training_id k.id) (has_training_id k.id) js {x = k} found,
        ))
      (self_found js (λ i. ground (arith, h i))),
)

found_queued :
    (db : Db) (j : Training)
    → HasTrainingTable db
    → find (has_training_id j.id) db.lora_training_jobs ≡ some j
    → in_queue j.state ≡ true
    → QueuedOnly j.id db.lora_training_jobs
found_queued db j h found waits =
    All-imply db.lora_training_jobs
      (λ k only own. subst (λ t. in_queue t.state ≡ true) (sym (only own)) waits)
      (unique-All (has_training_id j.id) db.lora_training_jobs found (h.unique_id j.id))

claimed_turn :
    (c : Clock) (db : Db) (j : Training)
    → HasTrainingTable db
    → IsConstrained db.lora_training_jobs
    → next_training db ≡ some j
    → find (has_training_id j.id) db.lora_training_jobs ≡ some j
    → in_queue j.state ≡ true
    → claim_next_training c db
      ≡ ok (
        set_claimed c j,
        record db {
          lora_training_jobs = update (has_training_id j.id) (set_claimed c) db.lora_training_jobs;
        },
      )
unfolding claim_next_training
claimed_turn c db j h good turn found waits =
    bind-ok (λ db. row_or no_rows (next_training db) db)
      (λ job. update_training (has_training_id job.id) (set_claimed c)) db {a = j} {db' = db}
      (rw turn refl)
    ∙ update_training-ok (has_training_id j.id) (set_claimed c) db j found
        (claimed-IsConstrained c j.id db.lora_training_jobs (found_queued db j h found waits) good)

keep-some : (p : Training → Bool) (rows : List Training) → keep p rows ≡ [] → any p rows ≡ false
unfolding keep any
keep-some p [] e = refl
keep-some p (j ∷ js) e = ground (arith, keep-some p js)

-- The training whose turn it is.
turn_found :
    (db : Db) (j : Training)
    → HasTrainingTable db
    → next_training db ≡ some j
    → (find (has_training_id j.id) db.lora_training_jobs ≡ some j)
      × (claimable db.lora_training_jobs j ≡ true)
unfolding next_training
turn_found db j h e =
    let rows = db.lora_training_jobs in
    (
      least-All (training_precedes db.users) (λ k. find (has_training_id k.id) rows ≡ some k)
          (keep (claimable rows) rows)
          (All-keep (λ k. find (has_training_id k.id) rows ≡ some k) (claimable rows) rows
            (self_found rows h.unique_id))
          e,
      least-All (training_precedes db.users) (λ k. claimable rows k ≡ true)
          (keep (claimable rows) rows) (keep-All (claimable rows) rows) e,
    )

no_turn :
    (db : Db)
    → next_training db ≡ none
    → any (claimable db.lora_training_jobs) db.lora_training_jobs ≡ false
unfolding next_training
no_turn db e = keep-some (claimable db.lora_training_jobs) db.lora_training_jobs (
    least-some (training_precedes db.users)
      (keep (claimable db.lora_training_jobs) db.lora_training_jobs) e)

claimable_waits :
    (rows : List Training) (j : Training) → claimable rows j ≡ true → in_queue j.state ≡ true
unfolding claimable
claimable_waits rows j e = ground arith

claimed_found :
    (c : Clock) (j : Training) (rows : List Training)
    → find (has_training_id j.id) rows ≡ some j
    → find (has_training_id j.id) (update (has_training_id j.id) (set_claimed c) rows)
      ≡ some (set_claimed c j)
unfolding has_training_id set_claimed
claimed_found c j rows found =
    subst
      (λ t.
        find (has_training_id j.id) (update (has_training_id j.id) (set_claimed c) rows)
        ≡ some (if t then set_claimed c j else j))
      (find_sound (has_training_id j.id) rows found)
      (find-update (has_training_id j.id) (has_training_id j.id) (set_claimed c) rows
        (λ y. ap (λ x. x == j.id) (set_claimed-id c y)) found)

-- In a table of unique issued ids, with one training at most at the agent and a time on every ended
-- training, that meets its constraints, ClaimNextLoraTrainingJob succeeds wherever a training waits uncancelled and none is with the agent, and leaves the training that it
-- answers with uploading under its id.
pub claim_succeeds :
    (c : Clock) (db : Db)
    → HasTrainingTable db
    → IsConstrained db.lora_training_jobs
    → any (claimable db.lora_training_jobs) db.lora_training_jobs ≡ true
    → (j : Training) × (db' : Db) × (claim_next_training c db ≡ ok (j, db'))
      × (is_uploading j.state ≡ true)
      × (find (has_training_id j.id) db'.lora_training_jobs ≡ some j)
unfolding is_uploading set_claimed
claim_succeeds c db h good waits = elim (Option-cases (next_training db)) [
  | inl gone ↦ absurd (ground (arith, no_turn db gone))
  | inr (j, turn) ↦
      let found = turn_found db j h turn in
      (
        set_claimed c j,
        record db {
          lora_training_jobs = update (has_training_id j.id) (set_claimed c) db.lora_training_jobs;
        },
        claimed_turn c db j h good turn found.0 (claimable_waits db.lora_training_jobs j found.1),
        refl,
        claimed_found c j db.lora_training_jobs found.0,
      )
]

new_training-live :
    (c : Clock) (p : CreateTrainingParams) (n : ℕ) (rows : List Training)
    → any (live_of (some p.user_id)) (new_training c p n ∷ rows) ≡ true
unfolding any new_training live_of live in_queue
new_training-live c p n rows = ground arith

created_live :
    (c : Clock) (p : CreateTrainingParams) (db : Db)
    → After
        (λ db'. any (live_of (some p.user_id)) db'.lora_training_jobs ≡ true)
        (create_training c p db)
unfolding create_training
created_live c p db =
    Ends-bind (λ _ db'. any (live_of (some p.user_id)) db'.lora_training_jobs ≡ true)
      (λ _ db. insert_training (new_training c p db.next_training_id) db) (check_snapshot p) db
      (λ _ db1 e.
        inserted-After (λ db'. any (live_of (some p.user_id)) db'.lora_training_jobs ≡ true)
          (new_training c p db1.next_training_id) db1
          (new_training-live c p db1.next_training_id db1.lora_training_jobs))

-- The snapshot is the user's, or is refused.
snapshot_read :
    (p : CreateTrainingParams) (db : Db)
    → (check_snapshot p db ≡ ok (tt, db)) ⊎ ((e : Error) × (check_snapshot p db ≡ err e))
unfolding check_snapshot
snapshot_read p db = elim (Bool-cases (str_eq p.dataset_snapshot_id "")) [
  | inl a ↦ elim (Bool-cases (str_eq p.dataset_snapshot_hash "")) [
    | inl b ↦ rw (a, b) (inl refl)
    | inr b ↦ rw (a, b) (inr (dataset_asset, refl))
  ]
  | inr a ↦ elim (Bool-cases (not (any (λ u. u.id == p.user_id) db.users))) [
    | inl b ↦ rw (a, b) (inr (no_rows, refl))
    | inr b ↦ elim (Bool-cases (any (is_snapshot p) db.lora_dataset_snapshots)) [
      | inl d ↦ rw (a, b, d) (inl refl)
      | inr d ↦ rw (a, b, d) (inr (dataset_asset, refl))
    ]
  ]
]

insert_refused :
    (new : Training) (db : Db)
    → any (live_of new.user_id) db.lora_training_jobs ≡ true
    → (e : Error) × (insert_training new db ≡ err e)
unfolding insert_training
insert_refused new db active =
    elim (Bool-cases
      (not (training_checks new) || any (has_public_id new.public_id) db.lora_training_jobs)) [
        | inl bad ↦ rw bad (constraint, refl)
        | inr fit ↦ rw (fit, active) (training_already_active, refl)
      ]

-- After a successful CreateLoraTrainingJob for a user, another one for that user, with whatever other
-- parameters and at whatever time, answers with an error as the next call.
pub second_training_refused :
    (c c' : Clock) (p p' : CreateTrainingParams) (db db' : Db) {j : Training}
    → create_training c p db ≡ ok (j, db')
    → p'.user_id ≡ p.user_id
    → (e : Error) × (create_training c' p' db' ≡ err e)
unfolding create_training new_training
second_training_refused c c' p p' db db' success same =
    let active : any (live_of (some p.user_id)) db'.lora_training_jobs ≡ true =
      Ends-ok (λ _ db'. any (live_of (some p.user_id)) db'.lora_training_jobs ≡ true)
        (create_training c p db) (created_live c p db) success in
    let next = new_training c' p' db'.next_training_id in
    let (e, refusal) =
      insert_refused next db'
        (subst (λ u. any (live_of (some u)) db'.lora_training_jobs ≡ true) (sym same) active) in
    elim (snapshot_read p' db') [
      | inl fine ↦ (
        e,
        bind-ok (check_snapshot p')
              (λ _ db. insert_training (new_training c' p' db.next_training_id) db) db' fine
            ∙ refusal,
      )
      | inr (x, bad) ↦ (
        x,
        bind-err (check_snapshot p')
            (λ _ db. insert_training (new_training c' p' db.next_training_id) db) db' bad,
      )
    ]
