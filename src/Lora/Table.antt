-- ===== src/Lora/Table.antt =====
-- What every statement of internal/store/lora_training.go keeps: ids are unique and issued, one
-- training at most is with the agent, and an ended training has its time.
use personal_cloud_ai_servic.Lora.{has_training_id}
use personal_cloud_ai_servic.Db.{Db}
use personal_cloud_ai_servic.Domain.Training.{dispatched, terminal, Training}
use personal_cloud_ai_servic.Prelude.{
  ℕ, List, count, Bool, ◌≡◌, leb, ◌&&◌, ◌≤◌, true, update, find, false, keep, is_none,
  count-update_same, arith, some, ◌∷◌, ap, count-update_le, ◌+◌, count-keep_le, ◌==◌, bit,
  count-replace, Bool-cases, inl, count-le, inr,
}

unfoldable pub unissued : ℕ → Training → Bool
unissued next j = leb next j.id

unfoldable pub is_dispatched : Training → Bool
unfolding dispatched
is_dispatched j = dispatched j.state

unfoldable pub is_undated : Training → Bool
unfolding terminal
is_undated j = terminal j.state && is_none j.finished_at

pub record IsTrainingTable (rows : List Training) (next : ℕ) : Type 0 where
  pub unique_id : (i : ℕ) → count (has_training_id i) rows ≤ 1
  pub issued : count (unissued next) rows ≤ 0
  pub one_active : count is_dispatched rows ≤ 1
  pub dated : count is_undated rows ≤ 0

abbrev pub HasTrainingTable : Db → Type 0
HasTrainingTable db = IsTrainingTable db.lora_training_jobs db.next_training_id

-- A rewriting that starts no training and dates those that it ends.
pub record IsQuiet (q : Training → Bool) (f : Training → Training) : Type 0 where
  pub same_id : (j : Training) → (f j).id ≡ j.id
  pub no_start : (j : Training) → q j ≡ true → is_dispatched (f j) ≡ true → is_dispatched j ≡ true
  pub dates : (j : Training) → q j ≡ true → is_undated (f j) ≡ true → is_undated j ≡ true

module _ (q : Training → Bool) (f : Training → Training)
    (same : (j : Training) → (f j).id ≡ j.id) where
  pub update-unique_id :
      (rows : List Training) (i : ℕ)
      → count (has_training_id i) (update q f rows) ≡ count (has_training_id i) rows
  unfolding has_training_id
  update-unique_id rows i =
      count-update_same (has_training_id i) q f rows (λ j _. ap (λ x. x == i) (same j))

  pub update-issued :
      (rows : List Training) (next : ℕ)
      → count (unissued next) (update q f rows) ≡ count (unissued next) rows
  unfolding unissued
  update-issued rows next =
      count-update_same (unissued next) q f rows (λ j _. ap (λ x. leb next x) (same j))

pub update-IsTrainingTable :
    (q : Training → Bool) (f : Training → Training) (rows : List Training) (next : ℕ)
    → IsQuiet q f
    → IsTrainingTable rows next
    → IsTrainingTable (update q f rows) next
update-IsTrainingTable q f rows next quiet h = record {
  unique_id = λ i. omega (arith, update-unique_id q f quiet.same_id rows i, h.unique_id i);
  issued = omega (arith, update-issued q f quiet.same_id rows next, h.issued);
  one_active = omega (arith, count-update_le is_dispatched q f rows quiet.no_start, h.one_active);
  dated = omega (arith, count-update_le is_undated q f rows quiet.dates, h.dated);
}

-- Rewriting the one training with an id.
pub replace-IsTrainingTable :
    (id : ℕ) (f : Training → Training) (rows : List Training) (next : ℕ) (w : Training)
    → ((j : Training) → (f j).id ≡ j.id)
    → find (has_training_id id) rows ≡ some w
    → count is_dispatched rows + bit (is_dispatched (f w)) ≤ 1 + bit (is_dispatched w)
    → is_undated (f w) ≡ false
    → IsTrainingTable rows next
    → IsTrainingTable (update (has_training_id id) f rows) next
replace-IsTrainingTable id f rows next w same found active dated h =
    let q = has_training_id id in
    record {
      unique_id = λ i. omega (arith, update-unique_id q f same rows i, h.unique_id i);
      issued = omega (arith, update-issued q f same rows next, h.issued);
      one_active =
          omega (arith, count-replace is_dispatched q f rows w found (h.unique_id id), active);
      dated = ground (arith, count-replace is_undated q f rows w found (h.unique_id id), h.dated);
    }

pub insert-IsTrainingTable :
    (rows : List Training) (next : ℕ) (new : Training)
    → new.id ≡ next
    → is_dispatched new ≡ false
    → is_undated new ≡ false
    → IsTrainingTable rows next
    → IsTrainingTable (new ∷ rows) (next + 1)
unfolding count has_training_id unissued
insert-IsTrainingTable rows next new own idle undated h = record {
  unique_id = λ i. elim (Bool-cases (new.id == i)) [
    | inl e ↦
        ground
          (arith, count-le (has_training_id i) (unissued next) (λ x t. ground arith) rows, h.issued)
    | inr e ↦ ground (arith, h.unique_id i)
  ];
  issued =
      ground (
        arith,
        count-le (unissued (next + 1)) (unissued next) (λ x t. ground arith) rows,
        h.issued,
      );
  one_active = ground (arith, h.one_active);
  dated = ground (arith, h.dated);
}

pub keep-IsTrainingTable :
    (q : Training → Bool) (rows : List Training) (next : ℕ)
    → IsTrainingTable rows next
    → IsTrainingTable (keep q rows) next
keep-IsTrainingTable q rows next h = record {
  unique_id = λ i. omega (arith, count-keep_le (has_training_id i) q rows, h.unique_id i);
  issued = omega (arith, count-keep_le (unissued next) q rows, h.issued);
  one_active = omega (arith, count-keep_le is_dispatched q rows, h.one_active);
  dated = omega (arith, count-keep_le is_undated q rows, h.dated);
}
