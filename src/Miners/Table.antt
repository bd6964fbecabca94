-- ===== src/Miners/Table.antt =====
-- The invariant of the miners and how their default moves (internal/store/mining.go).
use personal_cloud_ai_servic.Db.Keeps.{After}
use personal_cloud_ai_servic.Miners.{
  has_miner_id, is_default_miner, is_enabled_miner, set_default, with_default, other_default,
  set_default_miner,
}
use personal_cloud_ai_servic.Db.{Db, Clock}
use personal_cloud_ai_servic.Prelude.{
  ℕ, count, any, Bool, ◌≤◌, update, ◌&&◌, leb, ◌≡◌, List, not, arith, true, count-update_same,
  false, bit, ◌∷◌, ◌+◌, ◌<◌, ap, Bool-cases, [], ◌==◌, refl, inl, count-le, inr, ◌∙◌,
}
use personal_cloud_ai_servic.Domain.Miner.{Miner}

unfoldable pub is_dead_default : Miner → Bool
is_dead_default m = m.is_default && not m.enabled

unfoldable pub unissued : ℕ → Miner → Bool
unissued next m = leb next m.id

pub record HasMinerTable (db : Db) : Type 0 where
  pub unique_id : (i : ℕ) → count (has_miner_id i) db.miners ≤ 1
  pub issued : count (unissued db.next_miner_id) db.miners ≤ 0
  pub one_default : count is_default_miner db.miners ≡ 1
  pub alive : count is_dead_default db.miners ≤ 0

-- A rewriting of miners that keeps their ids, with what it does to the default.
pub rewritten-HasMinerTable :
    (q : Miner → Bool) (f : Miner → Miner) (db : Db)
    → ((m : Miner) → (f m).id ≡ m.id)
    → count is_default_miner (update q f db.miners) ≡ 1
    → count is_dead_default (update q f db.miners) ≤ 0
    → HasMinerTable db
    → HasMinerTable (record db { miners = update q f db.miners })
unfolding has_miner_id unissued
rewritten-HasMinerTable q f db same one alive h = record {
  unique_id = λ t. omega (
    arith,
    count-update_same (has_miner_id t) q f db.miners (λ m _. ap (λ x. x == t) (same m)),
    h.unique_id t,
  );
  issued = omega (
    arith,
    count-update_same (unissued db.next_miner_id) q f db.miners
        (λ m _. ap (λ x. leb db.next_miner_id x) (same m)),
    h.issued,
  );
  one_default = one;
  alive = alive;
}

pub cleared :
    (c : Clock) (ms : List Miner)
    → count is_default_miner (update is_default_miner (set_default c false) ms) ≡ 0
unfolding count update is_default_miner set_default
cleared c [] = refl
cleared c (m ∷ ms) = ground (arith, cleared c ms)

-- A new miner comes with an id of its own; it is no disabled default.
pub inserted-HasMinerTable :
    (m : Miner) (ms : List Miner) (db : Db)
    → m.id ≡ db.next_miner_id
    → is_dead_default m ≡ false
    → bit m.is_default + count is_default_miner ms ≡ 1
    → count is_dead_default ms ≤ 0
    → ((i : ℕ) → count (has_miner_id i) ms ≤ 1)
    → count (unissued db.next_miner_id) ms ≤ 0
    → HasMinerTable (record db { miners = m ∷ ms; next_miner_id = db.next_miner_id + 1 })
unfolding count has_miner_id unissued is_default_miner is_dead_default
inserted-HasMinerTable m ms db own on one alive unique fresh = record {
  unique_id = λ i. elim (Bool-cases (m.id == i)) [
    | inl e ↦ ground (
      arith,
      own,
      fresh,
      count-le (has_miner_id i) (unissued db.next_miner_id) (λ x t. ground arith) ms,
    )
    | inr e ↦ ground (arith, unique i)
  ];
  issued = ground (
    arith,
    own,
    fresh,
    count-le (unissued (db.next_miner_id + 1)) (unissued db.next_miner_id) (λ x t. ground arith) ms,
  );
  one_default = omega (arith, one);
  alive = ground (arith, on, alive);
}

defaults_by_id :
    (c : Clock) (id : ℕ) (ms : List Miner)
    → count is_default_miner (with_default c id ms) ≡ count (has_miner_id id) ms
unfolding count update with_default other_default is_default_miner set_default has_miner_id
defaults_by_id c id [] = refl
defaults_by_id c id (m ∷ ms) = ground (arith, defaults_by_id c id ms)

dead_by_id :
    (c : Clock) (id : ℕ) (ms : List Miner)
    → count is_dead_default (with_default c id ms)
      ≡ count (λ m. has_miner_id id m && not m.enabled) ms
unfolding count update with_default other_default is_dead_default set_default has_miner_id
dead_by_id c id [] = refl
dead_by_id c id (m ∷ ms) = ground (arith, dead_by_id c id ms)

split_id :
    (id : ℕ) (ms : List Miner)
    → count (λ m. has_miner_id id m && not m.enabled) ms + count (is_enabled_miner id) ms
      ≡ count (has_miner_id id) ms
unfolding count is_enabled_miner
split_id id [] = refl
split_id id (m ∷ ms) = ground (arith, split_id id ms)

any-some : (p : Miner → Bool) (ms : List Miner) → any p ms ≡ true → 0 < count p ms
unfolding any count
any-some p [] h = ground arith
any-some p (m ∷ ms) h = ground (arith, any-some p ms)

pub set_default-id : (c : Clock) (b : Bool) (m : Miner) → (set_default c b m).id ≡ m.id
unfolding set_default
set_default-id c b m = refl

-- Both updates of the default see no id.
with_default-count :
    (c : Clock) (id : ℕ) (p : Miner → Bool) (ms : List Miner)
    → ((b : Bool) (m : Miner) → p (set_default c b m) ≡ p m)
    → count p (with_default c id ms) ≡ count p ms
unfolding with_default
with_default-count c id p ms same =
    count-update_same p (has_miner_id id) (set_default c true)
      (update (other_default id) (set_default c false) ms) (λ m _. same true m)
    ∙ count-update_same p (other_default id) (set_default c false) ms (λ m _. same false m)

default-HasMinerTable :
    (c : Clock) (id : ℕ) (db : Db)
    → any (is_enabled_miner id) db.miners ≡ true
    → HasMinerTable db
    → HasMinerTable (record db { miners = with_default c id db.miners })
unfolding has_miner_id unissued
default-HasMinerTable c id db there h =
    let some_left = any-some (is_enabled_miner id) db.miners there in
    let parts = split_id id db.miners in
    record {
      unique_id = λ t. omega (
        arith,
        with_default-count c id (has_miner_id t) db.miners
            (λ b m. ap (λ x. x == t) (set_default-id c b m)),
        h.unique_id t,
      );
      issued = omega (
        arith,
        with_default-count c id (unissued db.next_miner_id) db.miners
            (λ b m. ap (λ x. leb db.next_miner_id x) (set_default-id c b m)),
        h.issued,
      );
      one_default = omega (arith, defaults_by_id c id db.miners, some_left, parts, h.unique_id id);
      alive = omega (arith, dead_by_id c id db.miners, some_left, parts, h.unique_id id);
    }

pub set_default-After :
    (c : Clock) (id : ℕ) (db : Db)
    → HasMinerTable db
    → After HasMinerTable (set_default_miner c id db)
unfolding set_default_miner
set_default-After c id db h = elim (Bool-cases (any (is_enabled_miner id) db.miners)) [
  | inl there ↦ rw there (default-HasMinerTable c id db there h)
  | inr gone ↦ rw gone h
]
