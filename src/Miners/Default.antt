-- ===== src/Miners/Default.antt =====
-- There is always one default miner, and it is enabled (internal/store/mining.go), where no miner is
-- created as a disabled default.
use personal_cloud_ai_servic.Miners.Table.{
  HasMinerTable, unissued, is_dead_default, inserted-HasMinerTable, set_default-id,
  rewritten-HasMinerTable, set_default-After, cleared,
}
use personal_cloud_ai_servic.Db.Keeps.{After, after-committed, Ends-bind, Ends-ok}
use personal_cloud_ai_servic.Miners.{
  has_miner_id, is_default_miner, set_default, set_default_miner, new_miner, insert_miner,
  CreateMinerParams, create_miner, set_enabled, enable_found, is_deletable, delete_miner,
  set_miner_enabled, default_enabled, default_miner, clear_defaults, clear_if,
}
use personal_cloud_ai_servic.Db.{Db, Clock, committed, ok}
use personal_cloud_ai_servic.Prelude.{
  ℕ, count, Bool, ◌≤◌, update, ◌&&◌, leb, ◌≡◌, List, not, arith, true, count-update_same, false,
  bit, ◌∷◌, ◌+◌, ap, Bool-cases, [], ◌==◌, refl, inl, count-le, inr, ◌∙◌, keep, Option,
  count-keep_le, find, count-keep_same, find-none, some, count-replace, find_sound, none, any,
}
use personal_cloud_ai_servic.Domain.Miner.{Miner}

insert-After :
    (m : Miner) (db : Db)
    → HasMinerTable (record db { miners = m ∷ db.miners; next_miner_id = db.next_miner_id + 1 })
    → After HasMinerTable (insert_miner m db)
unfolding insert_miner
insert-After m db h = ground (arith, h)

-- The table that a new miner, the default or not, can join.
pub record CanJoin (b : Bool) (db : Db) : Type 0 where
  pub unique_id : (i : ℕ) → count (has_miner_id i) db.miners ≤ 1
  pub issued : count (unissued db.next_miner_id) db.miners ≤ 0
  pub one_default : bit b + count is_default_miner db.miners ≡ 1
  pub alive : count is_dead_default db.miners ≤ 0

new_miner-HasMinerTable :
    (c : Clock) (p : CreateMinerParams) (db : Db)
    → (p.is_default && not p.enabled) ≡ false
    → CanJoin p.is_default db
    → HasMinerTable (record db {
      miners = new_miner c p db.next_miner_id ∷ db.miners;
      next_miner_id = db.next_miner_id + 1;
    })
unfolding new_miner is_dead_default
new_miner-HasMinerTable c p db on h =
    inserted-HasMinerTable (new_miner c p db.next_miner_id) db.miners db refl on h.one_default
      h.alive h.unique_id h.issued

cleared_same :
    (c : Clock) (p : Miner → Bool) (ms : List Miner)
    → ((m : Miner) → p (set_default c false m) ≡ p m)
    → count p (update is_default_miner (set_default c false) ms) ≡ count p ms
cleared_same c p ms same =
    count-update_same p is_default_miner (set_default c false) ms (λ m _. same m)

dead_le_default : (ms : List Miner) → count is_dead_default ms ≤ count is_default_miner ms
unfolding is_dead_default is_default_miner
dead_le_default ms = count-le is_dead_default is_default_miner (λ m e. ground arith) ms

clear_if-CanJoin :
    (c : Clock) (b : Bool) (db : Db) → HasMinerTable db → After (CanJoin b) (clear_if c b db)
unfolding clear_defaults has_miner_id unissued
clear_if-CanJoin c false db h = record {
  unique_id = h.unique_id;
  issued = h.issued;
  one_default = ground (arith, h.one_default);
  alive = h.alive;
}
clear_if-CanJoin c true db h =
    let ms = update is_default_miner (set_default c false) db.miners in
    record {
      unique_id = λ i. omega (
        arith,
        cleared_same c (has_miner_id i) db.miners
            (λ m. ap (λ x. x == i) (set_default-id c false m)),
        h.unique_id i,
      );
      issued = omega (
        arith,
        cleared_same c (unissued db.next_miner_id) db.miners
            (λ m. ap (λ x. leb db.next_miner_id x) (set_default-id c false m)),
        h.issued,
      );
      one_default = omega (arith, cleared c db.miners);
      alive = omega (arith, dead_le_default ms, cleared c db.miners);
    }

create-After :
    (c : Clock) (p : CreateMinerParams) (db : Db)
    → (p.is_default && not p.enabled) ≡ false
    → HasMinerTable db
    → After HasMinerTable (create_miner c p db)
unfolding create_miner
create-After c p db on h =
    Ends-bind (λ _ db'. HasMinerTable db')
      (λ _ db. insert_miner (new_miner c p db.next_miner_id) db) (clear_if c p.is_default) db
      (λ _ db' e. insert-After (new_miner c p db'.next_miner_id) db' (
        new_miner-HasMinerTable c p db' on (
          Ends-ok (λ _ db'. CanJoin p.is_default db') (clear_if c p.is_default db)
            (clear_if-CanJoin c p.is_default db h) e)))

set_enabled-id : (c : Clock) (b : Bool) (m : Miner) → (set_enabled c b m).id ≡ m.id
unfolding set_enabled
set_enabled-id c b m = refl

set_enabled-default :
    (c : Clock) (b : Bool) (m : Miner) → is_default_miner (set_enabled c b m) ≡ is_default_miner m
unfolding set_enabled is_default_miner
set_enabled-default c b m = refl

set_enabled-alive :
    (c : Clock) (b : Bool) (m : Miner)
    → (not b && m.is_default) ≡ false
    → is_dead_default (set_enabled c b m) ≡ false
unfolding set_enabled is_dead_default
set_enabled-alive c b m e = ground arith

enable-After :
    (c : Clock) (id : ℕ) (b : Bool) (o : Option Miner) (db : Db)
    → find (has_miner_id id) db.miners ≡ o
    → HasMinerTable db
    → After HasMinerTable (enable_found c id b o db)
unfolding enable_found
enable-After c id b none db found h = h
enable-After c id b (some m) db found h = elim (Bool-cases (not b && m.is_default)) [
  | inl refused ↦ rw refused tt
  | inr fine ↦ rw fine (
      rewritten-HasMinerTable (has_miner_id id) (set_enabled c b) db (set_enabled-id c b)
        (count-update_same is_default_miner (has_miner_id id) (set_enabled c b) db.miners
            (λ k _. set_enabled-default c b k)
          ∙ h.one_default)
        (ground (
          arith,
          count-replace is_dead_default (has_miner_id id) (set_enabled c b) db.miners m found
              (h.unique_id id),
          set_enabled-alive c b m fine,
          h.alive,
        ))
        h)
]

kept_default : (id : ℕ) (m : Miner) → is_default_miner m ≡ true → not (is_deletable id m) ≡ true
unfolding is_default_miner is_deletable
kept_default id m e = ground arith

kept-HasMinerTable :
    (q : Miner → Bool) (db : Db)
    → ((m : Miner) → is_default_miner m ≡ true → q m ≡ true)
    → HasMinerTable db
    → HasMinerTable (record db { miners = keep q db.miners })
kept-HasMinerTable q db keeps h = record {
  unique_id = λ t. omega (arith, count-keep_le (has_miner_id t) q db.miners, h.unique_id t);
  issued = omega (arith, count-keep_le (unissued db.next_miner_id) q db.miners, h.issued);
  one_default = count-keep_same is_default_miner q db.miners keeps ∙ h.one_default;
  alive = omega (arith, count-keep_le is_dead_default q db.miners, h.alive);
}

delete-After : (id : ℕ) (db : Db) → HasMinerTable db → After HasMinerTable (delete_miner id db)
unfolding delete_miner
delete-After id db h =
    let others : Miner → Bool = λ m. not (is_deletable id m) in
    ground (arith, kept-HasMinerTable others db (kept_default id) h)

pub data MinerCall : Type 0 where
  adds : CreateMinerParams → MinerCall
  makes_default : ℕ → MinerCall
  enables : ℕ → Bool → MinerCall
  removes : ℕ → MinerCall

unfoldable pub miner_step : Db → Clock × MinerCall → Db
unfolding create_miner set_default_miner set_miner_enabled delete_miner
miner_step db (c, adds p) = committed db (create_miner c p db)
miner_step db (c, makes_default id) = committed db (set_default_miner c id db)
miner_step db (c, enables id enabled) = committed db (set_miner_enabled c id enabled db)
miner_step db (c, removes id) = committed db (delete_miner id db)

unfoldable pub run_miners : Db → List (Clock × MinerCall) → Db
unfolding miner_step
run_miners db [] = db
run_miners db (call ∷ calls) = run_miners (miner_step db call) calls

-- A CreateMiner with Default and without Enabled; the gateway's handler makes none
-- (internal/gateway/mining.go).
unfoldable pub adds_dead_default : Clock × MinerCall → Bool
adds_dead_default (c, adds p) = p.is_default && not p.enabled
adds_dead_default (c, makes_default id) = false
adds_dead_default (c, enables id enabled) = false
adds_dead_default (c, removes id) = false

miner_step-HasMinerTable :
    (db : Db) (call : Clock × MinerCall)
    → adds_dead_default call ≡ false
    → HasMinerTable db
    → HasMinerTable (miner_step db call)
unfolding miner_step set_miner_enabled adds_dead_default
miner_step-HasMinerTable db (c, adds p) fine h =
    after-committed HasMinerTable db (create_miner c p db) h (create-After c p db fine h)
miner_step-HasMinerTable db (c, makes_default id) fine h =
    after-committed HasMinerTable db (set_default_miner c id db) h (set_default-After c id db h)
miner_step-HasMinerTable db (c, enables id b) fine h =
    after-committed HasMinerTable db (enable_found c id b (find (has_miner_id id) db.miners) db) h
      (enable-After c id b (find (has_miner_id id) db.miners) db refl h)
miner_step-HasMinerTable db (c, removes id) fine h =
    after-committed HasMinerTable db (delete_miner id db) h (delete-After id db h)

run_miners-HasMinerTable :
    (db : Db) (calls : List (Clock × MinerCall))
    → any adds_dead_default calls ≡ false
    → HasMinerTable db
    → HasMinerTable (run_miners db calls)
unfolding run_miners any
run_miners-HasMinerTable db [] fine h = h
run_miners-HasMinerTable db (call ∷ calls) fine h =
    run_miners-HasMinerTable (miner_step db call) calls (ground arith)
      (miner_step-HasMinerTable db call (ground arith) h)

default_parts :
    (ms : List Miner)
    → count is_dead_default ms + count default_enabled ms ≡ count is_default_miner ms
unfolding count is_dead_default default_enabled is_default_miner
default_parts [] = refl
default_parts (m ∷ ms) = ground (arith, default_parts ms)

live_default :
    (db : Db) (o : Option Miner)
    → HasMinerTable db
    → find default_enabled db.miners ≡ o
    → (m : Miner) × (default_miner db ≡ ok (m, db)) × (default_enabled m ≡ true)
unfolding default_miner
live_default db none h found = absurd (
    ground (
      arith,
      h.one_default,
      h.alive,
      default_parts db.miners,
      find-none default_enabled db.miners found,
    ))
live_default db (some m) h found = (m, rw found refl, find_sound default_enabled db.miners found)

-- From a table of unique issued ids with one default miner, which is enabled, DefaultMiner succeeds
-- after any sequence of calls on miners in which no CreateMiner asks for a disabled default, and
-- answers with an enabled default miner.
pub default_for_good :
    (db : Db) (calls : List (Clock × MinerCall))
    → HasMinerTable db
    → any adds_dead_default calls ≡ false
    → (m : Miner) × (default_miner (run_miners db calls) ≡ ok (m, run_miners db calls))
      × (default_enabled m ≡ true)
default_for_good db calls h fine =
    live_default (run_miners db calls) (find default_enabled (run_miners db calls).miners)
      (run_miners-HasMinerTable db calls fine h) refl
