-- ===== src/Miners.antt =====
-- internal/store/mining.go: the miners that the gateway starts while the GPU is free, one of them
-- the default. Statements whose row breaks a CHECK or a unique index fail.
pub mod Table
pub mod Default
use personal_cloud_ai_servic.Jobs.{owned_by}
use personal_cloud_ai_servic.Db.{
  Clock, Tx, row_or, ok, ◌>>◌, no_rows, pure, err, default_miner_required, constraint,
}
use personal_cloud_ai_servic.Domain.Miner.{Miner}
use personal_cloud_ai_servic.Prelude.{
  ℕ, find, String, rune_count, any, update, keep, Bool, List, some, ◌==◌, ◌&&◌, leb, if◌then◌else◌,
  true, Option, length, not, false, ◌||◌, str_eq, none, ◌∷◌, ◌+◌,
}

unfoldable pub has_miner_id : ℕ → Miner → Bool
has_miner_id id m = m.id == id

unfoldable pub default_enabled : Miner → Bool
default_enabled m = m.is_default && m.enabled

unfoldable pub default_miner : Tx Miner
unfolding find default_enabled
default_miner db = row_or no_rows (find default_enabled db.miners) db

unfoldable pub miner_by_id : ℕ → Tx Miner
unfolding find has_miner_id
miner_by_id id db = row_or no_rows (find (has_miner_id id) db.miners) db

pub record CreateMinerParams : Type 0 where
  pub name : String
  pub script_path : String
  pub process_name : String
  pub icon_mime : String
  pub icon_data : List ℕ
  pub enabled : Bool
  pub is_default : Bool
  pub created_by_user_id : ℕ

unfoldable pub new_miner : Clock → CreateMinerParams → ℕ → Miner
new_miner c p id = record {
  id = id;
  name = p.name;
  script_path = p.script_path;
  process_name = p.process_name;
  icon_mime = p.icon_mime;
  icon_data = p.icon_data;
  enabled = p.enabled;
  is_default = p.is_default;
  created_by_user_id = some p.created_by_user_id;
  created_at = c.now;
  updated_at = c.now;
}

unfoldable pub set_default : Clock → Bool → Miner → Miner
set_default c b m = record m { is_default = b; updated_at = c.now }

unfoldable pub miner_checks : Miner → Bool
unfolding rune_count
miner_checks m =
    leb 1 (rune_count m.name)
    && leb (rune_count m.name) 80
    && leb 1 (rune_count m.script_path)
    && leb (rune_count m.script_path) 1024
    && leb 5 (rune_count m.process_name)
    && leb (rune_count m.process_name) 128
    && leb (length m.icon_data) 262144

unfoldable pub is_default_miner : Miner → Bool
is_default_miner m = m.is_default

unfoldable pub insert_miner : Miner → Tx ℕ
unfolding any miner_checks is_default_miner
insert_miner m db =
    if not (miner_checks m)
      || any (λ n. str_eq n.script_path m.script_path) db.miners
      || (m.is_default && any is_default_miner db.miners)
      || not (any (λ u. owned_by m.created_by_user_id u.id) db.users)
    then err constraint
    else ok (m.id, record db { miners = m ∷ db.miners; next_miner_id = db.next_miner_id + 1 })

-- UPDATE miners SET is_default=false WHERE is_default.
unfoldable pub clear_defaults : Clock → Tx (Unit {0})
unfolding update is_default_miner set_default
clear_defaults c db =
    ok (tt, record db { miners = update is_default_miner (set_default c false) db.miners })

abbrev pub clear_if : Clock → Bool → Tx (Unit {0})
clear_if c true = clear_defaults c
clear_if c false = pure tt

unfoldable pub create_miner : Clock → CreateMinerParams → Tx ℕ
unfolding clear_defaults new_miner insert_miner
create_miner c p = do
  clear_if c p.is_default
  λ db. insert_miner (new_miner c p db.next_miner_id) db

unfoldable pub is_enabled_miner : ℕ → Miner → Bool
unfolding has_miner_id
is_enabled_miner id m = has_miner_id id m && m.enabled

unfoldable pub other_default : ℕ → Miner → Bool
unfolding has_miner_id
other_default id m = m.is_default && not (has_miner_id id m)

-- The two UPDATEs of SetDefaultMiner.
unfoldable pub with_default : Clock → ℕ → List Miner → List Miner
unfolding update other_default has_miner_id set_default
with_default c id miners =
    update (has_miner_id id) (set_default c true)
      (update (other_default id) (set_default c false) miners)

unfoldable pub set_default_miner : Clock → ℕ → Tx Bool
unfolding any is_enabled_miner with_default has_miner_id
set_default_miner c id db =
    if any (is_enabled_miner id) db.miners
    then ok (any (has_miner_id id) db.miners, record db { miners = with_default c id db.miners })
    else ok (false, db)

unfoldable pub set_enabled : Clock → Bool → Miner → Miner
set_enabled c b m = record m { enabled = b; updated_at = c.now }

unfoldable pub enable_found : Clock → ℕ → Bool → Option Miner → Tx Bool
unfolding update any has_miner_id set_enabled
enable_found c id enabled none db = ok (false, db)
enable_found c id enabled (some m) db =
    if not enabled && m.is_default
    then err default_miner_required
    else ok (
      any (has_miner_id id) db.miners,
      record db { miners = update (has_miner_id id) (set_enabled c enabled) db.miners },
    )

unfoldable pub set_miner_enabled : Clock → ℕ → Bool → Tx Bool
unfolding find has_miner_id enable_found
set_miner_enabled c id enabled db = enable_found c id enabled (find (has_miner_id id) db.miners) db

unfoldable pub is_deletable : ℕ → Miner → Bool
unfolding has_miner_id
is_deletable id m = has_miner_id id m && not m.is_default

-- A miner with a lease can not go (ON DELETE RESTRICT).
unfoldable pub delete_miner : ℕ → Tx Bool
unfolding keep any is_deletable
delete_miner id db =
    if any (is_deletable id) db.miners && any (λ l. l.miner_id == id) db.mining_leases
    then err constraint
    else ok (
      any (is_deletable id) db.miners,
      record db { miners = keep (λ m. not (is_deletable id m)) db.miners },
    )
