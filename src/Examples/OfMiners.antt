-- ===== src/Examples/OfMiners.antt =====
-- The theorem on mining.go at a concrete table.
use personal_cloud_ai_servic.Miners.Default.{
  MinerCall, run_miners, adds, enables, default_for_good, removes, adds_dead_default,
}
use personal_cloud_ai_servic.Miners.Table.{unissued, is_dead_default, HasMinerTable}
use personal_cloud_ai_servic.Examples.{owner, noon, later}
use personal_cloud_ai_servic.Miners.{
  CreateMinerParams, has_miner_id, default_miner, is_default_miner, default_enabled,
}
use personal_cloud_ai_servic.Prelude.{
  count, List, [], true, some, ◌∷◌, ◌≡◌, arith, false, refl, any,
}
use personal_cloud_ai_servic.Db.{Db, empty_db, Clock, ok}
use personal_cloud_ai_servic.Domain.Miner.{Miner}

abbrev first_miner : Miner
first_miner = record {
  id = 1;
  name = "Kaspa";
  script_path = "/opt/kaspa.sh";
  process_name = "kaspad";
  icon_mime = "";
  icon_data = [];
  enabled = true;
  is_default = true;
  created_by_user_id = some 7;
  created_at = 0;
  updated_at = 0;
}

abbrev miner_db : Db
miner_db = record empty_db { users = owner ∷ []; miners = first_miner ∷ []; next_miner_id = 2 }

one_miner : HasMinerTable miner_db
unfolding count has_miner_id unissued is_default_miner is_dead_default
one_miner = record {
  unique_id = λ i. ground arith;
  issued = omega arith;
  one_default = refl;
  alive = omega arith;
}

abbrev second_miner : CreateMinerParams
second_miner = record {
  name = "Ergo";
  script_path = "/opt/ergo.sh";
  process_name = "ergominer";
  icon_mime = "";
  icon_data = [];
  enabled = true;
  is_default = true;
  created_by_user_id = 7;
}

abbrev calls : List (Clock × MinerCall)
calls = (noon, adds second_miner) ∷ (later, enables 1 false) ∷ (later, removes 1) ∷ []

default_for_good_example :
    (m : Miner) × (default_miner (run_miners miner_db calls) ≡ ok (m, run_miners miner_db calls))
    × (default_enabled m ≡ true)
unfolding any adds_dead_default
default_for_good_example = default_for_good miner_db calls one_miner refl
