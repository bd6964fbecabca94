-- ===== src/Domain/Miner.antt =====
-- internal/domain: a miner that the gateway can start (the table miners); the icon is its bytes.
use personal_cloud_ai_servic.Prelude.{ℕ, Bool, Option, String, List}

pub record Miner : Type 0 where
  pub id : ℕ
  pub name : String
  pub script_path : String
  pub process_name : String
  pub icon_mime : String
  pub icon_data : List ℕ
  pub enabled : Bool
  pub is_default : Bool
  pub created_by_user_id : Option ℕ
  pub created_at : ℕ
  pub updated_at : ℕ
