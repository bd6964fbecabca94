-- ===== src/Domain/Invite.antt =====
-- The columns of the tables invites and invite_uses (internal/database/migrations.go).
use personal_cloud_ai_servic.Prelude.{ℕ, Bool, Option, String}

pub record Invite : Type 0 where
  pub id : ℕ
  pub token_hash : String
  pub created_by_user_id : Option ℕ
  pub max_uses : ℕ
  pub used_count : ℕ
  pub expires_at : ℕ
  pub revoked : Bool
  pub grant_comfyui : Bool
  pub grant_openwebui : Bool
  pub grant_quick_generation : Bool
  pub grant_text_to_image : Bool
  pub grant_image_to_image : Bool
  pub grant_video : Bool
  pub grant_advanced_generation_settings : Bool
  pub grant_train_image_lora : Bool
  pub pause_mining_for_quick_generation : Bool
  pub queue_priority : Bool
  pub generation_daily_limit : ℕ
  pub generation_total_limit : ℕ
  pub video_generation_daily_limit : ℕ
  pub video_generation_total_limit : ℕ
  pub max_video_generation_quality : ℕ
  pub account_lifetime_seconds : ℕ
  pub created_at : ℕ

pub record InviteUse : Type 0 where
  pub invite_id : ℕ
  pub user_id : ℕ
  pub used_at : ℕ
  pub ip : String
