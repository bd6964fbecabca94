-- ===== src/Domain/User.antt =====
-- internal/domain/user.go: who may use which service. Optional times are those of sql.NullTime.
use personal_cloud_ai_servic.Prelude.{
  ℕ, Bool, true, false, not, ◌||◌, Option, none, some, String, str_eq, ltb, if◌then◌else◌,
}

pub record User : Type 0 where
  pub id : ℕ
  pub username : String
  pub email : Option String
  pub password_hash : String
  pub role : String
  pub disabled : Bool
  pub can_use_comfyui : Bool
  pub can_use_openwebui : Bool
  pub can_use_quick_generation : Bool
  pub can_generate_text_to_image : Bool
  pub can_generate_image_to_image : Bool
  pub can_generate_video : Bool
  pub can_use_advanced_generation_settings : Bool
  pub can_train_image_lora : Bool
  pub can_manage_mining : Bool
  pub pause_mining_for_quick_generation : Bool
  pub queue_priority : Bool
  pub generation_daily_limit : ℕ
  pub generation_total_limit : ℕ
  pub generation_total_used : ℕ
  pub video_generation_daily_limit : ℕ
  pub video_generation_total_limit : ℕ
  pub video_generation_total_used : ℕ
  pub max_video_generation_quality : ℕ
  pub failed_login_count : ℕ
  pub locked_until : Option ℕ
  pub account_expires_at : Option ℕ
  pub created_at : ℕ
  pub last_login_at : Option ℕ

unfoldable pub is_admin : User → Bool
is_admin u = str_eq u.role "admin"

unfoldable pub can_use_quick_generation_type : User → String → Bool
unfolding is_admin
can_use_quick_generation_type u template =
    if is_admin u
    then true
    else if not u.can_use_quick_generation
    then false
    else if str_eq template "text-to-image"
    then u.can_generate_text_to_image
    else if str_eq template "image-to-image"
    then u.can_generate_image_to_image
    else if str_eq template "minimax-h3-video"
    then u.can_generate_video
    else false

unfoldable pub can_access_mining : User → Bool
unfolding is_admin
can_access_mining u = is_admin u || u.can_manage_mining

abbrev locked : Option ℕ → ℕ → Bool
locked none now = false
locked (some until) now = ltb now until

unfoldable pub is_locked : User → ℕ → Bool
is_locked u now = locked u.locked_until now

unfoldable pub can_use_service : User → String → Bool
unfolding is_admin
can_use_service u service =
    if is_admin u
    then true
    else if str_eq service "quick_generation"
    then u.can_use_quick_generation
    else if str_eq service "comfyui"
    then u.can_use_comfyui
    else if str_eq service "openwebui"
    then u.can_use_openwebui
    else false
