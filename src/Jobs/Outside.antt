-- ===== src/Jobs/Outside.antt =====
-- What the worker asks of the rest of the program and of libraries, and what it does to other
-- tables, files and channels, as a list of effects in their order. The bodies of notifications and
-- log lines are left out.
use Prim.Native.String.{String}
use sigarda_panel.Common.{ℕ, Bool, Option, List}

-- agentclient: what the agent answers.
pub record AgentResult : Type 0 where
  pub nginx_config : String
  pub proxy_pass_url : String
  pub path : String
  pub s3_path : String
  pub s3_upload_error : String
  pub app_status : String
  pub size_bytes : ℕ

-- A call of the agent returns a result, or an error and perhaps a result, or panics.
pub data Outcome : Type 0 where
  returned : Option AgentResult → Outcome
  failed : Option AgentResult → String → Outcome
  panicked : String → Outcome

pub record Server : Type 0 where
  pub id : ℕ
  pub agent_token : String
  pub agent_url : String

pub record Site : Type 0 where
  pub id : ℕ
  pub server_id : ℕ
  pub domain : String
  pub owner_id : Option ℕ

pub record ExpiredBackup : Type 0 where
  pub s3_path : String
  pub storage_path : String

pub data AgentError : Type 0 where
  server_not_found no_agent_token no_agent_url : ℕ → AgentError

-- The parameters: encoding/json on payloads (`backup_id` is 0 where the payload has none, and
-- `failover_payload` is `none` unless the payload is an object with the key s3_config), the secrets
-- package, the agent, other tables, the file system.
pub record Outside : Type 0 where
  pub backup_id : String → ℕ
  pub failover_payload : String → Option String
  pub marshal_result : Option AgentResult → String
  pub encrypt_payload : String → Option String
  pub decrypt_payload : String → Option String
  pub error_text : AgentError → String
  pub panic_text : String → String
  pub get_server : ℕ → Option Server
  pub execute : String → String → Outcome
  pub get_site : ℕ → Option Site
  pub owner_email : ℕ → Option String
  pub ssl_payload : ℕ → String → String → String
  pub saves_s3_path : ℕ → String → Bool
  pub remove_file : String → Bool
  pub starts_with_s3 : String → Bool
  pub delete_oldest : ℕ → ℕ → Option (List ExpiredBackup)
  pub has_provider : ℕ → Bool
  pub jitter : ℕ

pub data Effect : Type 0 where
  update_progress : ℕ → String → Effect
  update_backup_status : ℕ → String → Effect
  mark_backup_failed : ℕ → String → Effect
  mark_backup_completed : ℕ → ℕ → String → Effect
  update_s3_path : ℕ → String → Effect
  clear_storage_path : ℕ → Effect
  remove_local : String → Effect
  delete_s3_object : String → Effect
  update_site_status : ℕ → String → Effect
  update_conf_file : ℕ → String → Effect
  update_proxy_pass_url : ℕ → String → Effect
  update_ssl : ℕ → String → ℕ → Effect
  update_app_status : ℕ → String → Effect
  notify : String → String → Effect
  dispatch : String → String → Effect
