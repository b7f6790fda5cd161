-- ===== src/Jobs/Success.antt =====
-- What the worker does after a job succeeded: the switch at the end of runClaimedJob.
use Prim.Native.String.{String}
use text.Mathlib.Text.{◌==◌ as str_eq}
use mathlib.Core.Bool.{not}
use sigarda_panel.Common.{
  ℕ, ◌+◌, ◌*◌, ◌/◌, Bool, ◌&&◌, ◌||◌, List, [], ◌∷◌, ◌++◌, Option, none, some, if◌then◌else◌, ltb,
}
use sigarda_panel.Jobs.Model.{
  Job, status_queued, type_site_create, type_ssl_issue, type_backup_restore, type_app_start,
  type_app_stop, type_app_restart,
}
use sigarda_panel.Jobs.Table.{Jobs, create, is_backup_type}
use sigarda_panel.Jobs.Outside.{
  AgentResult, Site, ExpiredBackup, Outside, Effect, update_progress, update_backup_status,
  mark_backup_completed, update_s3_path, clear_storage_path, remove_local, delete_s3_object,
  update_site_status, update_conf_file, update_proxy_pass_url, update_ssl, update_app_status,
  notify,
}

abbrev seconds : ℕ → ℕ
seconds ns = ns / 1_000_000_000

abbrev unless_empty : String → (String → List Effect) → List Effect
unless_empty s es = if str_eq s "" then [] else es s

abbrev if_result : Option AgentResult → (AgentResult → List Effect) → List Effect
if_result none es = []
if_result (some r) es = es r

email_or : String → Option String → String
email_or d none = d
email_or d (some e) = if str_eq e "" then d else e

-- The address for the certificate: the owner's, or the panel's.
site_email : Outside → Site → String
unfolding email_or
site_email o site = elim site.owner_id [
  | none ↦ "admin@sigarda.com"
  | some owner ↦ email_or "admin@sigarda.com" (o.owner_email owner)
]

ssl_job : Outside → ℕ → Site → Job
unfolding site_email
ssl_job o site_id site = record {
  id = 0;
  server_id = some site.server_id;
  site_id = some site.id;
  type = type_ssl_issue;
  status = status_queued;
  payload = o.ssl_payload site_id site.domain (site_email o site);
  result = "";
  error = none;
  description = "";
  attempts = 0;
  max_attempts = 0;
  created_at = 0;
  updated_at = 0;
  started_at = none;
  completed_at = none;
  next_retry_at = none;
}

unfoldable pub enqueue_ssl : Outside → ℕ → ℕ → Option Site → Jobs → Jobs
unfolding ssl_job
enqueue_ssl o now site_id none t = t
enqueue_ssl o now site_id (some site) t =
    if str_eq site.domain ""
    then t
    else (create o.encrypt_payload (seconds now) (ssl_job o site_id site) t).0

unfoldable pub site_created : Outside → ℕ → ℕ → Option AgentResult → Jobs → Jobs × List Effect
unfolding enqueue_ssl
site_created o now site_id result t = (
  enqueue_ssl o now site_id (o.get_site site_id) t,
  update_site_status site_id "active"
        ∷ if_result result (λ r. unless_empty r.nginx_config (λ c. update_conf_file site_id c ∷ []))
      ++ if_result result
          (λ r. unless_empty r.proxy_pass_url (λ u. update_proxy_pass_url site_id u ∷ [])),
)

-- After an upload the local file goes, if it is one, and so does its path in the table.
drop_local : Outside → ℕ → String → List Effect
drop_local o id local_path =
    if not (str_eq local_path "") && not (o.starts_with_s3 local_path)
    then (if o.remove_file local_path
        then remove_local local_path ∷ clear_storage_path id ∷ []
        else remove_local local_path ∷ [])
    else []

store_s3 : Outside → ℕ → String → String → List Effect
unfolding drop_local
store_s3 o id s3_path local_path =
    if str_eq s3_path ""
    then []
    else update_s3_path id s3_path
      ∷ (if o.saves_s3_path id s3_path then drop_local o id local_path else [])

-- The record of the backup.
unfoldable pub backup_recorded : Outside → ℕ → Option AgentResult → List Effect
unfolding store_s3
backup_recorded o id none = mark_backup_completed id 0 "" ∷ notify "info" "Backup Completed" ∷ []
backup_recorded o id (some r) =
    unless_empty r.s3_upload_error
      (λ e. update_progress id "provider upload failed, local backup saved" ∷ [])
    ++ mark_backup_completed id r.size_bytes r.path ∷ store_s3 o id r.s3_path r.path
    ++ notify "info" "Backup Completed" ∷ []

discard : Outside → Bool → List ExpiredBackup → List Effect
discard o provider [] = []
discard o provider (b ∷ bs) =
    unless_empty b.s3_path (λ p. if provider then delete_s3_object p ∷ [] else [])
    ++ unless_empty b.storage_path (λ p. if o.starts_with_s3 p then [] else remove_local p ∷ [])
    ++ discard o provider bs

-- Only the latest seven backups of a site and type are kept.
unfoldable pub retain : Outside → Option ℕ → Option AgentResult → List Effect
unfolding discard
retain o none result = []
retain o (some site_id) none = []
retain o (some site_id) (some r) =
    if str_eq r.s3_upload_error "" || not (str_eq r.s3_path "")
    then elim (o.delete_oldest site_id 7) [
      | none ↦ []
      | some deleted ↦ discard o (o.has_provider site_id) deleted
    ]
    else []

backup_succeeded : Outside → Job → Option AgentResult → List Effect
backup_succeeded o job result =
    (if ltb 0 (o.backup_id job.payload)
      then backup_recorded o (o.backup_id job.payload) result
      else [])
    ++ retain o job.site_id result

restored : Outside → Job → List Effect
restored o job =
    if ltb 0 (o.backup_id job.payload)
    then update_backup_status (o.backup_id job.payload) "completed" ∷ []
    else []

app_started : ℕ → Option AgentResult → List Effect
app_started site_id none = update_app_status site_id "running" ∷ []
app_started site_id (some r) =
    update_app_status site_id (if str_eq r.app_status "" then "running" else r.app_status) ∷ []

abbrev for_site : Option ℕ → (ℕ → List Effect) → List Effect
for_site none es = []
for_site (some id) es = es id

ninety_days : ℕ
ninety_days = 90 * 24 * 3600

unfoldable pub if_site_created :
    Outside → ℕ → Option ℕ → Option AgentResult → Jobs → Jobs × List Effect
if_site_created o now none result t = (t, [])
if_site_created o now (some id) result t = site_created o now id result t

-- The switch over the type of the job.
unfoldable pub succeeded : Outside → ℕ → Job → Option AgentResult → Jobs → Jobs × List Effect
unfolding backup_succeeded restored app_started ninety_days
succeeded o now job result t =
    if str_eq job.type type_site_create
    then if_site_created o now job.site_id result t
    else if str_eq job.type type_ssl_issue
    then (t, for_site job.site_id (λ id. update_ssl id "active" (seconds now + ninety_days) ∷ []))
    else if is_backup_type job.type
    then (t, backup_succeeded o job result)
    else if str_eq job.type type_backup_restore
    then (t, restored o job)
    else if str_eq job.type type_app_start || str_eq job.type type_app_restart
    then (t, for_site job.site_id (λ id. app_started id result))
    else if str_eq job.type type_app_stop
    then (t, for_site job.site_id (λ id. update_app_status id "stopped" ∷ []))
    else (t, [])
