-- ===== src/Auth/Features.antt =====
-- internal/features/features.go, and the gates of internal/apihttp/middleware.go: RequireFeature,
-- RequireTier and their own copies of the tiers.
use Prim.Native.String.{String}
use text.Mathlib.Text.{◌==◌ as str_eq}
use sigarda_panel.Common.{
  ℕ, Bool, false, List, [], ◌∷◌, Option, none, some, if◌then◌else◌, ltb, leb, any, map,
}

abbrev pub tier_free : String
tier_free = "free"

abbrev pub tier_basic : String
tier_basic = "basic"

abbrev pub tier_pro : String
tier_pro = "pro"

abbrev pub tier_enterprise : String
tier_enterprise = "enterprise"

abbrev pub tier_max : String
tier_max = "max"

-- A Go map with string keys, whose keys are distinct.
unfoldable pub lookup {ℓ} : {A : Type ℓ} → String → List (String × A) → Option A
lookup key [] = none
lookup key ((k, a) ∷ entries) =
    let rest = lookup key entries in if str_eq k key then some a else rest

abbrev pub tier_levels : List (String × ℕ)
tier_levels =
    (tier_free, 0) ∷ (tier_basic, 1) ∷ (tier_pro, 2) ∷ (tier_enterprise, 2) ∷ (tier_max, 3) ∷ []

abbrev pub feature_tier_map : List (String × String)
feature_tier_map =
    ("single_server", tier_free)
    ∷ ("static_sites", tier_free)
    ∷ ("php", tier_free)
    ∷ ("ssl_certificates", tier_free)
    ∷ ("basic_monitoring", tier_free)
    ∷ ("file_manager", tier_free)
    ∷ ("terminal", tier_free)
    ∷ ("job_history", tier_free)
    ∷ ("ssl", tier_free)
    ∷ ("api_access", tier_free)
    ∷ ("backups", tier_free)
    ∷ ("backup_restore", tier_free)
    ∷ ("cloud_backups", tier_free)
    ∷ ("nodejs", tier_basic)
    ∷ ("python", tier_basic)
    ∷ ("database", tier_basic)
    ∷ ("cron_jobs", tier_basic)
    ∷ ("multi_server", tier_pro)
    ∷ ("advanced_runtimes", tier_pro)
    ∷ ("database_management", tier_pro)
    ∷ ("user_management", tier_pro)
    ∷ ("alerting", tier_pro)
    ∷ ("scheduled_backups", tier_pro)
    ∷ ("agent_management", tier_pro)
    ∷ ("custom_domains", tier_pro)
    ∷ ("docker", tier_pro)
    ∷ ("git_deploy", tier_pro)
    ∷ ("advanced_vhost", tier_pro)
    ∷ ("ssl_manager", tier_pro)
    ∷ ("monitoring", tier_pro)
    ∷ ("service_tokens", tier_pro)
    ∷ ("white_label", tier_enterprise)
    ∷ ("audit_log", tier_enterprise)
    ∷ ("priority_support", tier_enterprise)
    ∷ ("cloudflare", tier_max)
    ∷ []

abbrev pub or_zero : Option ℕ → ℕ
or_zero none = 0
or_zero (some n) = n

-- TierLevel[tier], 0 for an unknown tier
unfoldable pub tier_level : String → ℕ
unfolding lookup
tier_level tier = or_zero (lookup tier tier_levels)

unfoldable pub grants_tier : String → Option String → Bool
unfolding tier_level
grants_tier tier none = false
grants_tier tier (some required) = leb (tier_level required) (tier_level tier)

unfoldable pub has_feature : String → String → Bool
unfolding grants_tier lookup
has_feature tier feature = grants_tier tier (lookup feature feature_tier_map)

abbrev at_least : ℕ → Option ℕ → Bool
at_least n none = false
at_least n (some level) = leb n level

unfoldable pub is_pro : String → Bool
unfolding lookup tier_level
is_pro tier = at_least (tier_level tier_pro) (lookup tier tier_levels)

unfoldable pub is_enterprise : String → Bool
unfolding lookup tier_level
is_enterprise tier = at_least (tier_level tier_enterprise) (lookup tier tier_levels)

unfoldable pub tier_features : String → List (String × Bool)
unfolding has_feature
tier_features tier = map (λ entry. (entry.0, has_feature tier entry.0)) feature_tier_map

abbrev or_free : Option String → String
or_free none = tier_free
or_free (some tier) = tier

unfoldable pub min_tier : String → String
unfolding lookup
min_tier feature = or_free (lookup feature feature_tier_map)

-- featureMinTier, tierLevelNum and featureHasAccess of middleware.go
abbrev one_of : String → List String → Bool
one_of s = any (λ t. str_eq s t)

unfoldable pub feature_min_tier : String → String
feature_min_tier feature =
    if one_of feature (
      "single_server" ∷ "static_sites" ∷ "php" ∷ "ssl_certificates" ∷ "basic_monitoring"
      ∷ "file_manager" ∷ "terminal" ∷ "job_history" ∷ [])
    then "free"
    else if one_of feature (
        "multi_server" ∷ "advanced_runtimes" ∷ "database_management" ∷ "cloud_backups"
        ∷ "user_management" ∷ "alerting" ∷ "scheduled_backups" ∷ "agent_management"
        ∷ "custom_domains" ∷ "docker" ∷ [])
    then "pro"
    else if one_of feature ("white_label" ∷ "api_access" ∷ "audit_log" ∷ "priority_support" ∷ [])
    then "enterprise"
    else "free"

unfoldable pub tier_level_num : String → ℕ
tier_level_num tier =
    if str_eq tier "free"
    then 0
    else if str_eq tier "pro"
    then 1
    else if str_eq tier "enterprise"
    then 2
    else 0

unfoldable pub feature_has_access : String → String → Bool
unfolding feature_min_tier tier_level_num
feature_has_access tier feature =
    leb (tier_level_num (feature_min_tier feature)) (tier_level_num tier)

-- The tier of the active license; none where there is none or the query fails.
abbrev pub current_tier : Option String → String
current_tier none = "free"
current_tier (some tier) = tier

-- RequireFeature and RequireTier: the request goes on, or is refused with an error, the required tier
-- and the current one.
pub data Gate : Type 0 where
  allowed : Gate
  forbidden : String → String → String → Gate

unfoldable pub require_feature : Option String → String → Gate
unfolding feature_has_access
require_feature license feature =
    if feature_has_access (current_tier license) feature
    then allowed
    else forbidden "feature_not_available" (feature_min_tier feature) (current_tier license)

unfoldable pub require_tier : Option String → String → Gate
unfolding tier_level_num
require_tier license minimum =
    if ltb (tier_level_num (current_tier license)) (tier_level_num minimum)
    then forbidden "tier_not_sufficient" minimum (current_tier license)
    else allowed
