-- ===== src/Auth/Tests.antt =====
-- Uses of the theorems on concrete requests.
use Prim.Native.Nat.{min}
use sigarda_panel.Common.{
  ℕ, ◌+◌, ◌≡◌, ◌≤◌, refl, true, false, some, none, List, ◌++◌, [], ◌∷◌, leb, length, arith, All,
}
use sigarda_panel.Text.{Text, codes, eqb}
use sigarda_panel.Auth.Roles.{admin, super_admin, user, has_role, service_token_has_scope}
use sigarda_panel.Auth.Limits.{
  new_rate_limiter, new_failure_tracker, recent, blocked, mark_used, SeenCodes,
}
use sigarda_panel.Auth.Windows.{Attempt, InOrder, allowed_from, rate_limit}
use sigarda_panel.Auth.Failures
use sigarda_panel.Auth.Failures.{
  Event, failed, succeeded, apply_events, failures_onto, blocked-failures,
}
use sigarda_panel.Auth.Replay.{Offer, mark_all, mark_used-replay}
use sigarda_panel.Auth.Sessions.{Session, ServiceToken, User, count_active, revoke_oldest}
use sigarda_panel.Auth.Limit.{count_active-revoke_oldest}
use sigarda_panel.Auth.Guard.{Store, Request, Context, passed, token_of, guarded}
use sigarda_panel.Auth.Admission.{IsEntitled, guarded-IsEntitled}

abbrev scopes : Text
scopes = codes "backup, admin"

scopes_grant : service_token_has_scope scopes admin ≡ true
unfolding service_token_has_scope sigarda_panel.Text.split sigarda_panel.Text.eqb
    sigarda_panel.Text.trim_space
scopes_grant = refl

scopes_refuse : service_token_has_scope (codes "*") super_admin ≡ false
unfolding service_token_has_scope sigarda_panel.Text.split sigarda_panel.Text.eqb
    sigarda_panel.Text.trim_space
scopes_refuse = refl

abbrev client : Text
client = codes "10.0.0.1"

abbrev attempts : List Attempt
attempts = (client, 1) ∷ (codes "10.0.0.2", 2) ∷ (client, 3) ∷ (client, 4) ∷ []

attempts-InOrder : InOrder 0 5 attempts
attempts-InOrder = (omega arith, (omega arith, (omega arith, (omega arith, omega arith))))

two_pass : allowed_from (new_rate_limiter 2 60) client attempts ≡ 1 ∷ 3 ∷ []
unfolding allowed_from sigarda_panel.Auth.Limits.allow new_rate_limiter recent
    sigarda_panel.Text.eqb
two_pass = refl

rate_limit_example : length (recent 60 5 (allowed_from (new_rate_limiter 2 60) client attempts)) ≤ 2
rate_limit_example = rate_limit 2 60 client 0 5 attempts attempts-InOrder

abbrev events : List Event
events = failed client 1 ∷ succeeded client ∷ failed client 2 ∷ failed client 3 ∷ []

events-InOrder : Failures.InOrder 0 4 events
events-InOrder = (omega arith, (omega arith, (omega arith, omega arith)))

blocked-failures_example :
    (blocked (apply_events (new_failure_tracker 2 900) events) client 4).1
    ≡ leb 2 (length (recent 900 4 (failures_onto client [] events)))
blocked-failures_example = blocked-failures 2 900 client 0 4 events events-InOrder

abbrev unseen : SeenCodes
unseen = λ key. none

abbrev others : List Offer
others = record { user_id = 8; code = codes "123456"; at = 20 } ∷ []

code_accepted : (mark_used unseen 7 (codes "123456") 10).1 ≡ true
unfolding mark_used
code_accepted = refl

others_soon : All (λ (o : Offer). o.at ≤ 10 + 120) others
others_soon = (omega arith, tt)

mark_used-replay_example :
    (mark_used (mark_all (mark_used unseen 7 (codes "123456") 10).0 others) 7 (codes "123456") 40).1
    ≡ false
mark_used-replay_example =
    mark_used-replay unseen 7 (codes "123456") 10 40 others code_accepted others_soon (omega arith)

abbrev hashed : Text → Text
hashed token = b'h' ∷ token

abbrev token : Text
token = codes "0123456789abcdef0123456789abcdef0123456789abcdef0123456789abcdef"

abbrev session : ℕ → Text → Session
session id hash = record {
  id = id;
  user_id = 7;
  token_hash = hash;
  expires_at = 1000;
  revoked = false;
  impersonated_by = none;
}

abbrev store : Store
store = record {
  service_tokens = [];
  service_tokens_fail = false;
  sessions = session 1 (hashed token) ∷ [];
  sessions_fail = false;
  users = record { id = 7; role = admin } ∷ [];
  users_fail = false;
}

abbrev request : Request
request = record { authorization = codes "BEARER " ++ token; cookie = none }

abbrev admitted : Context
admitted = record {
  session = some (session 1 (hashed token));
  user_id = 7;
  scopes = [];
  role = admin;
}

request_passed : guarded hashed 5 store user request ≡ passed admitted []
unfolding guarded sigarda_panel.Text.cut sigarda_panel.Auth.Sessions.get_by_key_hash
    sigarda_panel.Auth.Sessions.first sigarda_panel.Auth.Sessions.get_by_token_hash
    sigarda_panel.Auth.Sessions.get_user_by_id has_role
request_passed = refl

guarded-IsEntitled_example :
    (t : Text) × (token_of request ≡ some t) × (length t ≡ 64) × IsEntitled 5 store (hashed t) user
guarded-IsEntitled_example =
    guarded-IsEntitled hashed 5 store user request admitted [] request_passed

abbrev three_sessions : List Session
three_sessions = session 1 [] ∷ session 2 [] ∷ session 3 [] ∷ []

count_active-revoke_oldest_example :
    count_active 5 7 (revoke_oldest 5 7 2 three_sessions) ≡ min (count_active 5 7 three_sessions) 2
count_active-revoke_oldest_example = count_active-revoke_oldest 5 7 2 three_sessions
