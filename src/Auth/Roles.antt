-- ===== src/Auth/Roles.antt =====
-- internal/auth/auth.go and service_token.go; serviceTokenHasScope of internal/apihttp/middleware.go.
use sigarda_panel.Common.{Bool, ◌||◌, if◌then◌else◌, true, false, any}
use sigarda_panel.Text.{Text, codes, eqb, split, trim_space}

abbrev pub super_admin : Text
super_admin = codes "super_admin"

abbrev pub admin : Text
admin = codes "admin"

abbrev pub user : Text
user = codes "user"

unfoldable pub is_valid_role : Text → Bool
is_valid_role role = eqb role super_admin || eqb role admin || eqb role user

unfoldable pub has_role : Text → Text → Bool
has_role user_role required =
    if eqb required super_admin
    then eqb user_role super_admin
    else if eqb required admin
    then eqb user_role super_admin || eqb user_role admin
    else if eqb required user
    then eqb user_role super_admin || eqb user_role admin || eqb user_role user
    else false

unfoldable pub validate_scopes : Text → Text → Bool
validate_scopes token_scopes required =
    if eqb token_scopes (codes "*")
    then true
    else any (λ s. eqb (trim_space s) required) (split b',' token_scopes)

-- One scope of the list.
unfoldable pub scope_grants : Text → Text → Bool
scope_grants s required =
    if eqb s (codes "*")
    then eqb required admin || eqb required user
    else if eqb s admin
    then eqb required admin || eqb required user
    else if eqb s user
    then eqb required user
    else false

unfoldable pub service_token_has_scope : Text → Text → Bool
unfolding scope_grants
service_token_has_scope scopes required =
    any (λ s. scope_grants (trim_space s) required) (split b',' scopes)
