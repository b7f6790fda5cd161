-- ===== src/Sites/Access.antt =====
-- Who may do what with a site: canAccess and checkSitePermission of internal/apihttp/sites.go, and
-- internal/store/user_sites.go. A row of users is the one of Auth.Sessions.
use mathlib.Core.Bool.{not}
use sigarda_panel.Common.{
  ℕ, Bool, true, false, ◌&&◌, ◌||◌, List, [], ◌∷◌, ◌++◌, Option, none, some, if◌then◌else◌, ◌==◌,
  any,
}
use sigarda_panel.Text.{Text, codes, eqb}
use sigarda_panel.Auth.Roles.{super_admin}
use sigarda_panel.Auth.Sessions.{Session, User, first, get_user_by_id}

pub record UserSite : Type 0 where
  pub user_id : ℕ
  pub site_id : ℕ
  pub permission : Text

pub record Site : Type 0 where
  pub id : ℕ
  pub owner_id : Option ℕ

-- The tables, and whether the queries of each fail.
pub record AccessStore : Type 0 where
  pub users : List User
  pub users_fail : Bool
  pub user_sites : List UserSite
  pub user_sites_fail : Bool

unfoldable pub is_for : ℕ → ℕ → UserSite → Bool
is_for user site r = r.user_id == user && r.site_id == site

unfoldable pub permission_or_read : Text → Text
permission_or_read permission = if eqb permission [] then codes "read" else permission

-- The DO UPDATE of the statement, and whether there was a row to update.
unfoldable pub set_permission : ℕ → ℕ → Text → List UserSite → List UserSite
unfolding is_for
set_permission user site permission [] = []
set_permission user site permission (r ∷ rows) =
    (if is_for user site r then record r { permission = permission } else r)
    ∷ set_permission user site permission rows

-- The CHECK on the permission
unfoldable pub is_permission : Text → Bool
is_permission p = eqb p (codes "read") || eqb p (codes "write") || eqb p (codes "admin")

-- `none` is the database's error.
unfoldable pub assign : ℕ → ℕ → Text → List UserSite → Option (List UserSite)
unfolding set_permission permission_or_read is_for is_permission
assign user site permission rows =
    let p = permission_or_read permission in
    if not (is_permission p)
    then none
    else if any (is_for user site) rows
    then some (set_permission user site p rows)
    else some (rows ++ record { user_id = user; site_id = site; permission = p } ∷ [])

unfoldable pub without : ℕ → ℕ → List UserSite → List UserSite
unfolding is_for
without user site [] = []
without user site (r ∷ rows) =
    let rest = without user site rows in if is_for user site r then rest else r ∷ rest

-- `none` is sql.ErrNoRows.
unfoldable pub unassign : ℕ → ℕ → List UserSite → Option (List UserSite)
unfolding without is_for
unassign user site rows =
    if any (is_for user site) rows then some (without user site rows) else none

-- `none` is sql.ErrNoRows or the database's error.
unfoldable pub update_permission : ℕ → ℕ → Text → List UserSite → Option (List UserSite)
unfolding set_permission is_for is_permission
update_permission user site permission rows =
    if not (any (is_for user site) rows)
    then none
    else if is_permission permission
    then some (set_permission user site permission rows)
    else none

unfoldable pub has_access : ℕ → ℕ → List UserSite → Bool
unfolding is_for
has_access user site rows = any (is_for user site) rows

unfoldable pub permission_of : Option UserSite → Option Text
permission_of none = none
permission_of (some r) = some r.permission

unfoldable pub get_permission : ℕ → ℕ → List UserSite → Option Text
unfolding is_for permission_of
get_permission user site rows = permission_of (first (is_for user site) rows)

unfoldable pub found_user : ℕ → AccessStore → Option User
found_user id st = if st.users_fail then none else get_user_by_id id st.users

unfoldable pub is_owner : ℕ → Site → Bool
is_owner user site = elim site.owner_id [ none ↦ false | some owner ↦ owner == user ]

unfoldable pub user_can_access : AccessStore → ℕ → Site → Option User → Bool
unfolding is_owner has_access
user_can_access st id site none = false
user_can_access st id site (some u) =
    if eqb u.role super_admin
    then true
    else if is_owner id site
    then true
    else not st.user_sites_fail && has_access id site.id st.user_sites

unfoldable pub can_access : AccessStore → Option Session → Site → Bool
unfolding user_can_access found_user
can_access st none site = false
can_access st (some s) site = user_can_access st s.user_id site (found_user s.user_id st)

-- The switch on the level that is required.
unfoldable pub permits : Text → Text → Bool
permits required perm =
    if eqb required (codes "admin")
    then eqb perm (codes "admin")
    else if eqb required (codes "write")
    then eqb perm (codes "admin") || eqb perm (codes "write")
    else if eqb required (codes "read")
    then eqb perm (codes "admin") || eqb perm (codes "write") || eqb perm (codes "read")
    else false

unfoldable pub permitted : Text → Option Text → Bool
unfolding permits
permitted required none = false
permitted required (some perm) = permits required perm

unfoldable pub user_has_permission : AccessStore → ℕ → Site → Text → Option User → Bool
unfolding is_owner permitted get_permission
user_has_permission st id site required none = false
user_has_permission st id site required (some u) =
    if eqb u.role super_admin
    then true
    else if is_owner id site
    then true
    else if st.user_sites_fail
    then false
    else permitted required (get_permission id site.id st.user_sites)

unfoldable pub check_site_permission : AccessStore → Option Session → Site → Text → Bool
unfolding user_has_permission found_user
check_site_permission st none site required = false
check_site_permission st (some s) site required =
    user_has_permission st s.user_id site required (found_user s.user_id st)
