-- ===== src/Sites/Grants.antt =====
-- What an assignment grants.
use sigarda_panel.Common.{
  ℕ, ◌≡◌, refl, arith, true, false, ◌&&◌, List, [], ◌∷◌, ◌++◌, none, some, if◌then◌else◌, leb, ltb,
  any, Bool-cases, Option-cases, inl, inr,
}
use sigarda_panel.Text.{Text, codes, eqb}
use sigarda_panel.Auth.Roles.{super_admin}
use sigarda_panel.Auth.Sessions.{Session, User, first}
use sigarda_panel.Sites.Access.{
  UserSite, Site, AccessStore, is_for, set_permission, unassign, has_access, permission_of,
  get_permission, found_user, is_owner, user_can_access, can_access, permitted, user_has_permission,
  check_site_permission,
}

-- The levels in their order; 0 is no level.
unfoldable pub level : Text → ℕ
level p =
    if eqb p (codes "admin")
    then 3
    else if eqb p (codes "write")
    then 2
    else if eqb p (codes "read")
    then 1
    else 0

first-some :
    (user site : ℕ) (rows : List UserSite)
    → any (is_for user site) rows ≡ true
    → (r : UserSite) × (first (is_for user site) rows ≡ some r)
unfolding first
first-some user site [] h = absurd (cc)
first-some user site (r ∷ rows) h = elim (Bool-cases (is_for user site r)) [
  | inl e ↦ rw e (r, refl)
  | inr e ↦ rw e (first-some user site rows (ground arith))
]

-- The rows that an assignment leaves, where it is not refused.
given_rows : ℕ → ℕ → Text → List UserSite → List UserSite
given_rows user site p rows =
    if any (is_for user site) rows
    then set_permission user site p rows
    else rows ++ record { user_id = user; site_id = site; permission = p } ∷ []

-- A row is found exactly where there is one.
has_access-get_permission :
    (user site : ℕ) (rows : List UserSite)
    → has_access user site rows ≡ false
    → get_permission user site rows ≡ none
unfolding has_access get_permission permission_of first
has_access-get_permission user site [] h = refl
has_access-get_permission user site (r ∷ rows) h =
    let e : is_for user site r ≡ false = ground arith in
    rw e (has_access-get_permission user site rows (ground arith))

-- A user with a permission of any level may access the site.
pub check_site_permission-can_access :
    (st : AccessStore) (s : Session) (site : Site) (required : Text)
    → check_site_permission st (some s) site required ≡ true
    → can_access st (some s) site ≡ true
unfolding check_site_permission can_access user_has_permission user_can_access permitted
check_site_permission-can_access st s site required h =
    elim (Option-cases (found_user s.user_id st)) [
      | inl e ↦ absurd (ground arith)
      | inr (u, e) ↦ elim (Bool-cases (has_access s.user_id site.id st.user_sites)) [
        | inl a ↦ ground arith
        | inr a ↦
            let none_found = has_access-get_permission s.user_id site.id st.user_sites a in
            ground arith
      ]
    ]

module _ (st : AccessStore) (s : Session) (site : Site) (u : User)
    (known : found_user s.user_id st ≡ some u) (ordinary : eqb u.role super_admin ≡ false)
    (stranger : is_owner s.user_id site ≡ false) (answers : st.user_sites_fail ≡ false) where
  -- Exactly what the level of a permission reaches, and nothing once it is taken back.
  abbrev pub IsGranted : Text → Text → List UserSite → Type 0
  IsGranted permission required given =
      (check_site_permission (record st { user_sites = given }) (some s) site required
        ≡ (ltb 0 (level required) && leb (level required) (level permission)))
      × ((rows : List UserSite) × (unassign s.user_id site.id given ≡ some rows)
          × (check_site_permission (record st { user_sites = rows }) (some s) site required ≡ false)
          × (can_access (record st { user_sites = rows }) (some s) site ≡ false))
