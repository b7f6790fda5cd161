-- ===== src/Auth/Hierarchy.antt =====
-- The roles of internal/auth/auth.go as ranks.
use mathlib.Core.Bool.{◌&&◌}
use sigarda_panel.Common.{
  ℕ, ◌≡◌, refl, List, [], ◌∷◌, if◌then◌else◌, leb, true, false, any, arith, inl, inr, ||-split,
}
use sigarda_panel.Text.{Text, eqb, split, trim_space}
use sigarda_panel.Text.Equality.{eqb_iff}
use sigarda_panel.Auth.Roles.{
  super_admin, admin, user, is_valid_role, has_role, scope_grants, service_token_has_scope,
}

-- 3 for super_admin, 2 for admin, 1 for user, 0 for any other text.
unfoldable pub rank : Text → ℕ
rank role =
    if eqb role super_admin then 3 else if eqb role admin then 2 else if eqb role user then 1 else 0

distinct :
    (eqb super_admin admin ≡ false)
    × (eqb super_admin user ≡ false)
    × (eqb admin user ≡ false)
    × (eqb admin super_admin ≡ false)
    × (eqb user super_admin ≡ false)
    × (eqb user admin ≡ false)
unfolding eqb
distinct = (refl, refl, refl, refl, refl, refl)

-- A role meets a required one exactly when the required one is a known role of no higher rank.
pub has_role-rank :
    (role required : Text)
    → has_role role required ≡ (is_valid_role required && leb (rank required) (rank role))
unfolding has_role is_valid_role rank
has_role-rank role required = ground (
  arith,
  distinct,
  eqb_iff role super_admin,
  eqb_iff role admin,
  eqb_iff role user,
  eqb_iff required super_admin,
  eqb_iff required admin,
  eqb_iff required user,
)

grants-below : (s required : Text) → scope_grants s required ≡ true → has_role admin required ≡ true
unfolding scope_grants has_role
grants-below s required h = ground (
  arith,
  distinct,
  eqb_iff admin admin,
  eqb_iff required super_admin,
  eqb_iff required admin,
  eqb_iff required user,
)

any-grants :
    (ss : List Text) (required : Text)
    → any (λ s. scope_grants (trim_space s) required) ss ≡ true
    → has_role admin required ≡ true
any-grants [] required h = absurd (cc)
any-grants (s ∷ ss) required h = elim (||-split (scope_grants (trim_space s) required) _ h) [
  | inl e ↦ grants-below (trim_space s) required e
  | inr e ↦ any-grants ss required e
]

-- What the scopes of a service token grant, the role admin has too: no scopes give super_admin.
pub service_token_has_scope-admin :
    (scopes required : Text)
    → service_token_has_scope scopes required ≡ true
    → has_role admin required ≡ true
unfolding service_token_has_scope
service_token_has_scope-admin scopes required h = any-grants (split b',' scopes) required h
