-- ===== src/Commands/Unprivileged.antt =====
-- What internal/executor/executor.go starts for a user.
use sigarda_panel.Common.{
  ℕ, ◌≡◌, ◌≢◌, refl, arith, true, List, [], ◌∷◌, Option, none, some, ◌==◌, All, Bool-cases,
  Option-cases, inl, inr,
}
use mathlib.Core.Path.{subst}
use sigarda_panel.Text.{Text}
use sigarda_panel.Auth.Limits.{format_int}
use sigarda_panel.Commands.Run.{
  only, Process, process, started, is_allowed_command, SystemAccount, parse_uint32, add_group,
  parse_groups, groups_of, home_of, login_of, user_environment, run_as_user,
}

-- An allowed program, run for a user who is not root and the given primary group, with none of root's
-- among the further groups, and with the fixed environment.
pub record IsUnprivileged (uid gid : ℕ) (p : Process) : Type 0 where
  pub allowed : is_allowed_command p.name ≡ true
  pub groups : List ℕ
  pub credential : p.credential ≡ some (record { uid = uid; gid = gid; groups = groups })
  pub no_root : uid ≢ 0
  pub no_root_group : All (λ g. g ≢ 0) groups
  pub home : Text
  pub login : Text
  pub environment : p.env ≡ only (user_environment home login)

add_group-no_root :
    (g : Option ℕ) (groups : List ℕ)
    → All (λ g. g ≢ 0) groups
    → All (λ g. g ≢ 0) (add_group g groups)
unfolding add_group
add_group-no_root none groups h = h
add_group-no_root (some n) groups h = elim (Bool-cases (n == 0)) [
  | inl e ↦ rw e h
  | inr e ↦ rw e ((λ z. absurd (ground arith)), h)
]

parse_groups-no_root : (gids : List Text) → All (λ g. g ≢ 0) (parse_groups gids)
unfolding parse_groups
parse_groups-no_root [] = tt
parse_groups-no_root (g ∷ gids) =
    add_group-no_root (parse_uint32 g) (parse_groups gids) (parse_groups-no_root gids)

groups_of-no_root : (account : Option SystemAccount) → All (λ g. g ≢ 0) (groups_of account)
unfolding groups_of
groups_of-no_root none = tt
groups_of-no_root (some u) = elim (Option-cases u.group_ids) [
  | inl e ↦ rw e tt
  | inr (gids, e) ↦ rw e (parse_groups-no_root gids)
]

-- RunAsUser starts only allowed programs, for the user and group given, never for user 0, without
-- root's group among the further groups, and with an environment that it makes itself.
pub run_as_user-IsUnprivileged :
    (lookup_id : Text → Option SystemAccount) (timeout uid gid : ℕ) (dir name : Text)
    (args : List Text) (p : Process)
    → run_as_user lookup_id timeout uid gid dir name args ≡ started p
    → IsUnprivileged uid gid p
unfolding run_as_user
run_as_user-IsUnprivileged lookup_id timeout uid gid dir name args p h =
    let account = lookup_id (format_int uid) in
    let q : Process = record (process timeout name args) {
      env = only (user_environment (home_of account) (login_of uid account));
      dir = dir;
      credential = some (record { uid = uid; gid = gid; groups = groups_of account });
    } in
    elim (Bool-cases (is_allowed_command name)) [
      | inr e ↦ let f = rw e at h in absurd (cc)
      | inl e ↦ elim (Bool-cases (uid == 0)) [
        | inl z ↦ let f = rw (e, z) at h in absurd (cc)
        | inr z ↦
            let f : started q ≡ started p = rw (e, z) at h in
            let same : q ≡ p = cc in
            subst (IsUnprivileged uid gid) same (record {
              allowed = e;
              groups = groups_of account;
              credential = refl;
              no_root = λ w. absurd (ground arith);
              no_root_group = groups_of-no_root account;
              home = home_of account;
              login = login_of uid account;
              environment = refl;
            })
      ]
    ]
