-- ===== src/Sites/GrantTests.antt =====
-- Uses of the theorems on permissions, rules and ports of sites.
use sigarda_panel.Sites.Ports.{AppSite, free, find_free_port}
use sigarda_panel.Sites.FreePort.{Found, find_free_port-Found}
use sigarda_panel.Common.{
  suc, ◌-◌, Bool, not, ◌==◌, ℕ, ◌≡◌, ◌≢◌, refl, true, false, ◌&&◌, leb, ltb, List, [], ◌∷◌, All,
  Option, some, none,
}
use sigarda_panel.Text.{codes, eqb}
use sigarda_panel.Auth.Sessions.{Session, User}
use sigarda_panel.Sites.Access.{Site, AccessStore, can_access}
use sigarda_panel.Sites.Rules.{
  RuleStore, deleted, parse_id, get_site, is_allowed, delete_restriction,
}
use sigarda_panel.Sites.Reach.{delete_restriction-foreign}

abbrev session : Session
session = record {
  id = 1;
  user_id = 4;
  token_hash = [];
  expires_at = 0;
  revoked = false;
  impersonated_by = none;
}

abbrev member : User
member = record { id = 4; role = codes "user" }

abbrev site : Site
site = record { id = 9; owner_id = some 2 }

abbrev store : AccessStore
store = record {
  users = member ∷ [];
  users_fail = false;
  user_sites = record { user_id = 4; site_id = 9; permission = codes "admin" } ∷ [];
  user_sites_fail = false;
}

-- Rule 7 belongs to site 10.
abbrev rules : RuleStore
rules = record {
  access = store;
  sites = site ∷ [];
  sites_fail = false;
  restrictions =
      record { id = 7; site_id = 10; ip = codes "1.2.3.4"; action = codes "deny"; reason = [] }
      ∷ [];
  restrictions_fail = false;
  next_restriction = 8;
}

-- A site with a single "deny" is closed to every address.
deny_closes : is_allowed 10 (codes "5.6.7.8") rules.restrictions ≡ false
unfolding is_allowed eqb
deny_closes = refl

seven : parse_id (codes "7") ≡ some 7
unfolding parse_id sigarda_panel.Common.Int.atoi
seven = refl

nine : parse_id (codes "9") ≡ some 9
unfolding parse_id sigarda_panel.Common.Int.atoi
nine = refl

site_stored : get_site 9 rules ≡ some site
unfolding get_site sigarda_panel.Auth.Sessions.first
site_stored = refl

member_access : can_access rules.access (some session) site ≡ true
unfolding can_access sigarda_panel.Auth.Sessions.get_user_by_id sigarda_panel.Auth.Sessions.first
    eqb
member_access = refl

delete_restriction-foreign_example :
    All
      (λ r. r.id ≢ 7)
      (delete_restriction rules (some session) (codes "7") (codes "9")).0.restrictions
    × ((delete_restriction rules (some session) (codes "7") (codes "9")).1 ≡ deleted)
delete_restriction-foreign_example =
    delete_restriction-foreign rules (some session) (codes "7") (codes "9") 7 9 site seven nine
      site_stored member_access refl

abbrev ports : List AppSite
ports = record { id = 1; domain = codes "a"; app_port = some 30000 } ∷ []

abbrev machine : ℕ → Bool
machine port = not (port == 30001)

third_free : find_free_port machine false ports 30000 40000 ≡ free 30002
unfolding find_free_port
third_free = refl

find_free_port-Found_example :
    Found machine ports 30000 (suc 40000 - 30000) (find_free_port machine false ports 30000 40000)
find_free_port-Found_example = find_free_port-Found machine ports 30000 40000
