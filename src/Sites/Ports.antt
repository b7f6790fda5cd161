-- ===== src/Sites/Ports.antt =====
-- The ports of applications: IsPortAvailable, FindFreePort and CheckPortAvailable of
-- internal/store/sites.go. `listens` is whether net.Listen can take a port of the machine.
use mathlib.Core.Bool.{not}
use sigarda_panel.Common.{
  ℕ, zero, suc, ◌-◌, Bool, false, ◌&&◌, ◌||◌, List, [], Option, none, some, if◌then◌else◌, ◌==◌,
  any,
}
use sigarda_panel.Text.{Text, eqb}
use sigarda_panel.Auth.Sessions.{first}

-- The columns of a site that these queries read.
pub record AppSite : Type 0 where
  pub id : ℕ
  pub domain : Text
  pub app_port : Option ℕ

unfoldable pub has_port : ℕ → AppSite → Bool
has_port port s = elim s.app_port [ none ↦ false | some p ↦ p == port ]

unfoldable pub is_port_available : (ℕ → Bool) → Bool → List AppSite → ℕ → Bool
unfolding has_port
is_port_available listens fails sites port =
    if fails || any (has_port port) sites then false else listens port

pub data PortSearch : Type 0 where
  query_failed : PortSearch
  free : ℕ → PortSearch
  no_free_port : PortSearch

-- The loop from `port` on, over `count` ports.
unfoldable pub search_port : (ℕ → Bool) → List AppSite → ℕ → ℕ → PortSearch
unfolding has_port
search_port listens sites port zero = no_free_port
search_port listens sites port (suc count) =
    let rest = search_port listens sites (suc port) count in
    if any (has_port port) sites then rest else if not (listens port) then rest else free port

unfoldable pub find_free_port : (ℕ → Bool) → Bool → List AppSite → ℕ → ℕ → PortSearch
unfolding search_port
find_free_port listens fails sites min_port max_port =
    if fails then query_failed else search_port listens sites min_port (suc max_port - min_port)

pub data PortCheck : Type 0 where
  check_failed available in_use : PortCheck
  used_by_site : Text → PortCheck
  used_by_id : ℕ → PortCheck

unfoldable pub taken_by : AppSite → PortCheck
taken_by s = if eqb s.domain [] then used_by_id s.id else used_by_site s.domain

unfoldable pub check_port_available : (ℕ → Bool) → Bool → List AppSite → ℕ → ℕ → PortCheck
unfolding has_port taken_by
check_port_available listens fails sites exclude port =
    if fails
    then check_failed
    else elim (first (λ s. has_port port s && not (s.id == exclude)) sites) [
      | some s ↦ taken_by s
      | none ↦ if listens port then available else in_use
    ]
