-- ===== src/Sites/Rules.antt =====
-- internal/apihttp/ip_restrictions.go and internal/store/ip_restrictions.go. Rows are in the order of
-- their ids; the order of rows of the same second is the database's.
use Prim.Native.String.{String}
use mathlib.Core.Bool.{not}
use mathlib.Core.List.{reverse}
use sigarda_panel.Common.{
  ℕ, suc, Bool, true, false, ◌&&◌, List, [], ◌∷◌, ◌++◌, Option, none, some, if◌then◌else◌, ◌==◌,
  ltb, any,
}
use sigarda_panel.Common.Int.{ℤ, pos, atoi}
use sigarda_panel.Text.{Text, codes, eqb, trim_space}
use sigarda_panel.Auth.Sessions.{Session, first}
use sigarda_panel.Sites.Access.{Site, AccessStore, can_access}

pub record IpRestriction : Type 0 where
  pub id : ℕ
  pub site_id : ℕ
  pub ip : Text
  pub action : Text
  pub reason : Text

pub record RuleStore : Type 0 where
  pub access : AccessStore
  pub sites : List Site
  pub sites_fail : Bool
  pub restrictions : List IpRestriction
  pub restrictions_fail : Bool
  pub next_restriction : ℕ

pub record RuleBody : Type 0 where
  pub ip : Text
  pub action : Text
  pub reason : Text

pub data RuleReply : Type 0 where
  refused : ℕ → String → RuleReply
  listed : List IpRestriction → RuleReply
  created : IpRestriction → RuleReply
  deleted : RuleReply

unfoldable pub of_site : ℕ → List IpRestriction → List IpRestriction
of_site site [] = []
of_site site (r ∷ rows) =
    let rest = of_site site rows in if r.site_id == site then r ∷ rest else rest

unfoldable pub delete_restriction_row : ℕ → List IpRestriction → List IpRestriction
delete_restriction_row id [] = []
delete_restriction_row id (r ∷ rows) =
    let rest = delete_restriction_row id rows in if r.id == id then rest else r ∷ rest

unfoldable pub delete_by_site : ℕ → List IpRestriction → List IpRestriction
delete_by_site site [] = []
delete_by_site site (r ∷ rows) =
    let rest = delete_by_site site rows in if r.site_id == site then rest else r ∷ rest

unfoldable pub says : ℕ → Text → Text → IpRestriction → Bool
says site ip action r = r.site_id == site && eqb r.ip ip && eqb r.action action

-- When every query succeeds.
unfoldable pub is_allowed : ℕ → Text → List IpRestriction → Bool
unfolding says
is_allowed site ip rows =
    if not (any (λ r. r.site_id == site) rows)
    then true
    else if any (says site ip (codes "allow")) rows
    then true
    else if any (says site ip (codes "deny")) rows
    then false
    else false

positive : Option ℤ → Option ℕ
positive (some (pos n)) = if ltb 0 n then some n else none
positive _ = none

-- strconv.ParseInt in base ten with 64 bits, and the test that the number is positive
unfoldable pub parse_id : Text → Option ℕ
unfolding positive
parse_id s = positive (atoi s)

unfoldable pub get_site : ℕ → RuleStore → Option Site
get_site id st = if st.sites_fail then none else first (λ s. s.id == id) st.sites

unfoldable pub accessible : RuleStore → Option Session → Option Site → Option Site
accessible st sess none = none
accessible st sess (some site) = if can_access st.access sess site then some site else none

-- The site of the path, where there is one that the session may access.
unfoldable pub own_site : RuleStore → Option Session → ℕ → Option Site
unfolding accessible get_site
own_site st sess id = accessible st sess (get_site id st)

unfoldable pub list_of : RuleStore → Option Session → Option ℕ → RuleReply
unfolding own_site
list_of st sess none = refused 400 "invalid site id"
list_of st sess (some id) = elim (own_site st sess id) [
  | none ↦ refused 404 "site not found"
  | some site ↦
      if st.restrictions_fail
      then refused 500 "list ip restrictions"
      else listed (reverse (of_site id st.restrictions))
]

unfoldable pub list_restrictions : RuleStore → Option Session → Text → RuleReply
unfolding list_of
list_restrictions st sess id = list_of st sess (parse_id id)

-- net.ParseIP and net.ParseCIDR, as tests.
pub record Addresses : Type 0 where
  pub is_ip : Text → Bool
  pub is_cidr : Text → Bool

unfoldable pub check_body : Addresses → Option RuleBody → Option String
check_body a none = some "invalid request body"
check_body a (some b) =
    let ip = trim_space b.ip in
    if eqb ip []
    then some "ip is required"
    else if not (a.is_ip ip) && not (a.is_cidr ip)
    then some "invalid IP address or CIDR notation"
    else if not (eqb b.action (codes "allow")) && not (eqb b.action (codes "deny"))
    then some "action must be 'allow' or 'deny'"
    else none

unfoldable pub insert_restriction : RuleStore → ℕ → Option RuleBody → RuleStore × RuleReply
insert_restriction st site none = (st, refused 400 "invalid request body")
insert_restriction st site (some b) =
    let row : IpRestriction = record {
      id = st.next_restriction;
      site_id = site;
      ip = trim_space b.ip;
      action = b.action;
      reason = trim_space b.reason;
    } in
    let next : RuleStore = record st {
      restrictions = st.restrictions ++ row ∷ [];
      next_restriction = suc st.next_restriction;
    } in
    if st.restrictions_fail then (st, refused 500 "create ip restriction") else (next, created row)

unfoldable pub create_at :
    Addresses → RuleStore → Option RuleBody → ℕ → Option Site → RuleStore × RuleReply
unfolding check_body insert_restriction
create_at a st body id none = (st, refused 404 "site not found")
create_at a st body id (some site) = elim (check_body a body) [
  | some message ↦ (st, refused 400 message)
  | none ↦ insert_restriction st id body
]

unfoldable pub create_of :
    Addresses → RuleStore → Option Session → Option ℕ → Option RuleBody → RuleStore × RuleReply
unfolding create_at own_site
create_of a st sess none body = (st, refused 400 "invalid site id")
create_of a st sess (some id) body = create_at a st body id (own_site st sess id)

unfoldable pub create_restriction :
    Addresses → RuleStore → Option Session → Text → Option RuleBody → RuleStore × RuleReply
unfolding create_of
create_restriction a st sess id body = create_of a st sess (parse_id id) body

unfoldable pub delete_at : RuleStore → ℕ → Option Site → RuleStore × RuleReply
unfolding delete_restriction_row
delete_at st rule none = (st, refused 404 "site not found")
delete_at st rule (some site) =
    if st.restrictions_fail
    then (st, refused 500 "delete ip restriction")
    else (record st { restrictions = delete_restriction_row rule st.restrictions }, deleted)

unfoldable pub delete_of : RuleStore → Option Session → Option ℕ → Option ℕ → RuleStore × RuleReply
unfolding delete_at own_site
delete_of st sess none id = (st, refused 400 "invalid restriction id")
delete_of st sess (some rule) none = (st, refused 400 "invalid site id")
delete_of st sess (some rule) (some id) = delete_at st rule (own_site st sess id)

unfoldable pub delete_restriction : RuleStore → Option Session → Text → Text → RuleStore × RuleReply
unfolding delete_of
delete_restriction st sess rule id = delete_of st sess (parse_id rule) (parse_id id)
