-- ===== src/Sites/Reach.antt =====
-- Which rules a request on the rules of a site reaches.
use sigarda_panel.Common.{
  ℕ, ◌≡◌, ◌≢◌, ◌⊎◌, refl, ap, ◌∙◌, arith, true, false, List, [], ◌∷◌, ◌++◌, Option, none, some,
  Bool-cases, Option-cases, All, inl, inr, ◌==◌,
}
use sigarda_panel.Text.{Text, codes, eqb, trim_space}
use sigarda_panel.Text.Equality.{eqb_iff}
use sigarda_panel.Auth.Sessions.{Session}
use sigarda_panel.Sites.Access.{Site, can_access}
use sigarda_panel.Sites.Rules.{
  IpRestriction, RuleStore, RuleBody, RuleReply, created, deleted, delete_restriction_row, parse_id,
  get_site, accessible, own_site, Addresses, check_body, insert_restriction, create_at, create_of,
  create_restriction, delete_at, delete_of, delete_restriction,
}

-- What a request to create adds: a rule of a site that the session may access, with an address or a
-- network and one of the two actions.
pub record IsOwnRule (a : Addresses) (st : RuleStore) (sess : Option Session) (r : IpRestriction)
    : Type 0 where
  pub site : Site
  pub stored : get_site r.site_id st ≡ some site
  pub access : can_access st.access sess site ≡ true
  pub address : (a.is_ip r.ip ≡ true) ⊎ (a.is_cidr r.ip ≡ true)
  pub action : (r.action ≡ codes "allow") ⊎ (r.action ≡ codes "deny")

abbrev Creates : Addresses → RuleStore → Option Session → RuleStore × RuleReply → Type 0
Creates a st sess (st', reply) =
    (st'.restrictions ≡ st.restrictions)
    ⊎ ((r : IpRestriction) × (st'.restrictions ≡ st.restrictions ++ r ∷ [])
        × (reply ≡ created r)
        × IsOwnRule a st sess r)

own_site-some :
    (st : RuleStore) (sess : Option Session) (id : ℕ) (site : Site)
    → own_site st sess id ≡ some site
    → (get_site id st ≡ some site) × (can_access st.access sess site ≡ true)
unfolding own_site accessible
own_site-some st sess id site h = elim (Option-cases (get_site id st)) [
  | inl e ↦ absurd (ground arith)
  | inr (found, e) ↦ elim (Bool-cases (can_access st.access sess found)) [
    | inr f ↦ absurd (ground arith)
    | inl f ↦ let same : found ≡ site = ground arith in (e ∙ ap some same, rw (← same) f)
  ]
]

check_body-none :
    (a : Addresses) (b : RuleBody)
    → check_body a (some b) ≡ none
    → ((a.is_ip (trim_space b.ip) ≡ true) ⊎ (a.is_cidr (trim_space b.ip) ≡ true))
      × ((b.action ≡ codes "allow") ⊎ (b.action ≡ codes "deny"))
unfolding check_body
check_body-none a b h = (
  elim (Bool-cases (a.is_ip (trim_space b.ip))) [ inl e ↦ inl e | inr e ↦ inr (ground arith) ],
  elim (Bool-cases (eqb b.action (codes "allow"))) [
    | inl e ↦ inl ((eqb_iff b.action (codes "allow")).0 e)
    | inr e ↦ inr ((eqb_iff b.action (codes "deny")).0 (ground arith))
  ],
)

insert_restriction-Creates :
    (a : Addresses) (st : RuleStore) (sess : Option Session) (body : Option RuleBody) (id : ℕ)
    (site : Site)
    → own_site st sess id ≡ some site
    → check_body a body ≡ none
    → Creates a st sess (insert_restriction st id body)
unfolding insert_restriction get_site
insert_restriction-Creates a st sess none id site e f = inl refl
insert_restriction-Creates a st sess (some b) id site e f = elim (Bool-cases st.restrictions_fail) [
  | inl g ↦ rw g (inl refl)
  | inr g ↦
      let (stored, access) = own_site-some st sess id site e in
      let (address, action) = check_body-none a b f in
      rw g (
        inr (
          _,
          refl,
          refl,
          record {
            site = site;
            stored = stored;
            access = access;
            address = address;
            action = action;
          },
        ))
]

create_at-Creates :
    (a : Addresses) (st : RuleStore) (sess : Option Session) (body : Option RuleBody) (id : ℕ)
    (own : Option Site)
    → own_site st sess id ≡ own
    → Creates a st sess (create_at a st body id own)
unfolding create_at
create_at-Creates a st sess body id none e = inl refl
create_at-Creates a st sess body id (some site) e = elim (Option-cases (check_body a body)) [
  | inr (message, f) ↦ rw (create_at, f) (inl refl)
  | inl f ↦ rw (create_at, f) (insert_restriction-Creates a st sess body id site e f)
]

-- A request to create a rule leaves the rules as they were or adds one: a rule of the site that it
-- names, which the session may access, with an address or a network and an action that is "allow" or
-- "deny".
pub create_restriction-Creates :
    (a : Addresses) (st : RuleStore) (sess : Option Session) (id : Text) (body : Option RuleBody)
    → Creates a st sess (create_restriction a st sess id body)
unfolding create_restriction create_of
create_restriction-Creates a st sess id body = elim (Option-cases (parse_id id)) [
  | inl e ↦ rw e (inl refl)
  | inr (n, e) ↦ rw e (create_at-Creates a st sess body n (own_site st sess n) refl)
]

own_site-found :
    (st : RuleStore) (sess : Option Session) (id : ℕ) (site : Site)
    → get_site id st ≡ some site
    → can_access st.access sess site ≡ true
    → own_site st sess id ≡ some site
unfolding own_site accessible
own_site-found st sess id site found access = ground arith

delete_restriction_row-gone :
    (id : ℕ) (rows : List IpRestriction) → All (λ r. r.id ≢ id) (delete_restriction_row id rows)
unfolding delete_restriction_row
delete_restriction_row-gone id [] = tt
delete_restriction_row-gone id (r ∷ rows) = elim (Bool-cases (r.id == id)) [
  | inl e ↦ rw e (delete_restriction_row-gone id rows)
  | inr e ↦ rw e ((λ same. absurd (ground arith)), delete_restriction_row-gone id rows)
]

-- A session that may access some site deletes the rule with any id through that site, whatever site
-- the rule belongs to: when the query succeeds, no rule with the id is left, and the answer is that it
-- is deleted.
pub delete_restriction-foreign :
    (st : RuleStore) (sess : Option Session) (rule id : Text) (n i : ℕ) (site : Site)
    → parse_id rule ≡ some n
    → parse_id id ≡ some i
    → get_site i st ≡ some site
    → can_access st.access sess site ≡ true
    → st.restrictions_fail ≡ false
    → All (λ r. r.id ≢ n) (delete_restriction st sess rule id).0.restrictions
      × ((delete_restriction st sess rule id).1 ≡ deleted)
unfolding delete_restriction delete_of delete_at
delete_restriction-foreign st sess rule id n i site rule_ok id_ok found access answers =
    let own = own_site-found st sess i site found access in
    rw (rule_ok, id_ok, own) (rw answers (delete_restriction_row-gone n st.restrictions, refl))
