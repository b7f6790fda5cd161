-- ===== src/Orders/Exposure.antt =====
-- Which orders the routes of internal/apihttp/orders.go show, and to whom.
use mathlib.Core.List.{reverse}
use sigarda_panel.Common.{
  List, [], ◌∷◌, refl, ap, ◌||◌, if◌then◌else◌, ℕ, true, false, ◌≡◌, ◌⊎◌, refl, arith, List, [],
  ◌∷◌, Option, some, ◌==◌, ==_iff, Bool-cases, inl, inr, All, All-reverse,
}
use sigarda_panel.Text.{Text, eqb}
use sigarda_panel.Auth.Sessions.{Session, ServiceToken, get_by_token_hash}
use sigarda_panel.Auth.Guard.{
  Store, Request, Context, Reply, passed, refused, token_of, found_token,
}
use sigarda_panel.Auth.Identity.{IsIdentity, Identified, require_auth-Identified}
use sigarda_panel.Orders.Table.{LicenseOrder, is_listed, select_orders, list_rows}
use sigarda_panel.Orders.Handlers.{
  OrderStore, OrderReply, listed, has_admin_role, session_user, list_orders, behind, orders_route,
}

is_listed-own :
    (status : Text) (user : ℕ) (o : LicenseOrder)
    → (user == 0) ≡ false
    → is_listed (record { status = status; user_id = user }) o ≡ true
    → o.user_id ≡ user
unfolding is_listed
is_listed-own status user o n e = ground arith

select_orders-own :
    (status : Text) (user : ℕ) (rows : List LicenseOrder)
    → (user == 0) ≡ false
    → All (λ o. o.user_id ≡ user) (select_orders (record { status = status; user_id = user }) rows)
unfolding select_orders
select_orders-own status user [] n = tt
select_orders-own status user (o ∷ rows) n =
    elim (Bool-cases (is_listed (record { status = status; user_id = user }) o)) [
      | inl e ↦ rw e (is_listed-own status user o n e, select_orders-own status user rows n)
      | inr e ↦ rw e (select_orders-own status user rows n)
    ]

list_rows-own :
    (status : Text) (user : ℕ) (rows : List LicenseOrder)
    → (user == 0) ≡ false
    → All (λ o. o.user_id ≡ user) (list_rows (record { status = status; user_id = user }) rows)
unfolding list_rows
list_rows-own status user rows n =
    All-reverse (λ o. o.user_id ≡ user) _ (select_orders-own status user rows n)

-- The orders with a status, whoever ordered; an empty status stands for any.
abbrev pub of_status : Text → List LicenseOrder → List LicenseOrder
of_status status [] = []
of_status status (o ∷ orders) =
    let rest = of_status status orders in
    if eqb status [] || eqb o.status status then o ∷ rest else rest

select_orders-of_everyone :
    (status : Text) (rows : List LicenseOrder)
    → select_orders (record { status = status; user_id = 0 }) rows ≡ of_status status rows
unfolding select_orders is_listed
select_orders-of_everyone status [] = refl
select_orders-of_everyone status (o ∷ rows) =
    elim (Bool-cases (eqb status [] || eqb o.status status)) [
      | inl e ↦ rw (e, select_orders-of_everyone status rows) refl
      | inr e ↦ rw (e, select_orders-of_everyone status rows) refl
    ]

list_rows-of_everyone :
    (status : Text) (rows : List LicenseOrder)
    → list_rows (record { status = status; user_id = 0 }) rows ≡ reverse (of_status status rows)
unfolding list_rows
list_rows-of_everyone status rows = ap reverse (select_orders-of_everyone status rows)

-- Every user's orders for a service token, and for a session those of its user alone.
abbrev pub IsExposed : Store → OrderStore → Text → Text → List LicenseOrder → Type 0
IsExposed auth st status h os =
    ((t : ServiceToken) × (found_token h auth ≡ some t)
      × (os ≡ reverse (of_status status st.orders)))
    ⊎ ((s : Session) × (get_by_token_hash h auth.sessions ≡ some s)
        × ((s.user_id ≡ 0) ⊎ All (λ o. o.user_id ≡ s.user_id) os))

abbrev Lists : (List LicenseOrder → Type 0) → OrderReply → Type 0
Lists P (listed os) = P os
Lists P _ = Unit

own-IsOwn :
    (status : Text) (s : Session) (rows : List LicenseOrder)
    → (s.user_id ≡ 0)
      ⊎ All
          (λ o. o.user_id ≡ s.user_id)
          (list_rows (record { status = status; user_id = s.user_id }) rows)
own-IsOwn status s rows = elim (Bool-cases (s.user_id == 0)) [
  | inl z ↦ inl ((==_iff s.user_id 0).0 z)
  | inr n ↦ inr (list_rows-own status s.user_id rows n)
]

has_admin_role-none : (c : Context) → c.role ≡ [] → has_admin_role c ≡ false
unfolding has_admin_role eqb
has_admin_role-none c e = simp e refl

session_user-some : (c : Context) (s : Session) → c.session ≡ some s → session_user c ≡ s.user_id
unfolding session_user
session_user-some c s e = rw e refl

list_orders-IsExposed :
    (auth : Store) (st : OrderStore) (status h : Text) (c : Context)
    → IsIdentity auth h c
    → Lists (IsExposed auth st status h) (list_orders st status c)
unfolding list_orders
list_orders-IsExposed auth st status h c (who, plain) = elim (Bool-cases st.orders_fail) [
  | inl e ↦ rw e tt
  | inr e ↦
      rw (e, has_admin_role-none c plain)
        (elim who [
          | inl (t, found, b) ↦
              rw (session_user-some c _ b) (inl (t, found, list_rows-of_everyone status st.orders))
          | inr (s, found, b) ↦
              rw (session_user-some c s b) (inr (s, found, own-IsOwn status s st.orders))
        ])
]

behind-IsExposed :
    (auth : Store) (st : OrderStore) (status : Text) (hash : Text → Text) (o : Option Text)
    (a : Reply)
    → ((c : Context) (used : List ℕ) → a ≡ passed c used → Identified hash auth o c)
    → (os : List LicenseOrder) → behind (list_orders st status) a ≡ listed os
    → (token : Text) × (o ≡ some token) × IsExposed auth st status (hash token) os
unfolding behind
behind-IsExposed auth st status hash o (passed c used) who os e =
    let (token, given, known) = who c used refl in
    (token, given, rw e at (list_orders-IsExposed auth st status (hash token) c known))
behind-IsExposed auth st status hash o (refused code message) who os e = ground arith

-- What GET /api/v1/orders lists is, for a request with a service token, whatever its scopes, all orders
-- of all users that have the wanted status, the last first; and for a session of a user other than 0
-- it holds orders of that user alone.
pub orders_route-IsExposed :
    (hash : Text → Text) (now : ℕ) (auth : Store) (st : OrderStore) (status : Text) (r : Request)
    (os : List LicenseOrder)
    → orders_route hash now auth st status r ≡ listed os
    → (token : Text) × (token_of r ≡ some token) × IsExposed auth st status (hash token) os
unfolding orders_route
orders_route-IsExposed hash now auth st status r =
    behind-IsExposed auth st status hash _ _ (require_auth-Identified hash now auth r)
