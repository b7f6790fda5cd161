-- ===== src/Orders/Table.antt =====
-- internal/store/orders.go, and the plans and users of internal/store/plans.go and users.go that they refer
-- to, with the keys of internal/migrations/041_plans_orders.go. Rows stand by their id.
use mathlib.Core.List.{reverse}
use sigarda_panel.Common.{
  any, not, false, ℕ, Bool, ◌&&◌, ◌||◌, List, [], ◌∷◌, ◌++◌, Option, none, some, if◌then◌else◌,
  ◌==◌, length,
}
use sigarda_panel.Common.Int.{ℤ}
use sigarda_panel.Text.{Text, eqb}
use sigarda_panel.Auth.Sessions.{first}

pub record LicenseOrder : Type 0 where
  pub id : ℕ
  pub user_id : ℕ
  pub plan_id : ℕ
  pub status : Text
  pub payment_method : Option Text
  pub payment_proof : Option Text
  pub amount_idr : ℤ
  pub notes : Option Text
  pub admin_notes : Option Text
  pub approved_by : Option ℕ
  pub created_at : ℕ
  pub updated_at : ℕ

pub record Plan : Type 0 where
  pub id : ℕ
  pub name : Text
  pub slug : Text
  pub price_idr : ℤ
  pub billing_cycle : Text
  pub features : Text
  pub is_active : Bool
  pub created_at : ℕ
  pub updated_at : ℕ

-- A row of users, as far as plans and orders refer to it.
pub record PlanUser : Type 0 where
  pub id : ℕ
  pub plan_id : Option ℕ

-- An empty status and the user 0 ask for nothing.
pub record OrderListFilter : Type 0 where
  pub status : Text
  pub user_id : ℕ

unfoldable pub is_listed : OrderListFilter → LicenseOrder → Bool
is_listed f o =
    (eqb f.status [] || eqb o.status f.status) && (f.user_id == 0 || o.user_id == f.user_id)

unfoldable pub select_orders : OrderListFilter → List LicenseOrder → List LicenseOrder
unfolding is_listed
select_orders f [] = []
select_orders f (o ∷ orders) =
    let rest = select_orders f orders in if is_listed f o then o ∷ rest else rest

-- ORDER BY id DESC
unfoldable pub list_rows : OrderListFilter → List LicenseOrder → List LicenseOrder
unfolding select_orders
list_rows f orders = reverse (select_orders f orders)

unfoldable pub insert_order :
    ℕ → ℕ → LicenseOrder → List LicenseOrder → List LicenseOrder × LicenseOrder
insert_order now next o orders = (
  orders
      ++ record o {
        id = next;
        admin_notes = none;
        approved_by = none;
        created_at = now;
        updated_at = now;
      }
        ∷ [],
  record o { id = next },
)

unfoldable pub get_order_by_id : ℕ → List LicenseOrder → Option LicenseOrder
get_order_by_id id = first (λ o. o.id == id)

unfoldable pub update_status_row : ℕ → ℕ → Text → Text → ℕ → List LicenseOrder → List LicenseOrder
update_status_row now id status admin_notes approver [] = []
update_status_row now id status admin_notes approver (o ∷ orders) =
    (if o.id == id
      then record o {
        status = status;
        admin_notes = some admin_notes;
        approved_by = some approver;
        updated_at = now;
      }
      else o)
    ∷ update_status_row now id status admin_notes approver orders

unfoldable pub count_orders : List LicenseOrder → ℕ
count_orders orders = length orders

unfoldable pub get_plan_by_id : ℕ → List Plan → Option Plan
get_plan_by_id id = first (λ p. p.id == id)

unfoldable pub get_plan_by_slug : Text → List Plan → Option Plan
get_plan_by_slug slug = first (λ p. eqb p.slug slug)

unfoldable pub has_plan : ℕ → List Plan → Bool
has_plan id = any (λ p. p.id == id)

unfoldable pub has_user : ℕ → List PlanUser → Bool
has_user id = any (λ u. u.id == id)

-- REFERENCES users(id) and REFERENCES plans(id) of an order
unfoldable pub refers : List PlanUser → List Plan → LicenseOrder → Bool
unfolding has_plan has_user
refers users plans o = has_user o.user_id users && has_plan o.plan_id plans

-- UNIQUE on the name and on the slug, against the other rows
unfoldable pub is_taken : Plan → List Plan → Bool
is_taken p = any (λ q. not (q.id == p.id) && (eqb q.name p.name || eqb q.slug p.slug))

unfoldable pub insert_plan : ℕ → Plan → List Plan → List Plan
insert_plan now p plans = plans ++ record p { created_at = now; updated_at = now } ∷ []

unfoldable pub list_plan_rows : Bool → List Plan → List Plan
list_plan_rows active_only [] = []
list_plan_rows active_only (p ∷ plans) =
    let rest = list_plan_rows active_only plans in
    if not active_only || p.is_active then p ∷ rest else rest

unfoldable pub update_plan_row : ℕ → Plan → List Plan → List Plan
update_plan_row now p [] = []
update_plan_row now p (q ∷ plans) =
    (if q.id == p.id then record p { created_at = q.created_at; updated_at = now } else q)
    ∷ update_plan_row now p plans

unfoldable pub delete_plan_row : ℕ → List Plan → List Plan
delete_plan_row id [] = []
delete_plan_row id (p ∷ plans) =
    let rest = delete_plan_row id plans in if p.id == id then rest else p ∷ rest

unfoldable pub has_plan_id : ℕ → Option ℕ → Bool
has_plan_id id none = false
has_plan_id id (some n) = n == id

-- Whether an order or a user refers to the plan.
unfoldable pub is_referenced : ℕ → List PlanUser → List LicenseOrder → Bool
unfolding has_plan_id
is_referenced id users orders =
    any (λ o. o.plan_id == id) orders || any (λ u. has_plan_id id u.plan_id) users

unfoldable pub update_plan_of_user : ℕ → Option ℕ → List PlanUser → List PlanUser
update_plan_of_user id plan_id [] = []
update_plan_of_user id plan_id (u ∷ users) =
    (if u.id == id then record u { plan_id = plan_id } else u)
    ∷ update_plan_of_user id plan_id users
