-- ===== src/Orders/Handlers.antt =====
-- internal/apihttp/orders.go, with hasAdminRole of plans.go and the routes of router.go. The names that
-- the answers add to an order are left out. A key that refers to no row makes a statement fail.
use Prim.Native.String.{String}
use mathlib.Core.Bool.{not}
use sigarda_panel.Common.{
  ℕ, suc, Bool, ◌&&◌, ◌||◌, List, [], ◌∷◌, Option, none, some, if◌then◌else◌, ltb, ◌==◌,
}
use sigarda_panel.Common.Int.{ℤ, pos, negsuc}
use sigarda_panel.Text.{Text, codes, eqb}
use sigarda_panel.Auth.Roles.{admin, super_admin}
use sigarda_panel.Auth.Guard.{Store, Request, Context, Reply, passed, require_auth}
use sigarda_panel.Sites.Rules.{parse_id}
use sigarda_panel.SiteInput.Values.{member}
use sigarda_panel.Orders.Table.{
  LicenseOrder, Plan, PlanUser, refers, has_user, list_rows, insert_order, get_order_by_id,
  update_status_row, get_plan_by_id,
}

-- The tables, whether the queries of each fail, and whether the statements that write orders do.
pub record OrderStore : Type 0 where
  pub orders : List LicenseOrder
  pub orders_fail : Bool
  pub writes_fail : Bool
  pub next_order : ℕ
  pub plans : List Plan
  pub plans_fail : Bool
  pub next_plan : ℕ
  pub users : List PlanUser
  pub users_fail : Bool

pub data OrderReply : Type 0 where
  refused : ℕ → String → OrderReply
  listed : List LicenseOrder → OrderReply
  shown : LicenseOrder → OrderReply
  created : LicenseOrder → OrderReply
  updated : ℕ → Text → OrderReply

unfoldable pub has_admin_role : Context → Bool
has_admin_role c = eqb c.role admin || eqb c.role super_admin

-- sess.UserID; RequireAuth sets a session for every request that gets here.
unfoldable pub session_user : Context → ℕ
session_user c = elim c.session [ none ↦ 0 | some s ↦ s.user_id ]

unfoldable pub list_orders : OrderStore → Text → Context → OrderReply
unfolding has_admin_role session_user
list_orders st status c =
    let user = if has_admin_role c then 0 else session_user c in
    if st.orders_fail
    then refused 500 "failed to list orders"
    else listed (list_rows (record { status = status; user_id = user }) st.orders)

pub record OrderBody : Type 0 where
  pub plan_id : ℤ
  pub payment_method : Text
  pub payment_proof : Text
  pub notes : Text

unfoldable pub positive_id : ℤ → Option ℕ
positive_id (pos n) = if ltb 0 n then some n else none
positive_id (negsuc n) = none

abbrev null_text : Text → Option Text
null_text s = if eqb s [] then none else some s

unfoldable pub found_plan : OrderStore → ℕ → Option Plan
found_plan st id = if st.plans_fail then none else get_plan_by_id id st.plans

abbrev pub new_order : OrderBody → ℕ → Plan → Context → LicenseOrder
new_order b plan_id plan c = record {
  id = 0;
  user_id = session_user c;
  plan_id = plan_id;
  status = codes "pending";
  payment_method = null_text b.payment_method;
  payment_proof = null_text b.payment_proof;
  amount_idr = plan.price_idr;
  notes = null_text b.notes;
  admin_notes = none;
  approved_by = none;
  created_at = 0;
  updated_at = 0;
}

unfoldable pub order_plan :
    ℕ → OrderStore → OrderBody → Context → ℕ → Option Plan → OrderStore × OrderReply
unfolding insert_order
order_plan now st b c id none = (st, refused 404 "plan not found")
order_plan now st b c id (some plan) =
    let order = new_order b id plan c in
    let (rows, o) = insert_order now st.next_order order st.orders in
    let next : OrderStore = record st { orders = rows; next_order = suc st.next_order } in
    if not plan.is_active
    then (st, refused 400 "plan is not active")
    else if st.writes_fail || not (refers st.users st.plans order)
    then (st, refused 500 "failed to create order")
    else (next, created o)

unfoldable pub create_order_for :
    ℕ → OrderStore → OrderBody → Context → Option ℕ → OrderStore × OrderReply
unfolding order_plan found_plan
create_order_for now st b c none = (st, refused 400 "plan_id required")
create_order_for now st b c (some id) = order_plan now st b c id (found_plan st id)

unfoldable pub create_order : ℕ → OrderStore → Option OrderBody → Context → OrderStore × OrderReply
unfolding create_order_for positive_id
create_order now st none c = (st, refused 400 "invalid request body")
create_order now st (some b) c = create_order_for now st b c (positive_id b.plan_id)

unfoldable pub found_order : OrderStore → ℕ → Option LicenseOrder
found_order st id = if st.orders_fail then none else get_order_by_id id st.orders

unfoldable pub show_order : Context → Option LicenseOrder → OrderReply
unfolding has_admin_role session_user
show_order c none = refused 404 "order not found"
show_order c (some o) =
    if not (has_admin_role c) && not (o.user_id == session_user c)
    then refused 404 "order not found"
    else shown o

unfoldable pub get_order_of : OrderStore → Context → Option ℕ → OrderReply
unfolding show_order found_order
get_order_of st c none = refused 400 "invalid order id"
get_order_of st c (some id) = show_order c (found_order st id)

unfoldable pub get_order : OrderStore → Text → Context → OrderReply
unfolding get_order_of
get_order st id c = get_order_of st c (parse_id id)

pub record StatusBody : Type 0 where
  pub status : Text
  pub admin_notes : Text

abbrev pub valid_statuses : List Text
valid_statuses = codes "pending" ∷ codes "approved" ∷ codes "rejected" ∷ codes "expired" ∷ []

unfoldable pub set_order_status :
    ℕ → OrderStore → StatusBody → Context → ℕ → Option LicenseOrder → OrderStore × OrderReply
unfolding update_status_row
set_order_status now st b c id none = (st, refused 404 "order not found")
set_order_status now st b c id (some o) =
    let rows = update_status_row now id b.status b.admin_notes (session_user c) st.orders in
    let next : OrderStore = record st { orders = rows } in
    if st.writes_fail || not (has_user (session_user c) st.users)
    then (st, refused 500 "failed to update order")
    else (next, updated id b.status)

unfoldable pub update_order_of :
    ℕ → OrderStore → Option StatusBody → Context → Option ℕ → OrderStore × OrderReply
unfolding set_order_status found_order
update_order_of now st body c none = (st, refused 400 "invalid order id")
update_order_of now st none c (some id) = (st, refused 400 "invalid request body")
update_order_of now st (some b) c (some id) =
    if not (member b.status valid_statuses)
    then (st, refused 400 "invalid status: must be pending, approved, rejected, or expired")
    else set_order_status now st b c id (found_order st id)

unfoldable pub update_order_status :
    ℕ → OrderStore → Text → Option StatusBody → Context → OrderStore × OrderReply
unfolding update_order_of
update_order_status now st id body c = update_order_of now st body c (parse_id id)

unfoldable pub behind : (Context → OrderReply) → Reply → OrderReply
behind next (passed c used) = next c
behind next (Reply.refused status message) = refused status message

-- GET /api/v1/orders and GET /api/v1/orders/:id, which stand behind RequireAuth alone.
unfoldable pub orders_route : (Text → Text) → ℕ → Store → OrderStore → Text → Request → OrderReply
unfolding behind list_orders
orders_route hash now auth st status r =
    behind (list_orders st status) (require_auth hash now auth r)

unfoldable pub order_route : (Text → Text) → ℕ → Store → OrderStore → Text → Request → OrderReply
unfolding behind get_order
order_route hash now auth st id r = behind (get_order st id) (require_auth hash now auth r)
