-- ===== src/Orders/Plans.antt =====
-- internal/apihttp/plans.go. Where the database refuses a plan, its message ends the answer of the
-- source; only the beginning stands here.
use Prim.Native.String.{String}
use sigarda_panel.Common.{
  ℕ, suc, Bool, true, not, ◌||◌, List, [], Option, none, some, if◌then◌else◌,
}
use sigarda_panel.Common.Int.{ℤ}
use sigarda_panel.Text.{Text, codes, eqb}
use sigarda_panel.Auth.Guard.{Context}
use sigarda_panel.Sites.Rules.{parse_id}
use sigarda_panel.Orders.Table.{
  Plan, has_user, is_taken, insert_plan, list_plan_rows, update_plan_row, delete_plan_row,
  is_referenced, update_plan_of_user,
}
use sigarda_panel.Orders.Handlers.{OrderStore, has_admin_role, positive_id, found_plan}

pub data PlanReply : Type 0 where
  plan_refused : ℕ → String → PlanReply
  plans_listed : List Plan → PlanReply
  plan_shown : Plan → PlanReply
  plan_created : Plan → PlanReply
  plan_updated : Plan → PlanReply
  plan_deleted : ℕ → PlanReply
  plan_assigned : ℕ → ℤ → PlanReply

unfoldable pub list_plans : OrderStore → Context → PlanReply
list_plans st c =
    if st.plans_fail
    then plan_refused 500 "failed to list plans"
    else plans_listed (list_plan_rows (not (has_admin_role c)) st.plans)

pub record PlanBody : Type 0 where
  pub name : Text
  pub slug : Text
  pub price_idr : ℤ
  pub billing_cycle : Text
  pub features : Text
  pub is_active : Option Bool

abbrev text_or : Text → Text → Text
text_or default s = if eqb s [] then default else s

abbrev pub given {ℓ} : {A : Type ℓ} → A → Option A → A
given default none = default
given default (some a) = a

abbrev pub new_plan : ℕ → PlanBody → Plan
new_plan id b = record {
  id = id;
  name = b.name;
  slug = b.slug;
  price_idr = b.price_idr;
  billing_cycle = text_or (codes "monthly") b.billing_cycle;
  features = text_or (codes "{}") b.features;
  is_active = given true b.is_active;
  created_at = 0;
  updated_at = 0;
}

unfoldable pub create_plan : ℕ → OrderStore → Option PlanBody → OrderStore × PlanReply
create_plan now st none = (st, plan_refused 400 "invalid request body")
create_plan now st (some b) =
    let plan = new_plan st.next_plan b in
    let next : OrderStore = record st {
      plans = insert_plan now plan st.plans;
      next_plan = suc st.next_plan;
    } in
    if eqb b.name [] || eqb b.slug []
    then (st, plan_refused 400 "name and slug required")
    else if st.writes_fail || is_taken plan st.plans
    then (st, plan_refused 400 "insert plan")
    else (next, plan_created plan)

unfoldable show_plan : Option Plan → PlanReply
show_plan none = plan_refused 404 "plan not found"
show_plan (some p) = plan_shown p

unfoldable get_plan_of : OrderStore → Option ℕ → PlanReply
unfolding show_plan
get_plan_of st none = plan_refused 400 "invalid plan id"
get_plan_of st (some id) = show_plan (found_plan st id)

unfoldable pub get_plan : OrderStore → Text → PlanReply
unfolding get_plan_of
get_plan st id = get_plan_of st (parse_id id)

pub record PlanChange : Type 0 where
  pub name : Option Text
  pub slug : Option Text
  pub price_idr : Option ℤ
  pub billing_cycle : Option Text
  pub features : Option Text
  pub is_active : Option Bool

abbrev pub changed_plan : PlanChange → Plan → Plan
changed_plan b p = record p {
  name = given p.name b.name;
  slug = given p.slug b.slug;
  price_idr = given p.price_idr b.price_idr;
  billing_cycle = given p.billing_cycle b.billing_cycle;
  features = given p.features b.features;
  is_active = given p.is_active b.is_active;
}

unfoldable pub store_plan : ℕ → OrderStore → Plan → OrderStore × PlanReply
store_plan now st p =
    let next : OrderStore = record st { plans = update_plan_row now p st.plans } in
    if st.writes_fail || is_taken p st.plans
    then (st, plan_refused 400 "update plan")
    else (next, plan_updated p)

unfoldable pub change_plan :
    ℕ → OrderStore → Option Plan → Option PlanChange → OrderStore × PlanReply
unfolding store_plan
change_plan now st none body = (st, plan_refused 404 "plan not found")
change_plan now st (some p) none = (st, plan_refused 400 "invalid request body")
change_plan now st (some p) (some b) = store_plan now st (changed_plan b p)

unfoldable pub update_plan_at :
    ℕ → OrderStore → Option PlanChange → Option ℕ → OrderStore × PlanReply
unfolding change_plan
update_plan_at now st body none = (st, plan_refused 400 "invalid plan id")
update_plan_at now st body (some id) = change_plan now st (found_plan st id) body

unfoldable pub update_plan : ℕ → OrderStore → Text → Option PlanChange → OrderStore × PlanReply
unfolding update_plan_at
update_plan now st id body = update_plan_at now st body (parse_id id)

unfoldable pub delete_plan_at : OrderStore → Option ℕ → OrderStore × PlanReply
delete_plan_at st none = (st, plan_refused 400 "invalid plan id")
delete_plan_at st (some id) =
    let next : OrderStore = record st { plans = delete_plan_row id st.plans } in
    if st.writes_fail || is_referenced id st.users st.orders
    then (st, plan_refused 500 "failed to delete plan")
    else (next, plan_deleted id)

unfoldable pub delete_plan : OrderStore → Text → OrderStore × PlanReply
unfolding delete_plan_at
delete_plan st id = delete_plan_at st (parse_id id)

unfoldable pub set_plan_of_user : OrderStore → ℕ → ℤ → Option ℕ → OrderStore × PlanReply
set_plan_of_user st user wanted plan_id =
    let next : OrderStore = record st { users = update_plan_of_user user plan_id st.users } in
    if st.writes_fail
    then (st, plan_refused 500 "failed to assign plan")
    else (next, plan_assigned user wanted)

unfoldable pub assign_found : OrderStore → ℕ → ℤ → ℕ → Option Plan → OrderStore × PlanReply
unfolding set_plan_of_user
assign_found st user wanted id none = (st, plan_refused 404 "plan not found")
assign_found st user wanted id (some p) = set_plan_of_user st user wanted (some id)

-- No positive plan takes the plan of the user away.
unfoldable pub assign_to : OrderStore → ℕ → ℤ → Option ℕ → OrderStore × PlanReply
unfolding assign_found
assign_to st user wanted none = set_plan_of_user st user wanted none
assign_to st user wanted (some id) = assign_found st user wanted id (found_plan st id)

-- The body of the request is the plan's id.
unfoldable pub assign_plan_at : OrderStore → Option ℤ → Option ℕ → OrderStore × PlanReply
unfolding assign_to
assign_plan_at st body none = (st, plan_refused 400 "invalid user id")
assign_plan_at st body (some user) =
    if st.users_fail || not (has_user user st.users)
    then (st, plan_refused 404 "user not found")
    else elim body [
      | none ↦ (st, plan_refused 400 "invalid request body")
      | some wanted ↦ assign_to st user wanted (positive_id wanted)
    ]

unfoldable pub assign_plan : OrderStore → Text → Option ℤ → OrderStore × PlanReply
unfolding assign_plan_at
assign_plan st id body = assign_plan_at st body (parse_id id)
