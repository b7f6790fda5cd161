-- ===== src/Orders/Tests.antt =====
-- Orders on concrete tables, and a run of each theorem.
use sigarda_panel.Common.{ℕ, true, List, false, ◌≡◌, refl, [], ◌∷◌, ◌++◌, none, some}
use sigarda_panel.Common.Int.{pos}
use sigarda_panel.Text.{Text, codes}
use sigarda_panel.Auth.Sessions.{ServiceToken}
use sigarda_panel.Auth.Guard.{Store, Request, Context, token_of, token_session}
use sigarda_panel.Orders.Table.{LicenseOrder, Plan}
use sigarda_panel.Orders.Handlers.{
  OrderStore, StatusBody, refused, listed, orders_route, update_order_status,
}
use sigarda_panel.Orders.Plans.{plan_refused, delete_plan}
use sigarda_panel.Orders.Consistency.{
  IsConsistent, OrderCall, update_order_call, update_plan_call, assign_plan_call, delete_plan_call,
  execute_all, execute_all-IsConsistent,
}
use sigarda_panel.Orders.Exposure.{IsExposed, orders_route-IsExposed}

abbrev hashed : Text → Text
hashed t = 1 ∷ t

abbrev token : Text
token = codes "0123456789abcdef0123456789abcdef0123456789abcdef0123456789abcdef"

abbrev auth : Store
auth = record {
  service_tokens = record { id = 3; key_hash = hashed token; scopes = []; expires_at = none } ∷ [];
  service_tokens_fail = false;
  sessions = [];
  sessions_fail = false;
  users = [];
  users_fail = false;
}

abbrev order : ℕ → ℕ → LicenseOrder
order id user = record {
  id = id;
  user_id = user;
  plan_id = 1;
  status = codes "pending";
  payment_method = none;
  payment_proof = none;
  amount_idr = pos 50000;
  notes = none;
  admin_notes = none;
  approved_by = none;
  created_at = 0;
  updated_at = 0;
}

abbrev plan : Plan
plan = record {
  id = 1;
  name = codes "Pro";
  slug = codes "pro";
  price_idr = pos 50000;
  billing_cycle = codes "monthly";
  features = codes "{}";
  is_active = true;
  created_at = 0;
  updated_at = 0;
}

abbrev store : OrderStore
store = record {
  orders = order 1 7 ∷ order 2 8 ∷ [];
  orders_fail = false;
  writes_fail = false;
  next_order = 3;
  plans = plan ∷ [];
  plans_fail = false;
  next_plan = 2;
  users = record { id = 7; plan_id = some 1 } ∷ record { id = 8; plan_id = none } ∷ [];
  users_fail = false;
}

abbrev request : Request
request = record { authorization = codes "Bearer " ++ token; cookie = none }

-- A token without any scope lists the orders of the users 7 and 8.
all_listed : orders_route hashed 5 auth store [] request ≡ listed (order 2 8 ∷ order 1 7 ∷ [])
unfolding orders_route sigarda_panel.Auth.Guard.require_auth sigarda_panel.Text.cut
    sigarda_panel.Auth.Sessions.get_by_key_hash sigarda_panel.Auth.Sessions.first
    sigarda_panel.Orders.Table.list_rows
all_listed = refl

orders_route-IsExposed_example :
    (t : Text) × (token_of request ≡ some t)
    × IsExposed auth store [] (hashed t) (order 2 8 ∷ order 1 7 ∷ [])
orders_route-IsExposed_example =
    orders_route-IsExposed hashed 5 auth store [] request (order 2 8 ∷ order 1 7 ∷ []) all_listed

-- The context of a service token with the scope admin.
abbrev by_token : Context
by_token = record {
  session = some (
      token_session
        (record { id = 3; key_hash = hashed token; scopes = codes "admin"; expires_at = none }));
  user_id = 0;
  scopes = codes "admin";
  role = codes "service_token";
}

abbrev approval : StatusBody
approval = record { status = codes "approved"; admin_notes = [] }

-- No user has the id 0, so that a token cannot approve an order.
token_cannot_approve :
    update_order_status 9 store (codes "2") (some approval) by_token
    ≡ (store, refused 500 "failed to update order")
unfolding update_order_status sigarda_panel.Sites.Rules.parse_id sigarda_panel.Common.Int.atoi
    sigarda_panel.SiteInput.Values.member sigarda_panel.Orders.Table.get_order_by_id
    sigarda_panel.Auth.Sessions.first sigarda_panel.Orders.Table.has_user
    sigarda_panel.Orders.Handlers.session_user
token_cannot_approve = refl

-- A plan that an order refers to stays.
plan_kept : delete_plan store (codes "1") ≡ (store, plan_refused 500 "failed to delete plan")
unfolding delete_plan sigarda_panel.Sites.Rules.parse_id sigarda_panel.Common.Int.atoi
    sigarda_panel.Orders.Table.is_referenced
plan_kept = refl

store-IsConsistent : IsConsistent store
unfolding sigarda_panel.Orders.Soundness.is_sound sigarda_panel.SiteInput.Values.member
store-IsConsistent = record { sound = (refl, (refl, tt)) }

abbrev calls : List (ℕ × OrderCall)
calls =
    (9, update_order_call (codes "2") (some approval) by_token)
    ∷ (10, update_plan_call (codes "1") none)
    ∷ (11, assign_plan_call (codes "7") (some (pos 0)))
    ∷ (12, delete_plan_call (codes "1"))
    ∷ []

execute_all-IsConsistent_example : IsConsistent (execute_all store calls)
execute_all-IsConsistent_example = execute_all-IsConsistent calls store store-IsConsistent
