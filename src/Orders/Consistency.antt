-- ===== src/Orders/Consistency.antt =====
-- What the handlers of internal/apihttp/orders.go and plans.go keep of the tables.
use sigarda_panel.Common.{
  ℕ, Bool, true, false, not, ◌≡◌, ◌||◌, refl, arith, List, [], ◌∷◌, Option, none, some,
  if◌then◌else◌, All-append, All-imp,
}
use sigarda_panel.Common.Int.{ℤ}
use sigarda_panel.Text.{Text, eqb}
use sigarda_panel.Auth.Guard.{Context}
use sigarda_panel.SiteInput.Values.{member}
use sigarda_panel.Sites.Rules.{parse_id}
use sigarda_panel.Orders.Table.{
  LicenseOrder, Plan, refers, has_user, insert_order, insert_plan, is_referenced,
}
use sigarda_panel.Orders.Handlers.{
  OrderStore, OrderBody, StatusBody, valid_statuses, new_order, order_plan, create_order,
  set_order_status, update_order_of, update_order_status, create_order_for, found_plan, found_order,
  positive_id,
}
use sigarda_panel.Orders.Plans.{
  PlanBody, PlanChange, create_plan, store_plan, update_plan, delete_plan_at, delete_plan,
  set_plan_of_user, assign_plan, change_plan, changed_plan, update_plan_at, assign_found, assign_to,
  assign_plan_at,
}
use sigarda_panel.Orders.Soundness.{
  AllSound, is_sound-parts, is_sound-of_parts, AllSound-update_status, AllSound-delete_plan,
  pending_valid, refers-parts, is_referenced-none, has_plan-append, has_plan-update,
  has_user-update,
}

-- Every order has one of the four statuses and refers to a user and a plan that are there.
pub record IsConsistent (st : OrderStore) : Type 0 where
  pub sound : AllSound st.users st.plans st.orders

pub data OrderCall : Type 0 where
  create_order_call : Option OrderBody → Context → OrderCall
  update_order_call : Text → Option StatusBody → Context → OrderCall
  create_plan_call : Option PlanBody → OrderCall
  update_plan_call : Text → Option PlanChange → OrderCall
  delete_plan_call : Text → OrderCall
  assign_plan_call : Text → Option ℤ → OrderCall

unfoldable pub execute : ℕ → OrderStore → OrderCall → OrderStore
execute now st (create_order_call body c) = (create_order now st body c).0
execute now st (update_order_call id body c) = (update_order_status now st id body c).0
execute now st (create_plan_call body) = (create_plan now st body).0
execute now st (update_plan_call id body) = (update_plan now st id body).0
execute now st (delete_plan_call id) = (delete_plan st id).0
execute now st (assign_plan_call id body) = (assign_plan st id body).0

abbrev Keeps {ℓ} : {R : Type ℓ} → OrderStore × R → Type 0
Keeps x = IsConsistent x.0

if-Keeps {ℓ} :
    {R : Type ℓ} (c : Bool) (x y : OrderStore × R)
    → (c ≡ true → Keeps x)
    → (c ≡ false → Keeps y)
    → Keeps (if c then x else y)
if-Keeps true x y hx hy = hx refl
if-Keeps false x y hx hy = hy refl

module _ (now : ℕ) (st : OrderStore) (h : IsConsistent st) where
  order_plan-Keeps :
      (b : OrderBody) (c : Context) (id : ℕ) (p : Option Plan) → Keeps (order_plan now st b c id p)
  unfolding order_plan insert_order
  order_plan-Keeps b c id none = h
  order_plan-Keeps b c id (some plan) =
      if-Keeps (not plan.is_active) _ _ (λ e. h)
        (λ active.
          if-Keeps (st.writes_fail || not (refers st.users st.plans (new_order b id plan c))) _ _
            (λ e. h)
            (λ e.
              let (u, p) =
                refers-parts st.writes_fail st.users st.plans (new_order b id plan c) e in
              record {
                sound =
                    All-append _ st.orders _ h.sound
                      (is_sound-of_parts st.users st.plans _ pending_valid u p, tt);
              }))

  set_order_status-Keeps :
      (b : StatusBody) (c : Context) (id : ℕ) (o : Option LicenseOrder)
      → member b.status valid_statuses ≡ true
      → Keeps (set_order_status now st b c id o)
  unfolding set_order_status
  set_order_status-Keeps b c id none v = h
  set_order_status-Keeps b c id (some o) v =
      if-Keeps (st.writes_fail || not (has_user _ st.users)) _ _ (λ e. h)
        (λ e. record {
          sound = AllSound-update_status st.users st.plans now id _ _ _ st.orders v h.sound;
        })

  create_plan-Keeps : (body : Option PlanBody) → Keeps (create_plan now st body)
  unfolding create_plan insert_plan
  create_plan-Keeps none = h
  create_plan-Keeps (some b) =
      if-Keeps (eqb b.name [] || eqb b.slug []) _ _ (λ e. h)
        (λ e.
          if-Keeps (st.writes_fail || _) _ _ (λ e. h)
            (λ e. record {
              sound =
                  All-imp _ _
                    (λ o sound.
                      let (m, u, p) = is_sound-parts st.users st.plans o sound in
                      is_sound-of_parts st.users _ o m u (has_plan-append o.plan_id st.plans _ p))
                    st.orders h.sound;
            }))

  store_plan-Keeps : (p : Plan) → Keeps (store_plan now st p)
  unfolding store_plan
  store_plan-Keeps edit =
      if-Keeps (st.writes_fail || _) _ _ (λ e. h)
        (λ e. record {
          sound =
              All-imp _ _
                (λ o sound.
                  let (m, u, p) = is_sound-parts st.users st.plans o sound in
                  is_sound-of_parts st.users _ o m u
                    (rw (has_plan-update now o.plan_id edit st.plans) p))
                st.orders h.sound;
        })

  delete_plan_at-Keeps : (id : Option ℕ) → Keeps (delete_plan_at st id)
  unfolding delete_plan_at
  delete_plan_at-Keeps none = h
  delete_plan_at-Keeps (some id) =
      if-Keeps (st.writes_fail || is_referenced id st.users st.orders) _ _ (λ e. h)
        (λ e. record {
          sound =
              AllSound-delete_plan st.users st.plans id st.orders
                (is_referenced-none st.writes_fail id st.users st.orders e) h.sound;
        })

  set_plan_of_user-Keeps :
      (user : ℕ) (wanted : ℤ) (plan_id : Option ℕ) → Keeps (set_plan_of_user st user wanted plan_id)
  unfolding set_plan_of_user
  set_plan_of_user-Keeps user wanted plan_id =
      if-Keeps st.writes_fail _ _ (λ e. h)
        (λ e. record {
          sound =
              All-imp _ _
                (λ o sound.
                  let (m, u, p) = is_sound-parts st.users st.plans o sound in
                  is_sound-of_parts _ st.plans o m
                    (rw (has_user-update o.user_id user plan_id st.users) u) p)
                st.orders h.sound;
        })

  create_order_for-Keeps :
      (b : OrderBody) (c : Context) (id : Option ℕ) → Keeps (create_order_for now st b c id)
  unfolding create_order_for
  create_order_for-Keeps b c none = h
  create_order_for-Keeps b c (some id) = order_plan-Keeps b c id (found_plan st id)

  create_order-Keeps : (b : Option OrderBody) (c : Context) → Keeps (create_order now st b c)
  unfolding create_order
  create_order-Keeps none c = h
  create_order-Keeps (some b) c = create_order_for-Keeps b c (positive_id b.plan_id)

  update_order_of-Keeps :
      (b : Option StatusBody) (c : Context) (id : Option ℕ) → Keeps (update_order_of now st b c id)
  unfolding update_order_of
  update_order_of-Keeps b c none = h
  update_order_of-Keeps none c (some id) = h
  update_order_of-Keeps (some b) c (some id) =
      if-Keeps (not (member b.status valid_statuses)) _ _ (λ e. h)
        (λ e. set_order_status-Keeps b c id (found_order st id) (ground arith))

  change_plan-Keeps :
      (p : Option Plan) (body : Option PlanChange) → Keeps (change_plan now st p body)
  unfolding change_plan
  change_plan-Keeps none body = h
  change_plan-Keeps (some p) none = h
  change_plan-Keeps (some p) (some b) = store_plan-Keeps (changed_plan b p)

  update_plan_at-Keeps :
      (body : Option PlanChange) (id : Option ℕ) → Keeps (update_plan_at now st body id)
  unfolding update_plan_at
  update_plan_at-Keeps body none = h
  update_plan_at-Keeps body (some id) = change_plan-Keeps (found_plan st id) body

  assign_found-Keeps :
      (user : ℕ) (wanted : ℤ) (id : ℕ) (p : Option Plan) → Keeps (assign_found st user wanted id p)
  unfolding assign_found
  assign_found-Keeps user wanted id none = h
  assign_found-Keeps user wanted id (some p) = set_plan_of_user-Keeps user wanted (some id)

  assign_to-Keeps : (user : ℕ) (wanted : ℤ) (id : Option ℕ) → Keeps (assign_to st user wanted id)
  unfolding assign_to
  assign_to-Keeps user wanted none = set_plan_of_user-Keeps user wanted none
  assign_to-Keeps user wanted (some id) = assign_found-Keeps user wanted id (found_plan st id)

  assign_plan_at-Keeps : (body : Option ℤ) (user : Option ℕ) → Keeps (assign_plan_at st body user)
  unfolding assign_plan_at
  assign_plan_at-Keeps body none = h
  assign_plan_at-Keeps none (some user) =
      if-Keeps (st.users_fail || not (has_user user st.users)) _ _ (λ e. h) (λ e. h)
  assign_plan_at-Keeps (some wanted) (some user) =
      if-Keeps (st.users_fail || not (has_user user st.users)) _ _ (λ e. h)
        (λ e. assign_to-Keeps user wanted (positive_id wanted))

  execute-Keeps : (call : OrderCall) → IsConsistent (execute now st call)
  unfolding execute update_order_status update_plan delete_plan assign_plan
  execute-Keeps (create_order_call body c) = create_order-Keeps body c
  execute-Keeps (update_order_call id body c) = update_order_of-Keeps body c (parse_id id)
  execute-Keeps (create_plan_call body) = create_plan-Keeps body
  execute-Keeps (update_plan_call id body) = update_plan_at-Keeps body (parse_id id)
  execute-Keeps (delete_plan_call id) = delete_plan_at-Keeps (parse_id id)
  execute-Keeps (assign_plan_call id body) = assign_plan_at-Keeps body (parse_id id)

-- Each call with its time.
unfoldable pub execute_all : OrderStore → List (ℕ × OrderCall) → OrderStore
execute_all st [] = st
execute_all st ((now, call) ∷ calls) = execute_all (execute now st call) calls

-- Where every order has one of the four statuses and refers to a user and to a plan that are there, that
-- is so after any sequence of calls of the six handlers that write orders, plans and users' plans,
-- whatever their times and arguments.
pub execute_all-IsConsistent :
    (calls : List (ℕ × OrderCall)) (st : OrderStore)
    → IsConsistent st
    → IsConsistent (execute_all st calls)
unfolding execute_all
execute_all-IsConsistent [] st h = h
execute_all-IsConsistent ((now, call) ∷ calls) st h =
    execute_all-IsConsistent calls (execute now st call) (execute-Keeps now st h call)
