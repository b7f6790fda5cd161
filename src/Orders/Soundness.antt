-- ===== src/Orders/Soundness.antt =====
-- The orders of internal/store/orders.go that refer to a user and a plan that are there, under the
-- statements.
use sigarda_panel.Common.{
  ℕ, Bool, true, false, not, ◌≡◌, ◌&&◌, ◌||◌, refl, arith, List, [], ◌∷◌, ◌++◌, Option, ◌==◌, any,
  Bool-cases, inl, inr, All,
}
use sigarda_panel.Text.{Text, codes, eqb}
use sigarda_panel.SiteInput.Values.{member}
use sigarda_panel.Orders.Table.{
  LicenseOrder, Plan, PlanUser, refers, has_plan, has_user, update_status_row, update_plan_row,
  delete_plan_row, is_referenced, update_plan_of_user,
}
use sigarda_panel.Orders.Handlers.{valid_statuses}

pub has_plan-append :
    (id : ℕ) (plans more : List Plan)
    → has_plan id plans ≡ true
    → has_plan id (plans ++ more) ≡ true
unfolding has_plan
has_plan-append id [] more h = ground arith
has_plan-append id (p ∷ plans) more h = elim (Bool-cases (p.id == id)) [
  | inl e ↦ simp e refl
  | inr e ↦ simp e (has_plan-append id plans more (simp e at h))
]

pub has_plan-update :
    (now id : ℕ) (p : Plan) (plans : List Plan)
    → has_plan id (update_plan_row now p plans) ≡ has_plan id plans
unfolding has_plan update_plan_row
has_plan-update now id p [] = refl
has_plan-update now id p (q ∷ plans) = let ih = has_plan-update now id p plans in ground arith

has_plan-delete :
    (id other : ℕ) (plans : List Plan)
    → has_plan id plans ≡ true
    → (id == other) ≡ false
    → has_plan id (delete_plan_row other plans) ≡ true
unfolding has_plan delete_plan_row
has_plan-delete id other [] h n = ground arith
has_plan-delete id other (q ∷ plans) h n = elim (Bool-cases (q.id == other)) [
  | inl d ↦
      let rest : has_plan id plans ≡ true = ground arith in
      rw d (has_plan-delete id other plans rest n)
  | inr d ↦ elim (Bool-cases (q.id == id)) [
    | inl e ↦ simp (d, e) refl
    | inr e ↦ simp (d, e) (has_plan-delete id other plans (simp e at h) n)
  ]
]

pub has_user-update :
    (id other : ℕ) (plan_id : Option ℕ) (users : List PlanUser)
    → has_user id (update_plan_of_user other plan_id users) ≡ has_user id users
unfolding has_user update_plan_of_user
has_user-update id other plan_id [] = refl
has_user-update id other plan_id (u ∷ users) =
    let ih = has_user-update id other plan_id users in ground arith

unfoldable pub is_sound : List PlanUser → List Plan → LicenseOrder → Bool
unfolding refers
is_sound users plans o = member o.status valid_statuses && refers users plans o

abbrev pub AllSound : List PlanUser → List Plan → List LicenseOrder → Type 0
AllSound users plans = All (λ o. is_sound users plans o ≡ true)

pub is_sound-parts :
    (users : List PlanUser) (plans : List Plan) (o : LicenseOrder)
    → is_sound users plans o ≡ true
    → (member o.status valid_statuses ≡ true)
      × (has_user o.user_id users ≡ true)
      × (has_plan o.plan_id plans ≡ true)
unfolding is_sound refers
is_sound-parts users plans o h = (ground arith, ground arith, ground arith)

pub is_sound-of_parts :
    (users : List PlanUser) (plans : List Plan) (o : LicenseOrder)
    → member o.status valid_statuses ≡ true
    → has_user o.user_id users ≡ true
    → has_plan o.plan_id plans ≡ true
    → is_sound users plans o ≡ true
unfolding is_sound refers
is_sound-of_parts users plans o a b c = simp (a, b, c) refl

pub AllSound-update_status :
    (users : List PlanUser) (plans : List Plan) (now id : ℕ) (status notes : Text) (approver : ℕ)
    (orders : List LicenseOrder)
    → member status valid_statuses ≡ true
    → AllSound users plans orders
    → AllSound users plans (update_status_row now id status notes approver orders)
unfolding update_status_row
AllSound-update_status users plans now id status notes approver [] v h = tt
AllSound-update_status users plans now id status notes approver (o ∷ orders) v h =
    let rest = AllSound-update_status users plans now id status notes approver orders v h.1 in
    let (m, u, p) = is_sound-parts users plans o h.0 in
    elim (Bool-cases (o.id == id)) [
      | inl e ↦ rw e (is_sound-of_parts users plans _ v u p, rest)
      | inr e ↦ rw e (h.0, rest)
    ]

pub AllSound-delete_plan :
    (users : List PlanUser) (plans : List Plan) (id : ℕ) (orders : List LicenseOrder)
    → any (λ o. o.plan_id == id) orders ≡ false
    → AllSound users plans orders
    → AllSound users (delete_plan_row id plans) orders
AllSound-delete_plan users plans id [] n h = tt
AllSound-delete_plan users plans id (o ∷ orders) n h =
    let (m, u, p) = is_sound-parts users plans o h.0 in
    let other : (o.plan_id == id) ≡ false = ground arith in
    (
      is_sound-of_parts users _ o m u (has_plan-delete o.plan_id id plans p other),
      AllSound-delete_plan users plans id orders (ground arith) h.1,
    )

pub pending_valid : member (codes "pending") valid_statuses ≡ true
unfolding member eqb
pending_valid = refl

pub refers-parts :
    (fails : Bool) (users : List PlanUser) (plans : List Plan) (o : LicenseOrder)
    → (fails || not (refers users plans o)) ≡ false
    → (has_user o.user_id users ≡ true) × (has_plan o.plan_id plans ≡ true)
unfolding refers
refers-parts fails users plans o h = (ground arith, ground arith)

pub is_referenced-none :
    (fails : Bool) (id : ℕ) (users : List PlanUser) (orders : List LicenseOrder)
    → (fails || is_referenced id users orders) ≡ false
    → any (λ o. o.plan_id == id) orders ≡ false
unfolding is_referenced
is_referenced-none fails id users orders h = ground arith
