-- ===== src/Auth/Tiers.antt =====
-- What the tiers of a license grant.
use Prim.Native.String.{String}
use text.Mathlib.Text.{◌==◌ as str_eq}
use sigarda_panel.Common.{
  ℕ, ◌≤◌, ◌≡◌, refl, true, List, [], ◌∷◌, Option, none, some, leb, arith, Bool-cases, inl, inr,
  &&-split, all, ◌⊎◌,
}
use sigarda_panel.Auth.Features.{
  lookup, feature_tier_map, tier_level, has_feature, grants_tier, tier_max, tier_level_num,
  feature_has_access, require_feature, feature_min_tier, allowed, forbidden, tier_free,
}

lookup-bound :
    (key : String) (entries : List (String × String)) (tier : String) (n : ℕ)
    → all (λ entry. leb (tier_level entry.1) n) entries ≡ true
    → lookup key entries ≡ some tier
    → leb (tier_level tier) n ≡ true
unfolding lookup
lookup-bound key [] tier n h e = absurd (cc)
lookup-bound key ((k, t) ∷ entries) tier n h e =
    let (low, rest) =
      &&-split (leb (tier_level t) n) (all (λ entry. leb (tier_level entry.1) n) entries) h in
    elim (Bool-cases (str_eq k key)) [
      | inl y ↦
          let q : some t ≡ some tier = simp y at e in let same : t ≡ tier = cc in rw same at low
      | inr z ↦ lookup-bound key entries tier n rest (simp z at e)
    ]

table-bound : all (λ entry. leb (tier_level entry.1) 3) feature_tier_map ≡ true
unfolding tier_level lookup
table-bound = refl

max-level : tier_level tier_max ≡ 3
unfolding tier_level lookup
max-level = refl

leb_trans : (a b c : ℕ) → leb a b ≡ true → b ≤ c → leb a c ≡ true
leb_trans a b c h le = ground arith

grants-monotone :
    (tier tier' : String) (o : Option String)
    → tier_level tier ≤ tier_level tier'
    → grants_tier tier o ≡ true
    → grants_tier tier' o ≡ true
unfolding grants_tier
grants-monotone tier tier' none le h = h
grants-monotone tier tier' (some r) le h =
    leb_trans (tier_level r) (tier_level tier) (tier_level tier') h le

-- A tier of a level no lower grants no less.
pub has_feature-monotone :
    (tier tier' feature : String)
    → tier_level tier ≤ tier_level tier'
    → has_feature tier feature ≡ true
    → has_feature tier' feature ≡ true
unfolding has_feature
has_feature-monotone tier tier' feature le h =
    grants-monotone tier tier' (lookup feature feature_tier_map) le h

grants-max :
    (o : Option String) (tier : String)
    → o ≡ some tier
    → leb (tier_level tier) 3 ≡ true
    → grants_tier tier_max o ≡ true
unfolding grants_tier
grants-max o tier e le = rw (e, max-level) le

-- What RequireFeature answers a license of the tier "max" and a request without a license.
abbrev pub IsLikeNone : String → Type 0
IsLikeNone feature =
    ((require_feature (some tier_max) feature ≡ allowed) × (require_feature none feature ≡ allowed))
    ⊎ ((require_feature (some tier_max) feature
          ≡ forbidden "feature_not_available" (feature_min_tier feature) tier_max)
        × (require_feature none feature
            ≡ forbidden "feature_not_available" (feature_min_tier feature) tier_free))

-- For a feature of the table of features, HasFeature gives it to the tier "max", but RequireFeature
-- lets a license of this tier through exactly where it lets a request without a license through, and
-- else refuses both with the same error and required tier, and with their own current tier.
pub require_feature_max :
    (feature tier : String)
    → lookup feature feature_tier_map ≡ some tier
    → (has_feature tier_max feature ≡ true) × IsLikeNone feature
unfolding has_feature require_feature feature_has_access tier_level_num
require_feature_max feature tier e = (
  grants-max (lookup feature feature_tier_map) tier e
      (lookup-bound feature feature_tier_map tier 3 table-bound e),
  elim (Bool-cases (leb (tier_level_num (feature_min_tier feature)) 0)) [
    | inl y ↦ inl (rw y refl, rw y refl)
    | inr n ↦ inr (rw n refl, rw n refl)
  ],
)
