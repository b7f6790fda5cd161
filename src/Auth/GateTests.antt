-- ===== src/Auth/GateTests.antt =====
-- Uses of the theorems on tiers and on tokens against cross-site requests.
use sigarda_panel.Common.{
  if◌then◌else◌, inl, ◌+◌, ◌≡◌, ◌≢◌, ◌≤◌, refl, ◌&&◌, true, false, some, List, [], ◌∷◌, leb, arith,
}
use sigarda_panel.Text.{Text, codes, eqb}
use sigarda_panel.Text.Equality.{eqb_iff}
use sigarda_panel.Auth.Features.{
  tier_level, tier_pro, tier_free, tier_max, has_feature, lookup, feature_tier_map,
}
use sigarda_panel.Auth.Tiers.{IsLikeNone, require_feature_max}
use sigarda_panel.Auth.Csrf.{
  missing, invalid, CsrfRequest, next, hour, new_tokens, generate_token, validate_token,
  csrf_middleware,
}
use sigarda_panel.Auth.Forgery.{
  Change, generated, cleaned, change_all, Leaves, validate_token-generate_token,
  csrf_middleware-generate_token, NeedsToken,
}

free_below_pro : tier_level tier_free ≤ tier_level tier_pro
unfolding tier_level
free_below_pro = omega arith

free_php : has_feature tier_free "php" ≡ true
unfolding has_feature
free_php = refl

docker_listed : lookup "docker" feature_tier_map ≡ some tier_pro
unfolding lookup
docker_listed = refl

require_feature_max_example : (has_feature tier_max "docker" ≡ true) × IsLikeNone "docker"
require_feature_max_example = require_feature_max "docker" tier_pro docker_listed

abbrev changes : List Change
changes = generated [] (codes "bb") 2 ∷ cleaned 3 ∷ []

two_sessions : codes "s1" ≢ []
two_sessions e = cc

changes-Leaves : Leaves (codes "s1") 4 changes
changes-Leaves = (two_sessions, (omega arith, tt))

validate_token-generate_token_example :
    validate_token 4
      (codes "s1")
      (codes "aa")
      (change_all changes (generate_token (codes "aa") 1 (codes "s1") new_tokens))
    ≡ (eqb (codes "aa") (codes "aa") && leb 4 (1 + hour))
validate_token-generate_token_example =
    validate_token-generate_token (codes "s1") (codes "aa") (codes "aa") 1 4 changes new_tokens
      changes-Leaves

abbrev post : CsrfRequest
post = record {
  method = codes "POST";
  path = codes "/api/v1/sites";
  session_cookie = some (codes "s1");
  authorization = [];
  header = codes "aa";
  form_value = [];
}

apart : (s t : Text) → eqb s t ≡ false → s ≢ t
apart s t h e = absurd (ground (arith, eqb_iff s t))

post-NeedsToken : NeedsToken post
unfolding eqb
post-NeedsToken = record {
  not_get = apart _ _ refl;
  not_head = apart _ _ refl;
  not_options = apart _ _ refl;
  not_login = apart _ _ refl;
  not_register = apart _ _ refl;
  not_health = apart _ _ refl;
  not_api_health = apart _ _ refl;
}

s1_named : codes "s1" ≢ []
s1_named e = cc

post_header : post.header ≢ []
post_header e = cc

csrf_middleware-generate_token_example :
    csrf_middleware 4
      (change_all changes (generate_token (codes "aa") 1 (codes "s1") new_tokens))
      post
    ≡ (if eqb (codes "aa") []
        then missing
        else if eqb (codes "aa") (codes "aa") && leb 4 (1 + hour)
        then next
        else invalid)
csrf_middleware-generate_token_example =
    csrf_middleware-generate_token (codes "s1") (codes "aa") (codes "aa") 1 4 changes new_tokens
      post changes-Leaves s1_named (inl refl) (inl (post_header, refl)) post-NeedsToken
