-- ===== src/SiteInput/Tests.antt =====
-- Values that the validators take and refuse, and uses of the theorems.
use sigarda_panel.Common.{◌++◌, ◌≡◌, ◌≢◌, refl, true, false, some, none, [], ◌∷◌, All}
use sigarda_panel.Common.Check.{ok, err}
use sigarda_panel.Text.{
  Text, codes, split, cut, eqb, has_prefix, trim_space, contains_any, mem_byte,
}
use sigarda_panel.Path.{clean, segments, is_within, is_rooted}
use sigarda_panel.Path.Clean.{IsName}
use sigarda_panel.Regex.{matches}
use sigarda_panel.SiteInput.Patterns.{
  domain_re, root_path_re, proxy_pass_re, docker_port_re, docker_target_re, docker_image_re,
}
use sigarda_panel.SiteInput.Values.{
  docker_env_line, domain, php_ini, remove_newline_marks, docker_image, docker_restart,
  docker_language, member,
}
use sigarda_panel.SiteInput.Paths.{
  proxy_pass_url, root_path_allowed, root_path, under_root, is_refused_location,
}
use sigarda_panel.SiteInput.Docker.{
  DockerFields, docker_port, docker_volume, docker_options, mapping_parts, trim_prefix,
}
use sigarda_panel.SiteInput.Harmless
use sigarda_panel.SiteInput.Harmless.{
  validate, hostile, also_hostile, validate-harmless, validate-no_dash,
}
use sigarda_panel.SiteInput.Location.{IsSiteLocation, root_path_allowed-IsSiteLocation}
use sigarda_panel.SiteInput.Options.{AreSafe, docker_options-AreSafe}

domain_test : domain (codes "*.my-shop.example.com") ≡ ok
unfolding domain matches domain_re
domain_test = refl

domain_refused : domain (codes "-a.example") ≡ err "invalid domain"
unfolding domain matches domain_re
domain_refused = refl

proxy_test : proxy_pass_url (codes "https://10.0.0.1:8080/app") ≡ ok
unfolding proxy_pass_url matches proxy_pass_re sigarda_panel.Common.Int.atoi cut
    sigarda_panel.Common.Int.is_port
proxy_test = refl

abbrev shop : Text
shop = codes "shop.example.com"

shop_valid : validate Harmless.domain shop ≡ ok
unfolding validate domain matches domain_re
shop_valid = refl

validate-harmless_example :
    (contains_any shop hostile ≡ false) × (contains_any shop (also_hostile Harmless.domain) ≡ false)
validate-harmless_example = validate-harmless Harmless.domain shop shop_valid

not_host : Harmless.domain ≢ Harmless.db_host
not_host e = cc

validate-no_dash_example : has_prefix shop (codes "-") ≡ false
validate-no_dash_example = validate-no_dash Harmless.domain shop not_host shop_valid

abbrev shop_root : Text
shop_root = codes "/home/shop"

abbrev volume : Text
volume = codes "/home/shop/data:/data:ro"

volume_valid : docker_volume volume shop_root ≡ ok
unfolding docker_volume split root_path matches root_path_re docker_target_re under_root clean
    is_within is_rooted eqb sigarda_panel.Text.join segments has_prefix
volume_valid = refl

volume_refused :
    docker_volume (codes "/home/other:/data") shop_root
    ≡ err "docker_volume host path must be inside the site root"
unfolding docker_volume split root_path matches root_path_re docker_target_re under_root clean
    is_within is_rooted eqb sigarda_panel.Text.join segments has_prefix
volume_refused = refl

shop_rooted : is_rooted shop_root ≡ true
unfolding is_rooted
shop_rooted = refl

abbrev shop_container : DockerFields
shop_container = record {
  image = codes "nginx:1.27";
  name = codes "shop";
  ports = codes "8080:80";
  env = [];
  volumes = volume;
  restart = codes "always";
  language = [];
  site_root = shop_root;
}

container_valid : docker_options shop_container ≡ ok
unfolding docker_options docker_volume split root_path matches root_path_re docker_target_re
    under_root clean is_within is_rooted eqb docker_image docker_image_re
    sigarda_panel.SiteInput.Values.docker_name sigarda_panel.SiteInput.Patterns.docker_name_re
    docker_port docker_port_re mapping_parts trim_prefix cut sigarda_panel.Common.Int.atoi
    sigarda_panel.Common.Int.is_port trim_space sigarda_panel.Text.join segments docker_restart
    docker_language
container_valid = refl

docker_options-AreSafe_example : AreSafe shop_container
docker_options-AreSafe_example = docker_options-AreSafe shop_container shop_rooted container_valid

port_valid : docker_port (codes "8080:80") ≡ ok
unfolding docker_port matches docker_port_re mapping_parts split trim_prefix cut
    sigarda_panel.Common.Int.atoi sigarda_panel.Common.Int.is_port
port_valid = refl

abbrev blog : Text
blog = codes "/srv/blog/public"

blog_allowed : root_path_allowed blog ≡ ok
unfolding root_path_allowed root_path matches root_path_re split eqb is_refused_location clean
    is_rooted sigarda_panel.Text.join segments
blog_allowed = refl

root_path_allowed-IsSiteLocation_example :
    (is_rooted blog ≡ true) × All IsName (segments blog) × IsSiteLocation (segments blog)
root_path_allowed-IsSiteLocation_example = root_path_allowed-IsSiteLocation blog blog_allowed

abbrev ini : Text
ini = codes "memory_limit = 128M"

-- The control character DEL
delete_in_ini : php_ini (127 ∷ []) ≡ ok
unfolding php_ini
delete_in_ini = refl

delete_in_env : docker_env_line (codes "A=" ++ 127 ∷ []) ≡ ok
unfolding docker_env_line matches sigarda_panel.SiteInput.Patterns.docker_env_re
delete_in_env = refl
