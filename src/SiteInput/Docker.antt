-- ===== src/SiteInput/Docker.antt =====
-- The validators of docker options that have parts.
use sigarda_panel.Common.{
  Bool, true, not, ◌||◌, ◌&&◌, List, [], ◌∷◌, none, some, ◌==◌, if◌then◌else◌, any,
}
use sigarda_panel.Common.Check.{Check, ok, err, reject, ◌>>◌, is_ok}
use sigarda_panel.Common.Int.{atoi, is_port}
use sigarda_panel.Text.{Text, codes, eqb, split, cut, has_prefix, trim_space}
use sigarda_panel.Regex.{matches}
use sigarda_panel.SiteInput.Patterns.{docker_port_re, docker_target_re}
use sigarda_panel.SiteInput.Values.{
  docker_image, docker_name, docker_env_line, docker_restart, docker_language,
}
use sigarda_panel.SiteInput.Paths.{root_path, under_root}

-- strings.TrimPrefix
unfoldable pub trim_prefix : Text → Text → Text
unfolding has_prefix
trim_prefix s [] = s
trim_prefix [] (d ∷ p) = []
trim_prefix (c ∷ s) (d ∷ p) = if c == d && has_prefix s p then trim_prefix s p else c ∷ s

-- strings.FieldsFunc with one separating byte
unfoldable pub fields : List Text → List Text
fields [] = []
fields ([] ∷ parts) = fields parts
fields ((c ∷ s) ∷ parts) = (c ∷ s) ∷ fields parts

unfoldable pub bad_port : Text → Bool
bad_port part = elim (atoi part) [ none ↦ true | some n ↦ not (is_port n) ]

-- The numbers of a mapping: the address and the protocol are cut off.
unfoldable pub mapping_parts : Text → List Text
unfolding fields
mapping_parts s = fields (split b':' (trim_prefix (cut b'/' s).0 (codes "127.0.0.1:")))

unfoldable pub docker_port : Text → Check
unfolding bad_port
docker_port s =
    reject (not (matches docker_port_re s)) "invalid docker_ports"
    >> reject (any bad_port (mapping_parts s)) "invalid docker_ports"

unfoldable pub mode_check : Text → Check
unfolding eqb
mode_check mode =
    reject (not (eqb mode (codes "ro")) && not (eqb mode (codes "rw"))) "invalid docker_volume"

unfoldable pub volume_binding : Text → Text → Text → Check
unfolding eqb
volume_binding site_root host target =
    reject
      (not (is_ok (root_path host))
        || not (matches docker_target_re target)
        || eqb site_root []
        || not (under_root site_root host))
      "docker_volume host path must be inside the site root"

unfoldable pub volume_parts : Text → List Text → Check
unfolding mode_check volume_binding
volume_parts site_root (host ∷ target ∷ []) = volume_binding site_root host target
volume_parts site_root (host ∷ target ∷ mode ∷ []) =
    mode_check mode >> volume_binding site_root host target
volume_parts site_root _ = err "invalid docker_volume"

unfoldable pub docker_volume : Text → Text → Check
unfolding volume_parts
docker_volume v site_root = volume_parts site_root (split b':' v)

-- if s != "" { if err := check(s) ... }
abbrev pub unless_empty : (Text → Check) → Text → Check
unless_empty check s = if eqb s [] then ok else check s

-- The loop over the parts of a list value; blank parts are skipped.
unfoldable pub each_trimmed : (Text → Check) → List Text → Check
each_trimmed check [] = ok
each_trimmed check (part ∷ parts) = unless_empty check (trim_space part) >> each_trimmed check parts

pub record DockerFields : Type 0 where
  pub image : Text
  pub name : Text
  pub ports : Text
  pub env : Text
  pub volumes : Text
  pub restart : Text
  pub language : Text
  pub site_root : Text

unfoldable pub docker_options : DockerFields → Check
unfolding each_trimmed eqb
docker_options o =
    unless_empty docker_image o.image
    >> unless_empty docker_name o.name
    >> unless_empty docker_port o.ports
    >> each_trimmed docker_env_line (split 10 o.env)
    >> each_trimmed (λ v. docker_volume v o.site_root) (split b',' o.volumes)
    >> docker_restart o.restart
    >> docker_language o.language
