-- ===== src/AgentPaths/Words.antt =====
-- Single words, and the configuration of the agent.
use sigarda_panel.Common.{Bool, ◌||◌, if◌then◌else◌, false, []}
use sigarda_panel.Text.{Text, codes, mem_byte, contains, has_prefix, eqb}
use sigarda_panel.Regex.{Regex, class, seq, alt, plus, opt, up_to, between, byte, text, matches}
use sigarda_panel.SiteInput.Patterns.{is_alnum, is_upper, alnum_or, db_host_re}

unfoldable pub domain_regex : Regex
unfolding mem_byte
domain_regex = seq (class is_alnum) (opt (seq (up_to 253 (alnum_or (codes "-."))) (class is_alnum)))

unfoldable pub path_regex : Regex
unfolding mem_byte
path_regex = seq (byte b'/') (plus (alnum_or (codes "_-./")))

unfoldable pub git_url_regex : Regex
unfolding mem_byte
git_url_regex =
    seq
      (alt (seq (text (codes "http")) (seq (opt (byte b's')) (text (codes "://"))))
        (alt (text (codes "git@")) (text (codes "file://"))))
      (plus (alnum_or (codes "._-/:")))

unfoldable pub git_ref_regex : Regex
unfolding mem_byte
git_ref_regex = between 1 254 (alnum_or (codes "._/-"))

unfoldable pub db_name_regex : Regex
unfolding mem_byte
db_name_regex = between 1 63 (alnum_or (codes "_"))

unfoldable pub db_priv_regex : Regex
unfolding mem_byte
db_priv_regex = between 1 127 (class (λ c. is_upper c || mem_byte c (codes "_, ")))

unfoldable pub is_valid_domain : Text → Bool
is_valid_domain d = matches domain_regex d

unfoldable pub is_valid_path : Text → Bool
is_valid_path p = if contains p (codes "..") then false else matches path_regex p

unfoldable pub is_valid_git_url : Text → Bool
is_valid_git_url u = matches git_url_regex u

unfoldable pub is_valid_git_ref : Text → Bool
is_valid_git_ref ref =
    if eqb ref [] || has_prefix ref (codes "-")
    then false
    else if contains ref (codes "..")
    then false
    else matches git_ref_regex ref

unfoldable pub is_valid_db_identifier : Text → Bool
is_valid_db_identifier value = matches db_name_regex value

unfoldable pub is_valid_db_host_pattern : Text → Bool
is_valid_db_host_pattern value = matches db_host_re value

unfoldable pub is_valid_db_privileges : Text → Bool
is_valid_db_privileges value = matches db_priv_regex value

-- The fields of Router that the path checks read.
pub record Router : Type 0 where
  pub site_root_dir : Text
  pub backup_dir : Text
