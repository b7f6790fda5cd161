-- ===== src/SiteInput/Harmless.antt =====
-- Single values, and the bytes that have a meaning in commands and configuration files.
use sigarda_panel.Common.{
  ℕ, true, false, not, ◌||◌, ◌≡◌, refl, List, [], ◌∷◌, arith, length, ltb, all, All, Bool-cases,
  inl, inr, ◌⊎◌, ||-split, ◌==◌, ==_iff, ◌≢◌,
}
use sigarda_panel.Common.Check.{Check, ok, reject-ok, >>-ok}
use sigarda_panel.Text.{Text, codes, has_prefix, contains_any, eqb}
use sigarda_panel.Text.Equality.{eqb_iff}
use sigarda_panel.Regex.{Regex, matches}
use sigarda_panel.Regex.Decides.{matches_iff}
use sigarda_panel.Regex.Shape.{alphabet, first, Matches-avoids, Matches-first}
use sigarda_panel.SiteInput.Patterns.{
  domain_re, root_path_re, proxy_pass_re, php_version_re, system_user_re, docker_image_re,
  docker_name_re, docker_port_re, docker_language_re, db_host_re,
}
use sigarda_panel.SiteInput.Values
use sigarda_panel.SiteInput.Paths
use sigarda_panel.SiteInput.Docker

-- The fields that are single words.
pub data Field : Type 0 where
  domain root_path proxy_pass_url php_version system_user : Field
  docker_image docker_name docker_port docker_restart docker_language db_host : Field

unfoldable pub validate : Field → Text → Check
validate domain s = Values.domain s
validate root_path s = Paths.root_path s
validate proxy_pass_url s = Paths.proxy_pass_url s
validate php_version s = Values.php_version s
validate system_user s = Values.system_user s
validate docker_image s = Values.docker_image s
validate docker_name s = Values.docker_name s
validate docker_port s = Docker.docker_port s
validate docker_restart s = Values.docker_restart s
validate docker_language s = Values.docker_language s
validate db_host s = Values.db_host s

-- Control characters, the space, quotes, the backslash and `$;{}|&<>()#!?[]`. Of the other bytes that
-- a shell or systemd can read, `*`, `~` and `%`, some fields accept some.
abbrev pub hostile : Text
hostile =
    0
    ∷ 1
    ∷ 2
    ∷ 3
    ∷ 4
    ∷ 5
    ∷ 6
    ∷ 7
    ∷ 8
    ∷ 9
    ∷ 10
    ∷ 11
    ∷ 12
    ∷ 13
    ∷ 14
    ∷ 15
    ∷ 16
    ∷ 17
    ∷ 18
    ∷ 19
    ∷ 20
    ∷ 21
    ∷ 22
    ∷ 23
    ∷ 24
    ∷ 25
    ∷ 26
    ∷ 27
    ∷ 28
    ∷ 29
    ∷ 30
    ∷ 31
    ∷ 32
    ∷ 34
    ∷ 39
    ∷ 92
    ∷ 96
    ∷ 127
    ∷ codes "$;{}|&<>()#!?[]"

-- What a field keeps out of `*`, `~` and `%`.
abbrev pub also_hostile : Field → Text
also_hostile domain = codes "~%"
also_hostile proxy_pass_url = codes "*"
also_hostile db_host = codes "*~"
also_hostile _ = codes "*~%"

match_of_reject : (r : Regex) (s : Text) → not (matches r s) ≡ false → matches r s ≡ true
match_of_reject r s h = ground arith

match_of_long :
    (r : Regex) (s : Text) (n : ℕ)
    → (ltb n (length s) || not (matches r s)) ≡ false
    → matches r s ≡ true
match_of_long r s n h = ground arith

avoids :
    (r : Regex) (s : Text)
    → all (λ c. not (alphabet r c)) hostile ≡ true
    → matches r s ≡ true
    → contains_any s hostile ≡ false
avoids r s a m = Matches-avoids r hostile a ((matches_iff r s).0 m)

-- The pattern that stands behind each field, but for the restart policy and the empty language.
pattern_of : Field → Regex
pattern_of domain = domain_re
pattern_of root_path = root_path_re
pattern_of proxy_pass_url = proxy_pass_re
pattern_of php_version = php_version_re
pattern_of system_user = system_user_re
pattern_of docker_image = docker_image_re
pattern_of docker_name = docker_name_re
pattern_of docker_port = docker_port_re
pattern_of docker_restart = docker_language_re
pattern_of docker_language = docker_language_re
pattern_of db_host = db_host_re

pattern_avoids : (f : Field) → all (λ c. not (alphabet (pattern_of f) c)) hostile ≡ true
unfolding pattern_of alphabet domain_re root_path_re proxy_pass_re php_version_re system_user_re
    docker_image_re docker_name_re docker_port_re docker_language_re db_host_re
pattern_avoids domain = refl
pattern_avoids root_path = refl
pattern_avoids proxy_pass_url = refl
pattern_avoids php_version = refl
pattern_avoids system_user = refl
pattern_avoids docker_image = refl
pattern_avoids docker_name = refl
pattern_avoids docker_port = refl
pattern_avoids docker_restart = refl
pattern_avoids docker_language = refl
pattern_avoids db_host = refl

-- A member of a list of texts has what all of them have.
member-All {ℓ} :
    (P : Text → Type ℓ) (s : Text) (ts : List Text) → Values.member s ts ≡ true → All P ts → P s
unfolding Values.member
member-All P s [] m h = absurd (cc)
member-All P s (t ∷ ts) m h = elim (||-split (eqb s t) (Values.member s ts) m) [
  | inl e ↦ rw ((eqb_iff s t).0 e) h.0
  | inr e ↦ member-All P s ts e h.1
]

-- What an accepted value is: a match of its field's pattern, or one of a few fixed texts.
abbrev Accepted : Field → Text → Type 0
Accepted docker_restart s = Values.member s Values.docker_restarts ≡ true
Accepted docker_language s = (s ≡ []) ⊎ (matches docker_language_re s ≡ true)
Accepted f s = matches (pattern_of f) s ≡ true

validate-Accepted : (f : Field) (s : Text) → validate f s ≡ ok → Accepted f s
unfolding validate pattern_of Values.domain Paths.root_path Paths.proxy_pass_url Values.php_version
    Values.system_user Values.docker_image Values.docker_name Docker.docker_port
    Values.docker_restart Values.docker_language Values.db_host
validate-Accepted domain s h = match_of_long domain_re s 253 (reject-ok _ _ h)
validate-Accepted root_path s h = match_of_long root_path_re s 512 (reject-ok _ _ (>>-ok _ _ h).0)
validate-Accepted proxy_pass_url s h =
    match_of_long proxy_pass_re s 512 (reject-ok _ _ (>>-ok _ _ h).0)
validate-Accepted php_version s h = match_of_reject php_version_re s (reject-ok _ _ h)
validate-Accepted system_user s h = ground (arith, reject-ok _ _ h)
validate-Accepted docker_image s h = match_of_long docker_image_re s 255 (reject-ok _ _ h)
validate-Accepted docker_name s h = match_of_reject docker_name_re s (reject-ok _ _ h)
validate-Accepted docker_port s h = match_of_reject docker_port_re s (reject-ok _ _ (>>-ok _ _ h).0)
validate-Accepted docker_restart s h = ground (arith, reject-ok _ _ h)
validate-Accepted docker_language s h = ground (arith, reject-ok _ _ h, eqb_iff s [])
validate-Accepted db_host s h = match_of_reject db_host_re s (reject-ok _ _ h)

restarts_avoid : All (λ s. contains_any s hostile ≡ false) Values.docker_restarts
unfolding contains_any
restarts_avoid = (refl, (refl, (refl, (refl, (refl, tt)))))

nil_avoids : contains_any [] hostile ≡ false
unfolding contains_any
nil_avoids = refl

Accepted-elim {ℓ} :
    (P : Text → Type ℓ) (f : Field) (s : Text)
    → All P Values.docker_restarts
    → P []
    → (matches (pattern_of f) s ≡ true → P s)
    → Accepted f s
    → P s
unfolding pattern_of
Accepted-elim P docker_restart s r e m h = member-All P s Values.docker_restarts h r
Accepted-elim P docker_language s r e m (inl z) = rw z e
Accepted-elim P docker_language s r e m (inr k) = m k
Accepted-elim P _ s r e m h = m h

pub validate-no_hostile :
    (f : Field) (s : Text) → validate f s ≡ ok → contains_any s hostile ≡ false
validate-no_hostile f s h =
    Accepted-elim (λ t. contains_any t hostile ≡ false) f s restarts_avoid nil_avoids
      (avoids (pattern_of f) s (pattern_avoids f)) (validate-Accepted f s h)

pattern_avoids_also :
    (f : Field) → all (λ c. not (alphabet (pattern_of f) c)) (also_hostile f) ≡ true
unfolding pattern_of alphabet domain_re root_path_re proxy_pass_re php_version_re system_user_re
    docker_image_re docker_name_re docker_port_re docker_language_re db_host_re
pattern_avoids_also domain = refl
pattern_avoids_also root_path = refl
pattern_avoids_also proxy_pass_url = refl
pattern_avoids_also php_version = refl
pattern_avoids_also system_user = refl
pattern_avoids_also docker_image = refl
pattern_avoids_also docker_name = refl
pattern_avoids_also docker_port = refl
pattern_avoids_also docker_restart = refl
pattern_avoids_also docker_language = refl
pattern_avoids_also db_host = refl

restarts_avoid_also :
    (f : Field) → All (λ s. contains_any s (also_hostile f) ≡ false) Values.docker_restarts
unfolding contains_any
restarts_avoid_also domain = (refl, (refl, (refl, (refl, (refl, tt)))))
restarts_avoid_also root_path = (refl, (refl, (refl, (refl, (refl, tt)))))
restarts_avoid_also proxy_pass_url = (refl, (refl, (refl, (refl, (refl, tt)))))
restarts_avoid_also php_version = (refl, (refl, (refl, (refl, (refl, tt)))))
restarts_avoid_also system_user = (refl, (refl, (refl, (refl, (refl, tt)))))
restarts_avoid_also docker_image = (refl, (refl, (refl, (refl, (refl, tt)))))
restarts_avoid_also docker_name = (refl, (refl, (refl, (refl, (refl, tt)))))
restarts_avoid_also docker_port = (refl, (refl, (refl, (refl, (refl, tt)))))
restarts_avoid_also docker_restart = (refl, (refl, (refl, (refl, (refl, tt)))))
restarts_avoid_also docker_language = (refl, (refl, (refl, (refl, (refl, tt)))))
restarts_avoid_also db_host = (refl, (refl, (refl, (refl, (refl, tt)))))

-- A value that its validator accepts holds no control character, no space, no quote or backslash,
-- and none of `$;{}|&<>()#!?[]`, for each of the eleven single-word fields. Of `*`, `~` and `%`, it
-- holds no `~` or `%` in a domain, no `*` in the URL of a proxy, no `*` or `~` in a database host
-- pattern, and none of the three in the other fields.
pub validate-harmless :
    (f : Field) (s : Text)
    → validate f s ≡ ok
    → (contains_any s hostile ≡ false) × (contains_any s (also_hostile f) ≡ false)
validate-harmless f s h = (
  validate-no_hostile f s h,
  Accepted-elim (λ t. contains_any t (also_hostile f) ≡ false) f s (restarts_avoid_also f)
      (unfold contains_any in refl)
      (λ m.
        Matches-avoids (pattern_of f) (also_hostile f) (pattern_avoids_also f)
          ((matches_iff (pattern_of f) s).0 m))
      (validate-Accepted f s h),
)

dash_first : (f : Field) → f ≢ db_host → first (pattern_of f) b'-' ≡ false
unfolding pattern_of first domain_re root_path_re proxy_pass_re php_version_re system_user_re
    docker_image_re docker_name_re docker_port_re docker_language_re
dash_first domain n = refl
dash_first root_path n = refl
dash_first proxy_pass_url n = refl
dash_first php_version n = refl
dash_first system_user n = refl
dash_first docker_image n = refl
dash_first docker_name n = refl
dash_first docker_port n = refl
dash_first docker_restart n = refl
dash_first docker_language n = refl
dash_first db_host n = absurd (n refl)

match-no_dash :
    (r : Regex) (s : Text)
    → first r b'-' ≡ false
    → matches r s ≡ true
    → has_prefix s (codes "-") ≡ false
unfolding has_prefix
match-no_dash r [] d m = refl
match-no_dash r (c ∷ s) d m = elim (Bool-cases (c == b'-')) [
  | inl e ↦
      let same : c ≡ b'-' = (==_iff c b'-').0 e in
      let yes_first : first r c ≡ true = Matches-first r c s ((matches_iff r (c ∷ s)).0 m) refl in
      let clash : first r b'-' ≡ true = rw same at yes_first in absurd (cc)
  | inr e ↦ rw e
]

restarts_no_dash : All (λ s. has_prefix s (codes "-") ≡ false) Values.docker_restarts
unfolding has_prefix
restarts_no_dash = (refl, (refl, (refl, (refl, (refl, tt)))))

nil_no_dash : has_prefix [] (codes "-") ≡ false
unfolding has_prefix
nil_no_dash = refl

-- No accepted value of the single-word fields, but for a database host pattern, begins with a dash,
-- so that no program reads it as an option.
pub validate-no_dash :
    (f : Field) (s : Text) → f ≢ db_host → validate f s ≡ ok → has_prefix s (codes "-") ≡ false
validate-no_dash f s n h =
    Accepted-elim (λ t. has_prefix t (codes "-") ≡ false) f s restarts_no_dash nil_no_dash
      (match-no_dash (pattern_of f) s (dash_first f n)) (validate-Accepted f s h)
