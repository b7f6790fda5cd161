-- ===== src/Units/Lines.antt =====
-- The lines of the unit that internal/agenthttp/app_process.go writes.
use mathlib.Core.List.{append_assoc}
use sigarda_panel.Common.{
  ℕ, zero, suc, ◌+◌, ◌%◌, ◌/◌, ◌≡◌, ◌≢◌, refl, arith, true, false, not, ◌||◌, List, [], ◌∷◌, ◌++◌,
  Option, none, some, ltb, ◌==◌, ==_iff, all, any, All, Bool-cases, inl, inr, length,
}
use sigarda_panel.Common.Int.{ℤ, pos, negsuc}
use sigarda_panel.Common.Check.{Check, ok, err, reject, ◌>>◌, reject-ok, >>-ok}
use sigarda_panel.Text.{Text, codes, eqb, mem_byte, split, join, contains_any}
use sigarda_panel.Text.Split.{IsFree, split-join}
use sigarda_panel.Regex.Decides.{matches_iff}
use sigarda_panel.Regex.Shape.{Matches-avoids}
use sigarda_panel.Auth.Limits.{digits_onto, format_int}
use Prim.Native.String.{String}
use sigarda_panel.Text.Equality.{eqb_iff}
use sigarda_panel.SiteInput.Values.{system_user}
use sigarda_panel.SiteInput.Paths.{root_path}
use sigarda_panel.Regex.Shape.{alphabet}
use sigarda_panel.AgentPaths.Words.{is_valid_domain, domain_regex}
use sigarda_panel.SiteInput.Harmless.{Field, validate, hostile, validate-no_hostile}
use sigarda_panel.Units.File.{
  or_error, format_int64, memory_max_or_default, memory_high_mb, escape_byte, escape_all,
  systemd_quote, user_line, systemd_unit_content, is_control, no_account, validate_app_unit_input,
}

-- What a unit for these values says, line by line.
unfoldable pub unit_lines : Text → Text → Text → Text → ℤ → ℤ → List Text
unit_lines domain system_user root_path command port memory_max_mb =
    codes "[Unit]"
    ∷ (codes "Description=SigardaPanel App: " ++ domain)
    ∷ codes "After=network.target postgresql.service redis-server.service"
    ∷ []
    ∷ codes "[Service]"
    ∷ codes "Type=simple"
    ∷ (codes "WorkingDirectory=" ++ root_path)
    ∷ (codes "ExecStart=/bin/sh -lc " ++ systemd_quote (codes "exec " ++ command))
    ∷ codes "Restart=always"
    ∷ codes "RestartSec=5"
    ∷ user_line system_user
    ∷ (codes "EnvironmentFile=-" ++ root_path ++ codes "/.env")
    ∷ (codes "Environment=PORT=" ++ format_int64 port)
    ∷ codes "Environment=NODE_ENV=production"
    ∷ codes "Environment=PATH=/root/.hermes/node/bin:/usr/local/bin:/usr/bin:/bin:/usr/sbin:/sbin"
    ∷ codes "# Resource limits (hemat resource)"
    ∷ (codes "MemoryMax=" ++ format_int (memory_max_or_default memory_max_mb) ++ codes "M")
    ∷ (codes "MemoryHigh="
        ++ format_int64 (memory_high_mb (memory_max_or_default memory_max_mb))
        ++ codes "M")
    ∷ codes "CPUWeight=50"
    ∷ codes "TasksMax=256"
    ∷ codes "# Security hardening"
    ∷ codes "NoNewPrivileges=true"
    ∷ codes "PrivateTmp=true"
    ∷ []
    ∷ codes "[Install]"
    ∷ codes "WantedBy=multi-user.target"
    ∷ []
    ∷ []

content-join :
    (domain user root command : Text) (port memory : ℤ)
    → systemd_unit_content domain user root command port memory
      ≡ join 10 (unit_lines domain user root command port memory)
unfolding systemd_unit_content unit_lines join
content-join domain user root command port memory = simp (append_assoc)

mem_byte-append : (b : ℕ) (s t : Text) → mem_byte b (s ++ t) ≡ (mem_byte b s || mem_byte b t)
unfolding mem_byte
mem_byte-append b [] t = refl
mem_byte-append b (c ∷ s) t = ground (arith, mem_byte-append b s t)

mem_byte-IsFree : (b : ℕ) (s : Text) → mem_byte b s ≡ false → IsFree b s
unfolding mem_byte
mem_byte-IsFree b [] h = tt
mem_byte-IsFree b (c ∷ s) h = (ground arith, mem_byte-IsFree b s (ground arith))

all-IsFree : (b : ℕ) (ss : List Text) → all (λ s. not (mem_byte b s)) ss ≡ true → All (IsFree b) ss
all-IsFree b [] h = tt
all-IsFree b (s ∷ ss) h = (mem_byte-IsFree b s (ground arith), all-IsFree b ss (ground arith))

digits_onto-one_line :
    (fuel n : ℕ) (acc : Text)
    → mem_byte 10 acc ≡ false
    → mem_byte 10 (digits_onto fuel n acc) ≡ false
unfolding digits_onto mem_byte
digits_onto-one_line zero n acc h = h
digits_onto-one_line (suc fuel) n acc h =
    let digit : (b'0' + n % 10 == 10) ≡ false = ground arith in
    let low : (b'0' + n == 10) ≡ false = ground arith in
    let ih = digits_onto-one_line fuel (n / 10) ((b'0' + n % 10) ∷ acc) (rw digit h) in
    elim (Bool-cases (ltb n 10)) [ inl e ↦ rw (e, low) h | inr e ↦ rw e ih ]

format_int-one_line : (n : ℕ) → mem_byte 10 (format_int n) ≡ false
unfolding format_int mem_byte
format_int-one_line n = digits_onto-one_line (suc n) n [] refl

format_int64-one_line : (z : ℤ) → mem_byte 10 (format_int64 z) ≡ false
unfolding format_int64 mem_byte
format_int64-one_line (pos n) = format_int-one_line n
format_int64-one_line (negsuc n) = format_int-one_line (suc n)

escape_byte-one_line : (c : ℕ) → mem_byte 10 (escape_byte c) ≡ false
unfolding escape_byte mem_byte
escape_byte-one_line c = ground arith

escape_all-one_line : (s : Text) → mem_byte 10 (escape_all s) ≡ false
unfolding escape_all
escape_all-one_line [] = unfold mem_byte in refl
escape_all-one_line (c ∷ s) =
    rw
      (
        mem_byte-append 10 (escape_byte c) (escape_all s),
        escape_byte-one_line c,
        escape_all-one_line s,
      )
      refl

systemd_quote-one_line : (s : Text) → mem_byte 10 (systemd_quote s) ≡ false
unfolding systemd_quote mem_byte
systemd_quote-one_line s =
    rw (mem_byte-append 10 (escape_all s) (34 ∷ []), escape_all-one_line s) refl

user_line-one_line : (user : Text) → mem_byte 10 user ≡ false → mem_byte 10 (user_line user) ≡ false
unfolding user_line mem_byte
user_line-one_line user h = elim (Bool-cases (eqb user [])) [ inl e ↦ rw e refl | inr e ↦ rw e h ]

one_line :
    (s set : Text) → mem_byte 10 set ≡ true → contains_any s set ≡ false → mem_byte 10 s ≡ false
unfolding contains_any mem_byte
one_line [] set m h = refl
one_line (c ∷ s) set m h =
    let rest = one_line s set m (ground arith) in
    elim (Bool-cases (c == 10)) [
      | inl e ↦
          let clash : mem_byte c set ≡ true = rw ((==_iff c 10).0 e) m in absurd (ground arith)
      | inr e ↦ rw (e, rest) refl
    ]

is_valid_domain-one_line : (d : Text) → is_valid_domain d ≡ true → mem_byte 10 d ≡ false
unfolding is_valid_domain domain_regex alphabet mem_byte
is_valid_domain-one_line d h =
    one_line d (10 ∷ []) refl
      (Matches-avoids domain_regex (10 ∷ []) refl ((matches_iff domain_regex d).0 h))

harmless-one_line : (f : Field) (s : Text) → validate f s ≡ ok → mem_byte 10 s ≡ false
unfolding mem_byte
harmless-one_line f s h = one_line s hostile refl (validate-no_hostile f s h)

-- The values of a unit that validateAppUnitInput accepts are single lines.
pub record Accepted (lookup : Text → Option Text) (domain user root command : Text) : Type 0 where
  pub domain_line : mem_byte 10 domain ≡ false
  pub user_line : mem_byte 10 user ≡ false
  pub root_line : mem_byte 10 root ≡ false
  pub uid : Text
  pub account : lookup user ≡ some uid
  pub not_root : uid ≢ codes "0"

or_error-ok : (k : Check) (e : String) → or_error k e ≡ ok → k ≡ ok
or_error-ok ok e h = refl
or_error-ok (err d) e h = absurd (cc)

>>-ok_four :
    (a b c d e f : Check)
    → (a >> b >> c >> d >> e >> f) ≡ ok
    → (a ≡ ok) × (b ≡ ok) × (c ≡ ok) × (d ≡ ok)
>>-ok_four a b c d e f h =
    let front = (>>-ok (a >> b >> c >> d) e (>>-ok (a >> b >> c >> d >> e) f h).0).0 in
    let three = (>>-ok (a >> b >> c) d front).0 in
    let two = (>>-ok (a >> b) c three).0 in
    (
      (>>-ok a b two).0,
      (>>-ok a b two).1,
      (>>-ok (a >> b) c three).1,
      (>>-ok (a >> b >> c) d front).1,
    )

has_account :
    (o : Option Text) → no_account o ≡ false → (uid : Text) × (o ≡ some uid) × (uid ≢ codes "0")
unfolding no_account
has_account none h = absurd (cc)
has_account (some uid) h = (uid, refl, λ e. absurd (ground (arith, eqb_iff uid (codes "0"))))

pub validate_app_unit_input-Accepted :
    (lookup : Text → Option Text) (domain user root command : Text)
    → validate_app_unit_input lookup domain user root command ≡ ok
    → Accepted lookup domain user root command
unfolding validate_app_unit_input
validate_app_unit_input-Accepted lookup domain user root command h =
    let (valid, rooted, named, account) =
      >>-ok_four (reject (not (is_valid_domain domain)) "invalid domain") (root_path root)
        (or_error (system_user user) "a valid non-root system_user is required to run an app")
        (reject (no_account (lookup user)) "system_user does not exist or is root")
        (reject (eqb command [] || ltb 1024 (length command)) "invalid app command")
        (reject (any is_control command)
          "app command must be a single line without control characters")
        h in
    let (uid, found, not_root) =
      has_account (lookup user)
        (reject-ok (no_account (lookup user)) "system_user does not exist or is root" account) in
    let domain_ok = reject-ok (not (is_valid_domain domain)) "invalid domain" valid in
    let user_ok =
      or_error-ok (system_user user) "a valid non-root system_user is required to run an app"
        named in
    record {
      domain_line = is_valid_domain-one_line domain (ground arith);
      user_line = harmless-one_line Field.system_user user (unfold validate in user_ok);
      root_line = harmless-one_line Field.root_path root (unfold validate in rooted);
      uid = uid;
      account = found;
      not_root = not_root;
    }

unit_lines-one_line :
    (lookup : Text → Option Text) (domain user root command : Text) (port memory : ℤ)
    → Accepted lookup domain user root command
    → all (λ s. not (mem_byte 10 s)) (unit_lines domain user root command port memory) ≡ true
unfolding unit_lines mem_byte
unit_lines-one_line lookup domain user root command port memory a =
    rw
      (
        mem_byte-append 10 root (codes "/.env"),
        mem_byte-append 10 (format_int (memory_max_or_default memory)) (codes "M"),
        mem_byte-append 10 (format_int64 (memory_high_mb (memory_max_or_default memory)))
            (codes "M"),
        a.domain_line,
        a.root_line,
        user_line-one_line user a.user_line,
        systemd_quote-one_line (codes "exec " ++ command),
        format_int64-one_line port,
        format_int-one_line (memory_max_or_default memory),
        format_int64-one_line (memory_high_mb (memory_max_or_default memory)),
      )
      refl

-- The lines of a unit whose values validateAppUnitInput accepts are the ones of the template, with one
-- value on a line.
pub split-systemd_unit_content :
    (lookup : Text → Option Text) (domain user root command : Text) (port memory : ℤ)
    → Accepted lookup domain user root command
    → split 10 (systemd_unit_content domain user root command port memory)
      ≡ unit_lines domain user root command port memory
unfolding unit_lines
split-systemd_unit_content lookup domain user root command port memory a =
    rw (content-join domain user root command port memory) (
      split-join 10 _ _ (
        all-IsFree 10 (unit_lines domain user root command port memory)
          (unit_lines-one_line lookup domain user root command port memory a)))
