-- ===== src/Auth/Password.antt =====
-- internal/auth/password.go. What argon2, base64, fmt.Sscanf and the random source compute is given.
use mathlib.Core.Bool.{not}
use mathlib.Core.List.{append_assoc}
use sigarda_panel.Common.{
  ℕ, ◌*◌, Bool, true, ◌≡◌, refl, arith, All, List, [], ◌∷◌, ◌++◌, Option, none, some, if◌then◌else◌,
}
use sigarda_panel.Text.{Text, codes, eqb, has_prefix, split, join}
use sigarda_panel.Text.Equality.{eqb_self}
use sigarda_panel.Text.Search.{has_prefix-append}
use sigarda_panel.Text.Split.{IsFree, split-join}

pub record PhcParams : Type 0 where
  pub time : ℕ
  pub memory : ℕ
  pub threads : ℕ

abbrev pub argon2_time : ℕ
argon2_time = 1

abbrev pub argon2_memory : ℕ
argon2_memory = 64 * 1024

abbrev pub argon2_threads : ℕ
argon2_threads = 2

abbrev pub argon2_salt_len : ℕ
argon2_salt_len = 16

abbrev pub argon2_key_len : ℕ
argon2_key_len = 32

-- `id_key` password salt params length is argon2.IDKey; `version` is argon2.Version in decimals;
-- `scan_version` and `scan_params` are Sscanf with "v=%d" and with "m=%d,t=%d,p=%d".
pub record Primitives : Type 0 where
  pub id_key : Text → Text → PhcParams → ℕ → Text
  pub version : Text
  pub encode : Text → Text
  pub decode : Text → Option Text
  pub scan_version : Text → Option ℕ
  pub scan_params : Text → Option PhcParams

abbrev pub default_params : PhcParams
default_params = record { time = argon2_time; memory = argon2_memory; threads = argon2_threads }

abbrev pub alg : Text
alg = codes "argon2id"

-- `salt` is what generateSalt gives, `none` where it fails.
unfoldable pub hash_password : Primitives → Option Text → Text → Option Text
hash_password o none plain = none
hash_password o (some salt) plain =
    let hash = o.id_key plain salt default_params argon2_key_len in
    some (
      codes "$argon2id$v="
      ++ o.version
      ++ codes "$m=65536,t=1,p=2$"
      ++ o.encode salt
      ++ b'$' ∷ o.encode hash)

pub record Phc : Type 0 where
  pub params : PhcParams
  pub salt : Text
  pub stored_hash : Text

unfoldable pub parse_fields : Primitives → Text → Text → Text → Text → Option Phc
parse_fields o v params salt hash = elim (o.scan_version v) [
  | none ↦ none
  | some _ ↦ elim (o.scan_params params) [
    | none ↦ none
    | some p ↦ elim (o.decode salt) [
      | none ↦ none
      | some s ↦ elim (o.decode hash) [
        | none ↦ none
        | some h ↦ some (record { params = p; salt = s; stored_hash = h })
      ]
    ]
  ]
]

unfoldable pub parse_parts : Primitives → List Text → Option Phc
unfolding parse_fields
parse_parts o (_ ∷ name ∷ v ∷ params ∷ salt ∷ hash ∷ []) =
    if not (eqb name alg)
    then none
    else if not (has_prefix v (codes "v="))
    then none
    else parse_fields o v params salt hash
parse_parts o _ = none

unfoldable pub parse_phc : Primitives → Text → Option Phc
unfolding parse_parts
parse_phc o phc = parse_parts o (split b'$' phc)

unfoldable pub check_hash : Primitives → Text → Option Phc → Option Bool
check_hash o plain none = none
check_hash o plain (some phc) =
    some (eqb (o.id_key plain phc.salt phc.params argon2_key_len) phc.stored_hash)

-- `none` is the error.
unfoldable pub verify_password : Primitives → Text → Text → Option Bool
unfolding parse_phc check_hash
verify_password o hash plain = check_hash o plain (parse_phc o hash)

-- What the documentation of the packages says of them: base64 text has no dollar and decodes to what
-- was encoded, and Sscanf reads what Sprintf printed.
pub record Documented (o : Primitives) : Type 0 where
  pub encode_dollar : (s : Text) → IsFree b'$' (o.encode s)
  pub encode_decode : (s : Text) → o.decode (o.encode s) ≡ some s
  pub version_dollar : IsFree b'$' o.version
  pub version_value : ℕ
  pub version_scan : o.scan_version (codes "v=" ++ o.version) ≡ some version_value
  pub params_scan : o.scan_params (codes "m=65536,t=1,p=2") ≡ some default_params

fields : Primitives → Text → Text → List Text
fields o salt hash =
    []
    ∷ alg
    ∷ (codes "v=" ++ o.version)
    ∷ codes "m=65536,t=1,p=2"
    ∷ o.encode salt
    ∷ o.encode hash
    ∷ []

join-fields :
    (o : Primitives) (salt hash : Text)
    → join b'$' (fields o salt hash)
      ≡ codes "$argon2id$v="
        ++ o.version
        ++ codes "$m=65536,t=1,p=2$"
        ++ o.encode salt
        ++ b'$' ∷ o.encode hash
unfolding join fields
join-fields o salt hash = simp (append_assoc)

fields-IsFree :
    (o : Primitives) (salt hash : Text) → Documented o → All (IsFree b'$') (fields o salt hash)
unfolding fields
fields-IsFree o salt hash d =
    let v : IsFree b'$' (codes "v=" ++ o.version) =
      (omega arith, (omega arith, d.version_dollar)) in
    (tt, (ground arith, (v, (ground arith, (d.encode_dollar salt, (d.encode_dollar hash, tt))))))

split-fields :
    (o : Primitives) (salt hash : Text)
    → Documented o
    → split b'$' (join b'$' (fields o salt hash)) ≡ fields o salt hash
unfolding fields
split-fields o salt hash d = split-join b'$' [] _ (unfold fields in fields-IsFree o salt hash d)

parse_fields-some :
    (o : Primitives) (v params salt hash s h : Text) (n : ℕ) (p : PhcParams)
    → o.scan_version v ≡ some n
    → o.scan_params params ≡ some p
    → o.decode salt ≡ some s
    → o.decode hash ≡ some h
    → parse_fields o v params salt hash ≡ some (record { params = p; salt = s; stored_hash = h })
unfolding parse_fields
parse_fields-some o v params salt hash s h n p ev ep es eh = ground arith

parse_fields-fields :
    (o : Primitives) (salt hash : Text)
    → Documented o
    → parse_fields o
        (codes "v=" ++ o.version)
        (codes "m=65536,t=1,p=2")
        (o.encode salt)
        (o.encode hash)
      ≡ some (record { params = default_params; salt = salt; stored_hash = hash })
parse_fields-fields o salt hash d =
    parse_fields-some o _ _ _ _ salt hash d.version_value default_params d.version_scan
      d.params_scan (d.encode_decode salt) (d.encode_decode hash)

parse_parts-fields :
    (o : Primitives) (salt hash : Text)
    → Documented o
    → parse_parts o (fields o salt hash)
      ≡ some (record { params = default_params; salt = salt; stored_hash = hash })
unfolding parse_parts fields eqb
parse_parts-fields o salt hash d =
    rw (has_prefix-append (codes "v=") o.version) (parse_fields-fields o salt hash d)

parse_phc-hash_password :
    (o : Primitives) (salt plain : Text)
    → Documented o
    → (hash : Text) × (hash_password o (some salt) plain ≡ some hash)
      × (parse_phc o hash
          ≡ some (record {
            params = default_params;
            salt = salt;
            stored_hash = o.id_key plain salt default_params argon2_key_len;
          }))
unfolding hash_password parse_phc
parse_phc-hash_password o salt plain d =
    let hash = o.id_key plain salt default_params argon2_key_len in
    (
      join b'$' (fields o salt hash),
      rw (join-fields o salt hash) refl,
      rw (split-fields o salt hash d) (parse_parts-fields o salt hash d),
    )

-- A password is checked against a hash of HashPassword by the keys that argon2 derives from it and
-- from the password that was hashed, with the same salt, so that the password itself is accepted and
-- the check of any password ends without an error.
pub verify_password-hash_password :
    (o : Primitives) (salt plain offered : Text)
    → Documented o
    → (hash : Text) × (hash_password o (some salt) plain ≡ some hash)
      × (verify_password o hash plain ≡ some true)
      × (verify_password o hash offered
          ≡ some (
              eqb
                (o.id_key offered salt default_params argon2_key_len)
                (o.id_key plain salt default_params argon2_key_len)))
unfolding verify_password check_hash
verify_password-hash_password o salt plain offered d =
    let (hash, made, parsed) = parse_phc-hash_password o salt plain d in
    let same = eqb_self (o.id_key plain salt default_params argon2_key_len) in
    (hash, made, rw parsed (rw same refl), rw parsed refl)
