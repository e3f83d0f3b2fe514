-- ===== src/ConfigSource/Hash.antt =====
-- configsource/hash.go. SHA-256 in hexadecimal is an argument of what uses it, `digest`.
use csar_core.Prelude.{
  ℕ, String, not, ◌&&◌, if◌then◌else◌, ◌==◌, nat_eq, string_eq, Result, fail_if, ok, err,
}
use csar_core.ConfigSource.Types.{Error, integrity_violation, pinned_mismatch, unknown_policy}

-- `other` stands for every further value of the Go integer type.
pub data HashPolicy : Type 0 where
  disabled tofu pinned : HashPolicy
  other : ℕ → HashPolicy

-- The order of the arguments is that of `ValidateHash`.
unfoldable pub validate_hash :
    HashPolicy → String → String → String → String → String → Result Error (Unit {0})
validate_hash disabled pin current last etag last_etag = ok tt
validate_hash tofu pin current last etag last_etag =
    if last == ""
    then ok tt
    else fail_if (etag == last_etag && not (current == last))
        (integrity_violation etag last current)
validate_hash pinned pin current last etag last_etag =
    fail_if (not (current == pin)) (pinned_mismatch pin current)
validate_hash (other n) pin current last etag last_etag = err (unknown_policy n)
