-- ===== src/License.antt =====
-- crates/nookdb-core/src/license_verify.rs: the check of a license token. The crates base64ct and
-- ed25519_dalek and the derived reader of the claims are a parameter, `Crypto`.
pub mod Accepted
use nookdb.Prelude.{
  ℕ, Bool, true, false, not, ◌||◌, Option, none, some, [], ◌∷◌, ltb, ◌==◌, if◌then◌else◌,
}
use nookdb.Bytes.{Bytes}

pub record LicenseClaims : Type 0 where
  pub sub : Bytes
  pub tier : Bytes
  pub iat : ℕ
  pub exp : ℕ

-- The messages of `InvalidFormat`, without the text of the inner error.
pub data FormatMsg : Type 0 where
  no_dot empty_segment bad_signature_b64 off_curve bad_payload_b64 : FormatMsg

pub data NookLicenseError : Type 0 where
  invalid_format : FormatMsg → NookLicenseError
  invalid_signature : NookLicenseError
  expired : ℕ → ℕ → NookLicenseError
  malformed_claims : NookLicenseError

-- `K` is a key on the curve.
pub record Crypto (K : Type 0) : Type 0 where
  -- `Base64UrlUnpadded::decode` into the 64 bytes of a signature, and `decode_vec`
  pub decode_signature : Bytes → Option Bytes
  pub decode_vec : Bytes → Option Bytes
  -- `VerifyingKey::from_bytes`, and `verify_strict` of a message under a signature
  pub key_from_bytes : Bytes → Option K
  pub verify_strict : K → Bytes → Bytes → Bool
  -- `serde_json::from_slice`
  pub claims_from_slice : Bytes → Option LicenseClaims

pub data Verdict (A : Type 0) : Type 0 where
  valid : A → Verdict A
  refused : NookLicenseError → Verdict A

infixl 5 ◌>>=◌ ◌>>◌
unfoldable pub ◌>>=◌ : {A B : Type 0} → Verdict A → (A → Verdict B) → Verdict B
valid a >>= f = f a
refused e >>= f = refused e

abbrev pub ◌>>◌ : {A B : Type 0} → Verdict A → Verdict B → Verdict B
m >> k = m >>= λ _. k

unfoldable pub or_refuse : {A : Type 0} → Option A → NookLicenseError → Verdict A
or_refuse none e = refused e
or_refuse (some a) e = valid a

unfoldable pub refuse_if : Bool → NookLicenseError → Verdict (Unit {0})
refuse_if true e = refused e
refuse_if false e = valid tt

-- `split_once('.')`
unfoldable pub split_once : Bytes → Option (Bytes × Bytes)
split_once [] = none
split_once (b ∷ s) =
    let rest = split_once s in
    if b == 46 then some ([], s) else elim rest [ none ↦ none | some p ↦ some (b ∷ p.0, p.1) ]

abbrev pub is_empty : Bytes → Bool
is_empty [] = true
is_empty (b ∷ s) = false

unfoldable pub verify : {K : Type 0} → Crypto K → Bytes → Bytes → ℕ → Verdict LicenseClaims
unfolding split_once
verify c token public_key now = do
  parts ← or_refuse (split_once token) (invalid_format no_dot)
  refuse_if (is_empty parts.0 || is_empty parts.1) (invalid_format empty_segment)
  signature ← or_refuse (c.decode_signature parts.1) (invalid_format bad_signature_b64)
  vk ← or_refuse (c.key_from_bytes public_key) (invalid_format off_curve)
  refuse_if (not (c.verify_strict vk parts.0 signature)) invalid_signature
  payload ← or_refuse (c.decode_vec parts.0) (invalid_format bad_payload_b64)
  claims ← or_refuse (c.claims_from_slice payload) malformed_claims
  refuse_if (ltb claims.exp now) (expired claims.exp now)
  valid claims
