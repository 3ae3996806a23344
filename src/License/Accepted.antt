-- ===== src/License/Accepted.antt =====
-- About the tokens that `verify` of crates/nookdb-core/src/license_verify.rs accepts.
use nookdb.Prelude.{
  subst, ◌∙◌, ℕ, ◌≤◌, ◌≡◌, ◌≢◌, ◌↔◌, refl, ap, Bool, true, false, not, ◌||◌, Option, none, some, [],
  ◌∷◌, ◌++◌, arith,
}
use nookdb.Bytes.{Bytes, contains}
use nookdb.License.{
  LicenseClaims, NookLicenseError, Crypto, Verdict, valid, refused, or_refuse, refuse_if,
  split_once, is_empty, verify, ◌>>=◌, ◌>>◌,
}

-- A token under a key at a time: a signed payload that holds claims which have not run out.
pub record IsAccepted {K : Type 0} (c : Crypto K) (token public_key : Bytes) (now : ℕ)
    (claims : LicenseClaims) : Type 0 where
  pub payload : Bytes
  pub signature : Bytes
  pub signature_bytes : Bytes
  pub key : K
  pub json : Bytes
  pub shape : token ≡ payload ++ 46 ∷ signature
  pub no_dot : contains payload 46 ≡ false
  pub payload_given : payload ≢ []
  pub signature_given : signature ≢ []
  pub decoded : c.decode_signature signature ≡ some signature_bytes
  pub on_curve : c.key_from_bytes public_key ≡ some key
  pub signed : c.verify_strict key payload signature_bytes ≡ true
  pub payload_decoded : c.decode_vec payload ≡ some json
  pub parsed : c.claims_from_slice json ≡ some claims
  pub in_time : now ≤ claims.exp

split_sound :
    (t p s : Bytes) → split_once t ≡ some (p, s) → (t ≡ p ++ 46 ∷ s) × (contains p 46 ≡ false)
unfolding split_once
split_sound [] p s h = ground (arith, h)
split_sound (b ∷ t) [] s h = ground (arith, h)
split_sound (b ∷ t) (x ∷ p) s h = ground (arith, h, split_sound t p s)

split_complete : (p s : Bytes) → contains p 46 ≡ false → split_once (p ++ 46 ∷ s) ≡ some (p, s)
unfolding split_once
split_complete [] s h = refl
split_complete (b ∷ p) s h = ground (arith, h, split_complete p s)

or_refuse-valid :
    {A B : Type 0} (o : Option A) (e : NookLicenseError) (f : A → Verdict B) (b : B)
    → (or_refuse o e >>= f) ≡ valid b
    → (a : A) × (o ≡ some a) × (f a ≡ valid b)
unfolding or_refuse ◌>>=◌
or_refuse-valid none e f b h = absurd (ground (arith, h))
or_refuse-valid (some a) e f b h = (a, refl, h)

refuse_if-valid :
    {B : Type 0} (t : Bool) (e : NookLicenseError) (k : Verdict B) (b : B)
    → (refuse_if t e >> k) ≡ valid b
    → (t ≡ false) × (k ≡ valid b)
unfolding refuse_if ◌>>=◌
refuse_if-valid true e k b h = absurd (ground (arith, h))
refuse_if-valid false e k b h = (refl, h)

or_refuse-some :
    {A B : Type 0} (o : Option A) (e : NookLicenseError) (f : A → Verdict B) (a : A)
    → o ≡ some a
    → (or_refuse o e >>= f) ≡ f a
unfolding or_refuse ◌>>=◌
or_refuse-some o e f a h = rw h refl

refuse_if-false :
    {B : Type 0} (t : Bool) (e : NookLicenseError) (k : Verdict B)
    → t ≡ false
    → (refuse_if t e >> k) ≡ k
unfolding refuse_if ◌>>=◌
refuse_if-false t e k h = rw h refl

given : (a b : Bytes) → (is_empty a || is_empty b) ≡ false → (a ≢ []) × (b ≢ [])
given [] b h = ground (arith, h)
given (x ∷ a) [] h = ground (arith, h)
given (x ∷ a) (y ∷ b) h = (λ e. cc, λ e. cc)

not_given : (a b : Bytes) → a ≢ [] → b ≢ [] → (is_empty a || is_empty b) ≡ false
not_given [] b h g = absurd (h refl)
not_given (x ∷ a) [] h g = absurd (g refl)
not_given (x ∷ a) (y ∷ b) h g = refl

valid_or : {A : Type 0} → A → Verdict A → A
valid_or d (valid a) = a
valid_or d (refused e) = d

valid_injective : {A : Type 0} (a b : A) → valid a ≡ valid b → a ≡ b
unfolding valid_or
valid_injective a b e = ap (valid_or a) e

module _ {K : Type 0} (c : Crypto K) (token public_key : Bytes) (now : ℕ)
    (claims : LicenseClaims) where
  sound : verify c token public_key now ≡ valid claims → IsAccepted c token public_key now claims
  unfolding verify
  sound h =
      let p = or_refuse-valid _ _ _ claims h in
      let split = split_sound token p.0.0 p.0.1 p.1 in
      let q = refuse_if-valid _ _ _ claims p.2 in
      let parts = given p.0.0 p.0.1 q.0 in
      let sig = or_refuse-valid _ _ _ claims q.1 in
      let vk = or_refuse-valid _ _ _ claims sig.2 in
      let ok = refuse_if-valid _ _ _ claims vk.2 in
      let json = or_refuse-valid _ _ _ claims ok.1 in
      let got = or_refuse-valid _ _ _ claims json.2 in
      let time = refuse_if-valid _ _ _ claims got.2 in
      let same : got.0 ≡ claims = valid_injective got.0 claims time.1 in
      let later : now ≤ got.0.exp = ground (arith, time.0) in
      record {
        payload = p.0.0;
        signature = p.0.1;
        signature_bytes = sig.0;
        key = vk.0;
        json = json.0;
        shape = split.0;
        no_dot = split.1;
        payload_given = parts.0;
        signature_given = parts.1;
        decoded = sig.1;
        on_curve = vk.1;
        signed = ground (arith, ok.0);
        payload_decoded = json.1;
        parsed = got.1 ∙ ap (λ x. some x) same;
        in_time = subst (λ x. now ≤ x.exp) same later;
      }

  complete : IsAccepted c token public_key now claims → verify c token public_key now ≡ valid claims
  unfolding verify
  complete a =
      let t : split_once token ≡ some (a.payload, a.signature) =
        rw a.shape (split_complete a.payload a.signature a.no_dot) in
      or_refuse-some _ _ _ _ t
      ∙ (refuse_if-false _ _ _ (not_given a.payload a.signature a.payload_given a.signature_given)
          ∙ (or_refuse-some _ _ _ _ a.decoded
              ∙ (or_refuse-some _ _ _ _ a.on_curve
                  ∙ (refuse_if-false _ _ _ (ap not a.signed)
                      ∙ (or_refuse-some _ _ _ _ a.payload_decoded
                          ∙ (or_refuse-some _ _ _ _ a.parsed
                              ∙ refuse_if-false _ _ _ (ground (arith, a.in_time))))))))

  -- A token is accepted with some claims exactly if it is a payload and a signature around the
  -- first dot, both given and both decoded, the payload signed under the key, and holding these
  -- claims, which have not run out.
  pub verify_iff :
      verify c token public_key now ≡ valid claims ↔ IsAccepted c token public_key now claims
  verify_iff = (sound, complete)
