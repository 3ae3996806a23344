-- ===== src/Codec/Keys.antt =====
-- About the composite keys of crates/nookdb-core/src/codec/mod.rs and the scan range of a collection.
use nookdb.Prelude.{
  append_assoc, ◌∙◌, is_some, ◌≢◌, ◌≡◌, refl, sym, false, some, [], ◌∷◌, ◌++◌, arith,
}
use nookdb.Bytes.{Bytes, beq, contains}
use nookdb.Bytes.Affix.{after_append, after, in_range, in_range_iff}
use nookdb.Error.{ok}
use nookdb.Codec.{
  separator, encode_key, collection_prefix_lower, collection_prefix_upper, strip_collection_prefix,
  validate_collection,
}

-- A collection name that the codec accepts: not empty, and without a NUL byte.
pub record IsName (c : Bytes) : Type 0 where
  pub not_empty : c ≢ []
  pub nul_free : contains c separator ≡ false

pub strip-after : (k c : Bytes) → strip_collection_prefix k c ≡ after (c ++ 0 ∷ []) k
unfolding strip_collection_prefix after beq
strip-after [] [] = refl
strip-after (y ∷ k) [] = ground arith
strip-after [] (x ∷ c) = ground arith
strip-after (y ∷ k) (x ∷ c) = ground (arith, strip-after k c)

validate-IsName : (c : Bytes) → IsName c → validate_collection c ≡ ok tt
unfolding validate_collection
validate-IsName [] h = absurd (h.not_empty refl)
validate-IsName (x ∷ c) h = rw h.nul_free

-- For an accepted name, the encoding of every user key is defined.
pub encode_key_lem : (c k : Bytes) → IsName c → encode_key c k ≡ ok (c ++ 0 ∷ k)
unfolding encode_key
encode_key_lem c k h = rw (validate-IsName c h)

pub lower_lem : (c : Bytes) → IsName c → collection_prefix_lower c ≡ ok (c ++ 0 ∷ [])
unfolding collection_prefix_lower
lower_lem c h = rw (validate-IsName c h)

pub upper_lem : (c : Bytes) → IsName c → collection_prefix_upper c ≡ ok (c ++ 1 ∷ [])
unfolding collection_prefix_upper
upper_lem c h = rw (validate-IsName c h)

-- An encoding succeeds only for accepted names.
pub encode_key-IsName : (c k e : Bytes) → encode_key c k ≡ ok e → IsName c
unfolding encode_key
encode_key-IsName [] k e h = cc
encode_key-IsName (x ∷ c) k e h = record { not_empty = λ p. cc; nul_free = ground arith }

encode_key-shape : (c k e : Bytes) → encode_key c k ≡ ok e → e ≡ c ++ 0 ∷ k
encode_key-shape c k e h = let p = encode_key_lem c k (encode_key-IsName c k e h) in cc

upper-shape : (c hi : Bytes) → collection_prefix_upper c ≡ ok hi → hi ≡ c ++ 1 ∷ []
unfolding collection_prefix_upper
upper-shape c hi h = ground arith

cons_regroup : (c k : Bytes) → c ++ 0 ∷ k ≡ (c ++ 0 ∷ []) ++ k
cons_regroup c k = sym (append_assoc c (0 ∷ []) k)

-- Two NUL-free names are told apart before their separators.
pub split_at_nul :
    (c d k l : Bytes)
    → contains c 0 ≡ false
    → contains d 0 ≡ false
    → c ++ 0 ∷ k ≡ d ++ 0 ∷ l
    → (c ≡ d) × (k ≡ l)
split_at_nul [] [] k l h g e = ground arith
split_at_nul [] (y ∷ d) k l h g e = ground arith
split_at_nul (x ∷ c) [] k l h g e = ground arith
split_at_nul (x ∷ c) (y ∷ d) k l h g e = ground (arith, split_at_nul c d k l)

-- Stripping the collection of a composite key gives back the user key.
pub strip-encode_key :
    (c k e : Bytes) → encode_key c k ≡ ok e → strip_collection_prefix e c ≡ some k
strip-encode_key c k e h =
    rw (encode_key-shape c k e h, strip-after, cons_regroup c k, after_append)

-- Two pairs of a collection and a user key with the same composite key are the same pair.
pub encode_key_injective :
    (c k d l e : Bytes) → encode_key c k ≡ ok e → encode_key d l ≡ ok e → (c ≡ d) × (k ≡ l)
encode_key_injective c k d l e h g =
    split_at_nul c d k l (encode_key-IsName c k e h).nul_free (encode_key-IsName d l e g).nul_free
      (sym (encode_key-shape c k e h) ∙ encode_key-shape d l e g)

-- Where the bounds of a collection are defined, a key lies in its scan range exactly if it strips
-- to a user key of the collection.
pub strip-in_range :
    (c k lo hi : Bytes)
    → collection_prefix_lower c ≡ ok lo
    → collection_prefix_upper c ≡ ok hi
    → in_range lo hi k ≡ is_some (strip_collection_prefix k c)
unfolding collection_prefix_lower
strip-in_range c k lo hi h g =
    rw (encode_key-shape c [] lo h, upper-shape c hi g, in_range_iff, strip-after) refl
