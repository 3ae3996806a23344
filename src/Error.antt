-- ===== src/Error.antt =====
-- crates/nookdb-core/src/error.rs: `NookErrorKind`, `NookError` and the `Result` of every fallible
-- function. A formatted message is a constructor of `Msg` with the values that it prints.
use nookdb.Prelude.{refl, inl, inr, ◌⊎◌, arith, ℕ, Bool, true, false, Option, none, some, ◌≡◌}
use nookdb.Bytes.{Bytes, bytes}

pub data NookErrorKind : Type 0 where
  storage corruption conflict transaction invalid_arg closed schema migration : NookErrorKind

unfoldable pub as_str : NookErrorKind → Bytes
as_str storage = bytes "storage"
as_str corruption = bytes "corruption"
as_str conflict = bytes "conflict"
as_str transaction = bytes "transaction"
as_str invalid_arg = bytes "invalid_arg"
as_str closed = bytes "closed"
as_str schema = bytes "schema"
as_str migration = bytes "migration"

-- The path of a value in a message: a field, or an item of an array.
pub data Place : Type 0 where
  at_field : Bytes → Place
  at_item : Place → ℕ → Place

-- One constructor for each message that the modelled code formats.
pub data Msg : Type 0 where
  engine : ℕ → Msg
  rollback_failed : ℕ → NookErrorKind → Msg
  collection_empty : Msg
  collection_nul : Bytes → Msg
  missing_prefix : Bytes → Msg
  not_an_object : Msg
  unknown_field : Bytes → Msg
  missing_field : Bytes → Msg
  not_nullable : Bytes → Msg
  wrong_type : Place → Msg
  out_of_range : Place → Msg
  not_email : Place → Msg
  bad_pattern : Place → Msg
  no_match : Place → Msg
  not_integer : Place → Msg
  not_variant : Place → Msg
  bad_descriptor : Msg
  reserved_name : Msg
  missing_items : Bytes → Bytes → Msg
  id_item : Bytes → Bytes → Msg
  unknown_type : Bytes → Bytes → Msg
  missing_id_field : Bytes → Bytes → Msg
  index_unknown : Bytes → Bytes → Msg
  index_optional : Bytes → Msg
  index_array : Bytes → Bytes → Msg
  unknown_collection : Bytes → Msg
  no_id : Bytes → Msg
  nul_id : Bytes → Msg
  duplicate : Bytes → Bytes → Msg
  sort_unknown : Bytes → Msg
  sort_array : Bytes → Msg
  bad_options : Msg
  unserializable : Msg
  corrupt_json : Msg
  corrupt_ledger : Msg
  target_not_empty : Msg
  hash_mismatch : Msg
  bad_magic : Msg
  bad_version : ℕ → Msg
  bad_schema_byte : ℕ → Msg
  truncated : Msg
  bad_checksum : Msg
  bad_document_json : Msg
  bad_filter_json : Msg
  no_schema : Msg
  no_schema_live : Msg

pub data NookError : Type 0 where
  io_failure : ℕ → NookError
  corrupted conflicting transactional invalid_argument bad_schema bad_migration : Msg → NookError
  is_closed : NookError

unfoldable pub kind : NookError → NookErrorKind
kind (io_failure e) = storage
kind (corrupted m) = corruption
kind (conflicting m) = conflict
kind (transactional m) = transaction
kind (invalid_argument m) = invalid_arg
kind is_closed = closed
kind (bad_schema m) = schema
kind (bad_migration m) = migration

pub data Result {ℓ} (A : Type ℓ) : Type ℓ where
  ok : A → Result A
  err : NookError → Result A

infixl 5 ◌>>=◌ ◌>>◌
abbrev pub ◌>>=◌ {ℓ κ} : {A : Type ℓ} {B : Type κ} → Result A → (A → Result B) → Result B
ok a >>= f = f a
err e >>= f = err e

abbrev pub ◌>>◌ {ℓ κ} : {A : Type ℓ} {B : Type κ} → Result A → Result B → Result B
m >> k = m >>= λ _. k

-- `if test { return Err(e) }`
abbrev pub refuse_if : Bool → NookError → Result (Unit {0})
refuse_if true e = err e
refuse_if false e = ok tt

-- `o.ok_or_else(|| e)`
abbrev pub ok_or {ℓ} : {A : Type ℓ} → Option A → NookError → Result A
ok_or none e = err e
ok_or (some a) e = ok a

-- The text slug of a kind determines the kind.
pub as_str_injective : (a b : NookErrorKind) → as_str a ≡ as_str b → a ≡ b
unfolding as_str
as_str_injective a b h = ground arith

pub Result-cases {ℓ} :
    {A : Type ℓ} (m : Result A) → ((a : A) × (m ≡ ok a)) ⊎ ((e : NookError) × (m ≡ err e))
Result-cases (ok a) = inl (a, refl)
Result-cases (err e) = inr (e, refl)
