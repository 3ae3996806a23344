-- ===== src/Schema/Hash/Code.antt =====
-- The feeders of `schema_hash` of crates/nookdb-core/src/schema/ir.rs as codes: what was fed first can
-- be told from what comes after it.
use mathlib.Core.Option.{some-injective}
use nookdb.Prelude.{
  ◌∙◌, ◌==◌, if◌then◌else◌, sym, ℕ, zero, suc, ◌/◌, ◌%◌, ◌^◌, ◌<◌, ◌≡◌, refl, ap, Bool, true, false,
  Option, none, some, List, [], ◌∷◌, ◌++◌, length, All, arith,
}
use nookdb.Bytes.{Bytes}
use nookdb.Backup.Words.{Fits, eight_bytes-Fits}
use nookdb.Schema.Hash.{
  FieldType, feed_field_type, le_bytes, feed, feed_bool, feed_option, feed_all, feed_counted,
}

-- A feeder whose bytes determine what is fed, as long as it is small, and what comes after it.
pub record Code {A : Type 0} (f : A → Bytes → Bytes) (Small : A → Type 0) : Type 0 where
  pub code : (a b : A) (r s : Bytes) → Small a → Small b → f a r ≡ f b s → (a ≡ b) × (r ≡ s)

tail_of : Bytes → Bytes
tail_of [] = []
tail_of (b ∷ s) = s

head_of : Bytes → ℕ
head_of [] = 0
head_of (b ∷ s) = b

-- Equal words are of equal bytes.
pub uncons : (a b : ℕ) (r s : Bytes) → a ∷ r ≡ b ∷ s → (a ≡ b) × (r ≡ s)
unfolding tail_of head_of
uncons a b r s e = (ap head_of e, ap tail_of e)

le_bytes-code :
    (k n m : ℕ) (r s : Bytes)
    → Fits k n
    → Fits k m
    → le_bytes k n r ≡ le_bytes k m s
    → (n ≡ m) × (r ≡ s)
unfolding le_bytes
le_bytes-code zero n m r s h g e = (omega (arith, h, g), e)
le_bytes-code (suc k) n m r s h g e =
    let p = uncons (n % 256) (m % 256) _ _ e in
    let q = le_bytes-code k (n / 256) (m / 256) r s h g p.1 in (omega (arith, p.0, q.0), q.1)

pub append_split : (a b r s : Bytes) → length a ≡ length b → a ++ r ≡ b ++ s → (a ≡ b) × (r ≡ s)
append_split [] [] r s h e = (refl, e)
append_split [] (y ∷ b) r s h e = absurd (omega (arith, h))
append_split (x ∷ a) [] r s h e = absurd (omega (arith, h))
append_split (x ∷ a) (y ∷ b) r s h e =
    let p = uncons x y (a ++ r) (b ++ s) e in
    let q = append_split a b r s (omega (arith, h)) p.1 in (rw (p.0, q.0) refl, q.1)

-- A length that fits its word.
abbrev pub Counts : {A : Type 0} → List A → Type 0
Counts l = length l < 2 ^ 64

pub feed-Code : Code feed Counts
unfolding feed
feed-Code = record {
  code = λ a b r s h g e.
      let p =
        le_bytes-code 8 (length a) (length b) (a ++ r) (b ++ s) (eight_bytes-Fits (length a) h)
          (eight_bytes-Fits (length b) g) e in
      append_split a b r s p.0 p.1;
}

-- No restriction.
abbrev pub Any : {A : Type 0} → A → Type 0
Any a = Unit {0}

feed_bool_code : (a b : Bool) (r s : Bytes) → feed_bool a r ≡ feed_bool b s → (a ≡ b) × (r ≡ s)
unfolding feed_bool
feed_bool_code true true r s e = (refl, (uncons 1 1 r s e).1)
feed_bool_code false false r s e = (refl, (uncons 0 0 r s e).1)
feed_bool_code true false r s e = absurd (omega (arith, (uncons 1 0 r s e).0))
feed_bool_code false true r s e = absurd (omega (arith, (uncons 0 1 r s e).0))

pub feed_bool-Code : Code feed_bool Any
feed_bool-Code = record { code = λ a b r s h g e. feed_bool_code a b r s e }

abbrev pub SmallOption : {A : Type 0} → (A → Type 0) → Option A → Type 0
SmallOption Small none = Unit {0}
SmallOption Small (some a) = Small a

abbrev pub SmallList : {A : Type 0} → (A → Type 0) → List A → Type 0
SmallList Small l = Counts l × All Small l

module _ {A : Type 0} (f : A → Bytes → Bytes) (Small : A → Type 0) (c : Code f Small) where
  feed_option_code :
      (a b : Option A) (r s : Bytes)
      → SmallOption Small a
      → SmallOption Small b
      → feed_option f a r ≡ feed_option f b s
      → (a ≡ b) × (r ≡ s)
  unfolding feed_option
  feed_option_code none none r s h g e = (refl, (uncons 0 0 r s e).1)
  feed_option_code none (some y) r s h g e = absurd (omega (arith, (uncons 0 1 r (f y s) e).0))
  feed_option_code (some x) none r s h g e = absurd (omega (arith, (uncons 1 0 (f x r) s e).0))
  feed_option_code (some x) (some y) r s h g e =
      let p = c.code x y r s h g (uncons 1 1 (f x r) (f y s) e).1 in (ap (λ t. some t) p.0, p.1)

  pub feed_option-Code : Code (feed_option f) (SmallOption Small)
  feed_option-Code = record { code = feed_option_code }

  feed_all_code :
      (a b : List A) (r s : Bytes)
      → length a ≡ length b
      → All Small a
      → All Small b
      → feed_all f a r ≡ feed_all f b s
      → (a ≡ b) × (r ≡ s)
  unfolding feed_all
  feed_all_code [] [] r s n h g e = (refl, e)
  feed_all_code [] (y ∷ b) r s n h g e = absurd (omega (arith, n))
  feed_all_code (x ∷ a) [] r s n h g e = absurd (omega (arith, n))
  feed_all_code (x ∷ a) (y ∷ b) r s n h g e =
      let p = c.code x y (feed_all f a r) (feed_all f b s) h.0 g.0 e in
      let q = feed_all_code a b r s (omega (arith, n)) h.1 g.1 p.1 in (rw (p.0, q.0) refl, q.1)

  pub feed_counted-Code : Code (feed_counted f) (SmallList Small)
  unfolding feed_counted
  feed_counted-Code = record {
    code = λ a b r s h g e.
        let p =
          le_bytes-code 8 (length a) (length b) (feed_all f a r) (feed_all f b s)
            (eight_bytes-Fits (length a) h.0) (eight_bytes-Fits (length b) g.0) e in
        feed_all_code a b r s p.0 h.1 g.1 p.1;
  }

-- The reader of a field type: the type and what is left.
array_of : Option (FieldType × Bytes) → Option (FieldType × Bytes)
array_of none = none
array_of (some p) = some (FieldType.array p.0, p.1)

read_type : Bytes → Option (FieldType × Bytes)
read_type [] = none
read_type (b ∷ s) =
    let inner = read_type s in
    if b == 0x01
    then some (FieldType.id, s)
    else if b == 0x02
    then some (FieldType.string, s)
    else if b == 0x03
    then some (FieldType.number, s)
    else if b == 0x04
    then some (FieldType.bool, s)
    else if b == 0x05
    then some (FieldType.date, s)
    else if b == 0x06
    then some (FieldType.enum, s)
    else array_of inner

read-feed_field_type : (t : FieldType) (r : Bytes) → read_type (feed_field_type t r) ≡ some (t, r)
unfolding read_type feed_field_type array_of
read-feed_field_type FieldType.id r = refl
read-feed_field_type FieldType.string r = refl
read-feed_field_type FieldType.number r = refl
read-feed_field_type FieldType.bool r = refl
read-feed_field_type FieldType.date r = refl
read-feed_field_type FieldType.enum r = refl
read-feed_field_type (FieldType.array t) r = rw (read-feed_field_type t r) refl

some_pair :
    {A B : Type 0} (a a' : A) (b b' : B)
    → ◌≡◌ {A = Option (A × B)} (some (a, b)) (some (a', b'))
    → (a ≡ a') × (b ≡ b')
some_pair a a' b b' e =
    let p = some-injective (a, b) (a', b') e in (ap (λ q. q.0) p, ap (λ q. q.1) p)

pub feed_field_type-Code : Code feed_field_type Any
feed_field_type-Code = record {
  code = λ a b r s h g e.
      some_pair a b r s
        (sym (read-feed_field_type a r) ∙ (ap read_type e ∙ read-feed_field_type b s));
}
