-- ===== src/Bytes.antt =====
-- Byte strings. A Rust `String`, `&str`, `Vec<u8>` or `&[u8]` is the list of its bytes (the UTF-8
-- bytes of a text); `str` and `[u8]` are compared byte by byte.
pub mod Order
pub mod Affix
pub mod Utf8
use Prim.Native.Char.{code}
use Prim.Native.String
use Prim.Native.Nat.{Ordering}
use nookdb.Prelude.{
  subst, ℕ, suc, ◌+◌, ◌≡◌, ◌≢◌, ◌↔◌, Bool-cases, inl, inr, refl, ap, sym, Bool, true, false, ◌&&◌,
  not, List, [], ◌∷◌, arith, ◌==◌, leb, ltb, compare, String, if◌then◌else◌, any,
}

abbrev pub Byte : Type 0
Byte = ℕ

abbrev pub Bytes : Type 0
Bytes = List Byte

-- The bytes of an ASCII text.
abbrev pub bytes : String → Bytes
bytes String.[] = []
bytes (String.◌∷◌ c s) = code c ∷ bytes s

-- `==` of `str` and `[u8]`
unfoldable pub beq : Bytes → Bytes → Bool
beq [] [] = true
beq [] (y ∷ ys) = false
beq (x ∷ xs) [] = false
beq (x ∷ xs) (y ∷ ys) = if x == y then beq xs ys else false

-- `cmp` of `str` and `[u8]`: lexicographic, a proper prefix first
unfoldable pub cmp : Bytes → Bytes → Ordering
cmp [] [] = Ordering.eq
cmp [] (y ∷ ys) = Ordering.lt
cmp (x ∷ xs) [] = Ordering.gt
cmp (x ∷ xs) (y ∷ ys) =
    let rest = cmp xs ys in
    elim (compare x y) [
      | Ordering.lt ↦ Ordering.lt
      | Ordering.eq ↦ rest
      | Ordering.gt ↦ Ordering.gt
    ]

-- `a < b`
abbrev pub blt : Bytes → Bytes → Bool
blt a b = elim (cmp a b) [ Ordering.lt ↦ true | _ ↦ false ]

-- `contains(&b)`
abbrev pub contains : Bytes → Byte → Bool
contains s b = any (λ c. c == b) s

-- `chars().count()`: each scalar value has one byte that is no continuation byte (0x80 to 0xBF)
unfoldable pub char_count : Bytes → ℕ
char_count [] = 0
char_count (b ∷ s) = (if leb 128 b && ltb b 192 then 0 else 1) + char_count s

-- Both directions of byte equality.
pub beq_sound : (a b : Bytes) → beq a b ≡ true → a ≡ b
unfolding beq
beq_sound [] [] h = refl
beq_sound [] (y ∷ ys) h = ground arith
beq_sound (x ∷ xs) [] h = ground arith
beq_sound (x ∷ xs) (y ∷ ys) h = ground (arith, beq_sound xs ys)

pub beq_refl : (a : Bytes) → beq a a ≡ true
unfolding beq
beq_refl [] = refl
beq_refl (x ∷ xs) = ground (arith, beq_refl xs)

pub beq_complete : (a b : Bytes) → a ≡ b → beq a b ≡ true
beq_complete a b h = subst (λ c. beq a c ≡ true) h (beq_refl a)

pub beq_apart : (a b : Bytes) → beq a b ≡ false → a ≢ b
beq_apart a b q e = absurd (ground (arith, q, beq_complete a b e))

pub beq_distinct : (a b : Bytes) → a ≢ b → beq a b ≡ false
beq_distinct a b h = elim (Bool-cases (beq a b)) [
  | inr e ↦ e
  | inl e ↦ absurd (h (beq_sound a b e))
]

pub beq_iff : (a b : Bytes) → (beq a b ≡ true) ↔ (a ≡ b)
beq_iff a b = (beq_sound a b, beq_complete a b)
