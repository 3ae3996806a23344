-- ===== src/Backup/Words.antt =====
-- Big-endian words: `to_be_bytes` and `from_be_bytes`.
use nookdb.Prelude.{ℕ, zero, suc, ◌+◌, ◌*◌, ◌/◌, ◌%◌, ◌^◌, ◌<◌, ◌≡◌, [], ◌∷◌, length, arith}
use nookdb.Bytes.{Bytes}

-- The bytes of the low `k` places, before `out`.
unfoldable pub be_onto : ℕ → ℕ → Bytes → Bytes
be_onto zero n out = out
be_onto (suc k) n out = be_onto k (n / 256) (n % 256 ∷ out)

abbrev pub to_be : ℕ → ℕ → Bytes
to_be k n = be_onto k n []

unfoldable pub from_be_onto : ℕ → Bytes → ℕ
from_be_onto n [] = n
from_be_onto n (b ∷ bs) = from_be_onto (n * 256 + b) bs

abbrev pub from_be : Bytes → ℕ
from_be bs = from_be_onto 0 bs

-- `n` has at most `k` places.
abbrev pub Fits : ℕ → ℕ → Type 0
Fits zero n = n ≡ 0
Fits (suc k) n = Fits k (n / 256)

from_be-be_onto :
    (k n : ℕ) (out : Bytes) → Fits k n → from_be (be_onto k n out) ≡ from_be_onto n out
unfolding be_onto from_be_onto
from_be-be_onto zero n out h = rw h
from_be-be_onto (suc k) n out h =
    let e : n / 256 * 256 + n % 256 ≡ n = omega arith in
    rw (from_be-be_onto k (n / 256) (n % 256 ∷ out) h, e)

-- A word that fits is read back.
pub from_be-to_be : (k n : ℕ) → Fits k n → from_be (to_be k n) ≡ n
unfolding from_be_onto
from_be-to_be k n h = from_be-be_onto k n [] h

length-be_onto : (k n : ℕ) (out : Bytes) → length (be_onto k n out) ≡ k + length out
unfolding be_onto
length-be_onto zero n out = omega arith
length-be_onto (suc k) n out = omega (arith, length-be_onto k (n / 256) (n % 256 ∷ out))

pub length-to_be : (k n : ℕ) → length (to_be k n) ≡ k
length-to_be k n = omega (arith, length-be_onto k n [])

pub two_bytes-Fits : (n : ℕ) → n < 2 ^ 16 → Fits 2 n
two_bytes-Fits n h = omega arith

pub four_bytes-Fits : (n : ℕ) → n < 2 ^ 32 → Fits 4 n
four_bytes-Fits n h = omega arith

pub eight_bytes-Fits : (n : ℕ) → n < 2 ^ 64 → Fits 8 n
eight_bytes-Fits n h = omega arith
