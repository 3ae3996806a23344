-- ===== src/Backup.antt =====
-- crates/nookdb-core/src/backup.rs: portable backups. A `Write` is a parameter, `sink`, which takes all
-- the bytes of a call or fails; a `Read` is the bytes that are left and what comes after them.
pub mod Words
pub mod Format
pub mod Copy
pub mod Files
use nookdb.Prelude.{
  ℕ, ◌+◌, Bool, true, false, Option, none, some, List, [], ◌∷◌, ◌++◌, take, drop, length, leb,
  if◌then◌else◌,
}
use nookdb.Bytes.{Bytes}
use nookdb.Error.{NookError, Result, ok, err, io_failure, corrupted, truncated}

-- How a call ends. `panicked` is an `expect` that fails; `endless` is no end of the code: the model of
-- a loop has run out of rounds.
pub data Run (A : Type 0) : Type 0 where
  finished : A → Run A
  failed : NookError → Run A
  panicked endless : Run A

abbrev pub of_result : {A : Type 0} → Result A → Run A
of_result (ok a) = finished a
of_result (err e) = failed e

-- A stream operation over the state `S` of a wrapped writer or reader.
abbrev pub On : Type 0 → Type 0 → Type 0
On S A = S → Run (A × S)

infixl 5 ◌>>=◌ ◌>>◌
unfoldable pub ◌>>=◌ : {S A B : Type 0} → On S A → (A → On S B) → On S B
◌>>=◌ m f s = elim (m s) [
  | finished r ↦ f r.0 r.1
  | failed e ↦ failed e
  | panicked ↦ panicked
  | endless ↦ endless
]

abbrev pub ◌>>◌ : {S B : Type 0} → On S (Unit {0}) → On S B → On S B
m >> k = m >>= λ _. k

unfoldable pub pure : {S A : Type 0} → A → On S A
pure a s = finished (a, s)

unfoldable pub fail : {S A : Type 0} → NookError → On S A
fail e s = failed e

unfoldable pub fail_if : {S : Type 0} → Bool → NookError → On S (Unit {0})
fail_if b e s = if b then failed e else finished (tt, s)

-- `CrcWriter` around `CountingWriter`: the inner writer, the bytes counted, and the bytes hashed.
pub record Out (W : Type 0) : Type 0 where
  pub inner : W
  pub count : ℕ
  pub hashed : Bytes

-- `CrcReader` around `CountingReader`: the bytes that are left, counted and hashed.
pub record In : Type 0 where
  pub rest : Bytes
  pub count : ℕ
  pub hashed : Bytes

module _ {W : Type 0} (sink : W → Bytes → Result W) where
  -- `write_all` through both wrappers, and of the footer through the counting one alone
  unfoldable pub write_all : Bytes → On (Out W) (Unit {0})
  write_all buf o = elim (sink o.inner buf) [
    | ok w ↦
        finished (tt, record { inner = w; count = o.count + length buf; hashed = o.hashed ++ buf })
    | err e ↦ failed e
  ]

  unfoldable pub write_footer : Bytes → On (Out W) (Unit {0})
  write_footer buf o = elim (sink o.inner buf) [
    | ok w ↦ finished (tt, record o { inner = w; count = o.count + length buf })
    | err e ↦ failed e
  ]

-- What a read past the last byte meets: the end of the stream, or an error of the source.
abbrev pub at_end : Option ℕ → NookError
at_end none = corrupted truncated
at_end (some e) = io_failure e

module _ (fault : Option ℕ) where
  -- `read_exact_or_truncated`
  unfoldable pub read_exact : ℕ → On In Bytes
  read_exact n s =
      if leb n (length s.rest)
      then finished (
        take n s.rest,
        record { rest = drop n s.rest; count = s.count + n; hashed = s.hashed ++ take n s.rest },
      )
      else failed (at_end fault)

  -- the read of the footer, which is counted and not hashed
  unfoldable pub read_footer : On In Bytes
  read_footer s =
      if leb 4 (length s.rest)
      then finished (take 4 s.rest, record s { rest = drop 4 s.rest; count = s.count + 4 })
      else failed (at_end fault)
