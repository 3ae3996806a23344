-- ===== src/Backup/Format.antt =====
-- The `.nbkp` v1 format of crates/nookdb-core/src/backup.rs: header, entries, sentinel and footer.
pub mod Reads
pub mod Writes
use nookdb.Prelude.{
  ℕ, zero, suc, ◌^◌, Bool, true, false, not, Option, none, some, List, [], ◌∷◌, ◌++◌, length, ltb,
  ◌==◌, if◌then◌else◌,
}
use nookdb.Bytes.{Bytes, bytes, beq}
use nookdb.Error.{Result, corrupted, bad_magic, bad_version, bad_schema_byte, bad_checksum}
use nookdb.Rows.{Row}
use nookdb.Backup.{
  Run, finished, panicked, endless, On, ◌>>=◌, ◌>>◌, pure, fail, fail_if, Out, In, write_all,
  write_footer, read_exact, read_footer,
}
use nookdb.Backup.Words.{to_be, from_be}

abbrev pub magic : Bytes
magic = bytes "NOOKBKUP"

abbrev pub format_version : ℕ
format_version = 1

abbrev pub redb_marker : ℕ
redb_marker = 0x0200_0000

pub record BackupHeader : Type 0 where
  pub format_ver : ℕ
  pub created_ms : ℕ
  pub schema_hash : Option Bytes
  pub redb_marker : ℕ
  pub entry_count_hint : ℕ

abbrev pub zeros : ℕ → Bytes
zeros zero = []
zeros (suc n) = 0 ∷ zeros n

-- `u32::try_from(n).expect(…)`
abbrev pub u32_expect : {S : Type 0} → ℕ → On S ℕ
u32_expect n s = if ltb n (2 ^ 32) then finished (n, s) else panicked

module _ {W : Type 0} (sink : W → Bytes → Result W) where
  -- the two writes of `if let Some(h) = self.schema_hash`
  unfoldable pub write_hash : Option Bytes → On (Out W) (Unit {0})
  write_hash (some h) = do write_all sink (1 ∷ []); write_all sink h
  write_hash none = do write_all sink (0 ∷ []); write_all sink (zeros 32)

  unfoldable pub write_to : BackupHeader → On (Out W) (Unit {0})
  unfolding write_hash
  write_to h = do
    write_all sink magic
    write_all sink (to_be 2 h.format_ver)
    write_all sink (to_be 8 h.created_ms)
    write_hash h.schema_hash
    write_all sink (to_be 4 h.redb_marker)
    write_all sink (to_be 8 h.entry_count_hint)

  unfoldable pub write_entry : Bytes → Bytes → On (Out W) (Unit {0})
  write_entry key value = do
    key_len ← u32_expect (length key)
    write_all sink (to_be 4 key_len)
    write_all sink key
    value_len ← u32_expect (length value)
    write_all sink (to_be 4 value_len)
    write_all sink value

  unfoldable pub write_sentinel : On (Out W) (Unit {0})
  write_sentinel = write_all sink (to_be 4 0)

  -- the loop over the entries
  unfoldable pub write_entries : List Row → On (Out W) (Unit {0})
  unfolding write_entry
  write_entries [] = pure tt
  write_entries (row ∷ rows) = do write_entry row.0 row.1; write_entries rows

  -- `CrcWriter::finish`
  unfoldable pub finish : (Bytes → ℕ) → On (Out W) (Unit {0})
  finish crc32 o = write_footer sink (to_be 4 (crc32 o.hashed)) o

pub data ReadEntry : Type 0 where
  entry : Bytes → Bytes → ReadEntry
  sentinel : ReadEntry

-- `sp[0]`
abbrev pub first_byte : Bytes → ℕ
first_byte [] = 0
first_byte (b ∷ _) = b

-- `match sp[0]`
abbrev pub present_hash : ℕ → Bytes → On In (Option Bytes)
present_hash sp sh =
    if sp == 0
    then pure none
    else if sp == 1
    then pure (some sh)
    else fail (corrupted (bad_schema_byte sp))

abbrev pub endless_loop : {A : Type 0} → On In A
endless_loop s = endless

-- the arms of `match read_entry(…)?`: `break`, or `push` and another round
abbrev pub step_entries : (List Row → On In (List Row)) → List Row → ReadEntry → On In (List Row)
step_entries more entries sentinel = pure entries
step_entries more entries (entry key value) = more (entries ++ (key, value) ∷ [])

module _ (fault : Option ℕ) where
  unfoldable pub read_from : On In BackupHeader
  read_from = do
    m ← read_exact fault 8
    fail_if (not (beq m magic)) (corrupted bad_magic)
    fv ← read_exact fault 2
    fail_if (not (from_be fv == format_version)) (corrupted (bad_version (from_be fv)))
    cm ← read_exact fault 8
    sp ← read_exact fault 1
    sh ← read_exact fault 32
    hash ← present_hash (first_byte sp) sh
    rm ← read_exact fault 4
    ec ← read_exact fault 8
    pure (record {
      format_ver = from_be fv;
      created_ms = from_be cm;
      schema_hash = hash;
      redb_marker = from_be rm;
      entry_count_hint = from_be ec;
    })

  -- what follows the key length
  unfoldable pub read_body : ℕ → On In ReadEntry
  read_body key_len = if key_len == 0 then pure sentinel else (do
    key ← read_exact fault key_len
    vl ← read_exact fault 4
    value ← read_exact fault (from_be vl)
    pure (entry key value))

  unfoldable pub read_entry : On In ReadEntry
  unfolding read_body
  read_entry = do kl ← read_exact fault 4; read_body (from_be kl)

  -- the loop over the entries, at most so many rounds of it
  unfoldable pub read_entries : ℕ → List Row → On In (List Row)
  unfolding read_entry
  read_entries zero entries = endless_loop
  read_entries (suc fuel) entries = read_entry >>= step_entries (read_entries fuel) entries

  -- Every round but the last takes a byte, so one more round than bytes is enough.
  unfoldable pub read_all : On In (List Row)
  unfolding read_entries
  read_all s = read_entries (suc (length s.rest)) [] s

  -- `CrcReader::finish_and_verify`
  unfoldable pub finish_and_verify : (Bytes → ℕ) → On In (Unit {0})
  finish_and_verify crc32 s =
      (do
        footer ← read_footer fault
        fail_if (not (from_be footer == crc32 s.hashed)) (corrupted bad_checksum))
        s
