-- ===== src/Backup/Format/Reads/Header.antt =====
-- The header of a backup, as bytes, and the reader on them.
use nookdb.Prelude.{
  ℕ, ◌^◌, ◌<◌, ◌≡◌, refl, Option, none, some, [], ◌∷◌, ◌++◌, length, arith, ◌==◌, not,
}
use nookdb.Bytes.{Bytes, beq_refl, beq}
use nookdb.Backup.{read_exact}
use nookdb.Backup.Format.{
  BackupHeader, magic, format_version, zeros, first_byte, present_hash, read_from,
}
use nookdb.Backup.Format.Reads.{Reads, read_n-Reads, bind-Reads, pure-Reads, fail_if-Reads}
use nookdb.Backup.Words.{
  to_be, from_be, from_be-to_be, length-to_be, two_bytes-Fits, four_bytes-Fits, eight_bytes-Fits,
}

abbrev pub flag_bytes : Option Bytes → Bytes
flag_bytes none = 0 ∷ []
flag_bytes (some h) = 1 ∷ []

abbrev pub hash_bytes : Option Bytes → Bytes
hash_bytes none = zeros 32
hash_bytes (some h) = h

abbrev pub IsHash : Option Bytes → Type 0
IsHash none = Unit {0}
IsHash (some h) = length h ≡ 32

abbrev pub header_bytes : BackupHeader → Bytes
header_bytes d =
    magic
    ++ (to_be 2 d.format_ver
        ++ (to_be 8 d.created_ms
            ++ (flag_bytes d.schema_hash
                ++ (hash_bytes d.schema_hash
                    ++ (to_be 4 d.redb_marker ++ (to_be 8 d.entry_count_hint ++ []))))))

-- A header of this version whose numbers fit their words.
pub record IsHeader (d : BackupHeader) : Type 0 where
  pub version : d.format_ver ≡ format_version
  pub created_fits : d.created_ms < 2 ^ 64
  pub hash_fits : IsHash d.schema_hash
  pub marker_fits : d.redb_marker < 2 ^ 32
  pub hint_fits : d.entry_count_hint < 2 ^ 64

length-flag_bytes : (o : Option Bytes) → length (flag_bytes o) ≡ 1
length-flag_bytes none = refl
length-flag_bytes (some h) = refl

length-hash_bytes : (o : Option Bytes) → IsHash o → length (hash_bytes o) ≡ 32
length-hash_bytes none h = refl
length-hash_bytes (some b) h = h

present_hash-Reads :
    {fault : Option ℕ} (o : Option Bytes)
    → Reads fault (present_hash (first_byte (flag_bytes o)) (hash_bytes o)) [] o
present_hash-Reads none = pure-Reads none
present_hash-Reads (some h) = pure-Reads (some h)

module _ (fault : Option ℕ) where
  word-Reads : (k n : ℕ) → Reads fault (read_exact fault k) (to_be k n) (to_be k n)
  word-Reads k n = read_n-Reads fault k (to_be k n) (length-to_be k n)

  pub read_from-Reads :
      (d : BackupHeader) → IsHeader d → Reads fault (read_from fault) (header_bytes d) d
  unfolding read_from
  read_from-Reads d ok =
      let v : from_be (to_be 2 d.format_ver) ≡ d.format_ver =
        from_be-to_be 2 d.format_ver (two_bytes-Fits d.format_ver (omega (arith, ok.version))) in
      let cm : from_be (to_be 8 d.created_ms) ≡ d.created_ms =
        from_be-to_be 8 d.created_ms (eight_bytes-Fits d.created_ms ok.created_fits) in
      let rm : from_be (to_be 4 d.redb_marker) ≡ d.redb_marker =
        from_be-to_be 4 d.redb_marker (four_bytes-Fits d.redb_marker ok.marker_fits) in
      let ec : from_be (to_be 8 d.entry_count_hint) ≡ d.entry_count_hint =
        from_be-to_be 8 d.entry_count_hint (eight_bytes-Fits d.entry_count_hint ok.hint_fits) in
      bind-Reads _ (read_n-Reads fault 8 magic refl) (
        bind-Reads _ (fail_if-Reads (not (beq magic magic)) _ (rw (beq_refl magic))) (
          bind-Reads _ (word-Reads 2 d.format_ver) (
            bind-Reads _
              (fail_if-Reads (not (from_be (to_be 2 d.format_ver) == format_version)) _
                (rw (v, ok.version)))
              (bind-Reads _ (word-Reads 8 d.created_ms) (
                bind-Reads _
                  (read_n-Reads fault 1 (flag_bytes d.schema_hash)
                    (length-flag_bytes d.schema_hash))
                  (bind-Reads _
                    (read_n-Reads fault 32 (hash_bytes d.schema_hash)
                      (length-hash_bytes d.schema_hash ok.hash_fits))
                    (bind-Reads _ (present_hash-Reads d.schema_hash) (
                      bind-Reads _ (word-Reads 4 d.redb_marker) (
                        bind-Reads _ (word-Reads 8 d.entry_count_hint)
                          (rw (v, cm, rm, ec) (pure-Reads d)))))))))))
