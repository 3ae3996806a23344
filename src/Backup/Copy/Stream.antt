-- ===== src/Backup/Copy/Stream.antt =====
-- The whole stream of `write_backup` and `read_backup` of crates/nookdb-core/src/backup.rs, as bytes.
use nookdb.Prelude.{
  ℕ, ◌+◌, ◌≡◌, ◌∙◌, refl, sym, ap, List, [], ◌++◌, All, length, length-append, arith,
}
use nookdb.Bytes.{Bytes}
use nookdb.Error.{Result}
use nookdb.Rows.{Row}
use nookdb.Backup.{finished, ◌>>◌, Out, write_footer}
use nookdb.Backup.Words.{to_be, length-to_be}
use nookdb.Backup.Format.{BackupHeader, write_to, write_entries, write_sentinel, finish}
use nookdb.Backup.Format.Reads.Header.{header_bytes}
use nookdb.Backup.Format.Reads.Entries.{entries_bytes, IsFrame}
use nookdb.Backup.Format.Writes.{
  IsBuffer, after, after-after, bind_after, regroup, write_to-Writes, write_entries-Writes,
}
use nookdb.Backup.Copy.{write_stream}

-- What the check sum covers, and the whole of the stream.
abbrev pub covered : BackupHeader → List Row → Bytes
covered d rows = header_bytes d ++ entries_bytes rows

abbrev pub stream_bytes : (Bytes → ℕ) → BackupHeader → List Row → Bytes
stream_bytes crc32 d rows = covered d rows ++ to_be 4 (crc32 (covered d rows))

pub zero_plus : (n : ℕ) → 0 + n ≡ n
zero_plus n = omega arith

-- The bytes that a reader counts.
pub length_read :
    (crc32 : Bytes → ℕ) (d : BackupHeader) (rows : List Row)
    → length (stream_bytes crc32 d rows) ≡ length (header_bytes d) + length (entries_bytes rows) + 4
length_read crc32 d rows = omega (
  arith,
  length-append (covered d rows) (to_be 4 (crc32 (covered d rows))),
  length-append (header_bytes d) (entries_bytes rows),
  length-to_be 4 (crc32 (covered d rows)),
)

module _ {W : Type 0} (sink : W → Bytes → Result W) (law : IsBuffer sink) (crc32 : Bytes → ℕ) where
  open law use {extended}

  length-stream_bytes :
      (d : BackupHeader) (rows : List Row)
      → length (stream_bytes crc32 d rows) ≡ length (covered d rows) + 4
  length-stream_bytes d rows = omega (
    arith,
    length-append (covered d rows) (to_be 4 (crc32 (covered d rows))),
    length-to_be 4 (crc32 (covered d rows)),
  )

  finish_ok :
      (w : W) (p : Bytes)
      → finish sink crc32 (record { inner = extended w p; count = length p; hashed = p })
        ≡ finished (
          tt,
          record { inner = extended w (p ++ to_be 4 (crc32 p)); count = length p + 4; hashed = p },
        )
  unfolding finish write_footer
  finish_ok w p = ground (
    arith,
    law.sink_ok (extended w p) (to_be 4 (crc32 p)),
    law.extended-extended w p (to_be 4 (crc32 p)),
    length-to_be 4 (crc32 p),
  )

  pub write_stream_lem :
      (d : BackupHeader) (rows : List Row) (w : W)
      → All IsFrame rows
      → write_stream sink crc32 d rows (record { inner = w; count = 0; hashed = [] })
        ≡ finished (
          tt,
          record {
            inner = extended w (stream_bytes crc32 d rows);
            count = length (stream_bytes crc32 d rows);
            hashed = covered d rows;
          },
        )
  unfolding write_stream
  write_stream_lem d rows w fits =
      let o : Out W = record { inner = w; count = 0; hashed = [] } in
      let head =
        bind_after sink law (write_to sink d) _ o _ ((write_to-Writes sink law d).writes o) in
      let body = write_entries-Writes sink law rows fits in
      let tail =
        bind_after sink law (write_entries sink rows >> write_sentinel sink)
          (λ _. finish sink crc32) (after sink law o (header_bytes d)) _ (body.writes _) in
      let group =
        regroup sink law (write_entries sink rows) (write_sentinel sink) (finish sink crc32)
          (after sink law o (header_bytes d)) in
      let there : after sink law (after sink law o (header_bytes d)) (entries_bytes rows) ≡ record {
        inner = extended w (covered d rows);
        count = length (covered d rows);
        hashed = covered d rows;
      } =
        rw
          (
            after-after sink law o (header_bytes d) (entries_bytes rows),
            zero_plus (length (covered d rows)),
          )
          refl in
      let ends =
        ap (finish sink crc32) there
        ∙ (finish_ok w (covered d rows) ∙ rw (length-stream_bytes d rows)) in
      head ∙ (sym group ∙ (tail ∙ ends))
