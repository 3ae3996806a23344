-- ===== src/Backup/Copy/Received.antt =====
-- What `read_backup` of crates/nookdb-core/src/backup.rs makes of a stream, whole, cut or damaged.
use nookdb.Prelude.{
  inl, inr, take, ◌≢◌, true, ℕ, ◌+◌, ◌^◌, ◌<◌, ◌≡◌, ◌∙◌, refl, false, not, ◌&&◌, Option, List, [],
  ◌++◌, append_assoc, All, length, arith,
}
use nookdb.Bytes.{Bytes}
use nookdb.Error.{corrupted, bad_checksum, bad_schema, hash_mismatch}
use nookdb.Rows.{Row}
use nookdb.Backup.{at_end, failed, ◌>>=◌, finished, ◌>>◌, pure, fail_if, read_footer}
use nookdb.Backup.Words.{be_onto, to_be, from_be, from_be-to_be, length-to_be, four_bytes-Fits}
use nookdb.Backup.Format.{BackupHeader, read_from, read_all, finish_and_verify}
use nookdb.Backup.Format.Reads.{
  cut, cut-take, length-cut, cut-append, bind_failed, Reads, at, bind_ok,
}
use nookdb.Backup.Format.Reads.Header.{header_bytes, IsHeader, read_from-Reads}
use nookdb.Backup.Format.Reads.Entries.{entries_bytes, IsFrame, read_all-Reads}
use nookdb.Backup.Copy.{RestoreOptions, hashes_differ, read_stream}
use nookdb.Backup.Copy.Stream.{covered, stream_bytes, zero_plus}

module _ (fault : Option ℕ) (crc32 : Bytes → ℕ) where
  short_footer :
      (c : ℕ) (p t : Bytes) → length t < 4 → read_footer fault (at t c p) ≡ failed (at_end fault)
  unfolding read_footer
  short_footer c p t h = ground (arith, h)

  read_footer_ok :
      (c n : ℕ) (p : Bytes)
      → read_footer fault (at (to_be 4 n) c p) ≡ finished (to_be 4 n, at [] (c + 4) p)
  unfolding read_footer be_onto
  read_footer_ok c n p = refl

  finish_and_verify_ok :
      (c : ℕ) (p : Bytes)
      → crc32 p < 2 ^ 32
      → finish_and_verify fault crc32 (at (to_be 4 (crc32 p)) c p) ≡ finished (tt, at [] (c + 4) p)
  unfolding finish_and_verify fail_if
  finish_and_verify_ok c p h =
      let v : from_be (to_be 4 (crc32 p)) ≡ crc32 p =
        from_be-to_be 4 (crc32 p) (four_bytes-Fits (crc32 p) h) in
      bind_ok (read_footer fault) _ _ _ _ (read_footer_ok c (crc32 p) p) ∙ ground (arith, v)

  checksum_differs :
      (c v : ℕ) (p : Bytes)
      → v < 2 ^ 32
      → v ≢ crc32 p
      → finish_and_verify fault crc32 (at (to_be 4 v) c p) ≡ failed (corrupted bad_checksum)
  unfolding finish_and_verify fail_if
  checksum_differs c v p h ne =
      let e : from_be (to_be 4 v) ≡ v = from_be-to_be 4 v (four_bytes-Fits v h) in
      bind_ok (read_footer fault) _ _ _ _ (read_footer_ok c v p) ∙ ground (arith, e, ne)

  footer_cut :
      (c : ℕ) (p t : Bytes)
      → length t < 4
      → finish_and_verify fault crc32 (at t c p) ≡ failed (at_end fault)
  unfolding finish_and_verify
  footer_cut c p t h = bind_failed (read_footer fault) _ _ _ (short_footer c p t h)

  -- A header and rows whose bytes are at hand, with a schema check that passes.
  module _ (opts : RestoreOptions) (d : BackupHeader) (rows : List Row) (hb eb : Bytes)
      (x : Reads fault (read_from fault) hb d) (y : Reads fault (read_all fault) eb rows)
      (ok : (not opts.skip_schema_check && hashes_differ d.schema_hash opts.current_schema_hash)
        ≡ false) where
    up_to_rows :
        (t : Bytes)
        → read_stream fault crc32 opts (at (hb ++ t) 0 [])
          ≡ (do entries ← read_all fault; finish_and_verify fault crc32; pure entries)
              (at t (length hb) hb)
    unfolding read_stream fail_if
    up_to_rows t =
        let s1 : read_from fault (at (hb ++ t) 0 []) ≡ finished (d, at t (length hb) hb) =
          rw (x.reads 0 [] t, zero_plus (length hb)) refl in
        let s2 : fail_if _ (bad_schema hash_mismatch) (at t (length hb) hb)
            ≡ finished (tt, at t (length hb) hb) =
          rw ok refl in
        bind_ok (read_from fault) _ _ _ _ s1
        ∙ bind_ok (fail_if _ (bad_schema hash_mismatch)) _ _ _ _ s2

    up_to_footer :
        (foot : Bytes)
        → read_stream fault crc32 opts (at ((hb ++ eb) ++ foot) 0 [])
          ≡ (do finish_and_verify fault crc32; pure rows)
              (at foot (length hb + length eb) (hb ++ eb))
    up_to_footer foot =
        rw (append_assoc hb eb foot)
          (up_to_rows (eb ++ foot) ∙ bind_ok (read_all fault) _ _ _ _ (y.reads (length hb) hb foot))

    read_through :
        crc32 (hb ++ eb) < 2 ^ 32
        → read_stream fault crc32 opts (at ((hb ++ eb) ++ to_be 4 (crc32 (hb ++ eb))) 0 [])
          ≡ finished (rows, at [] (length hb + length eb + 4) (hb ++ eb))
    unfolding pure
    read_through hc =
        up_to_footer (to_be 4 (crc32 (hb ++ eb)))
        ∙ bind_ok (finish_and_verify fault crc32) _ _ _ _
            (finish_and_verify_ok (length hb + length eb) (hb ++ eb) hc)

    read_wrong_footer :
        (v : ℕ)
        → v < 2 ^ 32
        → v ≢ crc32 (hb ++ eb)
        → read_stream fault crc32 opts (at ((hb ++ eb) ++ to_be 4 v) 0 [])
          ≡ failed (corrupted bad_checksum)
    read_wrong_footer v h ne =
        up_to_footer (to_be 4 v)
        ∙ bind_failed (finish_and_verify fault crc32) _ _ _
            (checksum_differs (length hb + length eb) v (hb ++ eb) h ne)

    read_cut :
        (r foot : Bytes)
        → length foot ≡ 4
        → cut r ((hb ++ eb) ++ foot) ≡ true
        → read_stream fault crc32 opts (at r 0 []) ≡ failed (at_end fault)
    unfolding read_stream
    read_cut r foot n i = elim (cut-append (hb ++ eb) foot r i) [
      | inl j ↦ elim (cut-append hb eb r j) [
        | inl k ↦ bind_failed (read_from fault) _ _ _ (x.starves 0 [] r k)
        | inr (t, e, k) ↦
            rw e (up_to_rows t ∙ bind_failed (read_all fault) _ _ _ (y.starves (length hb) hb t k))
      ]
      | inr (t, e, j) ↦ rw e (
          up_to_footer t
          ∙ bind_failed (finish_and_verify fault crc32) _ _ _ (
              footer_cut (length hb + length eb) (hb ++ eb) t
                (omega (arith, length-cut t foot j, n))))
    ]

  -- A header whose schema check fails, with anything after it.
  pub foreign_stream :
      (opts : RestoreOptions) (d : BackupHeader) (t : Bytes)
      → IsHeader d
      → (not opts.skip_schema_check && hashes_differ d.schema_hash opts.current_schema_hash) ≡ true
      → read_stream fault crc32 opts (at (header_bytes d ++ t) 0 [])
        ≡ failed (bad_schema hash_mismatch)
  unfolding read_stream fail_if
  foreign_stream opts d t hd differ =
      let x = read_from-Reads fault d hd in
      bind_ok (read_from fault) _ _ _ _ (x.reads 0 [] t)
      ∙ bind_failed (fail_if _ (bad_schema hash_mismatch)) _ _ _ (rw differ refl)

  -- The bytes of a backup whose schema check passes.
  module _ (opts : RestoreOptions) (d : BackupHeader) (rows : List Row) (hd : IsHeader d)
      (fits : All IsFrame rows)
      (ok : (not opts.skip_schema_check && hashes_differ d.schema_hash opts.current_schema_hash)
        ≡ false) where
    pub read_stream_lem :
        crc32 (covered d rows) < 2 ^ 32
        → read_stream fault crc32 opts (at (stream_bytes crc32 d rows) 0 [])
          ≡ finished (
            rows,
            at [] (length (header_bytes d) + length (entries_bytes rows) + 4) (covered d rows),
          )
    read_stream_lem hc =
        read_through opts d rows (header_bytes d) (entries_bytes rows) (read_from-Reads fault d hd)
          (read_all-Reads fault rows fits) ok hc

    pub wrong_footer :
        (v : ℕ)
        → v < 2 ^ 32
        → v ≢ crc32 (covered d rows)
        → read_stream fault crc32 opts (at (covered d rows ++ to_be 4 v) 0 [])
          ≡ failed (corrupted bad_checksum)
    wrong_footer v h ne =
        read_wrong_footer opts d rows (header_bytes d) (entries_bytes rows)
          (read_from-Reads fault d hd) (read_all-Reads fault rows fits) ok v h ne

    pub cut_stream :
        (k : ℕ)
        → k < length (stream_bytes crc32 d rows)
        → read_stream fault crc32 opts (at (take k (stream_bytes crc32 d rows)) 0 [])
          ≡ failed (at_end fault)
    cut_stream k h =
        read_cut opts d rows (header_bytes d) (entries_bytes rows) (read_from-Reads fault d hd)
          (read_all-Reads fault rows fits) ok (take k (stream_bytes crc32 d rows))
          (to_be 4 (crc32 (covered d rows))) (length-to_be 4 (crc32 (covered d rows)))
          (cut-take k (stream_bytes crc32 d rows) h)
