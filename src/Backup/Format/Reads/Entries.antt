-- ===== src/Backup/Format/Reads/Entries.antt =====
-- The entries of a backup, as bytes, and the reader on them.
use nookdb.Prelude.{
  inl, inr, ℕ, zero, suc, ◌^◌, ◌<◌, ◌≡◌, ◌≢◌, ◌∙◌, refl, sym, true, false, Option, List, [], ◌∷◌,
  ◌++◌, append-nil, append_assoc, All, length, length-append, arith, ◌==◌,
}
use nookdb.Bytes.{Bytes}
use nookdb.Rows.{Row}
use nookdb.Backup.{at_end, failed, pure}
use nookdb.Backup.Format.{entry, sentinel, read_body, read_entry, read_entries, read_all}
use nookdb.Backup.Format.Reads.{
  cut, cut-append, bind_ok, bind_failed, at, Reads, read_n-Reads, read_exact-Reads, bind-Reads,
  pure-Reads,
}
use nookdb.Backup.Format.{step_entries}
use nookdb.Backup.Words.{
  be_onto, from_be_onto, to_be, from_be, from_be-to_be, length-to_be, four_bytes-Fits,
}

abbrev pub entry_bytes : Row → Bytes
entry_bytes row = to_be 4 (length row.0) ++ (row.0 ++ (to_be 4 (length row.1) ++ (row.1 ++ [])))

abbrev pub sentinel_bytes : Bytes
sentinel_bytes = to_be 4 0

abbrev pub entries_bytes : List Row → Bytes
entries_bytes [] = sentinel_bytes
entries_bytes (row ∷ rows) = entry_bytes row ++ entries_bytes rows

-- A row that a frame holds: its key is not empty, and its lengths fit 32 bits.
pub record IsFrame (row : Row) : Type 0 where
  pub key_given : length row.0 ≢ 0
  pub key_fits : length row.0 < 2 ^ 32
  pub value_fits : length row.1 < 2 ^ 32

module _ (fault : Option ℕ) where
  read_body-Reads :
      (row : Row)
      → IsFrame row
      → Reads fault
          (read_body fault (length row.0))
          (row.0 ++ (to_be 4 (length row.1) ++ (row.1 ++ [])))
          (entry row.0 row.1)
  unfolding read_body
  read_body-Reads row ok =
      let given : (length row.0 == 0) ≡ false = ground (arith, ok.key_given) in
      let vl : from_be (to_be 4 (length row.1)) ≡ length row.1 =
        from_be-to_be 4 (length row.1) (four_bytes-Fits (length row.1) ok.value_fits) in
      rw given (
        bind-Reads _ (read_exact-Reads fault row.0) (
          bind-Reads _
            (read_n-Reads fault 4 (to_be 4 (length row.1)) (length-to_be 4 (length row.1)))
            (bind-Reads _ (read_n-Reads fault _ row.1 (sym vl)) (pure-Reads (entry row.0 row.1)))))

  read_entry-Reads :
      (row : Row)
      → IsFrame row
      → Reads fault (read_entry fault) (entry_bytes row) (entry row.0 row.1)
  unfolding read_entry
  read_entry-Reads row ok =
      let kl : from_be (to_be 4 (length row.0)) ≡ length row.0 =
        from_be-to_be 4 (length row.0) (four_bytes-Fits (length row.0) ok.key_fits) in
      bind-Reads _ (read_n-Reads fault 4 (to_be 4 (length row.0)) (length-to_be 4 (length row.0)))
        (rw kl (read_body-Reads row ok))

  sentinel-Reads : Reads fault (read_entry fault) (sentinel_bytes ++ []) sentinel
  unfolding read_entry read_body be_onto from_be_onto pure
  sentinel-Reads = bind-Reads _ (read_n-Reads fault 4 sentinel_bytes refl) (pure-Reads sentinel)

  read_entries-Reads :
      (fuel : ℕ) (acc rows : List Row)
      → length rows < fuel
      → All IsFrame rows
      → Reads fault (read_entries fault fuel acc) (entries_bytes rows) (acc ++ rows)
  unfolding read_entries be_onto
  read_entries-Reads zero acc rows h ok = absurd (omega arith)
  read_entries-Reads (suc fuel) acc [] h ok =
      rw (append-nil acc)
        (bind-Reads (step_entries (read_entries fault fuel) acc) sentinel-Reads (pure-Reads acc))
  read_entries-Reads (suc fuel) acc (row ∷ rows) h ok =
      let rest : Reads fault (read_entries fault fuel (acc ++ (row ∷ []))) (entries_bytes rows)
          (acc ++ row ∷ rows) =
        rw (append_assoc acc (row ∷ []) rows) at
          (read_entries-Reads fuel (acc ++ (row ∷ [])) rows (omega arith) ok.1) in
      bind-Reads (step_entries (read_entries fault fuel) acc) (read_entry-Reads row ok.0) rest

  shorter :
      (row : Row) (t : Bytes) (fuel : ℕ)
      → length (entry_bytes row ++ t) < suc fuel
      → length t < fuel
  shorter row t fuel h =
      let more : Bytes = row.0 ++ (to_be 4 (length row.1) ++ (row.1 ++ [])) in
      omega (
        arith,
        length-append (entry_bytes row) t,
        length-append (to_be 4 (length row.0)) more,
        length-to_be 4 (length row.0),
      )

  cut_entries :
      (fuel : ℕ) (acc rows : List Row) (c : ℕ) (h r : Bytes)
      → length r < fuel
      → All IsFrame rows
      → cut r (entries_bytes rows) ≡ true
      → read_entries fault fuel acc (at r c h) ≡ failed (at_end fault)
  unfolding read_entries
  cut_entries zero acc rows c h r l ok i = absurd (omega arith)
  cut_entries (suc fuel) acc [] c h r l ok i =
      bind_failed (read_entry fault) (step_entries (read_entries fault fuel) acc) _ _
        (sentinel-Reads.starves c h r (rw (append-nil sentinel_bytes) i))
  cut_entries (suc fuel) acc (row ∷ rows) c h r l ok i =
      elim (cut-append (entry_bytes row) (entries_bytes rows) r i) [
        | inl j ↦
            bind_failed (read_entry fault) (step_entries (read_entries fault fuel) acc) _ _
              ((read_entry-Reads row ok.0).starves c h r j)
        | inr (t, e, j) ↦ rw e (
            bind_ok (read_entry fault) (step_entries (read_entries fault fuel) acc) _ _ _
              ((read_entry-Reads row ok.0).reads c h t)
            ∙ cut_entries fuel (acc ++ row ∷ []) rows _ _ t (shorter row t fuel (rw (← e) l)) ok.1
                j)
      ]

  length_to_rest : (rows : List Row) (r : Bytes) → length rows < length (entries_bytes rows ++ r)
  length_to_rest [] r = omega (arith, length-append sentinel_bytes r, length-to_be 4 0)
  length_to_rest (row ∷ rows) r =
      let more : Bytes = row.0 ++ (to_be 4 (length row.1) ++ (row.1 ++ [])) in
      omega (
        arith,
        length_to_rest rows r,
        length-append (to_be 4 (length row.0)) more,
        length-to_be 4 (length row.0),
        length-append (entry_bytes row ++ entries_bytes rows) r,
        length-append (entry_bytes row) (entries_bytes rows),
        length-append (entries_bytes rows) r,
      )

  -- The rounds of `read_all` are enough for the entries that were written.
  pub read_all-Reads :
      (rows : List Row) → All IsFrame rows → Reads fault (read_all fault) (entries_bytes rows) rows
  unfolding read_all
  read_all-Reads rows ok = record {
    reads = λ c h r.
        (read_entries-Reads (suc (length (entries_bytes rows ++ r))) [] rows
            (omega (arith, length_to_rest rows r)) ok).reads
          c h r;
    starves = λ c h r i. cut_entries (suc (length r)) [] rows c h r (omega arith) ok i;
  }
