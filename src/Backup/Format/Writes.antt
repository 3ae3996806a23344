-- ===== src/Backup/Format/Writes.antt =====
-- Rules for the pieces that a writer of crates/nookdb-core/src/backup.rs puts on the stream.
use nookdb.Prelude.{
  ℕ, ◌+◌, ◌^◌, ◌<◌, ◌≡◌, ◌∙◌, ap, true, Option, none, some, List, [], ◌∷◌, ◌++◌, append-nil,
  append_assoc, All, length, length-append, arith, ltb,
}
use nookdb.Bytes.{Bytes}
use nookdb.Error.{Result, ok}
use nookdb.Rows.{Row}
use nookdb.Backup.{finished, failed, panicked, endless, On, ◌>>=◌, ◌>>◌, pure, Out, write_all}
use nookdb.Backup.Format.{
  BackupHeader, magic, zeros, u32_expect, write_hash, write_to, write_entry, write_sentinel,
  write_entries,
}
use nookdb.Backup.Format.Reads.Header.{header_bytes, flag_bytes, hash_bytes}
use nookdb.Backup.Format.Reads.Entries.{entry_bytes, entries_bytes, sentinel_bytes, IsFrame}
use nookdb.Backup.Words.{to_be}

-- A sink that never fails, and that holds what it was given in order, such as `Vec<u8>`.
pub record IsBuffer {W : Type 0} (sink : W → Bytes → Result W) : Type 0 where
  pub extended : W → Bytes → W
  pub content : W → Bytes
  pub sink_ok : (w : W) (b : Bytes) → sink w b ≡ ok (extended w b)
  pub content-extended : (w : W) (b : Bytes) → content (extended w b) ≡ content w ++ b
  pub extended-extended : (w : W) (a b : Bytes) → extended (extended w a) b ≡ extended w (a ++ b)
  pub extended-nil : (w : W) → extended w [] ≡ w

module _ {W : Type 0} (sink : W → Bytes → Result W) (law : IsBuffer sink) where
  open law use {extended}

  -- the wrapped writer after `p`
  abbrev pub after : Out W → Bytes → Out W
  after o p = record {
    inner = extended o.inner p;
    count = o.count + length p;
    hashed = o.hashed ++ p;
  }

  -- `m` puts exactly `p` on the stream.
  pub record Writes (m : On (Out W) (Unit {0})) (p : Bytes) : Type 0 where
    pub writes : (o : Out W) → m o ≡ finished (tt, after o p)

  pub write_all-Writes : (p : Bytes) → Writes (write_all sink p) p
  unfolding write_all
  write_all-Writes p = record { writes = λ o. ground (arith, law.sink_ok o.inner p) }

  pub after-after : (o : Out W) (p q : Bytes) → after (after o p) q ≡ after o (p ++ q)
  after-after o p q =
      let n : (o.count + length p) + length q ≡ o.count + length (p ++ q) =
        omega (arith, length-append p q) in
      rw (law.extended-extended o.inner p q, n, append_assoc o.hashed p q)

  pub bind_after :
      (m : On (Out W) (Unit {0})) (f : Unit {0} → On (Out W) (Unit {0})) (o t : Out W)
      → m o ≡ finished (tt, t)
      → (m >>= f) o ≡ f tt t
  unfolding ◌>>=◌
  bind_after m f o t e = ground (arith, e)

  pub then-Writes :
      {m : On (Out W) (Unit {0})} (k : On (Out W) (Unit {0})) {p q : Bytes}
      → Writes m p
      → Writes k q
      → Writes (m >> k) (p ++ q)
  then-Writes {m} k {p} {q} x y = record {
    writes = λ o.
        bind_after m (λ _. k) o (after o p) (x.writes o)
        ∙ (y.writes (after o p) ∙ ap (λ t. finished (tt, t)) (after-after o p q));
  }

  pub regroup : (m k l : On (Out W) (Unit {0})) (o : Out W) → ((m >> k) >> l) o ≡ (m >> (k >> l)) o
  unfolding ◌>>=◌
  regroup m k l o = ground arith

  pub done-Writes : Writes (pure tt) []
  unfolding pure
  done-Writes = record {
    writes = λ o.
        let n : o.count + 0 ≡ o.count = omega arith in
        rw (law.extended-nil o.inner, n, append-nil o.hashed);
  }

  end-Writes : {m : On (Out W) (Unit {0})} {p : Bytes} → Writes m p → Writes m (p ++ [])
  end-Writes {m} {p} x = rw (append-nil p) x

  expect_ok : (n : ℕ) (o : Out W) → n < 2 ^ 32 → u32_expect n o ≡ finished (n, o)
  expect_ok n o h = let t : ltb n (2 ^ 32) ≡ true = ground (arith, h) in rw t

  bind_expect :
      (n : ℕ) (f : ℕ → On (Out W) (Unit {0})) (o : Out W)
      → u32_expect n o ≡ finished (n, o)
      → (u32_expect n >>= f) o ≡ f n o
  unfolding ◌>>=◌
  bind_expect n f o e =
      ap
        (λ r. elim r [
          | finished x ↦ f x.0 x.1
          | failed y ↦ failed y
          | panicked ↦ panicked
          | endless ↦ endless
        ])
        e

  -- A length that fits its word is passed on.
  expect-Writes :
      (n : ℕ) (f : ℕ → On (Out W) (Unit {0})) {p : Bytes}
      → n < 2 ^ 32
      → Writes (f n) p
      → Writes (u32_expect n >>= f) p
  expect-Writes n f h x = record { writes = λ o. bind_expect n f o (expect_ok n o h) ∙ x.writes o }

  write_hash-Writes : (o : Option Bytes) → Writes (write_hash sink o) (flag_bytes o ++ hash_bytes o)
  unfolding write_hash
  write_hash-Writes none = then-Writes _ (write_all-Writes (0 ∷ [])) (write_all-Writes (zeros 32))
  write_hash-Writes (some h) = then-Writes _ (write_all-Writes (1 ∷ [])) (write_all-Writes h)

  pub write_to-Writes : (d : BackupHeader) → Writes (write_to sink d) (header_bytes d)
  unfolding write_to
  write_to-Writes d =
      let last = end-Writes (write_all-Writes (to_be 8 d.entry_count_hint)) in
      let words = then-Writes _ (write_all-Writes (to_be 4 d.redb_marker)) last in
      rw
        (← append_assoc (flag_bytes d.schema_hash) (hash_bytes d.schema_hash)
          (to_be 4 d.redb_marker ++ (to_be 8 d.entry_count_hint ++ [])))
        (then-Writes _ (write_all-Writes magic) (
          then-Writes _ (write_all-Writes (to_be 2 d.format_ver)) (
            then-Writes _ (write_all-Writes (to_be 8 d.created_ms))
              (then-Writes _ (write_hash-Writes d.schema_hash) words))))

  write_entry-Writes :
      (row : Row) → IsFrame row → Writes (write_entry sink row.0 row.1) (entry_bytes row)
  unfolding write_entry
  write_entry-Writes row fits = expect-Writes (length row.0) _ fits.key_fits (
      then-Writes _ (write_all-Writes (to_be 4 (length row.0))) (
        then-Writes _ (write_all-Writes row.0) (
          expect-Writes (length row.1) _ fits.value_fits (
            then-Writes _ (write_all-Writes (to_be 4 (length row.1)))
              (end-Writes (write_all-Writes row.1))))))

  -- The entries with the sentinel after them.
  pub write_entries-Writes :
      (rows : List Row)
      → All IsFrame rows
      → Writes (write_entries sink rows >> write_sentinel sink) (entries_bytes rows)
  unfolding write_entries write_sentinel
  write_entries-Writes [] fits = then-Writes _ done-Writes (write_all-Writes sentinel_bytes)
  write_entries-Writes (row ∷ rows) fits =
      let rest = write_entries-Writes rows fits.1 in
      let whole = then-Writes _ (write_entry-Writes row fits.0) rest in
      record { writes = λ o. regroup (write_entry sink row.0 row.1) _ _ o ∙ whole.writes o }
