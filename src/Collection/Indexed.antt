-- ===== src/Collection/Indexed.antt =====
-- What the index table of crates/nookdb-core/src/index/engine.rs holds for a collection, and the path
-- over an index in `candidates` of crates/nookdb-core/src/collection.rs.
use nookdb.Prelude.{
  ◌≡◌, ◌∙◌, refl, sym, Bool, true, false, Option, none, some, List, [], ◌∷◌, ◌++◌, inl, inr, All,
  filter, arith, is_some, if◌then◌else◌, Bool-cases, Option-cases,
}
use nookdb.Bytes.{Bytes, beq, beq_iff, beq_refl, beq_complete, contains}
use nookdb.Collection.{Collection}
use nookdb.Collection.ByScan.{IsFiled}
use nookdb.Collection.Writes.{value_or_null}
use nookdb.Doc.{decode_document}
use nookdb.Error.{Result, ok, err, Result-cases}
use nookdb.Index.{key, encode_index_value}
use nookdb.Index.Exact.{stem}
use nookdb.Index.Distinct.{last-cases, key-stem, key-stem_last, longer, holds_nul}
use nookdb.Json.{Value, External, get}
use nookdb.Rows.{Row, Rows, lookup, IsSorted, user_rows}
use nookdb.Rows.Users.{lookup-user_rows, user_rows-IsSorted}
use nookdb.Rows.Chosen.{chosen, gather, Points, gather-filter, All-lookup}
use nookdb.Schema.Ir.{IndexIr}

-- Rows with keys without NUL hold nothing under a key with one.
lookup_nul :
    (k : Bytes) (rows : Rows)
    → All (λ row. contains row.0 0 ≡ false) rows
    → contains k 0 ≡ true
    → lookup k rows ≡ none
unfolding lookup
lookup_nul k [] h g = refl
lookup_nul k ((j, v) ∷ rows) h g = ground (arith, h.0, beq_iff j k, lookup_nul k rows h.1)

nul_free-lookup :
    (k : Bytes) (rows : Rows)
    → All (λ row. contains row.0 0 ≡ false) rows
    → is_some (lookup k rows) ≡ true
    → contains k 0 ≡ false
nul_free-lookup k rows h g = elim (Bool-cases (contains k 0)) [
  | inr q ↦ q
  | inl q ↦ let e = lookup_nul k rows h q in absurd (ground (arith, e, g))
]

module _ {N F : Type 0} (x : External N F) (c : Collection F) where
  -- The index value of a document under a field.
  abbrev pub encoded : Bytes → Value N → Bytes
  encoded f d = encode_index_value x (value_or_null (get d f))

  -- What the index must hold for a field, a value and an id, from what is stored under the id.
  abbrev entry_of : Bytes → Bytes → Bytes → Result (Value N) → Option Bytes
  entry_of f e id (ok d) = if beq (encoded f d) e then some id else none
  entry_of f e id (err y) = none

  abbrev pub entry : Bytes → Bytes → Bytes → Option Bytes → Option Bytes
  entry f e id none = none
  entry f e id (some b) = entry_of f e id (decode_document x b c.codec)

  -- The index agrees with the rows of the collection on a field.
  abbrev pub Agrees : Rows → Rows → IndexIr → Type 0
  Agrees index rows idx =
      (e id : Bytes)
      → contains id 0 ≡ false
      → lookup (key c.name idx.field e id) index ≡ entry idx.field e id (lookup id rows)

  -- The rows of a collection and the index: each document is stored under its id, which holds no
  -- NUL, and each index of the collection has exactly the entries of these documents.
  pub record IsConsistent (index rows : Rows) : Type 0 where
    pub filed : All (IsFiled x c) rows
    pub nul_free : All (λ row. contains row.0 0 ≡ false) rows
    pub agrees : All (Agrees index rows) c.ir.indexes

  -- What an entry tells.
  pub record Entered (f e id v : Bytes) (o : Option Bytes) : Type 0 where
    pub stored : Bytes
    pub doc : Value N
    pub there : o ≡ some stored
    pub decoded : decode_document x stored c.codec ≡ ok doc
    pub same : encoded f doc ≡ e
    pub pointed : v ≡ id

  pub entered : (f e id v : Bytes) (o : Option Bytes) → entry f e id o ≡ some v → Entered f e id v o
  entered f e id v none h = absurd (ground arith)
  entered f e id v (some b) h = elim (Result-cases (decode_document x b c.codec)) [
    | inl (d, q) ↦
        let g : entry_of f e id (ok d) ≡ some v = rw q at h in
        record {
          stored = b;
          doc = d;
          there = refl;
          decoded = q;
          same = ground (arith, g, beq_iff (encoded f d) e);
          pointed = ground (arith, g);
        }
    | inr (y, q) ↦
        let g : entry_of f e id (err y) ≡ some v = rw q at h in absurd (ground (arith, g))
  ]

  abbrev pub doc_onto : Result (Value N) → List (Value N) → List (Value N)
  doc_onto (ok d) ds = d ∷ ds
  doc_onto (err y) ds = ds

  -- The documents of rows.
  abbrev pub docs_of : Rows → List (Value N)
  docs_of [] = []
  docs_of (row ∷ rows) = doc_onto (decode_document x row.1 c.codec) (docs_of rows)

  module _ (asked : Value N → Bool) where
    abbrev pub good_doc : Result (Value N) → Bool
    good_doc (ok d) = asked d
    good_doc (err y) = false

    abbrev pub good : Bytes → Bool
    good b = good_doc (decode_document x b c.codec)

    pub filter-docs_of :
        (rows : Rows) → filter asked (docs_of rows) ≡ docs_of (filter (λ row. good row.1) rows)
    filter-docs_of [] = refl
    filter-docs_of ((j, b) ∷ rows) = elim (Result-cases (decode_document x b c.codec)) [
      | inl (d, q) ↦ elim (Bool-cases (asked d)) [
        | inl e ↦ rw (q, e, q, filter-docs_of rows)
        | inr e ↦ rw (q, e, filter-docs_of rows)
      ]
      | inr (y, q) ↦ rw q (filter-docs_of rows)
    ]

    -- The rows of an index range, from the committed rows of a consistent collection.
    module _ (index rows : Rows) (s : IsSorted index) (t : IsSorted rows)
        (con : IsConsistent index rows) (idx : IndexIr) (ag : Agrees index rows idx) (e : Bytes)
        (exact : (d : Value N) → asked d ≡ true → encoded idx.field d ≡ e) where
      abbrev pub range : Rows
      range = user_rows (stem c.name idx.field e) index

      not_asked : (d : Value N) (r : Bytes) → encoded idx.field d ≡ e ++ 0 ∷ r → asked d ≡ false
      not_asked d r h = elim (Bool-cases (asked d)) [
        | inr q ↦ q
        | inl q ↦
            let same : beq e (e ++ 0 ∷ r) ≡ true =
              beq_complete e (e ++ 0 ∷ r) (sym (exact d q) ∙ h) in
            absurd (ground (arith, same, longer e r))
      ]

      -- A pointer of the range, and the document that it points to.
      pub record Target (row : Row) : Type 0 where
        pub bytes : Bytes
        pub doc : Value N
        pub there : lookup row.1 rows ≡ some bytes
        pub decoded : decode_document x bytes c.codec ≡ ok doc
        pub points : Points good rows row

      target : (r v : Bytes) → lookup r range ≡ some v → Target (r, v)
      target r v h =
          let k : lookup (stem c.name idx.field e ++ 0 ∷ r) index ≡ some v =
            sym (lookup-user_rows (stem c.name idx.field e) r index) ∙ h in
          elim (last-cases r) [
            | inl f ↦
                let m =
                  entered idx.field e r v (lookup r rows) (sym (ag e r f) ∙ (rw key-stem k)) in
                record {
                  bytes = m.stored;
                  doc = m.doc;
                  there = rw m.pointed m.there;
                  decoded = m.decoded;
                  points = inl (sym m.pointed);
                }
            | inr l ↦
                let m = entered idx.field (e ++ 0 ∷ l.before) l.after v (lookup l.after rows) (
                  sym (ag (e ++ 0 ∷ l.before) l.after l.nul_free)
                  ∙ (rw (key-stem_last, ← l.joined) k)) in
                record {
                  bytes = m.stored;
                  doc = m.doc;
                  there = rw m.pointed m.there;
                  decoded = m.decoded;
                  points = inr (
                    rw (lookup_nul r rows con.nul_free (rw l.joined (holds_nul l.before l.after))),
                    rw (m.pointed, m.there, m.decoded, not_asked m.doc l.before m.same),
                  );
                }
          ]

      targets : (part : Rows) → All (λ row. lookup row.0 range ≡ some row.1) part → All Target part
      targets [] h = tt
      targets ((r, v) ∷ part) h = (target r v h.0, targets part h.1)

      pub range-Target : All Target range
      range-Target =
          targets range (All-lookup range (user_rows-IsSorted (stem c.name idx.field e) index s))

      all-Points : (part : Rows) → All Target part → All (Points good rows) part
      all-Points [] h = tt
      all-Points (row ∷ part) h = (h.0.points, all-Points part h.1)

      -- A document that is asked for is in the range.
      in_range_of :
          (k b : Bytes) → chosen good (lookup k rows) ≡ some b → is_some (lookup k range) ≡ true
      in_range_of k b h = elim (Option-cases (lookup k rows)) [
        | inl q ↦ let g : none ≡ some b = rw q at h in absurd (ground (arith, g))
        | inr (w, q) ↦ elim (Result-cases (decode_document x w c.codec)) [
          | inr (y, p) ↦ let g : none ≡ some b = rw (q, p) at h in absurd (ground (arith, g))
          | inl (d, p) ↦
              let g : (if asked d then some w else none) ≡ some b = rw (q, p) at h in
              let a : asked d ≡ true = ground (arith, g) in
              let f : contains k 0 ≡ false = nul_free-lookup k rows con.nul_free (rw q refl) in
              rw
                (
                  lookup-user_rows (stem c.name idx.field e) k index,
                  ← key-stem c.name idx.field e k,
                  ag e k f,
                  q,
                  p,
                  exact d a,
                  beq_refl e,
                )
                refl
        ]
      ]

      -- The rows that the range points to and that are asked for are those of the scan.
      pub gather_range : gather good rows range ≡ filter (λ row. good row.1) rows
      gather_range =
          gather-filter good rows range t (user_rows-IsSorted (stem c.name idx.field e) index s)
            (all-Points range range-Target) in_range_of
