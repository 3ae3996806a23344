-- ===== src/Collection/Planned.antt =====
-- About `candidates` of crates/nookdb-core/src/collection.rs: whichever path it takes, a query over a
-- consistent collection answers what a scan answers.
use nookdb.Prelude.{
  ◌≡◌, ◌∙◌, refl, sym, ap, Bool, true, false, Option, none, some, List, [], ◌∷◌, inl, inr, All,
  filter, map, arith, Bool-cases, Option-cases,
}
use nookdb.Bytes.{Bytes, beq_sound}
use nookdb.Codec.Keys.{IsName}
use nookdb.Collection.{Collection}
use nookdb.Collection.Filter.{matches, cond_holds}
use nookdb.Collection.ByScan.{
  IsFiled, all_members-get_member, found_same, by_id_lem, scan_lem, is_asked,
}
use nookdb.Collection.Writes.{value_or_null}
use nookdb.Collection.Reads.{
  all_docs, by_id, by_index, by_indexes, candidates, decode_all, decode_found, fetch, find_with,
  field_ty, id_or,
}
use nookdb.Collection.Indexed.{
  IsConsistent, Agrees, encoded, docs_of, filter-docs_of, good, range, Target, range-Target,
  gather_range,
}
use nookdb.Database.{Database}
use nookdb.Database.Atomic.{view, view-IsSorted, read_lem}
use nookdb.Error.{Result, ok}
use nookdb.Index.{encode_index_value, lookup_eq, prefix}
use nookdb.Index.Exact.{stem, stem-append}
use nookdb.Json.{
  Value, Members, null, bool, number, string, array, object, External, get, get_member, is_object,
  option_eq, value_eq,
}
use nookdb.Query.{QueryOptions, apply}
use nookdb.Redb.{Redb, IsLawful}
use nookdb.Rows.{Rows, user_rows}
use nookdb.Rows.Chosen.{gather}
use nookdb.Schema.Ir.{IndexIr}
use nookdb.Storage.Pure.{read_get, read_index, table_rows, table_rows-IsSorted, values_of_slice}
use nookdb.Storage.Tx.{ReadTx}

module _ {N F : Type 0} (x : External N F) where
  -- Values that are equal to this one have its index text.
  abbrev pub SameText : Value N → Type 0
  SameText v =
      (w : Value N) → value_eq x w v ≡ true → encode_index_value x w ≡ encode_index_value x v

  -- The values that a filter asks for have one index text each. It fails for a zero of `f64`, which
  -- equals the zero of the other sign.
  abbrev pub HasTexts : Value N → Type 0
  HasTexts q = (f : Bytes) (v : Value N) → get q f ≡ some v → is_object v ≡ false → SameText v

  -- A text is the only value that equals it.
  pub string-SameText : (s : Bytes) → SameText (string s)
  unfolding value_eq encode_index_value
  string-SameText s null h = absurd (ground (arith, h))
  string-SameText s (bool b) h = absurd (ground (arith, h))
  string-SameText s (number n) h = absurd (ground (arith, h))
  string-SameText s (string u) h = beq_sound u s h
  string-SameText s (array vs) h = absurd (ground (arith, h))
  string-SameText s (object ms) h = absurd (ground (arith, h))

  cond_equality :
      (o : Option (Value N)) (v : Value N)
      → is_object v ≡ false
      → cond_holds x o v ≡ option_eq x o (some v)
  unfolding cond_holds
  cond_equality o null h = refl
  cond_equality o (bool b) h = refl
  cond_equality o (number n) h = refl
  cond_equality o (string s) h = refl
  cond_equality o (array vs) h = refl
  cond_equality o (object ms) h = absurd (ground arith)

  same_encoded :
      (o : Option (Value N)) (v : Value N)
      → SameText v
      → option_eq x o (some v) ≡ true
      → encode_index_value x (value_or_null o) ≡ encode_index_value x v
  same_encoded none v t h = absurd (ground arith)
  same_encoded (some w) v t h = t w h

module _ {N F T : Type 0} (x : External N F) (r : Redb T) (law : IsLawful r) (c : Collection F)
    (db : Database T) (name : IsName c.name) where
  decode_all_ok :
      (rows : Rows) → All (IsFiled x c) rows → decode_all x r c rows ≡ ok (docs_of x c rows)
  unfolding decode_all
  decode_all_ok [] h = refl
  decode_all_ok (row ∷ rows) h = rw (h.0.decoded, decode_all_ok rows h.1) refl

  abbrev index_rows : Rows
  index_rows = table_rows r law db.store.index

  abbrev committed : ReadTx T
  committed = record { table = db.store.entries; index_table = db.store.index }

  by_index_lem :
      (f : Bytes) (v : Value N)
      → by_index x r c db f v
        ≡ fetch x r c committed
            (map (λ row. row.1) (user_rows (stem c.name f (encode_index_value x v)) index_rows))
  unfolding by_index lookup_eq prefix
  by_index_lem f v =
      let e = encode_index_value x v in
      rw
        (
          read_lem r law,
          read_index r law,
          read_lem r law,
          stem-append c.name f e (0 ∷ []),
          stem-append c.name f e (1 ∷ []),
          values_of_slice (stem c.name f e) index_rows,
        )
        refl

  module _ (obj : Members N) where
    abbrev asked : Value N → Bool
    asked d = matches x d (object obj)

    asked-encoded :
        (f : Bytes) (v : Value N) (d : Value N)
        → get_member f obj ≡ some v
        → is_object v ≡ false
        → SameText x v
        → asked d ≡ true
        → encoded x c f d ≡ encode_index_value x v
    unfolding matches
    asked-encoded f v d g o t a = same_encoded x (get d f) v t (
        sym (cond_equality x (get d f) v o)
        ∙ all_members-get_member (λ field cond. cond_holds x (get d field) cond) f v obj a g)

    module _ (con : IsConsistent x c index_rows (view r law db c.name)) where
      abbrev rows : Rows
      rows = view r law db c.name

      -- What a list of candidates has in common with the scan.
      pub record Complete (found : Result (List (Value N))) : Type 0 where
        pub docs : List (Value N)
        pub found_ok : found ≡ ok docs
        pub same : filter asked docs ≡ filter asked (docs_of x c rows)

      module _ (idx : IndexIr) (ag : Agrees x c index_rows rows idx) (e : Bytes)
          (exact : (d : Value N) → asked d ≡ true → encoded x c idx.field d ≡ e) where
        -- What is fetched for a part of an index range.
        record Fetched (part : Rows) : Type 0 where
          docs : List (Value N)
          fetch_ok : fetch x r c committed (map (λ row. row.1) part) ≡ ok docs
          same : filter asked docs ≡ docs_of x c (gather (good x c asked) rows part)

        fetched :
            (part : Rows)
            → All
                (Target x c asked index_rows rows
                  (table_rows-IsSorted r law db.store.index)
                  (view-IsSorted r law db c.name)
                  con
                  idx
                  ag
                  e
                  exact)
                part
            → Fetched part
        unfolding fetch decode_found view
        fetched [] h = record { docs = []; fetch_ok = refl; same = refl }
        fetched ((j, v) ∷ part) h =
            let t = h.0 in
            let rest = fetched part h.1 in
            record {
              docs = t.doc ∷ rest.docs;
              fetch_ok =
                  rw (read_get r law committed c.name v name, t.there, t.decoded, rest.fetch_ok)
                    refl;
              same = elim (Bool-cases (asked t.doc)) [
                | inl a ↦ rw (a, t.there, t.decoded, a, t.decoded, rest.same) refl
                | inr a ↦ rw (a, t.there, t.decoded, a, rest.same) refl
              ];
            }

        index-Complete :
            (v : Value N) → encode_index_value x v ≡ e → Complete (by_index x r c db idx.field v)
        index-Complete v h =
            let s = table_rows-IsSorted r law db.store.index in
            let t = view-IsSorted r law db c.name in
            let f =
              fetched (range x c asked index_rows rows s t con idx ag e exact)
                (range-Target x c asked index_rows rows s t con idx ag e exact) in
            record {
              docs = f.docs;
              found_ok = by_index_lem idx.field v ∙ (rw h f.fetch_ok);
              same =
                  f.same
                  ∙ (ap (λ g. docs_of x c g)
                        (gather_range x c asked index_rows rows s t con idx ag e exact)
                      ∙ sym (filter-docs_of x c asked rows));
            }

      scan-Complete : Complete (all_docs x r c db)
      scan-Complete = record {
        docs = docs_of x c rows;
        found_ok = scan_lem x r law c db name ∙ decode_all_ok rows con.filed;
        same = refl;
      }

      by_indexes-Complete :
          (idxs : List IndexIr)
          → All (Agrees x c index_rows rows) idxs
          → HasTexts x (object obj)
          → Complete (by_indexes x r c db obj idxs)
      unfolding by_indexes get
      by_indexes-Complete [] ag t = scan-Complete
      by_indexes-Complete (idx ∷ idxs) ag t = elim (Option-cases (get_member idx.field obj)) [
        | inl q ↦ rw (by_indexes, q) (by_indexes-Complete idxs ag.1 t)
        | inr (v, q) ↦ elim (Bool-cases (is_object v)) [
          | inl o ↦ rw (by_indexes, q, o) (by_indexes-Complete idxs ag.1 t)
          | inr o ↦
              rw (by_indexes, q, o)
                (index-Complete idx ag.0 (encode_index_value x v)
                  (λ d a. asked-encoded idx.field v d q o (t idx.field v q o) a) v refl)
        ]
      ]

      id-Complete :
          (k : Bytes) → get_member c.ir.id_field obj ≡ some (string k) → Complete (by_id x r c db k)
      unfolding is_asked
      id-Complete k q =
          let both = found_same x r c obj k q rows (view-IsSorted r law db c.name) con.filed in
          let all : ok (docs_of x c rows) ≡ ok both.docs =
            sym (decode_all_ok rows con.filed) ∙ both.scanned in
          let docs : docs_of x c rows ≡ both.docs = ground (arith, all) in
          record {
            docs = both.one;
            found_ok = by_id_lem x r c obj k q law db name ∙ both.looked_up;
            same = sym (ap (λ ds. filter asked ds) docs ∙ both.same);
          }

      either-Complete :
          (o : Option (Value N))
          → get_member c.ir.id_field obj ≡ o
          → HasTexts x (object obj)
          → Complete (id_or x r c db obj o)
      either-Complete (some (string k)) q t = id-Complete k q
      either-Complete none q t = by_indexes-Complete c.ir.indexes con.agrees t
      either-Complete (some null) q t = by_indexes-Complete c.ir.indexes con.agrees t
      either-Complete (some (bool b)) q t = by_indexes-Complete c.ir.indexes con.agrees t
      either-Complete (some (number n)) q t = by_indexes-Complete c.ir.indexes con.agrees t
      either-Complete (some (array vs)) q t = by_indexes-Complete c.ir.indexes con.agrees t
      either-Complete (some (object ms)) q t = by_indexes-Complete c.ir.indexes con.agrees t

      pub object-Complete : HasTexts x (object obj) → Complete (candidates x r c db (object obj))
      unfolding candidates
      object-Complete t = either-Complete (get_member c.ir.id_field obj) refl t

  module _ (con : IsConsistent x c index_rows (view r law db c.name)) where
    -- The stored documents, in the order of their ids.
    abbrev pub documents : List (Value N)
    documents = docs_of x c (view r law db c.name)

    pub all_docs_lem : all_docs x r c db ≡ ok documents
    all_docs_lem = scan_lem x r law c db name ∙ decode_all_ok (view r law db c.name) con.filed

    pub record Candidates (q : Value N) : Type 0 where
      pub docs : List (Value N)
      pub found_ok : candidates x r c db q ≡ ok docs
      pub same : filter (λ d. matches x d q) docs ≡ filter (λ d. matches x d q) documents

    pub candidates_lem : (q : Value N) → HasTexts x q → Candidates q
    unfolding candidates
    candidates_lem (object obj) t =
        let f = object-Complete obj con t in
        record { docs = f.docs; found_ok = f.found_ok; same = f.same }
    candidates_lem null t = record { docs = documents; found_ok = all_docs_lem; same = refl }
    candidates_lem (bool b) t = record { docs = documents; found_ok = all_docs_lem; same = refl }
    candidates_lem (number n) t = record { docs = documents; found_ok = all_docs_lem; same = refl }
    candidates_lem (string s) t = record { docs = documents; found_ok = all_docs_lem; same = refl }
    candidates_lem (array vs) t = record { docs = documents; found_ok = all_docs_lem; same = refl }

    -- Over a lawful engine, for a collection with an accepted name whose index is consistent with its
    -- documents, and a filter whose values have one index text each: whether the id, an index or a scan supplies
    -- the candidates, `find_with` returns the options applied to the stored documents that match.
    pub find_with-filter :
        (q : Value N) (o : QueryOptions)
        → HasTexts x q
        → find_with x r c db q o
          ≡ apply x o (filter (λ d. matches x d q) documents) c.ir.id_field (field_ty c.ir)
    unfolding find_with
    find_with-filter q o t =
        let f = candidates_lem q t in
        rw f.found_ok (ap (λ ds. apply x o ds c.ir.id_field (field_ty c.ir)) f.same)
