-- ===== src/Collection/Unique.antt =====
-- About the unique indexes of crates/nookdb-core/src/collection.rs: no two documents share a value.
use nookdb.Prelude.{
  ◌≡◌, ◌∙◌, sym, Bool, true, false, Option, none, some, List, [], ◌∷◌, inl, inr, All, find, filter,
  not, arith, if◌then◌else◌, Bool-cases, Option-cases,
}
use nookdb.Bytes.{Bytes, beq, beq_sound, beq_refl, contains}
use nookdb.Codec.Keys.{IsName}
use nookdb.Collection.{Collection}
use nookdb.Collection.Consistent.{Consistent}
use nookdb.Collection.Indexed.{Agrees, encoded, entry, good}
use nookdb.Collection.Inserted.{taken, insert_lem, insert-conflict}
use nookdb.Collection.Writes.{prepare, insert, insert_prepared, delete}
use nookdb.Database.{Database}
use nookdb.Database.Atomic.{view, view-IsSorted}
use nookdb.Collection.Deleted.{delete-IsDeleted}
use nookdb.Collection.Filter.{matches}
use nookdb.Collection.Kept.{NulFree}
use nookdb.Collection.Planned.{HasTexts}
use nookdb.Rows.Chosen.{chosen, lookup-filter}
use nookdb.Doc.{decode_document}
use nookdb.Error.{ok, Result-cases}
use nookdb.Index.Exact.{has_entry, has_entry-lookup}
use nookdb.Json.{Value, External}
use nookdb.Notify.{Observers}
use nookdb.Redb.{Redb, IsLawful}
use nookdb.Rows.{Row, Rows, lookup, slice, user_rows, IsSorted}
use nookdb.Rows
use nookdb.Rows.Laws.{lookup-insert}
use nookdb.Schema.Ir.{IndexIr}
use nookdb.Storage.Pure.{table_rows}

find-none : {A : Type 0} (p : A → Bool) (xs : List A) → find p xs ≡ none → All (λ a. p a ≡ false) xs
find-none p [] h = tt
find-none p (a ∷ xs) h = elim (Bool-cases (p a)) [
  | inl e ↦ absurd (ground (arith, h, e))
  | inr e ↦ (e, find-none p xs (ground (arith, h, e)))
]

module _ {N F : Type 0} (x : External N F) (c : Collection F) where
  -- At most one document has a value of a unique index.
  abbrev pub IsUnique : Rows → IndexIr → Type 0
  IsUnique rows idx =
      idx.unique ≡ true
      → (e j k : Bytes) → contains j 0 ≡ false
      → contains k 0 ≡ false
      → entry x c idx.field e j (lookup j rows) ≡ some j
      → entry x c idx.field e k (lookup k rows) ≡ some k
      → j ≡ k

  module _ (index rows : Rows) (idx : IndexIr) (ag : Agrees x c index rows idx) (doc : Value N)
      (id stored : Bytes) (back : decode_document x stored c.codec ≡ ok doc)
      (free : idx.unique ≡ true
        → has_entry c.name idx.field (encoded x c idx.field doc) index ≡ false) where
    -- No other document has the value of the new one.
    not_there :
        (e i k : Bytes)
        → idx.unique ≡ true
        → contains k 0 ≡ false
        → entry x c idx.field e i (some stored) ≡ some i
        → entry x c idx.field e k (lookup k rows) ≡ none
    not_there e i k u hk h =
        let g : (if beq (encoded x c idx.field doc) e then some i else none) ≡ some i =
          rw back at h in
        let b : beq (encoded x c idx.field doc) e ≡ true = ground (arith, g) in
        sym (ag e k hk)
        ∙ (rw (← beq_sound (encoded x c idx.field doc) e b)
            (has_entry-lookup c.name idx.field (encoded x c idx.field doc) k index (free u)))

    insert-IsUnique-at : IsUnique rows idx → IsUnique (Rows.insert id stored rows) idx
    insert-IsUnique-at old u e j k hj hk =
        rw (lookup-insert id j stored rows, lookup-insert id k stored rows)
          (elim (Bool-cases (beq id j)) [
            | inl a ↦ elim (Bool-cases (beq id k)) [
              | inl b ↦ λ p q. sym (beq_sound id j a) ∙ beq_sound id k b
              | inr b ↦
                  rw (a, b) (λ p q. let n = not_there e j k u hk p in absurd (ground (arith, n, q)))
            ]
            | inr a ↦ elim (Bool-cases (beq id k)) [
              | inl b ↦
                  rw (a, b) (λ p q. let n = not_there e k j u hj q in absurd (ground (arith, n, p)))
              | inr b ↦ rw (a, b) (old u e j k hj hk)
            ]
          ])

  untaken :
      {T : Type 0} (r : Redb T) (law : IsLawful r) (index : Rows) (doc : Value N) (idx : IndexIr)
      → taken x r law c index doc idx ≡ false
      → idx.unique ≡ true
      → has_entry c.name idx.field (encoded x c idx.field doc) index ≡ false
  untaken r law index doc idx h u = rw u at h

  insert-all-IsUnique :
      {T : Type 0} (r : Redb T) (law : IsLawful r) (index rows : Rows) (doc : Value N)
      (id stored : Bytes) (idxs : List IndexIr)
      → decode_document x stored c.codec ≡ ok doc
      → All (Agrees x c index rows) idxs
      → All (λ idx. taken x r law c index doc idx ≡ false) idxs
      → All (IsUnique rows) idxs
      → All (IsUnique (Rows.insert id stored rows)) idxs
  insert-all-IsUnique r law index rows doc id stored [] back ag free old = tt
  insert-all-IsUnique r law index rows doc id stored (idx ∷ idxs) back ag free old = (
    insert-IsUnique-at index rows idx ag.0 doc id stored back (untaken r law index doc idx free.0)
        old.0,
    insert-all-IsUnique r law index rows doc id stored idxs back ag.1 free.1 old.1,
  )

  kept_entry :
      (good : Bytes → Bool) (f e j : Bytes) (o : Option Bytes)
      → entry x c f e j (chosen good o) ≡ some j
      → entry x c f e j o ≡ some j
  kept_entry good f e j none h = h
  kept_entry good f e j (some b) h = elim (Bool-cases (good b)) [
    | inl g ↦ rw g at h
    | inr g ↦ let n : none ≡ some j = rw g at h in absurd (ground (arith, n))
  ]

  filter-IsUnique :
      (good : Bytes → Bool) (rows : Rows) (idxs : List IndexIr)
      → IsSorted rows
      → All (IsUnique rows) idxs
      → All (IsUnique (filter (λ row. good row.1) rows)) idxs
  filter-IsUnique good rows [] s h = tt
  filter-IsUnique good rows (idx ∷ idxs) s h = (
    λ u e j k hj hk.
        rw (lookup-filter good j rows s, lookup-filter good k rows s)
          (λ p q.
            h.0 u e j k hj hk (kept_entry good idx.field e j (lookup j rows) p)
              (kept_entry good idx.field e k (lookup k rows) q)),
    filter-IsUnique good rows idxs s h.1,
  )

module _ {N F T : Type 0} (x : External N F) (r : Redb T) (law : IsLawful r)
    (c : Collection F) where
  -- The unique indexes of the collection hold in the committed state.
  abbrev pub AllUnique : Database T → Type 0
  AllUnique db = All (IsUnique x c (view r law db c.name)) c.ir.indexes

  module _ {W : Type 0} (obs : Observers W) (db : Database T) (w : W) where
    -- Over a lawful engine, for an accepted collection name whose index is consistent with the
    -- documents: if no two documents share a value of a unique index, then none do after an
    -- `insert`, whether this succeeds or fails, provided that the stored bytes of the new document
    -- decode to it.
    pub insert-AllUnique :
        (doc : Value N)
        → IsName c.name
        → Consistent x r law c db
        → AllUnique db
        → ((id stored : Bytes)
            → prepare x r c doc ≡ ok (id, stored)
            → decode_document x stored c.codec ≡ ok doc)
        → AllUnique (insert x r c obs db w doc).1
    unfolding insert insert_prepared
    insert-AllUnique doc n con old new = elim (Result-cases (prepare x r c doc)) [
      | inr (y, p) ↦ rw p old
      | inl (pair, p) ↦
          elim (Option-cases
            (find (taken x r law c (table_rows r law db.store.index) doc) c.ir.indexes)) [
              | inl h ↦
                  rw
                    (
                      (insert_lem x r law c obs db w doc pair.0 pair.1 c.name n n p h).1,
                      beq_refl c.name,
                    )
                    (insert-all-IsUnique x c r law (table_rows r law db.store.index)
                      (view r law db c.name) doc pair.0 pair.1 c.ir.indexes (new pair.0 pair.1 p)
                      con.agrees (find-none _ c.ir.indexes h) old)
              | inr (hit, h) ↦ rw (insert-conflict x r law c obs db w doc pair.0 pair.1 hit p h) old
            ]
    ]

    -- Nor do they after a `delete`.
    pub delete-AllUnique :
        (name : IsName c.name) (hs : All NulFree c.ir.indexes) (con : Consistent x r law c db)
        (q : Value N)
        → HasTexts x q
        → AllUnique db
        → AllUnique (delete x r c obs db w q).1
    delete-AllUnique name hs con q t old =
        let gone = delete-IsDeleted x r law c db name hs con q obs w t in
        rw (gone.rows_left c.name name, beq_refl c.name)
          (filter-IsUnique x c (λ b. not (good x c (λ d. matches x d q) b)) (view r law db c.name)
            c.ir.indexes (view-IsSorted r law db c.name) old)
