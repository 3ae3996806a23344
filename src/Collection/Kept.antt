-- ===== src/Collection/Kept.antt =====
-- The index maintenance of `insert` and of `delete` in crates/nookdb-core/src/collection.rs keeps the
-- index consistent with the documents.
use nookdb.Codec.Keys.{split_at_nul}
use nookdb.Prelude.{
  ◌≢◌, ◌≡◌, ◌∙◌, refl, sym, ap, ap₂, Bool, true, false, none, some, List, [], ◌∷◌, inl, inr, All,
  any, arith, if◌then◌else◌, Bool-cases,
}
use nookdb.Bytes.{Bytes, beq, beq_sound, blt, beq_refl, beq_complete, contains}
use nookdb.Collection.{Collection}
use nookdb.Collection.ByScan.{IsFiled}
use nookdb.Collection.Indexed.{IsConsistent, Agrees, encoded}
use nookdb.Doc.{decode_document}
use nookdb.Error.{ok}
use nookdb.Index.{key}
use nookdb.Index.Distinct.{key_iff}
use nookdb.Json.{Value, External, get, string}
use nookdb.Rows.{Row, Rows, lookup, insert, remove, IsSorted}
use nookdb.Rows.Laws.{lookup-insert, lookup-remove, remove-IsSorted}
use nookdb.Schema.Ir.{IndexIr}

any_more :
    {A : Type 0} (test : A → A → Bool) (b : A) (xs part : List A)
    → All (λ a. any (λ y. test y a) xs ≡ true) part
    → All (λ a. any (λ y. test y a) (b ∷ xs) ≡ true) part
any_more test b xs [] h = tt
any_more test b xs (a ∷ part) h = (ground (arith, h.0), any_more test b xs part h.1)

-- In a list, something passes a reflexive test for each element.
any_self :
    {A : Type 0} (test : A → A → Bool)
    → ((a : A) → test a a ≡ true)
    → (xs : List A) → All (λ a. any (λ y. test y a) xs ≡ true) xs
any_self test self [] = tt
any_self test self (a ∷ xs) =
    (ground (arith, self a), any_more test a xs xs (any_self test self xs))

pub All-insert :
    (P : Row → Type 0) (k v : Bytes) (rows : Rows) → P (k, v) → All P rows → All P (insert k v rows)
unfolding insert
All-insert P k v [] p h = (p, tt)
All-insert P k v ((j, w) ∷ rows) p h = elim (Bool-cases (beq j k)) [
  | inl e ↦ rw e (p, h.1)
  | inr e ↦ elim (Bool-cases (blt k j)) [
    | inl l ↦ rw (e, l) (p, h)
    | inr l ↦ rw (e, l) (h.0, All-insert P k v rows p h.1)
  ]
]

pub All-remove : (P : Row → Type 0) (k : Bytes) (rows : Rows) → All P rows → All P (remove k rows)
unfolding remove
All-remove P k [] h = tt
All-remove P k ((j, w) ∷ rows) h = elim (Bool-cases (beq j k)) [
  | inl e ↦ rw e h.1
  | inr e ↦ rw e (h.0, All-remove P k rows h.1)
]

abbrev pub NulFree : IndexIr → Type 0
NulFree idx = contains idx.field 0 ≡ false

-- No index key of this collection.
abbrev pub IsForeign : Bytes → Bytes → Type 0
IsForeign name k = (f e j : Bytes) → beq (key name f e j) k ≡ false

-- The index keys of another collection are foreign.
pub other-IsForeign :
    (c d f e j : Bytes)
    → contains c 0 ≡ false
    → contains d 0 ≡ false
    → c ≢ d
    → IsForeign c (key d f e j)
unfolding key
other-IsForeign c d f e j hc hd other g v i = elim (Bool-cases (beq (key c g v i) (key d f e j))) [
  | inr q ↦ q
  | inl q ↦ absurd (other (split_at_nul c d _ _ hc hd (beq_sound (key c g v i) (key d f e j) q)).0)
]

module _ {N F : Type 0} (x : External N F) (c : Collection F) (doc : Value N) (id : Bytes) where
  -- The key of the document in an index.
  abbrev key_of : IndexIr → Bytes
  key_of idx = key c.name idx.field (encoded x c idx.field doc) id

  -- The index rows after the loops of `insert` and of `delete` over the indexes.
  abbrev pub with_rows : List IndexIr → Rows → Rows
  with_rows [] index = index
  with_rows (idx ∷ idxs) index = with_rows idxs (insert (key_of idx) id index)

  abbrev pub without_rows : List IndexIr → Rows → Rows
  without_rows [] index = index
  without_rows (idx ∷ idxs) index = without_rows idxs (remove (key_of idx) index)

  abbrev hit : Bytes → IndexIr → Bool
  hit k idx = beq (key_of idx) k

  pub lookup-with_rows :
      (k : Bytes) (idxs : List IndexIr) (index : Rows)
      → lookup k (with_rows idxs index) ≡ (if any (hit k) idxs then some id else lookup k index)
  lookup-with_rows k [] index = refl
  lookup-with_rows k (idx ∷ idxs) index = ground (
    arith,
    lookup-with_rows k idxs (insert (key_of idx) id index),
    lookup-insert (key_of idx) k id index,
  )

  lookup-without_rows :
      (k : Bytes) (idxs : List IndexIr) (index : Rows)
      → IsSorted index
      → lookup k (without_rows idxs index) ≡ (if any (hit k) idxs then none else lookup k index)
  lookup-without_rows k [] index s = refl
  lookup-without_rows k (idx ∷ idxs) index s = ground (
    arith,
    lookup-without_rows k idxs (remove (key_of idx) index) (remove-IsSorted (key_of idx) index s),
    lookup-remove (key_of idx) k index s,
  )

  module _ (k : Bytes) (foreign : IsForeign c.name k) where
    no_hit : (idxs : List IndexIr) → any (hit k) idxs ≡ false
    no_hit [] = refl
    no_hit (idx ∷ idxs) = rw (foreign idx.field (encoded x c idx.field doc) id) (no_hit idxs)

    pub lookup-with_foreign :
        (idxs : List IndexIr) (index : Rows) → lookup k (with_rows idxs index) ≡ lookup k index
    lookup-with_foreign idxs index = rw (lookup-with_rows k idxs index, no_hit idxs) refl

    pub lookup-without_foreign :
        (idxs : List IndexIr) (index : Rows)
        → IsSorted index
        → lookup k (without_rows idxs index) ≡ lookup k index
    lookup-without_foreign idxs index s = rw (lookup-without_rows k idxs index s, no_hit idxs) refl

  module _ (named : contains c.name 0 ≡ false) (clean : contains id 0 ≡ false) where
    hit_sound :
        (f e j : Bytes) (idxs : List IndexIr)
        → contains f 0 ≡ false
        → contains j 0 ≡ false
        → All NulFree idxs
        → any (hit (key c.name f e j)) idxs ≡ true
        → (encoded x c f doc ≡ e) × (id ≡ j)
    hit_sound f e j [] hf hj hs h = absurd (ground arith)
    hit_sound f e j (idx ∷ idxs) hf hj hs h = elim (Bool-cases (hit (key c.name f e j) idx)) [
      | inl q ↦
          let k =
            (key_iff c.name idx.field (encoded x c idx.field doc) id f e j named hs.0 hf clean hj).0
              (beq_sound (key_of idx) (key c.name f e j) q) in
          (ap (λ z. encoded x c z doc) (sym k.0) ∙ k.1, k.2)
      | inr q ↦ hit_sound f e j idxs hf hj hs.1 (ground (arith, h, q))
    ]

    -- For an index of the collection, the document has the key of exactly its value and its id.
    any-hit :
        (idx : IndexIr) (e j : Bytes) (idxs : List IndexIr)
        → contains j 0 ≡ false
        → NulFree idx
        → All NulFree idxs
        → any (hit (key_of idx)) idxs ≡ true
        → any (hit (key c.name idx.field e j)) idxs
          ≡ (if beq id j then beq (encoded x c idx.field doc) e else false)
    any-hit idx e j idxs hj hf hs m =
        elim (Bool-cases (any (hit (key c.name idx.field e j)) idxs)) [
          | inl q ↦
              let k = hit_sound idx.field e j idxs hf hj hs q in
              ground
                (arith, q, beq_complete id j k.1, beq_complete (encoded x c idx.field doc) e k.0)
          | inr q ↦ elim (Bool-cases (beq id j)) [
            | inr u ↦ ground (arith, q, u)
            | inl u ↦ elim (Bool-cases (beq (encoded x c idx.field doc) e)) [
              | inr w ↦ ground (arith, q, u, w)
              | inl w ↦
                  let same : key_of idx ≡ key c.name idx.field e j =
                    ap₂ (λ a b. key c.name idx.field a b)
                      (beq_sound (encoded x c idx.field doc) e w) (beq_sound id j u) in
                  let m' : any (hit (key c.name idx.field e j)) idxs ≡ true =
                    ap (λ z. any (hit z) idxs) (sym same) ∙ m in
                  absurd (ground (arith, q, m'))
            ]
          ]
        ]

    module _ (stored : Bytes) (back : decode_document x stored c.codec ≡ ok doc) (index rows : Rows)
        (idx : IndexIr) (hf : NulFree idx) (idxs : List IndexIr) (hs : All NulFree idxs)
        (m : any (hit (key_of idx)) idxs ≡ true) (old : Agrees x c index rows idx) where
      insert-Agrees :
          lookup id rows ≡ none → Agrees x c (with_rows idxs index) (insert id stored rows) idx
      insert-Agrees fresh e j clean' =
          rw
            (
              lookup-with_rows (key c.name idx.field e j) idxs index,
              any-hit idx e j idxs clean' hf hs m,
              lookup-insert id j stored rows,
            )
            (elim (Bool-cases (beq id j)) [
              | inr u ↦ rw u (old e j clean')
              | inl u ↦
                  let same : id ≡ j = beq_sound id j u in
                  let none_old : lookup (key c.name idx.field e j) index ≡ none =
                    old e j clean' ∙ (rw (ap (λ z. lookup z rows) (sym same) ∙ fresh) refl) in
                  rw (u, back, none_old)
                    (ap (λ z. if beq (encoded x c idx.field doc) e then some z else none) same)
            ])

      remove-Agrees :
          IsSorted index
          → IsSorted rows
          → lookup id rows ≡ some stored
          → Agrees x c (without_rows idxs index) (remove id rows) idx
      remove-Agrees si sr there e j clean' =
          rw
            (
              lookup-without_rows (key c.name idx.field e j) idxs index si,
              any-hit idx e j idxs clean' hf hs m,
              lookup-remove id j rows sr,
            )
            (elim (Bool-cases (beq id j)) [
              | inr u ↦ rw u (old e j clean')
              | inl u ↦
                  rw
                    (
                      u,
                      old e j clean',
                      ap (λ z. lookup z rows) (sym (beq_sound id j u)) ∙ there,
                      back,
                    )
                    (ground arith)
            ])

    module _ (stored : Bytes) (back : decode_document x stored c.codec ≡ ok doc) (index rows : Rows)
        (hs : All NulFree c.ir.indexes) (con : IsConsistent x c index rows) where
      abbrev Hit : IndexIr → Type 0
      Hit idx = any (hit (key_of idx)) c.ir.indexes ≡ true

      all-Hit : All Hit c.ir.indexes
      all-Hit = any_self (λ y a. hit (key_of a) y) (λ a. beq_refl (key_of a)) c.ir.indexes

      insert-all :
          (part : List IndexIr)
          → All NulFree part
          → All Hit part
          → All (Agrees x c index rows) part
          → lookup id rows ≡ none
          → All (Agrees x c (with_rows c.ir.indexes index) (insert id stored rows)) part
      insert-all [] h m old fresh = tt
      insert-all (idx ∷ part) h m old fresh = (
        insert-Agrees stored back index rows idx h.0 c.ir.indexes hs m.0 old.0 fresh,
        insert-all part h.1 m.1 old.1 fresh,
      )

      remove-all :
          (part : List IndexIr)
          → All NulFree part
          → All Hit part
          → All (Agrees x c index rows) part
          → IsSorted index
          → IsSorted rows
          → lookup id rows ≡ some stored
          → All (Agrees x c (without_rows c.ir.indexes index) (remove id rows)) part
      remove-all [] h m old si sr there = tt
      remove-all (idx ∷ part) h m old si sr there = (
        remove-Agrees stored back index rows idx h.0 c.ir.indexes hs m.0 old.0 si sr there,
        remove-all part h.1 m.1 old.1 si sr there,
      )

      -- A document under a new id, with its entries, keeps the index consistent.
      pub insert-kept :
          get doc c.ir.id_field ≡ some (string id)
          → lookup id rows ≡ none
          → IsConsistent x c (with_rows c.ir.indexes index) (insert id stored rows)
      insert-kept own fresh = record {
        filed =
            All-insert (IsFiled x c) id stored rows
              (record { doc = doc; decoded = back; filed = own }) con.filed;
        nul_free = All-insert (λ row. contains row.0 0 ≡ false) id stored rows clean con.nul_free;
        agrees = insert-all c.ir.indexes hs all-Hit con.agrees fresh;
      }

      -- So does the removal of a stored document with its entries.
      pub remove-kept :
          IsSorted index
          → IsSorted rows
          → lookup id rows ≡ some stored
          → IsConsistent x c (without_rows c.ir.indexes index) (remove id rows)
      remove-kept si sr there = record {
        filed = All-remove (IsFiled x c) id rows con.filed;
        nul_free = All-remove (λ row. contains row.0 0 ≡ false) id rows con.nul_free;
        agrees = remove-all c.ir.indexes hs all-Hit con.agrees si sr there;
      }
