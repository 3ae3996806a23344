-- ===== src/Collection/Reads.antt =====
-- The read operations of crates/nookdb-core/src/collection.rs: `all_docs`, `candidates`, `find`,
-- `find_one` and `count`, each with its options.
use nookdb.Prelude.{
  ℕ, ◌-◌, min, Option, none, some, List, [], ◌∷◌, ◌++◌, filter, length, if◌then◌else◌,
}
use nookdb.Bytes.{Bytes}
use nookdb.Collection.{Collection}
use nookdb.Collection.Filter.{matches}
use nookdb.Database.{Database, read}
use nookdb.Doc.{decode_document}
use nookdb.Error.{Result, ok, ◌>>=◌, ◌>>◌}
use nookdb.Index.{lookup_eq}
use nookdb.Json.{
  Value, Members, null, bool, number, string, array, object, External, get_member, is_object,
}
use nookdb.Query.{QueryOptions, default, apply, validate_sort_fields}
use nookdb.Redb.{Redb}
use nookdb.Rows.{Row}
use nookdb.Schema.Ir.{FieldType, IndexIr, CollectionIr, field}
use nookdb.Storage.Read
use nookdb.Storage.Tx.{ReadTx}

-- `self.ir.field(f).map(|fi| &fi.ty)`
abbrev pub field_ty : {F : Type 0} → CollectionIr F → Bytes → Option FieldType
field_ty ir name = elim (field ir name) [ none ↦ none | some f ↦ some f.ty ]

-- `into_iter().next()`
abbrev pub first : {A : Type 0} → List A → Option A
first [] = none
first (a ∷ as') = some a

-- `opts.limit.map_or(after_offset, |l| after_offset.min(l))`
abbrev pub capped : Option ℕ → ℕ → ℕ
capped none n = n
capped (some l) n = min n l

abbrev pub prepend : {A : Type 0} → Result (List A) → Result (List A) → Result (List A)
prepend first rest = do ds ← first; es ← rest; ok (ds ++ es)

module _ {N F T : Type 0} (x : External N F) (r : Redb T) where
  -- the `map(…).collect()` over scanned entries: stops at the first that does not decode
  unfoldable pub decode_all : Collection F → List Row → Result (List (Value N))
  decode_all c [] = ok []
  decode_all c (row ∷ rows) = do
    doc ← decode_document x row.1 c.codec
    docs ← decode_all c rows
    ok (doc ∷ docs)

  unfoldable pub all_docs : Collection F → Database T → Result (List (Value N))
  unfolding decode_all
  all_docs c db =
      read r db λ tx. do entries ← Read.list_collection r tx c.name; decode_all c entries

  -- a document that was looked up
  unfoldable pub decode_found : Collection F → Option Bytes → Result (List (Value N))
  decode_found c none = ok []
  decode_found c (some b) = do doc ← decode_document x b c.codec; ok (doc ∷ [])

  -- the path over a primary id
  unfoldable pub by_id : Collection F → Database T → Bytes → Result (List (Value N))
  unfolding decode_found
  by_id c db idv = read r db λ tx. do found ← Read.get r tx c.name idv; decode_found c found

  -- the `filter_map(…).map(…).collect()` over the ids of an index
  unfoldable pub fetch : Collection F → ReadTx T → List Bytes → Result (List (Value N))
  unfolding decode_found
  fetch c tx [] = ok []
  fetch c tx (id ∷ ids) =
      prepend (do found ← Read.get r tx c.name id; decode_found c found) (fetch c tx ids)

  -- the path over an index: the ids in one read, the documents in another
  unfoldable pub by_index : Collection F → Database T → Bytes → Value N → Result (List (Value N))
  unfolding fetch
  by_index c db idx_field v = do
    ids ← read r db (λ tx. lookup_eq x r c.name idx_field v tx)
    read r db (λ tx. fetch c tx ids)

  -- the loop over the indexes
  unfoldable pub by_indexes :
      Collection F → Database T → Members N → List IndexIr → Result (List (Value N))
  unfolding by_index all_docs
  by_indexes c db obj [] = all_docs c db
  by_indexes c db obj (idx ∷ idxs) =
      let rest = by_indexes c db obj idxs in
      elim (get_member idx.field obj) [
        | none ↦ rest
        | some v ↦ if is_object v then rest else by_index c db idx.field v
      ]

  abbrev pub id_or :
      Collection F → Database T → Members N → Option (Value N) → Result (List (Value N))
  id_or c db obj (some (string idv)) = by_id c db idv
  id_or c db obj _ = by_indexes c db obj c.ir.indexes

  unfoldable pub candidates : Collection F → Database T → Value N → Result (List (Value N))
  unfolding by_id by_indexes
  candidates c db (object obj) = id_or c db obj (get_member c.ir.id_field obj)
  candidates c db null = all_docs c db
  candidates c db (bool b) = all_docs c db
  candidates c db (number n) = all_docs c db
  candidates c db (string s) = all_docs c db
  candidates c db (array vs) = all_docs c db

  unfoldable pub find_with :
      Collection F → Database T → Value N → QueryOptions → Result (List (Value N))
  find_with c db filter_doc opts = do
    docs ← candidates c db filter_doc
    apply x opts (filter (λ d. matches x d filter_doc) docs) c.ir.id_field (field_ty c.ir)

  unfoldable pub find : Collection F → Database T → Value N → Result (List (Value N))
  unfolding find_with
  find c db filter_doc = find_with c db filter_doc default

  unfoldable pub find_one_with :
      Collection F → Database T → Value N → QueryOptions → Result (Option (Value N))
  unfolding find_with
  find_one_with c db filter_doc opts = do
    docs ← find_with c db filter_doc (record opts { limit = some 1 })
    ok (first docs)

  unfoldable pub find_one : Collection F → Database T → Value N → Result (Option (Value N))
  unfolding find_one_with
  find_one c db filter_doc = find_one_with c db filter_doc default

  unfoldable pub count_with : Collection F → Database T → Value N → QueryOptions → Result ℕ
  count_with c db filter_doc opts = do
    validate_sort_fields opts.sort (field_ty c.ir)
    docs ← candidates c db filter_doc
    ok (capped opts.limit (length (filter (λ d. matches x d filter_doc) docs) - opts.offset))

  unfoldable pub count : Collection F → Database T → Value N → Result ℕ
  unfolding count_with
  count c db filter_doc = count_with c db filter_doc default
