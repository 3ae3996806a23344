-- ===== src/Examples/Queries.antt =====
-- Witnesses: the results of queries.
use nookdb.Prelude.{arith}
use nookdb.Prelude.{true, ◌≡◌, refl, List, [], ◌∷◌, ℕ, Option, some, length}
use nookdb.Bytes.{Bytes, bytes}
use nookdb.Collection.Counting.{count_with-length}
use nookdb.Collection.Reads.{candidates, find_with, count_with}
use nookdb.Prelude.{cmp_int}
use nookdb.Query.{validate_sort_fields}
use nookdb.Json.{get}
use nookdb.Bytes.{beq}
use nookdb.Error.{ok, ◌>>=◌}
use nookdb.Examples.{plain, note_db, notes, note}
use nookdb.Json.{Value, null, number, string, object, member, end}
use nookdb.Query.{QueryOptions, SortDir, apply, cmp_docs, default}
use nookdb.Query.Sorts.{IsSort, is_total}
use nookdb.Examples.Sorting.{insert_by, sort_onto, sorted_ok, count-sort_onto}
use nookdb.Query.Order.{AbsentLast, apply-AbsentLast}
use nookdb.Redb.Memory.{memory}
use nookdb.Schema.Ir.{FieldType}

plain-IsSort : IsSort plain
plain-IsSort = record {
  kept = λ c docs p. omega (arith, count-sort_onto c p [] docs);
  sorted = λ c docs h. sorted_ok c docs h;
}

-- the first two of the documents by descending rank
abbrev by_rank : QueryOptions
by_rank = record { sort = (bytes "rank", SortDir.desc) ∷ []; limit = some 2; offset = 0 }

abbrev ranked : Bytes → ℕ → Value ℕ
ranked id n = object (member (bytes "_id") (string id) (member (bytes "rank") (number n) end))

abbrev docs : List (Value ℕ)
docs = note (bytes "a") ∷ ranked (bytes "b") 1 ∷ ranked (bytes "c") 2 ∷ []

abbrev top : List (Value ℕ)
top = ranked (bytes "c") 2 ∷ ranked (bytes "b") 1 ∷ []

abbrev number_ty : Bytes → Option FieldType
number_ty name = some FieldType.number

top-apply : apply plain by_rank docs (bytes "_id") number_ty ≡ ok top
unfolding apply validate_sort_fields insert_by sort_onto cmp_docs get beq cmp_int
top-apply = refl

note_read : candidates plain memory notes note_db null ≡ ok (note (bytes "a") ∷ [])
unfolding candidates nookdb.Database.read nookdb.Storage.Read.new
    nookdb.Storage.Read.list_collection nookdb.Codec.collection_prefix_lower
    nookdb.Codec.collection_prefix_upper nookdb.Storage.Tx.collect_stripped nookdb.Rows.insert
    nookdb.Bytes.cmp nookdb.Codec.strip_collection_prefix beq nookdb.Doc.decode_document
note_read = refl

count_with-length_example :
    count_with plain memory notes note_db null default
    ≡ (do found ← find_with plain memory notes note_db null default; ok (length found))
count_with-length_example =
    count_with-length plain memory notes note_db null plain-IsSort default (note (bytes "a") ∷ [])
      note_read

docs-total : is_total (cmp_docs plain by_rank.sort (bytes "_id")) docs ≡ true
unfolding cmp_docs get beq cmp_int nookdb.Bytes.cmp
docs-total = refl

apply-AbsentLast_example : AbsentLast plain plain-IsSort (bytes "rank") top
apply-AbsentLast_example =
    apply-AbsentLast plain plain-IsSort by_rank (bytes "rank") SortDir.desc [] docs top
      (bytes "_id") number_ty refl docs-total top-apply
