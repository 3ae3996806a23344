-- ===== src/Collection/Deleted.antt =====
-- About `delete` of crates/nookdb-core/src/collection.rs as a whole.
use nookdb.Prelude.{
  ℕ, suc, Bool-cases, inl, inr, some, ◌≡◌, ◌∙◌, refl, sym, ap, Bool, true, false, not, List, [],
  ◌∷◌, All, All-filter, filter, length, arith, if◌then◌else◌,
}
use nookdb.Bytes.{Bytes, beq, beq_sound, contains}
use nookdb.Codec.Keys.{IsName}
use nookdb.Collection.{Collection}
use nookdb.Collection.Filter.{matches}
use nookdb.Collection.Reads.{find, field_ty}
use nookdb.Collection.Writes.{delete, delete_found, delete_victims_in_tx}
use nookdb.Collection.ByScan.{IsFiled}
use nookdb.Collection.Indexed.{docs_of, filter-docs_of, good}
use nookdb.Collection.Planned.{HasTexts, find_with-filter}
use nookdb.Collection.Kept.{NulFree, IsForeign}
use nookdb.Collection.Consistent.{Consistent}
use nookdb.Collection.Removed.{Left, left, deletions}
use nookdb.Database.{Database, Outcome, notify}
use nookdb.Database.Atomic.{view, view-IsSorted, fresh, rows-opened, write-commit}
use nookdb.Error.{ok}
use nookdb.Json.{Value, External}
use nookdb.Notify.{Observers}
use nookdb.Query.{default, apply, validate_sort_fields, ordered, has_sort, page}
use nookdb.Redb.{Redb, IsLawful}
use nookdb.Rows.{Row, Rows, lookup, user_rows}
use nookdb.Rows.Erased.{erased, erased-filter}
use nookdb.Rows.Chosen.{All-lookup, filter-IsSorted}
use nookdb.Storage.Pure.{table_rows}

if_same : {A : Type 0} (b : Bool) (a : A) → a ≡ (if b then a else a)
if_same true a = refl
if_same false a = refl

length-docs_of :
    {N F : Type 0} (x : External N F) (c : Collection F) (rows : Rows)
    → All (IsFiled x c) rows
    → length (docs_of x c rows) ≡ length rows
length-docs_of x c [] f = refl
length-docs_of x c (row ∷ rows) f = rw f.0.decoded (ap suc (length-docs_of x c rows f.1))

module _ {N F T : Type 0} (x : External N F) (r : Redb T) (law : IsLawful r) (c : Collection F)
    (db : Database T) (name : IsName c.name) (hs : All NulFree c.ir.indexes)
    (con : Consistent x r law c db) (q : Value N) where
  open law use {rows}

  abbrev pub asked_for : Row → Bool
  asked_for row = good x c (λ d. matches x d q) row.1

  -- The rows that a `delete` with this filter is to remove, and those that it is to keep.
  abbrev pub doomed : Rows
  doomed = filter asked_for (view r law db c.name)

  abbrev pub spared : Rows
  spared = filter (λ row. not (asked_for row)) (view r law db c.name)

  apply-default :
      (docs : List (Value N)) → apply x default docs c.ir.id_field (field_ty c.ir) ≡ ok docs
  unfolding apply validate_sort_fields ordered has_sort page
  apply-default docs = ground arith

  find_ok : HasTexts x q → find x r c db q ≡ ok (docs_of x c doomed)
  unfolding find
  find_ok t =
      find_with-filter x r law c db name con q default t
      ∙ (apply-default _ ∙ ap ok (filter-docs_of x c (λ d. matches x d q) (view r law db c.name)))

  opened_rows : (d : Bytes) → user_rows d (rows (fresh r law db).table) ≡ view r law db d
  unfolding view
  opened_rows d = rw (rows-opened r law) refl

  module _ {W : Type 0} (obs : Observers W) (w : W) where
    pub record IsDeleted (out : Outcome r obs ℕ) : Type 0 where
      pub answer : out.0 ≡ ok (length doomed)
      pub rows_left :
          (d : Bytes)
          → IsName d
          → view r law out.1 d ≡ (if beq c.name d then spared else view r law db d)
      pub consistent : Consistent x r law c out.1
      pub foreign :
          (k : Bytes)
          → IsForeign c.name k
          → lookup k (table_rows r law out.1.store.index)
            ≡ lookup k (table_rows r law db.store.index)
      pub told : out.2 ≡ notify r obs db.notifier (deletions x r law c doomed) w

    doomed-IsFiled : All (IsFiled x c) doomed
    doomed-IsFiled = All-filter (IsFiled x c) asked_for (view r law db c.name) con.filed

    start : Left x r law c doomed (fresh r law db)
    start =
        let sorted = view-IsSorted r law db c.name in
        left x r law c name hs doomed (fresh r law db)
          (filter-IsSorted (good x c (λ d. matches x d q)) (view r law db c.name) sorted)
          doomed-IsFiled
          (All-filter (λ row. contains row.0 0 ≡ false) asked_for (view r law db c.name)
            con.nul_free)
          (rw (opened_rows c.name) (
            All-filter (λ row. lookup row.0 (view r law db c.name) ≡ some row.1) asked_for
              (view r law db c.name) (All-lookup (view r law db c.name) sorted)))
          (rw (opened_rows c.name, rows-opened r law db.store.index) con)

    erased-doomed :
        (d : Bytes)
        → (if beq c.name d then erased doomed (view r law db d) else view r law db d)
          ≡ (if beq c.name d then spared else view r law db d)
    erased-doomed d = elim (Bool-cases (beq c.name d)) [
      | inr e ↦ rw e refl
      | inl e ↦
          rw (e, sym (beq_sound c.name d e))
            (erased-filter (good x c (λ v. matches x v q)) (view r law db c.name)
              (view-IsSorted r law db c.name))
    ]

    finish :
        (part : Rows)
        → doomed ≡ part
        → All (IsFiled x c) part
        → Left x r law c part (fresh r law db)
        → IsDeleted (delete_found x r c obs db w (ok (docs_of x c part)))
    unfolding delete_found view table_rows
    finish [] e f l = record {
      answer = rw e refl;
      rows_left = λ d n. if_same (beq c.name d) (view r law db d) ∙ (rw e at (erased-doomed d));
      consistent = con;
      foreign = λ k f. refl;
      told = rw e refl;
    }
    finish (row ∷ part) e f l =
        let docs = docs_of x c part in
        let run : delete_victims_in_tx x r c (f.0.doc ∷ docs) (fresh r law db) ≡ ok (tt, l.after) =
          rw f.0.decoded at l.removed_ok in
        let made =
          write-commit r law obs db w (delete_victims_in_tx x r c (f.0.doc ∷ docs)) tt l.after
            run in
        rw (f.0.decoded, made)
          (record {
            answer = rw (e, length-docs_of x c part f.1) refl;
            rows_left = λ d n. l.others d n ∙ (rw (opened_rows d) (rw e at (erased-doomed d)));
            consistent = l.kept;
            foreign = λ k f. l.foreign k f ∙ (rw (rows-opened r law db.store.index) refl);
            told = rw (e, l.told) refl;
          })

    -- Over a lawful engine, for a collection with an accepted name and indexed fields without NUL whose
    -- index is consistent with the documents, and a filter whose values have one index text each:
    -- `delete` succeeds and returns the number of documents that match; exactly these are gone, in
    -- this collection only; the index is consistent afterwards, and the index entries of other
    -- collections are as they were; and the observers are told of one deletion for each, in the
    -- order of the ids, or not called if there is none.
    pub delete-IsDeleted : HasTexts x q → IsDeleted (delete x r c obs db w q)
    unfolding delete
    delete-IsDeleted t = rw (find_ok t) (finish doomed refl doomed-IsFiled start)
