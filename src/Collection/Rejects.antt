-- ===== src/Collection/Rejects.antt =====
-- About `insert` and `delete` of crates/nookdb-core/src/collection.rs that return an error.
use nookdb.Prelude.{◌≡◌, refl, true, List, [], ◌∷◌, arith, ℕ}
use nookdb.Bytes.{Bytes}
use nookdb.Bytes
use nookdb.Collection.{Collection}
use nookdb.Collection.Filter.{doc_id}
use nookdb.Collection.Reads.{find}
use nookdb.Collection.Writes.{
  prepare, insert, insert_prepared, insert_validated_in_tx, delete, delete_found,
  delete_victims_in_tx, counted,
}
use nookdb.Database.{Database, Outcome}
use nookdb.Database.Atomic.{write-rollback, Unchanged}
use nookdb.Error.{NookError, Result, ok, err, invalid_argument, nul_id}
use nookdb.Json.{Value, External}
use nookdb.Notify.{Observers}
use nookdb.Redb.{Redb}
use nookdb.Schema.Validate.{validate_document}

module _ {N F T W : Type 0} (x : External N F) (r : Redb T) (c : Collection F) (obs : Observers W)
    (db : Database T) (w : W) where
  prepared-rollback :
      (doc : Value N) (p : Result (Bytes × Bytes))
      → Unchanged r obs db w (insert_prepared x r c obs db w doc p)
  unfolding insert_prepared
  prepared-rollback doc (ok (id, stored)) e h =
      write-rollback r obs db w (insert_validated_in_tx x r c doc id stored) e h
  prepared-rollback doc (err k) e h = (refl, refl)

  -- An `insert` that returns an error leaves the database as it was, and no observer is called.
  pub insert-rollback :
      (doc : Value N) (e : NookError)
      → (insert x r c obs db w doc).0 ≡ err e
      → ((insert x r c obs db w doc).1 ≡ db) × ((insert x r c obs db w doc).2 ≡ w)
  unfolding insert
  insert-rollback doc e h = prepared-rollback doc (prepare x r c doc) e h

  counted-rollback :
      (n : ℕ) (out : Outcome r obs (Unit {0}))
      → Unchanged r obs db w out
      → Unchanged r obs db w (counted x r c obs n out)
  counted-rollback n (ok u, db', w') h e g = absurd (ground arith)
  counted-rollback n (err k, db', w') h e g = h k refl

  found-rollback :
      (found : Result (List (Value N))) → Unchanged r obs db w (delete_found x r c obs db w found)
  unfolding delete_found
  found-rollback (err k) e h = (refl, refl)
  found-rollback (ok []) e h = (refl, refl)
  found-rollback (ok (d ∷ ds)) e h =
      counted-rollback _ _ (write-rollback r obs db w (delete_victims_in_tx x r c (d ∷ ds))) e h

  -- A `delete` that returns an error deletes nothing: the database is as it was, and no observer
  -- is called.
  pub delete-rollback :
      (filter_doc : Value N) (e : NookError)
      → (delete x r c obs db w filter_doc).0 ≡ err e
      → ((delete x r c obs db w filter_doc).1 ≡ db) × ((delete x r c obs db w filter_doc).2 ≡ w)
  unfolding delete
  delete-rollback filter_doc e h = found-rollback (find x r c db filter_doc) e h

  -- A document that validates and whose id contains a NUL is rejected as an invalid argument; the
  -- database is as it was, and no observer is called.
  pub insert-nul_id :
      (doc : Value N) (id : Bytes)
      → validate_document x c.ir doc ≡ ok tt
      → doc_id c.ir doc ≡ ok id
      → Bytes.contains id 0 ≡ true
      → insert x r c obs db w doc ≡ (err (invalid_argument (nul_id c.ir.id_field)), db, w)
  unfolding insert prepare insert_prepared
  insert-nul_id doc id h g n = rw (h, g, n)
