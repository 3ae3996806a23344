-- ===== src/Database/Bytewise.antt =====
-- About `get`, `list_collection`, `put` and `delete`, each alone in a transaction of
-- crates/nookdb-core/src/database.rs, as operations on the rows of the collections.
use nookdb.Prelude.{◌≡◌, refl, Bool, true, false, [], ◌∷◌, is_some, if◌then◌else◌}
use nookdb.Bytes.{Bytes, beq}
use nookdb.Codec.Keys.{IsName}
use nookdb.Database.{Database, read, write, notify}
use nookdb.Database.Atomic.{view, fresh, rows-opened, read_lem, write-commit}
use nookdb.Error.{ok}
use nookdb.Notify.{Notifier, Observers, ChangeOp, dispatch}
use nookdb.Redb.{Redb, IsLawful}
use nookdb.Rows.{lookup, insert, remove}
use nookdb.Rows.Users.{user_rows-insert, user_rows-remove}
use nookdb.Storage.Pure.{
  table_rows, touched_by_delete, table_rows-IsSorted, put_ok, delete_ok, read_get, read_list,
  change,
}
use nookdb.Storage.Read
use nookdb.Storage.Write

module _ {T : Type 0} (r : Redb T) (law : IsLawful r) where
  -- Over a lawful engine, for an accepted collection name: `get` through the database looks the
  -- key up among the rows of the collection.
  pub get_lem :
      (db : Database T) (c k : Bytes)
      → IsName c
      → read r db (λ tx. Read.get r tx c k) ≡ ok (lookup k (view r law db c))
  unfolding view
  get_lem db c k h = rw read_lem (read_get r law _ c k h)

  -- Over a lawful engine, for an accepted collection name: `list_collection` through the database
  -- returns the rows of the collection under their user keys, all of them and in the order of the
  -- table.
  list_lem :
      (db : Database T) (c : Bytes)
      → IsName c
      → read r db (λ tx. Read.list_collection r tx c) ≡ ok (view r law db c)
  unfolding view
  list_lem db c h = rw read_lem (read_list r law _ c h)

  module _ {W : Type 0} (obs : Observers W) where
    -- Over a lawful engine, for an accepted collection name: a transaction that does one `put`
    -- succeeds and inserts into the rows of the collection; every other collection keeps its rows,
    -- and the observers are told of exactly this change.
    pub put_lem :
        (db : Database T) (w : W) (c k v d : Bytes)
        → IsName c
        → IsName d
        → (let out = write r obs db w (Write.put r c k v) in
            (out.0 ≡ ok tt)
            × (view r law out.1 d
                ≡ (if beq c d then insert k v (view r law db d) else view r law db d))
            × (out.2
                ≡ dispatch obs db.notifier
                    (record { changes = change c ChangeOp.insert k ∷ [] })
                    w))
    unfolding view table_rows
    put_lem db w c k v d h g =
        rw
          (write-commit r law obs db w (Write.put r c k v) tt _
            (put_ok r law c k v (fresh r law db) h))
          (
            refl,
            rw (law.rows-inserted, rows-opened r law)
                (user_rows-insert d c k v _ g h (table_rows-IsSorted r law db.store.entries)),
            refl,
          )

    notify_deleted :
        (n : Notifier) (w : W) (c k : Bytes) (there : Bool)
        → notify r obs n (touched_by_delete c k there []) w ≡ (
            if there
            then dispatch obs n (record { changes = change c ChangeOp.delete k ∷ [] }) w
            else w)
    notify_deleted n w c k true = refl
    notify_deleted n w c k false = refl

    -- Over a lawful engine, for an accepted collection name: a transaction that does one `delete`
    -- succeeds, says whether the key was there, and removes it from the rows of the collection;
    -- every other collection keeps its rows, and the observers are told exactly if the key was
    -- there.
    delete_lem :
        (db : Database T) (w : W) (c k d : Bytes)
        → IsName c
        → IsName d
        → (let out = write r obs db w (Write.delete r c k) in
            let there = is_some (lookup k (view r law db c)) in
            (out.0 ≡ ok there)
            × (view r law out.1 d
                ≡ (if beq c d then remove k (view r law db d) else view r law db d))
            × (out.2 ≡ (
                if there
                then dispatch obs db.notifier
                    (record { changes = change c ChangeOp.delete k ∷ [] })
                    w
                else w)))
    unfolding view table_rows
    delete_lem db w c k d h g =
        rw
          (
            write-commit r law obs db w (Write.delete r c k) _ _
                (delete_ok r law c k (fresh r law db) h),
            rows-opened r law,
          )
          (
            refl,
            rw (law.rows-removed, rows-opened r law)
                (user_rows-remove d c k _ g h (table_rows-IsSorted r law db.store.entries)),
            notify_deleted db.notifier w c k (is_some (lookup k (view r law db c))),
          )
