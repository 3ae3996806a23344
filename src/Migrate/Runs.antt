-- ===== src/Migrate/Runs.antt =====
-- About `run` and the reads of the ledger in crates/nookdb-core/src/migrate.rs.
use nookdb.Prelude.{
  ℕ, ◌≡◌, ◌∙◌, sym, ap, refl, true, false, not, ◌||◌, some, List, [], ◌∷◌, filter, length, ◌==◌,
  arith, Bool-cases, inl, inr, ==_iff,
}
use nookdb.Bytes.{Bytes, beq_refl}
use nookdb.Codec.Keys.{IsName}
use nookdb.Database.{Database, notify}
use nookdb.Database.Atomic.{view, opened, fresh, rows-opened, write-commit}
use nookdb.Database.Bytewise.{get_lem}
use nookdb.Error.{ok}
use nookdb.Migrate.{
  LedgerJson, meta_collection, applied_key, member, push_new, sort_unstable, dedup, decode_ledger,
  applied, list_pending, store_merged, run_in_tx, run,
}
use nookdb.Prelude.{all as every}
use nookdb.Migrate.Merged.{push_new-known, member-push_new, push_new-same, member-stored}
use nookdb.Notify.{Observers, ChangeOp}
use nookdb.Redb.{Redb, IsLawful}
use nookdb.Rows.{lookup, user_rows}
use nookdb.Rows.Laws.{lookup-insert}
use nookdb.Rows.Users.{composite, user_rows-insert}
use nookdb.Storage.Pure.{table_rows, put_ok, write_get, change}

meta-IsName : IsName meta_collection
meta-IsName = record { not_empty = λ p. cc; nul_free = refl }

-- The reader gives back every list that the writer wrote.
pub record IsFaithful (j : LedgerJson) : Type 0 where
  pub text : List ℕ → Bytes
  pub to_vec_ok : (a : List ℕ) → j.to_vec a ≡ some (text a)
  pub from_slice_ok : (a : List ℕ) → j.from_slice (text a) ≡ some a

-- What is among the applied versions is not pending.
none_left :
    (a all rest : List ℕ)
    → ((v : ℕ) → member v rest ≡ true → member v a ≡ true)
    → filter (λ v. not (member v a)) rest ≡ []
none_left a all [] h = refl
none_left a all (u ∷ rest) h =
    ground (arith, h u, ==_iff u u, none_left a all rest (λ v k. h v (ground (arith, k))))

module _ {T : Type 0} (j : LedgerJson) (r : Redb T) (law : IsLawful r) where
  open law use {rows, inserted}

  pub applied_lem :
      (db : Database T)
      → applied j r db ≡ decode_ledger j (lookup applied_key (view r law db meta_collection))
  unfolding applied
  applied_lem db = rw (get_lem r law db meta_collection applied_key meta-IsName)

  -- The ledger that a fresh transaction reads is that of the committed state.
  fresh-ledger :
      (db : Database T) (all a : List ℕ)
      → applied j r db ≡ ok a
      → run_in_tx j r all (fresh r law db) ≡ store_merged j r a (push_new a all) (fresh r law db)
  unfolding run_in_tx view
  fresh-ledger db all a h =
      let k : decode_ledger j
            (lookup applied_key (user_rows meta_collection (rows (fresh r law db).table)))
          ≡ ok a =
        rw (rows-opened r law) (sym (applied_lem db) ∙ h) in
      ground (arith, write_get r law meta_collection applied_key (fresh r law db) meta-IsName, k)

  module _ {W : Type 0} (obs : Observers W) (db : Database T) (w : W) where
    -- A `run` of applied versions
    run-same :
        (all a : List ℕ)
        → applied j r db ≡ ok a
        → (length (push_new a all) == length a) ≡ true
        → run j r obs db w all ≡ (
          ok tt,
          record db {
            store = record {
              entries = some (opened r law db.store.entries);
              index = some (opened r law db.store.index);
            };
          },
          w,
        )
    unfolding run store_merged
    run-same all a h k =
        write-commit r law obs db w (run_in_tx j r all) tt (fresh r law db)
          (fresh-ledger db all a h ∙ ground (arith, k))

    module _ (json : IsFaithful j) where
      stored_ok :
          (a merged : List ℕ)
          → (length merged == length a) ≡ false
          → store_merged j r a merged (fresh r law db)
            ≡ ok (
              tt,
              record (fresh r law db) {
                table =
                    inserted
                      (opened r law db.store.entries)
                      (composite meta_collection applied_key)
                      (json.text (dedup (sort_unstable merged)));
                touched = change meta_collection ChangeOp.insert applied_key ∷ [];
              },
            )
      unfolding store_merged
      stored_ok a merged k = ground (
        arith,
        k,
        json.to_vec_ok (dedup (sort_unstable merged)),
        put_ok r law meta_collection applied_key (json.text (dedup (sort_unstable merged)))
            (fresh r law db) meta-IsName,
      )

      run-new :
          (all a : List ℕ)
          → applied j r db ≡ ok a
          → (length (push_new a all) == length a) ≡ false
          → run j r obs db w all ≡ (
            ok tt,
            record db {
              store = record {
                entries = some (
                    inserted
                      (opened r law db.store.entries)
                      (composite meta_collection applied_key)
                      (json.text (dedup (sort_unstable (push_new a all)))));
                index = some (opened r law db.store.index);
              };
            },
            notify r obs db.notifier (change meta_collection ChangeOp.insert applied_key ∷ []) w,
          )
      unfolding run
      run-new all a h k =
          write-commit r law obs db w (run_in_tx j r all) tt _
            (fresh-ledger db all a h ∙ stored_ok a (push_new a all) k)

      abbrev reopened : Database T
      reopened = record db {
        store = record {
          entries = some (opened r law db.store.entries);
          index = some (opened r law db.store.index);
        };
      }

      view-reopened : view r law reopened meta_collection ≡ view r law db meta_collection
      unfolding view table_rows
      view-reopened = rw (rows-opened r law)

      applied-reopened : applied j r reopened ≡ applied j r db
      applied-reopened =
          applied_lem reopened
          ∙ (ap (λ u. decode_ledger j (lookup applied_key u)) view-reopened ∙ sym (applied_lem db))

      applied-stored :
          (m : List ℕ)
          → applied j r (record db {
            store = record {
              entries = some (
                  inserted
                    (opened r law db.store.entries)
                    (composite meta_collection applied_key)
                    (json.text m));
              index = some (opened r law db.store.index);
            };
          })
            ≡ ok m
      unfolding view table_rows
      applied-stored m =
          rw
            (
              applied_lem,
              law.rows-inserted,
              user_rows-insert meta_collection meta_collection applied_key (json.text m)
                  (rows (opened r law db.store.entries)) meta-IsName meta-IsName
                  (law.rows-IsSorted (opened r law db.store.entries)),
            )
            (ground (
              arith,
              lookup-insert applied_key applied_key (json.text m)
                  (user_rows meta_collection (rows (opened r law db.store.entries))),
              beq_refl applied_key,
              beq_refl meta_collection,
              json.from_slice_ok m,
            ))

      -- Over a lawful engine and a faithful JSON codec: where the ledger can be read, `run` succeeds,
      -- and the ledger then holds exactly the versions that it held or that were to be run.
      pub run-applied :
          (all a : List ℕ)
          → applied j r db ≡ ok a
          → (let out = run j r obs db w all in
              (out.0 ≡ ok tt)
              × ((a' : List ℕ) × (applied j r out.1 ≡ ok a')
                  × ((v : ℕ) → member v a' ≡ (member v a || member v all))))
      run-applied all a h = elim (Bool-cases (length (push_new a all) == length a)) [
        | inl k ↦
            let same : push_new a all ≡ a = push_new-same a all ((==_iff _ _).0 k) in
            rw (run-same all a h k)
              (refl, (a, applied-reopened ∙ h, λ v. ground (arith, member-push_new v a all, same)))
        | inr k ↦ rw (run-new all a h k) (
          refl,
          (
            dedup (sort_unstable (push_new a all)),
            applied-stored (dedup (sort_unstable (push_new a all))),
            λ v. member-stored v (push_new a all) ∙ member-push_new v a all,
          ),
        )
      ]

      -- Over a lawful engine and a faithful JSON codec: after a `run` of versions on a ledger that can
      -- be read, none of them is pending.
      pub list_pending-run :
          (all a : List ℕ)
          → applied j r db ≡ ok a
          → list_pending j r (run j r obs db w all).1 all ≡ ok []
      unfolding list_pending
      list_pending-run all a h =
          let (done, (a', there, held)) = run-applied all a h in
          rw there (ap (λ l. ok l) (none_left a' all all (λ v k. held v ∙ ground (arith, k))))

      -- Over a lawful engine and a faithful JSON codec: a `run` of versions that have all been applied
      -- succeeds, leaves the ledger as it was, and tells no observer.
      pub run-noop :
          (all a : List ℕ)
          → applied j r db ≡ ok a
          → every (λ v. member v a) all ≡ true
          → (let out = run j r obs db w all in
              (out.0 ≡ ok tt) × (applied j r out.1 ≡ ok a) × (out.2 ≡ w))
      run-noop all a h k =
          rw (run-same all a h ((==_iff _ _).1 (ap length (push_new-known a all k))))
            (refl, applied-reopened ∙ h, refl)
