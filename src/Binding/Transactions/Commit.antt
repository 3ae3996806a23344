-- ===== src/Binding/Transactions/Commit.antt =====
-- About `commit_write_txn` and `rollback_write_txn` of crates/nookdb-napi/src/database.rs.
use nookdb.Prelude.{arith, ℕ, ◌≡◌, refl, inl, inr, Option, none, some, Option-cases}
use nookdb.Bytes.{Bytes}
use nookdb.Database.{Database, write}
use nookdb.Database.Atomic.{write-rollback}
use nookdb.Error.{Result, ok, err, NookError}
use nookdb.Json.{External}
use nookdb.Live.{LiveShared}
use nookdb.Query.{QueryOptions}
use nookdb.Redb.{Redb}
use nookdb.Binding.{
  resolved, rejected, unknown_tx_handle, unknown_tx_handle_hint, find_entry, JsDatabase, NapiError,
  WriteTxState, engine_observer,
}
use nookdb.Binding.Calls.{stored}
use nookdb.Binding.Entries.{find-remove}
use nookdb.Binding.Transactions.{
  known, unknown, forget, replay, tx_insert, tx_delete_many, tx_find, tx_find_one, tx_count,
  commit_write_txn, rollback_write_txn,
}

module _ {N F T : Type 0} (x : External N F) (r : Redb T) where
  -- The handle is not in the registry.
  abbrev pub IsSpent : ℕ → JsDatabase N F T → Type 0
  IsSpent h s = find_entry h s.tx_states ≡ none

  -- Every call on a handle that is not in the registry is rejected, and changes nothing.
  abbrev pub Refuses : (Bytes → Option QueryOptions) → ℕ → JsDatabase N F T → Type 0
  Refuses from_str h s =
      (commit_write_txn x r h s ≡ (rejected (unknown unknown_tx_handle_hint), s))
      × (rollback_write_txn h s ≡ (rejected (unknown unknown_tx_handle), s))
      × ((c d : Bytes) → tx_insert h c d s ≡ (rejected (unknown unknown_tx_handle_hint), s))
      × ((c d : Bytes) → tx_delete_many h c d s ≡ (rejected (unknown unknown_tx_handle), s))
      × ((c f : Bytes) (o : Option Bytes)
          → tx_find x r from_str h c f o s ≡ (rejected (unknown unknown_tx_handle_hint), s))
      × ((c f : Bytes) (o : Option Bytes)
          → tx_find_one x r from_str h c f o s ≡ (rejected (unknown unknown_tx_handle_hint), s))
      × ((c f : Bytes) (o : Option Bytes)
          → tx_count x r from_str h c f o s ≡ (rejected (unknown unknown_tx_handle_hint), s))

  commit_unknown :
      (h : ℕ) (s : JsDatabase N F T)
      → IsSpent h s
      → commit_write_txn x r h s ≡ (rejected (unknown unknown_tx_handle_hint), s)
  unfolding commit_write_txn known
  commit_unknown h s e = ground (arith, e)

  pub commit_known :
      (h : ℕ) (s : JsDatabase N F T) (state : WriteTxState F)
      → find_entry h s.tx_states ≡ some state
      → commit_write_txn x r h s
        ≡ stored
            (forget h s)
            (write r engine_observer s.core s.engine (replay x r s.core state.schema state.ops))
  unfolding commit_write_txn known
  commit_known h s state e = ground (arith, e)

  rollback_unknown :
      (h : ℕ) (s : JsDatabase N F T)
      → IsSpent h s
      → rollback_write_txn h s ≡ (rejected (unknown unknown_tx_handle), s)
  unfolding rollback_write_txn known
  rollback_unknown h s e = ground (arith, e)

  rollback_known :
      (h : ℕ) (s : JsDatabase N F T) (state : WriteTxState F)
      → find_entry h s.tx_states ≡ some state
      → rollback_write_txn h s ≡ (resolved tt, forget h s)
  unfolding rollback_write_txn known
  rollback_known h s state e = ground (arith, e)

  spent-Refuses :
      (from_str : Bytes → Option QueryOptions) (h : ℕ) (s : JsDatabase N F T)
      → IsSpent h s
      → Refuses from_str h s
  unfolding tx_insert tx_delete_many tx_find tx_find_one tx_count known
  spent-Refuses from_str h s e = (
    commit_unknown h s e,
    rollback_unknown h s e,
    λ c d. ground (arith, e),
    λ c d. ground (arith, e),
    λ c f o. ground (arith, e),
    λ c f o. ground (arith, e),
    λ c f o. ground (arith, e),
  )

  commit-IsSpent : (h : ℕ) (s : JsDatabase N F T) → IsSpent h (commit_write_txn x r h s).1
  commit-IsSpent h s = elim (Option-cases (find_entry h s.tx_states)) [
    | inl e ↦ rw (commit_unknown h s e) e
    | inr (state, e) ↦ rw (commit_known h s state e) (find-remove h s.tx_states)
  ]

  rollback-IsSpent : (h : ℕ) (s : JsDatabase N F T) → IsSpent h (rollback_write_txn h s).1
  rollback-IsSpent h s = elim (Option-cases (find_entry h s.tx_states)) [
    | inl e ↦ rw (rollback_unknown h s e) e
    | inr (state, e) ↦ rw (rollback_known h s state e) (find-remove h s.tx_states)
  ]

  -- A commit or a rollback uses its handle up, whether it succeeds or fails and for every engine:
  -- right after it, every call on the handle (commit, rollback, `tx_insert`, `tx_delete_many`,
  -- `tx_find`, `tx_find_one` and `tx_count`) is rejected as unknown, and changes nothing.
  pub commit-Refuses :
      (from_str : Bytes → Option QueryOptions) (h : ℕ) (s : JsDatabase N F T)
      → Refuses from_str h (commit_write_txn x r h s).1
        × Refuses from_str h (rollback_write_txn h s).1
  commit-Refuses from_str h s = (
    spent-Refuses from_str h (commit_write_txn x r h s).1 (commit-IsSpent h s),
    spent-Refuses from_str h (rollback_write_txn h s).1 (rollback-IsSpent h s),
  )

  stored-rollback :
      {A : Type 0} (s : JsDatabase N F T) (e : NapiError) (db : Database T) (l : LiveShared N)
      (out : Result A × Database T × LiveShared N)
      → ((y : NookError) → out.0 ≡ err y → (out.1 ≡ db) × (out.2 ≡ l))
      → (stored s out).0 ≡ rejected e
      → ((stored s out).1.core ≡ db) × ((stored s out).1.engine ≡ l)
  stored-rollback s e db l (ok a, db', l') f h = ground (arith, h)
  stored-rollback s e db l (err y, db', l') f h = f y refl

  known-rollback :
      (h : ℕ) (s : JsDatabase N F T) (state : WriteTxState F) (e : NapiError)
      → find_entry h s.tx_states ≡ some state
      → (commit_write_txn x r h s).0 ≡ rejected e
      → ((commit_write_txn x r h s).1.core ≡ s.core)
        × ((commit_write_txn x r h s).1.engine ≡ s.engine)
  known-rollback h s state e k rej =
      let f = replay x r s.core state.schema state.ops in
      let out = write r engine_observer s.core s.engine f in
      rw (commit_known h s state k) (
        stored-rollback (forget h s) e s.core s.engine out
          (λ y. write-rollback r engine_observer s.core s.engine f y)
          (rw (commit_known h s state k) at rej))

  -- If a commit is rejected, whatever op or step failed and for every engine, the core database is
  -- the one before it with none of the buffered ops, and no live query has been marked.
  pub commit-rollback :
      (h : ℕ) (s : JsDatabase N F T) (e : NapiError)
      → (commit_write_txn x r h s).0 ≡ rejected e
      → ((commit_write_txn x r h s).1.core ≡ s.core)
        × ((commit_write_txn x r h s).1.engine ≡ s.engine)
  commit-rollback h s e rej = elim (Option-cases (find_entry h s.tx_states)) [
    | inl k ↦ rw (commit_unknown h s k) (refl, refl)
    | inr (state, k) ↦ known-rollback h s state e k rej
  ]
