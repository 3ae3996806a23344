-- ===== src/Binding/Steps.antt =====
-- The object of crates/nookdb-napi/src/database.rs as a state machine: each call that changes its state
-- is a step. `backup` changes the disk only.
use nookdb.Live
use nookdb.Prelude.{
  inl, inr, Option-cases, sym, subst, ◌%◌, ◌≡◌, Option, none, some, [], ◌∷◌, arith, ℕ, ◌+◌, ◌^◌,
  ◌<◌, ◌≤◌, suc, List,
}
use nookdb.Bytes.{Bytes}
use nookdb.Database.{Database}
use nookdb.Error.{Result-cases, NookError, ok, err, Result}
use nookdb.Json.{External}
use nookdb.Migrate.{LedgerJson}
use nookdb.Query.{QueryOptions}
use nookdb.Redb.{Redb}
use nookdb.Schema.Ir.{SchemaIr}
use nookdb.Binding.{
  remove_entry, LiveEngine, insert_entry, rejected, resolved, Settled, map_nook_error, Registry,
  WriteTxState, find_entry, JsDatabase, Call, Body,
}
use nookdb.Backup.Files.{FileSystem}
use nookdb.Binding.Backups.{JsRestoreOptions, restore, read_back}
use nookdb.Binding.Calls.{gated, put, delete, insert, delete_many, migrate_run}
use nookdb.Binding.Entries.{
  find-KeysBelow, KeysBelow-later, remove-KeysBelow, update-KeysBelow, KeysBelow,
}
use nookdb.Binding.Handles.{bare, bound, get_db_and_optional_schema}
use nookdb.Binding.Lives.{detach, detach_all, release, live_of, live, live_cancel, close}
use nookdb.Binding.Transactions.{
  unknown, known, begin_write_txn, tx_insert, tx_delete_many, commit_write_txn, rollback_write_txn,
}

module _ {N F T D H B : Type 0} (x : External N F) (r : Redb T) (j : LedgerJson)
    (from_str : Bytes → Option QueryOptions) (fs : FileSystem D H B) (crc32 : Bytes → ℕ)
    (sha256 : Bytes → Bytes) (f64_bytes : F → Bytes) where
  pub data Step (s : JsDatabase N F T) : JsDatabase N F T → Type 0 where
    puts : (c k v : Bytes) → Step s (put r c k v s).1
    deletes : (c k : Bytes) → Step s (delete r c k s).1
    inserts : (c d : Bytes) → Step s (insert r x c d s).1
    deletes_many : (c f : Bytes) → Step s (delete_many r x c f s).1
    migrates : (versions : List ℕ) → Step s (migrate_run r j versions s).1
    begins : Step s (begin_write_txn s).1
    buffers_insert : (h : ℕ) (c d : Bytes) → Step s (tx_insert h c d s).1
    buffers_delete : (h : ℕ) (c f : Bytes) → Step s (tx_delete_many h c f s).1
    commits : (h : ℕ) → Step s (commit_write_txn x r h s).1
    rolls_back : (h : ℕ) → Step s (rollback_write_txn h s).1
    lives : (c f : Bytes) (o : Option Bytes) → Step s (live x r from_str c f o s).1
    cancels : (id : ℕ) → Step s (live_cancel id s).1
    closes : Step s (close s).1
    restores :
        (d : D) (path : Bytes) (opts : Option JsRestoreOptions)
        → Step s (restore fs crc32 sha256 f64_bytes r d path opts s).1

  -- The states of an object after a number of calls.
  pub data Reach : ℕ → JsDatabase N F T → Type 0 where
    opened : (db : Database T) → Reach 0 (bare db)
    opened_with_schema : (db : Database T) (schema : SchemaIr F) → Reach 0 (bound (db, schema))
    later : {n : ℕ} {s t : JsDatabase N F T} → Reach n s → Step s t → Reach (suc n) t

  -- Every handle in the registry was given before the next one, and that is at most `n`.
  abbrev pub IsIssued : ℕ → JsDatabase N F T → Type 0
  IsIssued n s = KeysBelow s.next_tx_id s.tx_states × (s.next_tx_id ≤ n)

  gated_ok :
      {D A : Type 0} (getter : JsDatabase N F T → Result D) (f : D → Call N F T A)
      (s : JsDatabase N F T) (d : D)
      → getter s ≡ ok d
      → gated getter f s ≡ f d s
  unfolding gated
  gated_ok getter f s d e = ground (arith, e)

  gated_err :
      {D A : Type 0} (getter : JsDatabase N F T → Result D) (f : D → Call N F T A)
      (s : JsDatabase N F T) (e : NookError)
      → getter s ≡ err e
      → gated getter f s ≡ (rejected (map_nook_error e), s)
  unfolding gated
  gated_err getter f s e h = ground (arith, h)

  unknown_handle :
      {A : Type 0} (h : ℕ) (b : Body) (f : WriteTxState F → Call N F T A) (s : JsDatabase N F T)
      → find_entry h s.tx_states ≡ none
      → known h b f s ≡ (rejected (unknown b), s)
  unfolding known
  unknown_handle h b f s e = ground (arith, e)

  handle_found :
      {A : Type 0} (h : ℕ) (b : Body) (f : WriteTxState F → Call N F T A) (s : JsDatabase N F T)
      (state : WriteTxState F)
      → find_entry h s.tx_states ≡ some state
      → known h b f s ≡ f state s
  unfolding known
  handle_found h b f s state e = ground (arith, e)

  gated-IsIssued :
      {D A : Type 0} (getter : JsDatabase N F T → Result D) (f : D → Call N F T A) (n : ℕ)
      (s : JsDatabase N F T)
      → IsIssued n s
      → ((d : D) → IsIssued n (f d s).1)
      → IsIssued n (gated getter f s).1
  gated-IsIssued getter f n s i g = elim (Result-cases (getter s)) [
    | inl (d, e) ↦ rw (gated_ok getter f s d e) (g d)
    | inr (y, e) ↦ rw (gated_err getter f s y e) i
  ]

  known-IsIssued :
      {A : Type 0} (h : ℕ) (b : Body) (f : WriteTxState F → Call N F T A) (n : ℕ)
      (s : JsDatabase N F T)
      → IsIssued n s
      → ((state : WriteTxState F) → IsIssued n (f state s).1)
      → IsIssued n (known h b f s).1
  known-IsIssued h b f n s i g = elim (Option-cases (find_entry h s.tx_states)) [
    | inl e ↦ rw (unknown_handle h b f s e) i
    | inr (state, e) ↦ rw (handle_found h b f s state e) (g state)
  ]

  detach-IsIssued :
      (found : Option (ℕ × ℕ)) (n : ℕ) (s : JsDatabase N F T)
      → IsIssued n s
      → IsIssued n (detach found s)
  detach-IsIssued none n s i = i
  detach-IsIssued (some p) n s i = i

  detach_all-IsIssued :
      (subs : Registry (ℕ × ℕ)) (n : ℕ) (s : JsDatabase N F T)
      → IsIssued n s
      → IsIssued n (detach_all subs s)
  unfolding detach_all
  detach_all-IsIssued [] n s i = i
  detach_all-IsIssued (e ∷ subs) n s i =
      detach_all-IsIssued subs n
        (record s { closed_sinks = e.1.1 ∷ s.closed_sinks; engine = Live.cancel e.1.0 s.engine }) i

  release-IsIssued :
      (e : Option (LiveEngine F)) (n : ℕ) (s : JsDatabase N F T)
      → IsIssued n s
      → IsIssued n (release e s)
  release-IsIssued none n s i = i
  release-IsIssued (some e) n s i =
      detach_all-IsIssued s.live_subs n (record s { live_subs = [] }) i

  begun-IsIssued :
      (n : ℕ) (s : JsDatabase N F T) (state : WriteTxState F)
      → suc n < 2 ^ 64
      → IsIssued n s
      → IsIssued (suc n) (record s {
        tx_states = insert_entry s.next_tx_id state s.tx_states;
        next_tx_id = (s.next_tx_id + 1) % 2 ^ 64;
      })
  unfolding insert_entry
  begun-IsIssued n s state h i =
      let e : (s.next_tx_id + 1) % 2 ^ 64 ≡ s.next_tx_id + 1 = omega (arith, i.1, h) in
      subst (λ k. KeysBelow k (insert_entry s.next_tx_id state s.tx_states) × (k ≤ suc n)) (sym e)
        (
          (
            omega arith,
            KeysBelow-later s.next_tx_id (s.next_tx_id + 1) (remove_entry s.next_tx_id s.tx_states)
                (omega arith) (remove-KeysBelow s.next_tx_id s.next_tx_id s.tx_states i.0),
          ),
          omega (arith, i.1),
        )

  read_back-IsIssued :
      (n : ℕ) (d : D) (path : Bytes) (opts : Option JsRestoreOptions) (s : JsDatabase N F T)
      (got : Settled (Database T × Option (SchemaIr F)))
      → IsIssued n s
      → IsIssued n (read_back fs crc32 sha256 f64_bytes r d path opts s got).1
  read_back-IsIssued n d path opts s (rejected e) i = i
  read_back-IsIssued n d path opts s (resolved h) i = i

  step-IsIssued :
      (n : ℕ) (s t : JsDatabase N F T)
      → Step s t
      → suc n < 2 ^ 64
      → IsIssued n s
      → IsIssued (suc n) t
  unfolding put delete insert delete_many migrate_run begin_write_txn tx_insert tx_delete_many
      commit_write_txn rollback_write_txn live live_cancel close restore
  step-IsIssued n s t step h old = go t step
    where
      i : IsIssued (suc n) s
      i = (old.0, omega (arith, old.1))

      go : (t : JsDatabase N F T) → Step s t → IsIssued (suc n) t
      go _ (puts c k v) = gated-IsIssued _ _ (suc n) s i λ d. i
      go _ (deletes c k) = gated-IsIssued _ _ (suc n) s i λ d. i
      go _ (inserts c d) = gated-IsIssued _ _ (suc n) s i λ p. i
      go _ (deletes_many c f) = gated-IsIssued _ _ (suc n) s i λ p. i
      go _ (migrates versions) = gated-IsIssued _ _ (suc n) s i λ d. i
      go _ begins = gated-IsIssued _ _ (suc n) s i λ d. begun-IsIssued n s _ h old
      go _ (buffers_insert k c d) =
          known-IsIssued k _ _ (suc n) s i
            λ state. (update-KeysBelow s.next_tx_id k _ s.tx_states i.0, i.1)
      go _ (buffers_delete k c f) =
          known-IsIssued k _ _ (suc n) s i
            λ state. (update-KeysBelow s.next_tx_id k _ s.tx_states i.0, i.1)
      go _ (commits k) =
          known-IsIssued k _ _ (suc n) s i
            λ state. (remove-KeysBelow s.next_tx_id k s.tx_states i.0, i.1)
      go _ (rolls_back k) =
          known-IsIssued k _ _ (suc n) s i
            λ state. (remove-KeysBelow s.next_tx_id k s.tx_states i.0, i.1)
      go _ (lives c f o) = gated-IsIssued _ _ (suc n) s i λ a. i
      go _ (cancels id) = detach-IsIssued (find_entry id s.live_subs) (suc n) _ i
      go _ closes = release-IsIssued (live_of s.inner) (suc n) s i
      go _ (restores d path opts) =
          read_back-IsIssued (suc n) d path opts s (get_db_and_optional_schema s) i

  reach-IsIssued : (n : ℕ) (s : JsDatabase N F T) → Reach n s → suc n < 2 ^ 64 → IsIssued (suc n) s
  reach-IsIssued _ _ (opened db) h = (tt, omega arith)
  reach-IsIssued _ _ (opened_with_schema db schema) h = (tt, omega arith)
  reach-IsIssued _ _ (later {n} {s} {t} before step) h =
      step-IsIssued (suc n) s t step h (reach-IsIssued n s before (omega (arith, h)))

  -- After fewer than 2^64 - 1 calls on an object that was opened, restores among them, the handle
  -- that `begin_write_txn` gives next belongs to no transaction that is in flight.
  pub reach-fresh :
      (n : ℕ) (s : JsDatabase N F T)
      → Reach n s
      → suc n < 2 ^ 64
      → find_entry s.next_tx_id s.tx_states ≡ none
  reach-fresh n s reach h =
      find-KeysBelow s.next_tx_id s.next_tx_id s.tx_states (reach-IsIssued n s reach h).0
        (omega arith)
