-- ===== src/Binding/Lives/Closed.antt =====
-- About calls after `close` of crates/nookdb-napi/src/database.rs.
use nookdb.Prelude.{List, ◌≡◌, refl, Option, none, some, [], ◌∷◌, ℕ, arith}
use nookdb.Bytes.{Bytes}
use nookdb.Error.{Result, err, is_closed}
use nookdb.Json.{External}
use nookdb.Live
use nookdb.Migrate.{LedgerJson}
use nookdb.Binding.Calls.Names.{list_collection_names}
use nookdb.Query.{QueryOptions}
use nookdb.Redb.{Redb}
use nookdb.Binding.{JsDatabase, LiveEngine, Registry, Call, rejected, map_nook_error}
use nookdb.Binding.Calls
use nookdb.Binding.Calls.{gated}
use nookdb.Binding.Handles.{get_db, get_db_and_schema, get_live_engine}
use nookdb.Binding.Lives.{live, close, detach_all, release, live_of}
use nookdb.Binding.Transactions.{begin_write_txn}

module _ {N F T : Type 0} where
  -- The call is rejected as `[closed]`, and changes nothing.
  abbrev pub Shuts : {A : Type 0} → Call N F T A → JsDatabase N F T → Type 0
  Shuts call s = call s ≡ (rejected (map_nook_error is_closed), s)

  gated-Shuts :
      {D A : Type 0} (getter : JsDatabase N F T → Result D) (f : D → Call N F T A)
      (s : JsDatabase N F T)
      → getter s ≡ err is_closed
      → Shuts (gated getter f) s
  unfolding gated
  gated-Shuts getter f s e = ground (arith, e)

  detach_all-live_subs :
      (subs : Registry (ℕ × ℕ)) (s : JsDatabase N F T) → (detach_all subs s).live_subs ≡ s.live_subs
  unfolding detach_all
  detach_all-live_subs [] s = refl
  detach_all-live_subs (e ∷ subs) s =
      detach_all-live_subs subs
        (record s { closed_sinks = e.1.1 ∷ s.closed_sinks; engine = Live.cancel e.1.0 s.engine })

  release-live_subs :
      (e : Option (LiveEngine F)) (s : JsDatabase N F T) → (release e s).live_subs ≡ []
  release-live_subs none s = refl
  release-live_subs (some e) s = detach_all-live_subs s.live_subs (record s { live_subs = [] })

  module _ (x : External N F) (r : Redb T) (j : LedgerJson)
      (from_str : Bytes → Option QueryOptions) where
    -- The calls on bytes, on the names, on documents and on the ledger, and those that begin something.
    abbrev pub IsShut : JsDatabase N F T → Type 0
    IsShut s =
        ((c k v : Bytes) → Shuts (Calls.put r c k v) s)
        × ((c k : Bytes) → Shuts (Calls.get r c k) s)
        × ((c k : Bytes) → Shuts (Calls.delete r c k) s)
        × ((c : Bytes) → Shuts (Calls.list_collection r c) s)
        × ((c d : Bytes) → Shuts (Calls.insert r x c d) s)
        × ((c f : Bytes) (o : Option Bytes) → Shuts (Calls.find r x from_str c f o) s)
        × ((c f : Bytes) (o : Option Bytes) → Shuts (Calls.count r x from_str c f o) s)
        × ((c f : Bytes) → Shuts (Calls.delete_many r x c f) s)
        × ((c f : Bytes) (o : Option Bytes) → Shuts (Calls.find_one r x from_str c f o) s)
        × Shuts (list_collection_names r) s
        × Shuts (Calls.migrate_status r j) s
        × ((versions : List ℕ) → Shuts (Calls.migrate_run r j versions) s)
        × Shuts (Calls.migrate_list_applied r j) s
        × Shuts begin_write_txn s
        × ((c f : Bytes) (o : Option Bytes) → Shuts (live x r from_str c f o) s)

    no_handle-IsShut : (s : JsDatabase N F T) → s.inner ≡ none → IsShut s
    unfolding get_db get_db_and_schema get_live_engine Calls.put Calls.get Calls.delete
        Calls.list_collection Calls.insert Calls.find Calls.count Calls.delete_many Calls.find_one
        list_collection_names Calls.migrate_status Calls.migrate_run Calls.migrate_list_applied
        begin_write_txn live
    no_handle-IsShut s e =
        let d : get_db s ≡ err is_closed = rw e refl in
        let g : get_db_and_schema s ≡ err is_closed = rw e refl in
        let l : get_live_engine s ≡ err is_closed = rw e refl in
        (
          λ c k v. gated-Shuts get_db _ s d,
          λ c k. gated-Shuts get_db _ s d,
          λ c k. gated-Shuts get_db _ s d,
          λ c. gated-Shuts get_db _ s d,
          λ c t. gated-Shuts (Calls.typed r x c (Calls.parse_document x t)) _ s (ground (arith, g)),
          λ c f o. gated-Shuts get_db_and_schema _ s g,
          λ c f o. gated-Shuts get_db_and_schema _ s g,
          λ c t.
              rw (gated-Shuts (Calls.typed r x c (Calls.parse_filter x t)) _ s (ground (arith, g)))
                refl,
          λ c f o. gated-Shuts get_db_and_schema _ s g,
          gated-Shuts get_db _ s d,
          gated-Shuts get_db _ s d,
          λ versions. gated-Shuts get_db _ s d,
          gated-Shuts get_db _ s d,
          gated-Shuts get_db_and_schema _ s g,
          λ c f o. gated-Shuts _ _ s (ground (arith, l)),
        )

    -- After `close`, every call on bytes, on documents, on the collection names and on the ledger, a
    -- new transaction and a new live query are rejected as closed and change nothing, and the
    -- object has no live subscription left. This says nothing of `backup` and `restore`, nor of the
    -- calls on a transaction that was begun before.
    pub close-IsShut : (s : JsDatabase N F T) → IsShut (close s).1 × ((close s).1.live_subs ≡ [])
    unfolding close
    close-IsShut s = (no_handle-IsShut (close s).1 refl, release-live_subs (live_of s.inner) s)
