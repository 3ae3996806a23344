-- ===== src/Binding.antt =====
-- crates/nookdb-napi/src/database.rs, the object that JavaScript holds, with the error text of
-- crates/nookdb-napi/src/error.rs. A call is one step on the object's state: the locks of the registries
-- are held within a call, and no holder panics.
pub mod Handles
pub mod Calls
pub mod Transactions
pub mod Lives
pub mod Entries
pub mod Backups
pub mod Sinks
pub mod Steps
use nookdb.Prelude.{
  true, ℕ, Bool, not, Option, none, some, List, [], ◌∷◌, ◌++◌, filter, ◌==◌, if◌then◌else◌, is_some,
}
use nookdb.Bytes.{Bytes, bytes}
use nookdb.Database.{Database}
use nookdb.Error.{NookError, Result, ok, err, kind, as_str, bad_schema}
use nookdb.Live
use nookdb.Live.{LiveShared}
use nookdb.Notify.{Observers, ObserverHandle}
use nookdb.Schema.Ir.{SchemaIr}

-- What an error says after the bracketed kind.
pub data Body : Type 0 where
  display : NookError → Body
  unknown_tx_handle : Body
  -- the same, with `(already committed/rolled back?)`
  unknown_tx_handle_hint : Body
  database_closed : Body
  join_failed : Body

-- A `napi::Error` with a reason `[slug] body`.
pub record NapiError : Type 0 where
  pub slug : Bytes
  pub body : Body

unfoldable pub map_nook_error : NookError → NapiError
map_nook_error e = record { slug = as_str (kind e); body = display e }

-- The outcome of the promise.
pub data Settled (A : Type 0) : Type 0 where
  resolved : A → Settled A
  rejected : NapiError → Settled A

abbrev pub of_result : {A : Type 0} → Result A → Settled A
of_result (ok a) = resolved a
of_result (err e) = rejected (map_nook_error e)

abbrev pub settled_map : {A B : Type 0} → (A → B) → Settled A → Settled B
settled_map f (resolved a) = resolved (f a)
settled_map f (rejected e) = rejected e

-- A `HashMap` whose keys are numbers, as the list of its entries.
abbrev pub Registry : Type 0 → Type 0
Registry A = List (ℕ × A)

unfoldable pub find_entry : {A : Type 0} → ℕ → Registry A → Option A
find_entry k [] = none
find_entry k (e ∷ m) = if e.0 == k then some e.1 else find_entry k m

unfoldable pub remove_entry : {A : Type 0} → ℕ → Registry A → Registry A
remove_entry k m = filter (λ e. not (e.0 == k)) m

unfoldable pub insert_entry : {A : Type 0} → ℕ → A → Registry A → Registry A
unfolding remove_entry
insert_entry k a m = (k, a) ∷ remove_entry k m

-- The change of a value that `get_mut` has found.
unfoldable pub update_entry : {A : Type 0} → ℕ → (A → A) → Registry A → Registry A
update_entry k f [] = []
update_entry k f (e ∷ m) = (if e.0 == k then (e.0, f e.1) else e) ∷ update_entry k f m

pub data PendingOp : Type 0 where
  insert delete_many : Bytes → Bytes → PendingOp

-- `db_arc` is always the core database of the object.
pub record WriteTxState (F : Type 0) : Type 0 where
  pub schema : SchemaIr F
  pub ops : List PendingOp

-- The live engine as the handle holds it: its schema, and its registration with the notifier, which
-- its `Drop` takes back.
pub record LiveEngine (F : Type 0) : Type 0 where
  pub schema : SchemaIr F
  pub observer : ObserverHandle

pub record DbHandle (F : Type 0) : Type 0 where
  pub schema : Option (SchemaIr F)
  pub live : Option (LiveEngine F)

-- The object, the core database and the live engine that its handle shares, the sinks that are marked
-- closed, and the counter of the process. A sink is a number, its identity.
pub record JsDatabase (N F T : Type 0) : Type 0 where
  pub core : Database T
  pub engine : LiveShared N
  pub closed_sinks : List ℕ
  pub inner : Option (DbHandle F)
  pub live_subs : Registry (ℕ × ℕ)
  pub tx_states : Registry (WriteTxState F)
  pub next_tx_id : ℕ
  pub live_id : ℕ

-- The one observer of the core database is its engine.
abbrev pub engine_observer : {N : Type 0} → Observers (LiveShared N)
engine_observer = record {
  upgrade = λ l o. true;
  on_commit = λ o ev l. (Live.on_commit ev l, Bool.false);
}

abbrev pub Call : Type 0 → Type 0 → Type 0 → Type 0 → Type 0
Call N F T A = JsDatabase N F T → Settled A × JsDatabase N F T
