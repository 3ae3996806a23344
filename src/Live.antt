-- ===== src/Live.antt =====
-- crates/nookdb-core/src/live.rs: the live queries, as the steps of the committing threads and of the
-- one worker on what they share. A critical section is one step; the emissions of a round are a list.
pub mod Wakeups
pub mod Progress
pub mod Rounds
pub mod Worker
use nookdb.Prelude.{
  ℕ, suc, ◌+◌, ◌%◌, ◌^◌, Bool, true, false, not, ◌≡◌, ◌&&◌, ◌||◌, List, [], ◌∷◌, ◌++◌, any, filter,
  ◌==◌, if◌then◌else◌,
}
use nookdb.Bytes.{Bytes, beq}
use nookdb.Collection
use nookdb.Collection.Reads.{find_with}
use nookdb.Database.{Database}
use nookdb.Error.{NookError, Result, ok, err, ◌>>=◌}
use nookdb.Json.{Value, External}
use nookdb.Notify.{CommitEvent, touched_collections}
use nookdb.Query.{QueryOptions}
use nookdb.Redb.{Redb}
use nookdb.Schema.Ir.{SchemaIr}

-- A sink is a number, its identity.
pub record LiveSub (N : Type 0) : Type 0 where
  pub id : ℕ
  pub collection : Bytes
  pub filter_doc : Value N
  pub options : QueryOptions
  pub sink : ℕ
  pub dirty : Bool

-- What the threads share. `waking` counts the commits that have marked subscriptions and are still to
-- wake the worker; `draining` says that the worker has left its wait and has no snapshot yet.
pub record LiveShared (N : Type 0) : Type 0 where
  pub subs : List (LiveSub N)
  pub wake : Bool
  pub next_id : ℕ
  pub waking : ℕ
  pub draining : Bool

-- The two envelopes of a recomputation that returns.
pub data Envelope (N : Type 0) : Type 0 where
  value : List (Value N) → Envelope N
  error : NookError → Envelope N

abbrev pub sealed : {N : Type 0} → Result (List (Value N)) → Envelope N
sealed (ok docs) = value docs
sealed (err e) = error e

unfoldable pub recompute_envelope :
    {N F T : Type 0}
    → External N F
    → Redb T
    → Database T
    → SchemaIr F
    → Bytes
    → Value N
    → QueryOptions
    → Envelope N
recompute_envelope x r db schema collection filter_doc options =
    sealed (do c ← Collection.new schema collection; find_with x r c db filter_doc options)

module _ {N : Type 0} where
  abbrev pub started : LiveShared N
  started = record { subs = []; wake = false; next_id = 0; waking = 0; draining = false }

  -- `touched.contains(s.collection.as_str())`
  abbrev pub is_touched : CommitEvent → LiveSub N → Bool
  is_touched ev s = any (λ c. beq c s.collection) (touched_collections ev)

  -- the loop of `on_commit`
  unfoldable pub mark : CommitEvent → List (LiveSub N) → List (LiveSub N)
  mark ev [] = []
  mark ev (s ∷ subs) =
      let rest = mark ev subs in
      if is_touched ev s then record s { dirty = true } ∷ rest else s ∷ rest

  -- the critical section of `on_commit`; `if any` leaves a wake-up to do
  unfoldable pub on_commit : CommitEvent → LiveShared N → LiveShared N
  unfolding mark
  on_commit ev l = record l {
    subs = mark ev l.subs;
    waking = if any (λ s. is_touched ev s) l.subs then suc l.waking else l.waking;
  }

  unfoldable pub register : Bytes → Value N → QueryOptions → ℕ → LiveShared N → LiveShared N
  register collection filter_doc options sink l = record l {
    subs =
        l.subs
        ++ record {
          id = l.next_id;
          collection = collection;
          filter_doc = filter_doc;
          options = options;
          sink = sink;
          dirty = false;
        }
          ∷ [];
    next_id = (l.next_id + 1) % 2 ^ 64;
  }

  unfoldable pub cancel : ℕ → LiveShared N → LiveShared N
  cancel id l = record l { subs = filter (λ s. not (s.id == id)) l.subs }

  -- the subscriptions of a round, and the subscriptions with their flags cleared
  unfoldable pub work : List (LiveSub N) → List (LiveSub N)
  work subs = filter (λ s. s.dirty) subs

  unfoldable pub cleared : List (LiveSub N) → List (LiveSub N)
  cleared [] = []
  cleared (s ∷ subs) = record s { dirty = false } ∷ cleared subs

  -- One step of a committing thread, of a caller, or of the worker.
  pub data Step (l : LiveShared N) : LiveShared N → Type 0 where
    commit : (ev : CommitEvent) → Step l (on_commit ev l)
    wake_worker : {n : ℕ} → l.waking ≡ suc n → Step l (record l { wake = true; waking = n })
    subscribe :
        (collection : Bytes) (filter_doc : Value N) (options : QueryOptions) (sink : ℕ)
        → Step l (register collection filter_doc options sink l)
    unsubscribe : (id : ℕ) → Step l (cancel id l)
    leave_wait :
        l.wake ≡ true → l.draining ≡ false → Step l (record l { wake = false; draining = true })
    snapshot : l.draining ≡ true → Step l (record l { subs = cleared l.subs; draining = false })

  pub data Reach : LiveShared N → Type 0 where
    start : Reach started
    later : {l m : LiveShared N} → Reach l → Step l m → Reach m

-- One round over the work. The answers that a round gets about an item are functions of its id: is the
-- sink closed, is the subscription still there, and which committed state does the read see.
module _ {N F T : Type 0} (x : External N F) (r : Redb T) (schema : SchemaIr F) (closed : ℕ → Bool)
    (there : ℕ → Bool) (seen : ℕ → Database T) where
  abbrev pub envelope_of : LiveSub N → Envelope N
  envelope_of s = recompute_envelope x r (seen s.id) schema s.collection s.filter_doc s.options

  -- what the round emits, to which sinks
  unfoldable pub emissions : List (LiveSub N) → List (ℕ × Envelope N)
  emissions [] = []
  emissions (s ∷ items) =
      let rest = emissions items in
      if closed s.id then rest else if there s.id then (s.sink, envelope_of s) ∷ rest else rest

  -- the subscriptions that the round finds dead
  unfoldable pub dead : List (LiveSub N) → List ℕ
  dead [] = []
  dead (s ∷ items) = let rest = dead items in if closed s.id then s.id ∷ rest else rest
