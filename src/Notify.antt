-- ===== src/Notify.antt =====
-- crates/nookdb-core/src/notify.rs: commit events and the registry of observers. An observer is a
-- number, its identity; what an observer does is a parameter, `Observers W`, over a world `W`.
pub mod Delivery
use nookdb.Prelude.{
  ℕ, ◌+◌, ◌%◌, ◌^◌, Bool, true, false, List, [], ◌∷◌, ◌++◌, map, not, filter, ◌==◌, if◌then◌else◌,
}
use nookdb.Bytes.{Bytes, beq, blt}

pub data ChangeOp : Type 0 where
  insert delete : ChangeOp

pub record DocChange : Type 0 where
  pub collection : Bytes
  pub op : ChangeOp
  pub doc_id : Bytes

pub record CommitEvent : Type 0 where
  pub changes : List DocChange

-- Insertion into a `BTreeSet<&str>`, as the ascending list of its elements.
unfoldable pub set_insert : Bytes → List Bytes → List Bytes
set_insert b [] = b ∷ []
set_insert b (c ∷ s) = if beq b c then c ∷ s else if blt b c then b ∷ c ∷ s else c ∷ set_insert b s

unfoldable pub touched_from : List DocChange → List Bytes
unfolding set_insert
touched_from [] = []
touched_from (c ∷ changes) = set_insert c.collection (touched_from changes)

unfoldable pub touched_collections : CommitEvent → List Bytes
unfolding touched_from
touched_collections ev = touched_from ev.changes

-- The observers as the notifier meets them: `upgrade` of a `Weak`, and `on_commit`, which may change
-- the world and may panic (`true`).
pub record Observers (W : Type 0) : Type 0 where
  pub upgrade : W → ℕ → Bool
  pub on_commit : ℕ → CommitEvent → W → W × Bool

pub record Slot : Type 0 where
  pub id : ℕ
  pub observer : ℕ

pub record Notifier : Type 0 where
  pub slots : List Slot
  pub next_id : ℕ

abbrev pub new : Notifier
new = record { slots = []; next_id = 0 }

pub record ObserverHandle : Type 0 where
  pub id : ℕ
  pub strong : ℕ

-- `fetch_add` wraps at 64 bits.
unfoldable pub add_observer : Notifier → ℕ → Notifier × ObserverHandle
add_observer n obs = (
  record {
    slots = n.slots ++ record { id = n.next_id; observer = obs } ∷ [];
    next_id = (n.next_id + 1) % 2 ^ 64;
  },
  record { id = n.next_id; strong = obs },
)

-- `Drop for ObserverHandle`
unfoldable pub drop_handle : Notifier → ObserverHandle → Notifier
drop_handle n h = record n { slots = filter (λ s. not (s.id == h.id)) n.slots }

module _ {W : Type 0} (obs : Observers W) where
  -- the loop of `dispatch`; the outcome of `catch_unwind` is dropped
  unfoldable pub call_all : List Slot → CommitEvent → W → W
  call_all [] ev w = w
  call_all (s ∷ slots) ev w = call_all slots ev (obs.on_commit s.observer ev w).0

  -- the observers are upgraded before the first of them is called
  unfoldable pub dispatch : Notifier → CommitEvent → W → W
  unfolding call_all
  dispatch n ev w = call_all (filter (λ s. obs.upgrade w s.observer) n.slots) ev w
