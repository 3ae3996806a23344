-- ===== src/Notify/Delivery.antt =====
-- About the registry of crates/nookdb-core/src/notify.rs: who is told of a commit, in which order, and
-- what a handle undoes.
use nookdb.Prelude.{
  ℕ, ◌≡◌, refl, Bool, true, false, not, List, [], ◌∷◌, ◌++◌, filter, any, All, arith, ltb, ◌==◌,
  if◌then◌else◌,
}
use nookdb.Bytes.{Bytes, beq, beq_iff}
use nookdb.Notify.{
  DocChange, CommitEvent, Notifier, Observers, Slot, set_insert, touched_from, touched_collections,
  add_observer, drop_handle, call_all, dispatch,
}

abbrev pub member : Bytes → List Bytes → Bool
member b s = any (λ a. beq a b) s

pub member-set_insert :
    (a b : Bytes) (s : List Bytes)
    → member b (set_insert a s) ≡ (if beq a b then true else member b s)
unfolding set_insert
member-set_insert a b [] = ground arith
member-set_insert a b (c ∷ s) = ground (arith, member-set_insert a b s, beq_iff a c)

touched_from-member :
    (changes : List DocChange) (b : Bytes)
    → member b (touched_from changes) ≡ any (λ ch. beq ch.collection b) changes
unfolding touched_from
touched_from-member [] b = refl
touched_from-member (ch ∷ changes) b =
    ground (
      arith,
      touched_from-member changes b,
      member-set_insert ch.collection b (touched_from changes),
    )

-- A collection is among the touched collections of an event exactly if one of the changes is in
-- it.
pub touched_collections-member :
    (ev : CommitEvent) (b : Bytes)
    → member b (touched_collections ev) ≡ any (λ ch. beq ch.collection b) ev.changes
unfolding touched_collections
touched_collections-member ev b = touched_from-member ev.changes b

module _ {W : Type 0} (obs : Observers W) where
  call_all-append :
      (slots : List Slot) (s : Slot) (ev : CommitEvent) (w : W)
      → call_all obs (slots ++ s ∷ []) ev w
        ≡ (obs.on_commit s.observer ev (call_all obs slots ev w)).0
  unfolding call_all
  call_all-append [] s ev w = refl
  call_all-append (t ∷ slots) s ev w = call_all-append slots s ev (obs.on_commit t.observer ev w).0

filter_append :
    {A : Type 0} (p : A → Bool) (xs : List A) (a : A)
    → filter p (xs ++ a ∷ []) ≡ (if p a then filter p xs ++ a ∷ [] else filter p xs)
filter_append p [] a = refl
filter_append p (x ∷ xs) a = ground (arith, filter_append p xs a)

module _ {W : Type 0} (obs : Observers W) where
  -- A dispatch to the registry with one more observer calls it after all the others, whether they
  -- panicked or not, if it is alive when the dispatch starts, and skips it otherwise.
  pub dispatch-add_observer :
      (n : Notifier) (o : ℕ) (ev : CommitEvent) (w : W)
      → dispatch obs (add_observer n o).0 ev w ≡ (
          if obs.upgrade w o
          then (obs.on_commit o ev (dispatch obs n ev w)).0
          else dispatch obs n ev w)
  unfolding dispatch add_observer
  dispatch-add_observer n o ev w =
      rw
        (filter_append (λ s. obs.upgrade w s.observer) n.slots
          (record { id = n.next_id; observer = o }))
        (elim (obs.upgrade w o)
          as (λ b.
            call_all obs
              (if b
                then filter (λ s. obs.upgrade w s.observer) n.slots
                  ++ record { id = n.next_id; observer = o } ∷ []
                else filter (λ s. obs.upgrade w s.observer) n.slots)
              ev w
            ≡ (if b
                then (obs.on_commit o ev
                    (call_all obs (filter (λ s. obs.upgrade w s.observer) n.slots) ev w)).0
                else call_all obs (filter (λ s. obs.upgrade w s.observer) n.slots) ev w)) [
                  | true ↦
                      call_all-append obs (filter (λ s. obs.upgrade w s.observer) n.slots)
                        (record { id = n.next_id; observer = o }) ev w
                  | false ↦ refl
                ])

-- The ids of the slots are below the next one.
abbrev pub IsNumbered : Notifier → Type 0
IsNumbered n = All (λ s. ltb s.id n.next_id ≡ true) n.slots

filter-below :
    (k : ℕ) (slots : List Slot)
    → All (λ s. ltb s.id k ≡ true) slots
    → filter (λ s. not (s.id == k)) slots ≡ slots
filter-below k [] h = refl
filter-below k (s ∷ slots) h = ground (arith, filter-below k slots h.1, h.0)

-- Where the ids of the slots are below the next id, dropping the handle of a new observer leaves
-- the slots that were there before it.
pub drop-add_observer :
    (n : Notifier) (o : ℕ)
    → IsNumbered n
    → (drop_handle (add_observer n o).0 (add_observer n o).1).slots ≡ n.slots
unfolding drop_handle add_observer
drop-add_observer n o h =
    rw
      (filter_append (λ s. not (s.id == n.next_id)) n.slots
        (record { id = n.next_id; observer = o }))
      (ground (arith, filter-below n.next_id n.slots h))
