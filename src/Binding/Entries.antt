-- ===== src/Binding/Entries.antt =====
-- The registries of crates/nookdb-napi/src/database.rs as maps.
use nookdb.Prelude.{ℕ, ◌<◌, ◌≤◌, ◌≡◌, refl, none, some, [], ◌∷◌, All, arith}
use nookdb.Binding.{Registry, find_entry, remove_entry, insert_entry, update_entry}

module _ {A : Type 0} where
  pub find-remove : (k : ℕ) (m : Registry A) → find_entry k (remove_entry k m) ≡ none
  unfolding find_entry remove_entry
  find-remove k [] = refl
  find-remove k (e ∷ m) = ground (arith, find-remove k m)

  pub find-insert : (k : ℕ) (a : A) (m : Registry A) → find_entry k (insert_entry k a m) ≡ some a
  unfolding find_entry insert_entry
  find-insert k a m = ground arith

  pub find-update :
      (k : ℕ) (f : A → A) (a : A) (m : Registry A)
      → find_entry k m ≡ some a
      → find_entry k (update_entry k f m) ≡ some (f a)
  unfolding find_entry update_entry
  find-update k f a [] h = ground (arith, h)
  find-update k f a (e ∷ m) h = ground (arith, h, find-update k f a m)

  -- Every key is below `n`.
  abbrev pub KeysBelow : ℕ → Registry A → Type 0
  KeysBelow n m = All (λ e. e.0 < n) m

  pub find-KeysBelow : (n k : ℕ) (m : Registry A) → KeysBelow n m → n ≤ k → find_entry k m ≡ none
  unfolding find_entry
  find-KeysBelow n k [] h l = refl
  find-KeysBelow n k (e ∷ m) h l = ground (arith, h.0, l, find-KeysBelow n k m h.1 l)

  pub KeysBelow-later : (n k : ℕ) (m : Registry A) → n ≤ k → KeysBelow n m → KeysBelow k m
  KeysBelow-later n k [] l h = tt
  KeysBelow-later n k (e ∷ m) l h = (omega (arith, h.0), KeysBelow-later n k m l h.1)

  pub remove-KeysBelow : (n k : ℕ) (m : Registry A) → KeysBelow n m → KeysBelow n (remove_entry k m)
  unfolding remove_entry
  remove-KeysBelow n k [] h = tt
  remove-KeysBelow n k (e ∷ m) h = ground (arith, h.0, remove-KeysBelow n k m h.1)

  pub update-KeysBelow :
      (n k : ℕ) (f : A → A) (m : Registry A) → KeysBelow n m → KeysBelow n (update_entry k f m)
  unfolding update_entry
  update-KeysBelow n k f [] h = tt
  update-KeysBelow n k f (e ∷ m) h = (ground (arith, h.0), update-KeysBelow n k f m h.1)
