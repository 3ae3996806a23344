-- ===== src/Live/Progress.antt =====
-- That the worker of crates/nookdb-core/src/live.rs gets to every marked subscription.
use nookdb.Prelude.{
  ◌⊎◌, ◌∙◌, ap, ℕ, zero, suc, Bool, true, false, ◌≡◌, refl, inl, inr, Bool-cases, List, [], ◌∷◌,
  map, arith,
}
use nookdb.Live.{LiveShared, LiveSub, Step, Reach, cleared}
use nookdb.Live.Wakeups.{any_dirty, any_dirty-cleared, Reach-is_coming}

waking_cases : (n : ℕ) → (n ≡ 0) ⊎ ((k : ℕ) × (n ≡ suc k))
waking_cases zero = inl refl
waking_cases (suc k) = inr (k, refl)

module _ {N : Type 0} where
  -- The steps that are owed after a commit: its wake-up, and those of the worker.
  abbrev pub is_owed : {l m : LiveShared N} → Step l m → Bool
  is_owed (Step.commit ev) = false
  is_owed (Step.wake_worker e) = true
  is_owed (Step.subscribe c f o s) = false
  is_owed (Step.unsubscribe id) = false
  is_owed (Step.leave_wait e d) = true
  is_owed (Step.snapshot e) = true

  pub data Settles (l : LiveShared N) : LiveShared N → Type 0 where
    rest : Settles l l
    next : {m n : LiveShared N} → Settles l m → (s : Step m n) → is_owed s ≡ true → Settles l n

  -- No subscription is dirty, and all are there.
  pub record IsSettled (l m : LiveShared N) : Type 0 where
    pub settled : Settles l m
    pub clean : any_dirty m.subs ≡ false
    pub all_there : map (λ s. s.id) m.subs ≡ map (λ s. s.id) l.subs

  abbrev pub CanSettle : LiveShared N → Type 0
  CanSettle l = (m : LiveShared N) × IsSettled l m

  ids-cleared : (subs : List (LiveSub N)) → map (λ s. s.id) (cleared subs) ≡ map (λ s. s.id) subs
  unfolding cleared
  ids-cleared [] = refl
  ids-cleared (s ∷ subs) = rw (ids-cleared subs) refl

  -- From a state on the way, by what the worker is about to do.
  by_snapshot :
      (l m : LiveShared N) → Settles l m → m.subs ≡ l.subs → m.draining ≡ true → CanSettle l
  by_snapshot l m way same d = (
    record m { subs = cleared m.subs; draining = false },
    record {
      settled = Settles.next way (Step.snapshot d) refl;
      clean = any_dirty-cleared m.subs;
      all_there = ids-cleared m.subs ∙ ap (λ subs. map (λ s. s.id) subs) same;
    },
  )

  by_wake : (l m : LiveShared N) → Settles l m → m.subs ≡ l.subs → m.wake ≡ true → CanSettle l
  by_wake l m way same w = elim (Bool-cases m.draining) [
    | inl d ↦ by_snapshot l m way same d
    | inr d ↦
        by_snapshot l (record m { wake = false; draining = true })
          (Settles.next way (Step.leave_wait w d) refl) same refl
  ]

  by_waking : (l : LiveShared N) (n : ℕ) → l.waking ≡ suc n → CanSettle l
  by_waking l n e =
      by_wake l (record l { wake = true; waking = n })
        (Settles.next Settles.rest (Step.wake_worker e) refl) refl refl

  -- From every reachable state the wake-ups that commits still owe and the steps of the worker
  -- lead, without any new commit, to a state in which every subscription is there and none is
  -- dirty: no mark is ever left with nobody to take it.
  pub Reach-settles : {l : LiveShared N} → Reach l → CanSettle l
  Reach-settles {l} r = elim (Bool-cases (any_dirty l.subs)) [
    | inr d ↦ (l, record { settled = Settles.rest; clean = d; all_there = refl })
    | inl d ↦ elim (Bool-cases l.wake) [
      | inl w ↦ by_wake l l Settles.rest refl w
      | inr w ↦ elim (Bool-cases l.draining) [
        | inl g ↦ by_snapshot l l Settles.rest refl g
        | inr g ↦ elim (waking_cases l.waking) [
          | inl z ↦ absurd (ground (arith, d, w, g, z, Reach-is_coming r))
          | inr (k, e) ↦ by_waking l k e
        ]
      ]
    ]
  ]
