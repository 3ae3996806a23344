-- ===== src/Live/Wakeups.antt =====
-- About the wake-ups of the worker in crates/nookdb-core/src/live.rs.
use nookdb.Prelude.{
  ◌≡◌, refl, Bool, false, not, ◌&&◌, ◌||◌, List, [], ◌∷◌, ◌++◌, any, filter, ◌==◌, arith,
  Bool-cases, inl, inr,
}
use nookdb.Live.{
  LiveSub, LiveShared, Step, Reach, mark, on_commit, register, cancel, cleared, is_touched,
}
use nookdb.Notify.{CommitEvent}

module _ {N : Type 0} where
  abbrev pub any_dirty : List (LiveSub N) → Bool
  any_dirty subs = any (λ s. s.dirty) subs

  -- The worker has been woken, is about to take its snapshot, or will be woken.
  abbrev pub is_coming : LiveShared N → Bool
  is_coming l = l.wake || (l.draining || not (l.waking == 0))

  abbrev IsServed : LiveShared N → Type 0
  IsServed l = (any_dirty l.subs && not (is_coming l)) ≡ false

  any_dirty-mark :
      (ev : CommitEvent) (subs : List (LiveSub N))
      → any_dirty (mark ev subs) ≡ (any_dirty subs || any (λ s. is_touched ev s) subs)
  unfolding mark
  any_dirty-mark ev [] = refl
  any_dirty-mark ev (s ∷ subs) = ground (arith, any_dirty-mark ev subs)

  any_dirty-append :
      (subs : List (LiveSub N)) (s : LiveSub N)
      → any_dirty (subs ++ s ∷ []) ≡ (any_dirty subs || s.dirty)
  any_dirty-append [] s = ground arith
  any_dirty-append (t ∷ subs) s = ground (arith, any_dirty-append subs s)

  any_dirty-filter :
      (p : LiveSub N → Bool) (subs : List (LiveSub N))
      → any_dirty subs ≡ false
      → any_dirty (filter p subs) ≡ false
  any_dirty-filter p [] h = refl
  any_dirty-filter p (s ∷ subs) h = ground (arith, any_dirty-filter p subs)

  pub any_dirty-cleared : (subs : List (LiveSub N)) → any_dirty (cleared subs) ≡ false
  unfolding cleared
  any_dirty-cleared [] = refl
  any_dirty-cleared (s ∷ subs) = any_dirty-cleared subs

  -- Every step keeps the dirty subscriptions served.
  Step-IsServed : {l m : LiveShared N} → Step l m → IsServed l → IsServed m
  unfolding on_commit register cancel
  Step-IsServed {l} (Step.commit ev) h = ground (arith, any_dirty-mark ev l.subs)
  Step-IsServed {l} (Step.wake_worker e) h = ground (arith, e)
  Step-IsServed {l} (Step.subscribe c f o s) h = ground (
    arith,
    any_dirty-append l.subs (record {
      id = l.next_id;
      collection = c;
      filter_doc = f;
      options = o;
      sink = s;
      dirty = false;
    }),
  )
  Step-IsServed {l} (Step.unsubscribe id) h = elim (Bool-cases (any_dirty l.subs)) [
    | inl d ↦ ground (arith, d)
    | inr d ↦ ground (arith, any_dirty-filter (λ s. not (s.id == id)) l.subs d)
  ]
  Step-IsServed {l} (Step.leave_wait e d) h = ground arith
  Step-IsServed {l} (Step.snapshot e) h = ground (arith, any_dirty-cleared l.subs)

  -- In every reachable state, while a subscription is dirty the worker has been woken, is about to
  -- take its snapshot, or is going to be woken by a commit that is under way.
  pub Reach-is_coming :
      {l : LiveShared N} → Reach l → (any_dirty l.subs && not (is_coming l)) ≡ false
  Reach-is_coming Reach.start = refl
  Reach-is_coming (Reach.later r s) = Step-IsServed s (Reach-is_coming r)
