-- ===== src/Binding/Lives/Detached.antt =====
-- About the subscriptions that `close` of crates/nookdb-napi/src/database.rs detaches.
use nookdb.Prelude.{
  ◌≢◌, ℕ, Bool, true, false, not, any, filter, ◌≡◌, refl, some, List, [], ◌∷◌, All, arith, ◌==◌,
}
use nookdb.Live
use nookdb.Live.{LiveSub, LiveShared, Envelope}
use nookdb.Binding.{JsDatabase, LiveEngine, Registry, find_entry}
use nookdb.Binding.Sinks.{is_closed_sink, transported, received, received-closed, received-other}
use nookdb.Binding.Lives.{close, detach_all, live_of, live_cancel, live_registry_remove}

-- The engine has the subscription.
abbrev has_sub : {N : Type 0} → ℕ → LiveShared N → Bool
has_sub sub l = any (λ s. s.id == sub) l.subs

gone :
    {N : Type 0} (sub : ℕ) (subs : List (LiveSub N))
    → any (λ s. s.id == sub) (filter (λ s. not (s.id == sub)) subs) ≡ false
gone sub [] = refl
gone sub (s ∷ subs) = ground (arith, gone sub subs)

-- The subscriptions of the engine with this id, as they are.
abbrev pub subs_with : {N : Type 0} → ℕ → LiveShared N → List (LiveSub N)
subs_with sub l = filter (λ s. s.id == sub) l.subs

others_stay :
    {N : Type 0} (sub other : ℕ)
    → other ≢ sub
    → (subs : List (LiveSub N))
    → filter (λ s. s.id == other) (filter (λ s. not (s.id == sub)) subs)
      ≡ filter (λ s. s.id == other) subs
others_stay sub other h [] = refl
others_stay sub other h (s ∷ subs) = ground (arith, h, others_stay sub other h subs)

stays_gone :
    {N : Type 0} (sub other : ℕ) (subs : List (LiveSub N))
    → any (λ s. s.id == sub) subs ≡ false
    → any (λ s. s.id == sub) (filter (λ s. not (s.id == other)) subs) ≡ false
stays_gone sub other [] h = refl
stays_gone sub other (s ∷ subs) h = ground (arith, h, stays_gone sub other subs)

module _ {N F T : Type 0} where
  -- A subscription that is detached stays so for the rest of the loop.
  abbrev IsDetached : ℕ × ℕ → JsDatabase N F T → Type 0
  IsDetached p s = (has_sub p.0 s.engine ≡ false) × (is_closed_sink p.1 s.closed_sinks ≡ true)

  -- The engine does not have the subscription, and nothing that is emitted to the sink gets to it.
  abbrev pub IsSilent : ℕ × ℕ → JsDatabase N F T → Type 0
  IsSilent p s =
      (has_sub p.0 s.engine ≡ false)
      × ((es : List (ℕ × Envelope N)) → received p.1 (transported s.closed_sinks es) ≡ [])

  detach_all_keeps :
      (p : ℕ × ℕ) (subs : Registry (ℕ × ℕ)) (s : JsDatabase N F T)
      → IsDetached p s
      → IsDetached p (detach_all subs s)
  unfolding detach_all Live.cancel
  detach_all_keeps p [] s d = d
  detach_all_keeps p (e ∷ subs) s d =
      detach_all_keeps p subs
        (record s { closed_sinks = e.1.1 ∷ s.closed_sinks; engine = Live.cancel e.1.0 s.engine })
        (stays_gone p.0 e.1.0 s.engine.subs d.0, ground (arith, d.1))

  detach_all-IsDetached :
      (subs : Registry (ℕ × ℕ)) (s : JsDatabase N F T)
      → All (λ e. IsDetached e.1 (detach_all subs s)) subs
  unfolding detach_all Live.cancel
  detach_all-IsDetached [] s = tt
  detach_all-IsDetached (e ∷ subs) s =
      let s' : JsDatabase N F T = record s {
        closed_sinks = e.1.1 ∷ s.closed_sinks;
        engine = Live.cancel e.1.0 s.engine;
      } in
      (
        detach_all_keeps e.1 subs s' (gone e.1.0 s.engine.subs, ground arith),
        detach_all-IsDetached subs s',
      )

  silence :
      (s : JsDatabase N F T) (subs : Registry (ℕ × ℕ))
      → All (λ entry. IsDetached entry.1 s) subs
      → All (λ entry. IsSilent entry.1 s) subs
  silence s [] h = tt
  silence s (e ∷ subs) h = ((h.0.0, received-closed s.closed_sinks e.1.1 h.0.1), silence s subs h.1)

  -- `close` of an object with a live engine detaches every live query that was registered: the
  -- engine does not have its subscription any more, and its sink is marked closed.
  close-detached :
      (s : JsDatabase N F T) (e : LiveEngine F)
      → live_of s.inner ≡ some e
      → All
          (λ entry.
            (has_sub entry.1.0 (close s).1.engine ≡ false)
            × (is_closed_sink entry.1.1 (close s).1.closed_sinks ≡ true))
          s.live_subs
  unfolding close
  close-detached s e h = rw h (detach_all-IsDetached s.live_subs (record s { live_subs = [] }))

  -- After `close` of an object with a live engine, every live query that was registered is silent:
  -- the engine does not have its subscription any more, and of all that a round still under way
  -- emits, no envelope gets to its callback.
  pub close-IsSilent :
      (s : JsDatabase N F T) (e : LiveEngine F)
      → live_of s.inner ≡ some e
      → All (λ entry. IsSilent entry.1 (close s).1) s.live_subs
  close-IsSilent s e h = silence (close s).1 s.live_subs (close-detached s e h)

  -- `live_cancel` of a live query of an object with a live engine silences it; the engine keeps every
  -- subscription with another id as it is, and what is emitted to any other sink gets there as before.
  pub live_cancel-IsSilent :
      (s : JsDatabase N F T) (e : LiveEngine F) (id sub sink : ℕ)
      → live_of s.inner ≡ some e
      → find_entry id s.live_subs ≡ some (sub, sink)
      → IsSilent (sub, sink) (live_cancel id s).1
        × ((other : ℕ)
            → other ≢ sub
            → subs_with other (live_cancel id s).1.engine ≡ subs_with other s.engine)
        × ((other : ℕ)
            → other ≢ sink
            → (es : List (ℕ × Envelope N))
            → received other (transported (live_cancel id s).1.closed_sinks es)
              ≡ received other (transported s.closed_sinks es))
  unfolding live_cancel live_registry_remove Live.cancel
  live_cancel-IsSilent s e id sub sink h f =
      rw (f, h)
        (
          (gone sub s.engine.subs, received-closed (sink ∷ s.closed_sinks) sink (ground arith)),
          λ other apart. others_stay sub other apart s.engine.subs,
          λ other apart es. received-other s.closed_sinks other sink apart es,
        )
