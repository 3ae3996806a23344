-- ===== src/Binding/Sinks.antt =====
-- The sinks of crates/nookdb-napi/src/live.rs: `TsfnSink` without its `ThreadsafeFunction`. A sink is a
-- number, and the closed ones are a list; what is transported is the calls of the callbacks.
use nookdb.Prelude.{
  ◌≢◌, sym, ap, ◌∙◌, ==_iff, ℕ, Bool, true, false, any, filter, ◌≡◌, refl, List, [], ◌∷◌, ◌++◌,
  arith, ◌==◌, if◌then◌else◌, Bool-cases, inl, inr,
}

-- `TsfnSink::is_closed`
abbrev pub is_closed_sink : ℕ → List ℕ → Bool
is_closed_sink sink closed = any (λ k. k == sink) closed

-- `TsfnSink::emit`
unfoldable pub emit : {E : Type 0} → List ℕ → ℕ → E → List (ℕ × E)
emit closed sink envelope = if is_closed_sink sink closed then [] else (sink, envelope) ∷ []

-- The emissions of a round, one after the other.
unfoldable pub transported : {E : Type 0} → List ℕ → List (ℕ × E) → List (ℕ × E)
unfolding emit
transported closed [] = []
transported closed ((sink, envelope) ∷ es) = emit closed sink envelope ++ transported closed es

-- What a sink gets.
abbrev pub received : {E : Type 0} → ℕ → List (ℕ × E) → List (ℕ × E)
received sink es = filter (λ e. e.0 == sink) es

pub received-closed :
    {E : Type 0} (closed : List ℕ) (sink : ℕ)
    → is_closed_sink sink closed ≡ true
    → (es : List (ℕ × E)) → received sink (transported closed es) ≡ []
unfolding transported emit
received-closed closed sink h [] = refl
received-closed closed sink h ((k, envelope) ∷ es) =
    let rest = received-closed closed sink h es in
    elim (Bool-cases (is_closed_sink k closed)) [
      | inl c ↦ rw c rest
      | inr c ↦ elim (Bool-cases (k == sink)) [
        | inl q ↦
            let both : true ≡ false =
              sym h ∙ sym (ap (λ j. is_closed_sink j closed) ((==_iff k sink).0 q)) ∙ c in
            absurd (ground (arith, both))
        | inr q ↦ rw (c, q) rest
      ]
    ]

received-open :
    {E : Type 0} (closed : List ℕ) (sink : ℕ)
    → is_closed_sink sink closed ≡ false
    → (es : List (ℕ × E)) → received sink (transported closed es) ≡ received sink es
unfolding transported emit
received-open closed sink h [] = refl
received-open closed sink h ((k, envelope) ∷ es) =
    let rest = received-open closed sink h es in
    elim (Bool-cases (is_closed_sink k closed)) [
      | inr c ↦ elim (Bool-cases (k == sink)) [
        | inl q ↦ rw (c, q) (ap (λ t. (k, envelope) ∷ t) rest)
        | inr q ↦ rw (c, q) rest
      ]
      | inl c ↦ elim (Bool-cases (k == sink)) [
        | inl q ↦
            let both : true ≡ false =
              sym c ∙ ap (λ j. is_closed_sink j closed) ((==_iff k sink).0 q) ∙ h in
            absurd (ground (arith, both))
        | inr q ↦ rw (c, q) rest
      ]
    ]

-- What a sink gets does not change when another one is closed.
pub received-other :
    {E : Type 0} (closed : List ℕ) (other sink : ℕ)
    → other ≢ sink
    → (es : List (ℕ × E))
    → received other (transported (sink ∷ closed) es) ≡ received other (transported closed es)
received-other closed other sink h es = elim (Bool-cases (is_closed_sink other closed)) [
  | inl c ↦
      received-closed (sink ∷ closed) other (ground (arith, c)) es
      ∙ sym (received-closed closed other c es)
  | inr c ↦
      received-open (sink ∷ closed) other (ground (arith, c, h)) es
      ∙ sym (received-open closed other c es)
]
