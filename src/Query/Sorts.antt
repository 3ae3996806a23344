-- ===== src/Query/Sorts.antt =====
-- What crates/nookdb-core/src/query.rs relies on of `slice::sort_by` of the standard library.
use Prim.Native.Nat.{Ordering}
use nookdb.Prelude.{
  ◌≡◌, ◌≢◌, ◌∙◌, refl, sym, ap, Bool, true, false, not, ◌&&◌, List, [], ◌∷◌, All, all, filter,
  length, arith, if◌then◌else◌, Bool-cases, inl, inr,
}
use nookdb.Json.{Value, External}

abbrev pub at_most : Ordering → Bool
at_most Ordering.lt = true
at_most Ordering.eq = true
at_most Ordering.gt = false

-- The two results of a comparison, one way and the other.
abbrev pub opposite : Ordering → Ordering → Bool
opposite Ordering.lt Ordering.gt = true
opposite Ordering.eq Ordering.eq = true
opposite Ordering.gt Ordering.lt = true
opposite _ _ = false

module _ {A : Type 0} (c : A → A → Ordering) where
  -- No neighbour is above the next one.
  abbrev pub Before : A → List A → Type 0
  Before a [] = Unit {0}
  Before a (b ∷ bs) = c a b ≢ Ordering.gt

  abbrev pub InOrder : List A → Type 0
  InOrder [] = Unit {0}
  InOrder (a ∷ bs) = Before a bs × InOrder bs

  -- On these elements, the comparison is a total order: antisymmetric and transitive.
  abbrev pub is_total : List A → Bool
  is_total docs =
      all
        (λ a.
          all
            (λ b.
              opposite (c a b) (c b a)
              && all (λ d. if at_most (c a b) && at_most (c b d) then at_most (c a d) else true)
                  docs)
            docs)
        docs

-- The documented behaviour: the elements stay the same, whatever the comparison is, and they are in
-- order if the comparison is a total order on them.
pub record IsSort {N F : Type 0} (x : External N F) : Type 0 where
  pub kept :
      (c : Value N → Value N → Ordering) (docs : List (Value N)) (p : Value N → Bool)
      → length (filter p (x.sort_by c docs)) ≡ length (filter p docs)
  pub sorted :
      (c : Value N → Value N → Ordering) (docs : List (Value N))
      → is_total c docs ≡ true
      → InOrder c (x.sort_by c docs)

filter-everything : {A : Type 0} (as' : List A) → filter (λ a. true) as' ≡ as'
filter-everything [] = refl
filter-everything (a ∷ as') = ap (λ t. a ∷ t) (filter-everything as')

none_fail :
    {A : Type 0} (p : A → Bool) (as' : List A)
    → All (λ a. p a ≡ true) as'
    → length (filter (λ a. not (p a)) as') ≡ 0
none_fail p [] h = refl
none_fail p (a ∷ as') h = rw h.0 (none_fail p as' h.1)

all_pass :
    {A : Type 0} (p : A → Bool) (as' : List A)
    → length (filter (λ a. not (p a)) as') ≡ 0
    → All (λ a. p a ≡ true) as'
all_pass p [] h = tt
all_pass p (a ∷ as') h = elim (Bool-cases (p a)) [
  | inl e ↦ (e, all_pass p as' (rw e at h))
  | inr e ↦ absurd (ground (arith, h, e))
]

module _ {N F : Type 0} (x : External N F) (sorts : IsSort x) (c : Value N → Value N → Ordering)
    (docs : List (Value N)) where
  pub length-sort_by : length (x.sort_by c docs) ≡ length docs
  length-sort_by =
      ap length (sym (filter-everything (x.sort_by c docs)))
      ∙ (sorts.kept c docs (λ d. true) ∙ ap length (filter-everything docs))

  -- What holds of all documents holds of the sorted ones.
  pub All-sort_by :
      (p : Value N → Bool) → All (λ d. p d ≡ true) docs → All (λ d. p d ≡ true) (x.sort_by c docs)
  All-sort_by p h =
      all_pass p (x.sort_by c docs) (sorts.kept c docs (λ d. not (p d)) ∙ none_fail p docs h)
