-- ===== src/Examples/Sorting.antt =====
-- An insertion sort, as a sort that does what the standard library documents.
use Prim.Native.Nat.{Ordering}
use nookdb.Prelude.{
  ◌≡◌, ◌≢◌, refl, ◌+◌, Bool, true, List, [], ◌∷◌, All, all, filter, length, arith, Bool-cases, ◌⊎◌,
  inl, inr,
}
use nookdb.Query.Sorts.{Before, InOrder, is_total, opposite}

-- stable: an element goes before the first that it is strictly below
unfoldable pub insert_by : {A : Type 0} → (A → A → Ordering) → A → List A → List A
insert_by c a [] = a ∷ []
insert_by c a (b ∷ bs) =
    let rest = insert_by c a bs in elim (c b a) [ Ordering.gt ↦ a ∷ b ∷ bs | _ ↦ b ∷ rest ]

unfoldable pub sort_onto : {A : Type 0} → (A → A → Ordering) → List A → List A → List A
sort_onto c sorted [] = sorted
sort_onto c sorted (a ∷ as') = sort_onto c (insert_by c a sorted) as'

gt-cases : (o : Ordering) → (o ≡ Ordering.gt) ⊎ (o ≢ Ordering.gt)
gt-cases Ordering.lt = inr (λ e. cc)
gt-cases Ordering.eq = inr (λ e. cc)
gt-cases Ordering.gt = inl refl

opposite-gt : (o p : Ordering) → opposite o p ≡ true → p ≡ Ordering.gt → o ≢ Ordering.gt
opposite-gt Ordering.lt p h e = λ f. cc
opposite-gt Ordering.eq p h e = λ f. cc
opposite-gt Ordering.gt Ordering.lt h e = cc
opposite-gt Ordering.gt Ordering.eq h e = cc
opposite-gt Ordering.gt Ordering.gt h e = absurd (ground (arith, h))

all-All : {A : Type 0} (p : A → Bool) (as' : List A) → all p as' ≡ true → All (λ a. p a ≡ true) as'
all-All p [] h = tt
all-All p (a ∷ as') h = elim (Bool-cases (p a)) [
  | inl e ↦ (e, all-All p as' (ground (arith, h, e)))
  | inr e ↦ absurd (ground (arith, h, e))
]

All-imp :
    {A : Type 0} (P Q : A → Type 0) → ((a : A) → P a → Q a) → (as' : List A) → All P as' → All Q as'
All-imp P Q f [] h = tt
All-imp P Q f (a ∷ as') h = (f a h.0, All-imp P Q f as' h.1)

module _ {A : Type 0} (c : A → A → Ordering) where
  insert_by-gt : (a b : A) (bs : List A) → c b a ≡ Ordering.gt → insert_by c a (b ∷ bs) ≡ a ∷ b ∷ bs
  unfolding insert_by
  insert_by-gt a b bs h = rw (h, insert_by)

  insert_by-le :
      (a b : A) (bs : List A) → c b a ≢ Ordering.gt → insert_by c a (b ∷ bs) ≡ b ∷ insert_by c a bs
  unfolding insert_by
  insert_by-le a b bs h =
      elim (c b a)
          as (λ o.
            o ≢ Ordering.gt
            → (elim o [ Ordering.gt ↦ a ∷ b ∷ bs | _ ↦ b ∷ insert_by c a bs ])
              ≡ b ∷ insert_by c a bs) [
                | Ordering.lt ↦ λ _. refl
                | Ordering.eq ↦ λ _. refl
                | Ordering.gt ↦ λ n. absurd (n refl)
              ]
        h

  insert_by-Before :
      (b a : A) (bs : List A) → c b a ≢ Ordering.gt → Before c b bs → Before c b (insert_by c a bs)
  unfolding insert_by
  insert_by-Before b a [] h k = h
  insert_by-Before b a (d ∷ bs) h k = elim (gt-cases (c d a)) [
    | inl up ↦ rw (insert_by-gt a d bs up) h
    | inr le ↦ rw (insert_by-le a d bs le) k
  ]

  -- If an element is above another, then not the other way round.
  abbrev Flips : A → A → Type 0
  Flips a b = c b a ≡ Ordering.gt → c a b ≢ Ordering.gt

  insert_by-InOrder :
      (a : A) (bs : List A) → All (Flips a) bs → InOrder c bs → InOrder c (insert_by c a bs)
  unfolding insert_by
  insert_by-InOrder a [] f s = (tt, tt)
  insert_by-InOrder a (b ∷ bs) f s = elim (gt-cases (c b a)) [
    | inl up ↦ rw (insert_by-gt a b bs up) (f.0 up, s)
    | inr le ↦
        rw (insert_by-le a b bs le) (insert_by-Before b a bs le s.0, insert_by-InOrder a bs f.1 s.1)
  ]

  All-insert_by : (P : A → Type 0) (a : A) (bs : List A) → P a → All P bs → All P (insert_by c a bs)
  unfolding insert_by
  All-insert_by P a [] p h = (p, tt)
  All-insert_by P a (b ∷ bs) p h = elim (gt-cases (c b a)) [
    | inl up ↦ rw (insert_by-gt a b bs up) (p, h)
    | inr le ↦ rw (insert_by-le a b bs le) (h.0, All-insert_by P a bs p h.1)
  ]

  -- Each element against the ones that are sorted already, when one more is.
  joined :
      (a : A) (sorted docs : List A)
      → All (λ e. Flips e a) docs
      → All (λ e. All (Flips e) sorted) docs
      → All (λ e. All (Flips e) (insert_by c a sorted)) docs
  joined a sorted [] g h = tt
  joined a sorted (e ∷ docs) g h =
      (All-insert_by (Flips e) a sorted g.0 h.0, joined a sorted docs g.1 h.1)

  heads :
      (a : A) (as' docs : List A)
      → All (λ e. All (Flips e) (a ∷ as')) docs
      → All (λ e. Flips e a) docs × All (λ e. All (Flips e) as') docs
  heads a as' [] h = (tt, tt)
  heads a as' (e ∷ docs) h = let rest = heads a as' docs h.1 in ((h.0.0, rest.0), (h.0.1, rest.1))

  sort_onto-InOrder :
      (sorted docs : List A)
      → InOrder c sorted
      → All (λ e. All (Flips e) sorted) docs
      → All (λ e. All (Flips e) docs) docs
      → InOrder c (sort_onto c sorted docs)
  unfolding sort_onto
  sort_onto-InOrder sorted [] s h g = s
  sort_onto-InOrder sorted (a ∷ docs) s h g =
      let rest = heads a docs docs g.1 in
      sort_onto-InOrder (insert_by c a sorted) docs (insert_by-InOrder a sorted h.0 s)
        (joined a sorted docs rest.0 h.1) rest.1

  no_sorted : (docs : List A) → All (λ e. All (Flips e) []) docs
  no_sorted [] = tt
  no_sorted (a ∷ docs) = (tt, no_sorted docs)

  all_flip : (docs : List A) → is_total c docs ≡ true → All (λ e. All (Flips e) docs) docs
  all_flip docs h =
      All-imp _ (λ a. All (Flips a) docs)
        (λ a k.
          All-imp _ (Flips a) (λ b q. opposite-gt (c a b) (c b a) (ground (arith, q))) docs
            (all-All _ docs k))
        docs (all-All _ docs h)

  pub sorted_ok : (docs : List A) → is_total c docs ≡ true → InOrder c (sort_onto c [] docs)
  sorted_ok docs h = sort_onto-InOrder [] docs tt (no_sorted docs) (all_flip docs h)

  count-insert_by :
      (p : A → Bool) (a : A) (bs : List A)
      → length (filter p (insert_by c a bs)) ≡ length (filter p (a ∷ bs))
  unfolding insert_by
  count-insert_by p a [] = refl
  count-insert_by p a (b ∷ bs) = elim (gt-cases (c b a)) [
    | inl up ↦ rw (insert_by-gt a b bs up) refl
    | inr le ↦ rw (insert_by-le a b bs le) (ground (arith, count-insert_by p a bs))
  ]

  pub count-sort_onto :
      (p : A → Bool) (sorted docs : List A)
      → length (filter p (sort_onto c sorted docs))
        ≡ length (filter p docs) + length (filter p sorted)
  unfolding sort_onto
  count-sort_onto p sorted [] = omega arith
  count-sort_onto p sorted (a ∷ docs) =
      ground (arith, count-sort_onto p (insert_by c a sorted) docs, count-insert_by p a sorted)
