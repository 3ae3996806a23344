-- ===== src/Collection/Matched.antt =====
-- About the documents that `find_with` of crates/nookdb-core/src/collection.rs returns.
use nookdb.Prelude.{
  Bool, ℕ, zero, suc, min, ◌≡◌, true, false, none, some, List, [], ◌∷◌, drop, take, filter, length,
  All, filter-All, arith, inr, inl, if◌then◌else◌,
}
use nookdb.Collection.{Collection}
use nookdb.Collection.Filter.{matches}
use nookdb.Collection.Reads.{candidates, find_with, field_ty}
use nookdb.Database.{Database}
use nookdb.Error.{Result-cases, ok}
use nookdb.Query.Sorts.{IsSort, All-sort_by}
use nookdb.Collection.Reads.{field_ty}
use nookdb.Json.{Value, External}
use nookdb.Query.{QueryOptions, page, ordered, cmp_docs, has_sort}
use nookdb.Query.Order.{apply-shape}
use nookdb.Redb.{Redb}

module _ {A : Type 0} (P : A → Type 0) where
  All-drop : (n : ℕ) (as' : List A) → All P as' → All P (drop n as')
  All-drop zero as' h = h
  All-drop (suc n) [] h = tt
  All-drop (suc n) (a ∷ as') h = All-drop n as' h.1

  All-take : (n : ℕ) (as' : List A) → All P as' → All P (take n as')
  All-take zero as' h = tt
  All-take (suc n) [] h = tt
  All-take (suc n) (a ∷ as') h = (h.0, All-take n as' h.1)

  All-page : (o : QueryOptions) (as' : List A) → All P as' → All P (page o as')
  unfolding page
  All-page o as' h =
      let rest = All-drop (min o.offset (length as')) as' h in
      elim o.limit
        as (λ l. All P (elim l [
          | none ↦ drop (min o.offset (length as')) as'
          | some n ↦ take n (drop (min o.offset (length as')) as')
        ])) [ none ↦ rest | some n ↦ All-take n _ rest ]

module _ {N F T : Type 0} (x : External N F) (r : Redb T) (c : Collection F) (db : Database T) where
  All-ordered :
      (sorts : IsSort x) (p : Value N → Bool) (o : QueryOptions) (docs : List (Value N))
      → All (λ d. p d ≡ true) docs
      → All (λ d. p d ≡ true) (ordered x o c.ir.id_field docs)
  unfolding ordered
  All-ordered sorts p o docs h =
      elim (has_sort o)
        as (λ b.
          All (λ d. p d ≡ true)
            (if b then x.sort_by (cmp_docs x o.sort c.ir.id_field) docs else docs)) [
              | true ↦ All-sort_by x sorts (cmp_docs x o.sort c.ir.id_field) docs p h
              | false ↦ h
            ]

  -- Every document that a successful `find_with` returns matches the filter, whichever path found
  -- it.
  pub find_with-matches :
      (sorts : IsSort x) (f : Value N) (o : QueryOptions) (found : List (Value N))
      → find_with x r c db f o ≡ ok found
      → All (λ d. matches x d f ≡ true) found
  unfolding find_with
  find_with-matches sorts f o found h = elim (Result-cases (candidates x r c db f)) [
    | inr (e, p) ↦ absurd (ground arith)
    | inl (docs, p) ↦
        let m = filter (λ d. matches x d f) docs in
        let shape : found ≡ page o (ordered x o c.ir.id_field m) =
          apply-shape x o m found c.ir.id_field (field_ty c.ir) (ground (arith, p)) in
        rw shape (
          All-page (λ d. matches x d f ≡ true) o _
            (All-ordered sorts (λ d. matches x d f) o m (filter-All (λ d. matches x d f) docs)))
  ]
