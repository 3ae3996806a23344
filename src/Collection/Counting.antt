-- ===== src/Collection/Counting.antt =====
-- About `find_one_with` and `count_with` of crates/nookdb-core/src/collection.rs, compared to
-- `find_with`.
use nookdb.Prelude.{
  min, ◌∙◌, take, drop, sym, ap, inl, inr, ℕ, ◌-◌, ◌≡◌, refl, none, some, List, [], ◌∷◌, filter,
  length,
}
use nookdb.Collection.{Collection}
use nookdb.Collection.Filter.{matches}
use nookdb.Collection.Reads.{
  candidates, find_with, find_one_with, count_with, first, capped, field_ty,
}
use nookdb.Database.{Database}
use nookdb.Error.{Result-cases, err, Result, ok, ◌>>=◌}
use nookdb.Json.{Value, External}
use nookdb.Query.{QueryOptions, apply, page, ordered, has_sort, validate_sort_fields}
use nookdb.Query.Sorts.{IsSort}
use nookdb.Query.Page.{length-page, length-ordered, paged}
use nookdb.Redb.{Redb}

-- A check and then a value, mapped.
count_found :
    {A : Type 0} (v : Result (Unit {0})) (n : ℕ) (l : List A)
    → length l ≡ n
    → (v >>= λ _. ok n) ≡ ((v >>= λ _. ok l) >>= λ found. ok (length found))
count_found (ok t) n l h = ap (λ m. ok m) (sym h)
count_found (err e) n l h = refl

first_found :
    {A : Type 0} (v : Result (Unit {0})) (k l : List A)
    → first k ≡ first l
    → ((v >>= λ _. ok k) >>= λ found. ok (first found))
      ≡ ((v >>= λ _. ok l) >>= λ found. ok (first found))
first_found (ok t) k l h = ap (λ m. ok m) h
first_found (err e) k l h = refl

first-take_one : {A : Type 0} (l : List A) → first (take 1 l) ≡ first l
first-take_one [] = refl
first-take_one (a ∷ l) = refl

first-page_one :
    {A : Type 0} (o : QueryOptions) (docs : List A)
    → first (page (record o { limit = some 1 }) docs)
      ≡ first (page (record o { limit = none }) docs)
unfolding page
first-page_one o docs = first-take_one (drop (min o.offset (length docs)) docs)

module _ {N F T : Type 0} (x : External N F) (r : Redb T) (c : Collection F) (db : Database T)
    (f : Value N) where
  paged-capped : (o : QueryOptions) (n : ℕ) → paged o n ≡ capped o.limit (n - o.offset)
  paged-capped o n =
      elim o.limit
        as (λ l.
          (elim l [ none ↦ n - o.offset | some l' ↦ min (n - o.offset) l' ])
          ≡ capped l (n - o.offset)) [ none ↦ refl | some l ↦ refl ]

  length-found :
      (sorts : IsSort x) (o : QueryOptions) (m : List (Value N))
      → length (page o (ordered x o c.ir.id_field m)) ≡ capped o.limit (length m - o.offset)
  length-found sorts o m =
      length-page o (ordered x o c.ir.id_field m)
      ∙ (ap (paged o) (length-ordered x sorts o c.ir.id_field m) ∙ paged-capped o (length m))

  -- Where the candidates can be read and the sort of the standard library does what it documents,
  -- `count_with` returns the number of documents that `find_with`
  -- returns for the same filter and options, and rejects the options that `find_with` rejects.
  pub count_with-length :
      (sorts : IsSort x) (o : QueryOptions) (docs : List (Value N))
      → candidates x r c db f ≡ ok docs
      → count_with x r c db f o ≡ (do found ← find_with x r c db f o; ok (length found))
  unfolding count_with find_with apply
  count_with-length sorts o docs h = rw h (
      count_found (validate_sort_fields o.sort (field_ty c.ir)) _ _
        (length-found sorts o (filter (λ d. matches x d f) docs)))

  -- `find_one_with` returns the first document of `find_with` without its limit, and its errors.
  pub find_one_with-first :
      (o : QueryOptions)
      → find_one_with x r c db f o
        ≡ (do found ← find_with x r c db f (record o { limit = none }); ok (first found))
  unfolding find_one_with find_with apply ordered has_sort
  find_one_with-first o = elim (Result-cases (candidates x r c db f)) [
    | inr (e, p) ↦ rw p
    | inl (docs, p) ↦ rw p (
        first_found (validate_sort_fields o.sort (field_ty c.ir)) _ _
          (first-page_one o (ordered x o c.ir.id_field (filter (λ d. matches x d f) docs))))
  ]
