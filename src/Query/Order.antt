-- ===== src/Query/Order.antt =====
-- About the order of the documents that `apply` of crates/nookdb-core/src/query.rs returns.
use Prim.Native.Nat.{Ordering}
use nookdb.Prelude.{Bool, false, not, ◌&&◌}
use nookdb.Prelude.{
  sym, false, arith, Bool-cases, inl, inr, ℕ, zero, suc, min, length, true, List, Option, none,
  some, take, drop, subst, ◌≡◌, ◌≢◌, refl, [], ◌∷◌,
}
use nookdb.Query.Sorts.{Before, InOrder, is_total, IsSort}
use nookdb.Schema.Ir.{FieldType}
use nookdb.Error.{ok}
use nookdb.Bytes.{Bytes}
use nookdb.Json.{Value, External, get}
use nookdb.Query.{
  QueryOptions, SortDir, page, apply, ordered, has_sort, cmp_docs, cmp_key, cmp_values, is_absent,
}

module _ {A : Type 0} (c : A → A → Ordering) where
  InOrder-drop : (n : ℕ) (docs : List A) → InOrder c docs → InOrder c (drop n docs)
  InOrder-drop zero docs s = s
  InOrder-drop (suc n) [] s = tt
  InOrder-drop (suc n) (a ∷ docs) s = InOrder-drop n docs s.1

  Before-take : (n : ℕ) (a : A) (docs : List A) → Before c a docs → Before c a (take n docs)
  Before-take zero a docs s = tt
  Before-take (suc n) a [] s = tt
  Before-take (suc n) a (b ∷ docs) s = s

  InOrder-take : (n : ℕ) (docs : List A) → InOrder c docs → InOrder c (take n docs)
  InOrder-take zero docs s = tt
  InOrder-take (suc n) [] s = tt
  InOrder-take (suc n) (a ∷ docs) s = (Before-take n a docs s.0, InOrder-take n docs s.1)

  -- A page of documents in order is in order.
  pub page-InOrder : (o : QueryOptions) (docs : List A) → InOrder c docs → InOrder c (page o docs)
  unfolding page
  page-InOrder o docs s =
      elim o.limit
        as (λ l. InOrder c (elim l [
          | none ↦ drop (min o.offset (length docs)) docs
          | some limit ↦ take limit (drop (min o.offset (length docs)) docs)
        ])) [
          | none ↦ InOrder-drop (min o.offset (length docs)) docs s
          | some n ↦ InOrder-take n _ (InOrder-drop (min o.offset (length docs)) docs s)
        ]

module _ {N F : Type 0} (x : External N F) where
  pub apply-shape :
      (o : QueryOptions) (docs out : List (Value N)) (id_field : Bytes)
      (ty : Bytes → Option FieldType)
      → apply x o docs id_field ty ≡ ok out
      → out ≡ page o (ordered x o id_field docs)
  unfolding apply
  apply-shape o docs out id_field ty h = ground arith

  ordered_sorts :
      (o : QueryOptions) (id_field : Bytes) (docs : List (Value N))
      → has_sort o ≡ true
      → ordered x o id_field docs ≡ x.sort_by (cmp_docs x o.sort id_field) docs
  unfolding ordered
  ordered_sorts o id_field docs h = rw h

module _ {N F : Type 0} (x : External N F) (sorts : IsSort x) where
  apply_sorted :
      (o : QueryOptions) (docs out : List (Value N)) (id_field : Bytes)
      (ty : Bytes → Option FieldType)
      → has_sort o ≡ true
      → apply x o docs id_field ty ≡ ok out
      → out ≡ page o (x.sort_by (cmp_docs x o.sort id_field) docs)
  apply_sorted o docs out id_field ty has h =
      ground (arith, apply-shape x o docs out id_field ty h, ordered_sorts x o id_field docs has)

  -- Whenever `apply` sorts documents on which its comparison is a total order, and succeeds, no
  -- document of its result is above the next one.
  apply-InOrder :
      (o : QueryOptions) (docs out : List (Value N)) (id_field : Bytes)
      (ty : Bytes → Option FieldType)
      → has_sort o ≡ true
      → is_total (cmp_docs x o.sort id_field) docs ≡ true
      → apply x o docs id_field ty ≡ ok out
      → InOrder (cmp_docs x o.sort id_field) out
  apply-InOrder o docs out id_field ty has total h =
      subst (InOrder (cmp_docs x o.sort id_field)) (sym (apply_sorted o docs out id_field ty has h))
        (page-InOrder (cmp_docs x o.sort id_field) o _
          (sorts.sorted (cmp_docs x o.sort id_field) docs total))

  -- In a document list no document without a value for the field comes before one that has a value.
  abbrev pub AbsentLast : Bytes → List (Value N) → Type 0
  AbsentLast field [] = Unit {0}
  AbsentLast field (a ∷ []) = Unit {0}
  AbsentLast field (a ∷ b ∷ docs) =
      ((is_absent (get a field) && not (is_absent (get b field))) ≡ false)
      × AbsentLast field (b ∷ docs)

  values_absent :
      (a b : Option (Value N))
      → is_absent a ≡ true
      → is_absent b ≡ false
      → cmp_values x a b ≡ Ordering.gt
  unfolding cmp_values
  values_absent none none h k = cc
  values_absent none (some b) h k = rw k
  values_absent (some a) none h k = cc
  values_absent (some a) (some b) h k = rw (h, k)

  absent_step :
      (field : Bytes) (dir : SortDir) (rest : List (Bytes × SortDir)) (id_field : Bytes)
      (a b : Value N)
      → cmp_docs x ((field, dir) ∷ rest) id_field a b ≢ Ordering.gt
      → is_absent (get a field) ≡ true
      → is_absent (get b field) ≡ true
  unfolding cmp_docs cmp_key
  absent_step field dir rest id_field a b h e = elim (Bool-cases (is_absent (get b field))) [
    | inl yes' ↦ yes'
    | inr no' ↦ absurd (h (ground (arith, values_absent (get a field) (get b field) e no')))
  ]

  implied : (p q : Bool) → (p ≡ true → q ≡ true) → (p && not q) ≡ false
  implied true q h = rw h
  implied false q h = refl

  InOrder-AbsentLast :
      (field : Bytes) (dir : SortDir) (rest : List (Bytes × SortDir)) (id_field : Bytes)
      (docs : List (Value N))
      → InOrder (cmp_docs x ((field, dir) ∷ rest) id_field) docs
      → AbsentLast field docs
  InOrder-AbsentLast field dir rest id_field [] s = tt
  InOrder-AbsentLast field dir rest id_field (a ∷ []) s = tt
  InOrder-AbsentLast field dir rest id_field (a ∷ b ∷ docs) s = (
    implied _ _ (absent_step field dir rest id_field a b s.0),
    InOrder-AbsentLast field dir rest id_field (b ∷ docs) s.1,
  )

  -- If the sort of the standard library does what it documents: in the result of a successful `apply`
  -- on documents on which its comparison is a total order, no document that lacks the first sort
  -- field, or holds null there, comes right before one that has it, in both directions and on every
  -- page.
  pub apply-AbsentLast :
      (o : QueryOptions) (field : Bytes) (dir : SortDir) (rest : List (Bytes × SortDir))
      (docs out : List (Value N)) (id_field : Bytes) (ty : Bytes → Option FieldType)
      → o.sort ≡ (field, dir) ∷ rest
      → is_total (cmp_docs x o.sort id_field) docs ≡ true
      → apply x o docs id_field ty ≡ ok out
      → AbsentLast field out
  unfolding has_sort
  apply-AbsentLast o field dir rest docs out id_field ty e total h =
      InOrder-AbsentLast field dir rest id_field out (
        subst (λ s. InOrder (cmp_docs x s id_field) out) e
          (apply-InOrder o docs out id_field ty (rw e) total h))
