-- ===== src/Query/Page.antt =====
-- About the slice of crates/nookdb-core/src/query.rs: how many documents come out.
use nookdb.Prelude.{
  ℕ, ◌-◌, min, ◌≡◌, ◌∙◌, refl, ap, Option, none, some, List, length, take, drop, length-take,
  length-drop, arith,
}
use nookdb.Bytes.{Bytes}
use nookdb.Json.{Value, External}
use nookdb.Query.Sorts.{IsSort, length-sort_by}
use nookdb.Query.{QueryOptions, page, ordered, cmp_docs}

-- The number of documents that are left after `offset`, at most `limit` of them.
abbrev pub paged : QueryOptions → ℕ → ℕ
paged o n = elim o.limit [ none ↦ n - o.offset | some l ↦ min (n - o.offset) l ]

abbrev limited : {A : Type 0} → Option ℕ → List A → List A
limited l out = elim l [ none ↦ out | some limit ↦ take limit out ]

length-limited :
    {A : Type 0} (l : Option ℕ) (out : List A)
    → length (limited l out) ≡ (elim l [ none ↦ length out | some n ↦ min (length out) n ])
length-limited none out = refl
length-limited (some n) out = omega (arith, length-take n out)

-- A page has as many documents as are left after the offset, at most the limit.
pub length-page :
    {A : Type 0} (o : QueryOptions) (docs : List A) → length (page o docs) ≡ paged o (length docs)
unfolding page
length-page o docs =
    length-limited o.limit (drop (min o.offset (length docs)) docs)
    ∙ ap (λ (n : ℕ). elim o.limit [ none ↦ n | some l ↦ min n l ])
        (omega (arith, length-drop (min o.offset (length docs)) docs))

pub length-ordered :
    {N F : Type 0} (x : External N F) (sorts : IsSort x) (o : QueryOptions) (id_field : Bytes)
    (docs : List (Value N))
    → length (ordered x o id_field docs) ≡ length docs
unfolding ordered
length-ordered x sorts o id_field docs =
    ground (arith, length-sort_by x sorts (cmp_docs x o.sort id_field) docs)
