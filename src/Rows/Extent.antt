-- ===== src/Rows/Extent.antt =====
-- Sorted rows and their lookups.
use nookdb.Prelude.{
  ap₂, inr, inl, subst, ◌⊎◌, ◌≡◌, refl, ap, sym, ◌∙◌, true, none, some, [], ◌∷◌, arith,
}
use nookdb.Bytes.{Bytes, blt, beq_iff, beq_refl}
use nookdb.Bytes.Order.{cmp_eq, cmp_flip_gt}
use nookdb.Rows.{Rows, lookup, Below, IsSorted}
use nookdb.Rows.Laws.{Below-trans, Below-lookup}

lookup_head : (k v : Bytes) (rows : Rows) → lookup k ((k, v) ∷ rows) ≡ some v
unfolding lookup
lookup_head k v rows = rw beq_refl

-- A smaller key is not among sorted rows.
lookup_before :
    (i j w : Bytes) (rows : Rows) → blt i j ≡ true → Below j rows → lookup i ((j, w) ∷ rows) ≡ none
lookup_before i j w rows h b = Below-lookup i ((j, w) ∷ rows) (h, Below-trans i j rows h b)

-- The tails agree where the whole lists do.
lookup_tail :
    (i v k : Bytes) (a b : Rows)
    → Below i a
    → Below i b
    → lookup k ((i, v) ∷ a) ≡ lookup k ((i, v) ∷ b)
    → lookup k a ≡ lookup k b
unfolding lookup
lookup_tail i v k a b p q h = ground (arith, beq_iff i k, Below-lookup i a p, Below-lookup i b q)

pub key_cases : (i j : Bytes) → (i ≡ j) ⊎ (blt i j ≡ true) ⊎ (blt j i ≡ true)
key_cases i j = ground (arith, cmp_eq i j, cmp_flip_gt i j)

heads_agree :
    (i v j w : Bytes) (a b : Rows) → i ≡ j → lookup i ((i, v) ∷ a) ≡ lookup i ((j, w) ∷ b) → v ≡ w
heads_agree i v j w a b e h =
    let f : lookup i ((j, w) ∷ b) ≡ lookup j ((j, w) ∷ b) = ap (λ k. lookup k ((j, w) ∷ b)) e in
    cc (lookup_head i v a, lookup_head j w b)

tails_agree :
    (i v j w k : Bytes) (a b : Rows)
    → i ≡ j
    → v ≡ w
    → Below i a
    → Below j b
    → lookup k ((i, v) ∷ a) ≡ lookup k ((j, w) ∷ b)
    → lookup k a ≡ lookup k b
tails_agree i v j w k a b e f p q h =
    lookup_tail i v k a b p (subst (λ x. Below x b) (sym e) q)
      (h ∙ ap₂ (λ x y. lookup k ((x, y) ∷ b)) (sym e) (sym f))

pub rows_ext :
    (a b : Rows) → IsSorted a → IsSorted b → ((k : Bytes) → lookup k a ≡ lookup k b) → a ≡ b
unfolding lookup
rows_ext [] [] s t h = refl
rows_ext [] ((j, w) ∷ b) s t h = cc (h j, lookup_head j w b)
rows_ext ((i, v) ∷ a) [] s t h = cc (h i, lookup_head i v a)
rows_ext ((i, v) ∷ a) ((j, w) ∷ b) s t h = elim (key_cases i j) [
  | inl e ↦
      let f = heads_agree i v j w a b e (h i) in
      let g = rows_ext a b s.1 t.1 (λ k. tails_agree i v j w k a b e f s.0 t.0 (h k)) in cc
  | inr (inl less) ↦ cc (h i, lookup_head i v a, lookup_before i j w b less t.0)
  | inr (inr more) ↦ cc (h j, lookup_head j w b, lookup_before j i v a more s.0)
]
