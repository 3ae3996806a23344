-- ===== src/Index/Exact.antt =====
-- About the range of an equality lookup in crates/nookdb-core/src/index/engine.rs: which keys it holds.
use mathlib.Core.List.{append_assoc}
use mathlib.Core.Logic.{◌↔◌}
use nookdb.Prelude.{
  ◌≡◌, ◌∙◌, sym, refl, true, false, [], ◌∷◌, ◌++◌, arith, inl, inr, Option-cases, ap, any, map,
  none, Bool, Bool-cases,
}
use nookdb.Bytes.{Bytes, beq, beq_sound, contains}
use nookdb.Bytes.Affix.{after, begins, in_range, after_sound, in_range_iff}
use nookdb.Codec.Keys.{split_at_nul}
use mathlib.Core.List.{append_assoc}
use nookdb.Prelude.{ap, sym, ◌∙◌}
use nookdb.Index.{key, prefix, is_nonempty}
use nookdb.Rows.{Rows, slice, lookup}

-- What the keys of a collection, a field and a value have in common, without the last separator.
abbrev pub stem : Bytes → Bytes → Bytes → Bytes
stem c f e = c ++ (0 ∷ (f ++ (0 ∷ e)))

pub stem-append : (c f e r : Bytes) → c ++ (0 ∷ (f ++ (0 ∷ (e ++ r)))) ≡ stem c f e ++ r
stem-append c f e r =
    sym (append_assoc c (0 ∷ (f ++ 0 ∷ e)) r ∙ ap (λ z. c ++ 0 ∷ z) (append_assoc f (0 ∷ e) r))

begins-cases : (p k : Bytes) → begins p k ≡ true → (r : Bytes) × (k ≡ p ++ r)
begins-cases p k h = elim (Option-cases (after p k)) [
  | inl q ↦ absurd (ground arith)
  | inr (r, q) ↦ (r, after_sound p k r q)
]

pub range_of_prefix :
    (c f e k : Bytes)
    → (let (lo, hi) = prefix c f e in in_range lo hi k) ≡ begins (stem c f e ++ 0 ∷ []) k
unfolding prefix
range_of_prefix c f e k =
    rw (stem-append c f e (0 ∷ []), stem-append c f e (1 ∷ [])) (in_range_iff (stem c f e) k)

begins_append : (p r : Bytes) → begins (p ++ 0 ∷ []) (p ++ 0 ∷ r) ≡ true
unfolding after
begins_append [] r = refl
begins_append (x ∷ p) r = ground (arith, begins_append p r)

range_of_append :
    (c f e r : Bytes)
    → (let (lo, hi) = prefix c f e in in_range lo hi (c ++ 0 ∷ (f ++ 0 ∷ (e ++ 0 ∷ r)))) ≡ true
range_of_append c f e r =
    range_of_prefix c f e _ ∙ rw (stem-append c f e (0 ∷ r)) (begins_append (stem c f e) r)

-- A key of the rows begins with the names and the text, each with a NUL after it.
abbrev pub has_entry : Bytes → Bytes → Bytes → Rows → Bool
has_entry c f e index = any (λ row. begins (stem c f e ++ 0 ∷ []) row.0) index

-- The range that the code builds is not empty exactly if there is such a key.
pub nonempty-has_entry :
    (c f e : Bytes) (index : Rows)
    → (let (lo, hi) = prefix c f e in
        is_nonempty (map (λ row. row.1) (slice lo hi index)) ≡ has_entry c f e index)
nonempty-has_entry c f e [] = refl
nonempty-has_entry c f e ((k, v) ∷ index) =
    ground (arith, range_of_prefix c f e k, nonempty-has_entry c f e index)

-- Without such a key, nothing is stored under the key of any id.
pub has_entry-lookup :
    (c f e id : Bytes) (index : Rows)
    → has_entry c f e index ≡ false
    → lookup (key c f e id) index ≡ none
unfolding lookup key
has_entry-lookup c f e id [] h = refl
has_entry-lookup c f e id ((k, v) ∷ index) h = elim (Bool-cases (beq k (key c f e id))) [
  | inr q ↦ rw q (has_entry-lookup c f e id index (ground (arith, h)))
  | inl q ↦
      let b : begins (stem c f e ++ 0 ∷ []) k ≡ true =
        rw (beq_sound k (key c f e id) q, stem-append c f e (0 ∷ id))
          (begins_append (stem c f e) id) in
      absurd (ground (arith, b, h))
]

-- The range of an equality lookup also holds the keys of entries whose value continues the wanted
-- one after a NUL.
in_range-overmatch :
    (c f e more id : Bytes)
    → (let (lo, hi) = prefix c f e in in_range lo hi (key c f (e ++ 0 ∷ more) id)) ≡ true
unfolding key
in_range-overmatch c f e more id =
    rw (append_assoc e (0 ∷ more) (0 ∷ id)) (range_of_append c f e (more ++ 0 ∷ id))

-- For names and values without NUL, the range of an equality lookup holds the key of an entry
-- exactly if the entry is of the same collection, the same field and the same value.
in_range-key :
    (c f e d g v id : Bytes)
    → contains c 0 ≡ false
    → contains f 0 ≡ false
    → contains e 0 ≡ false
    → contains d 0 ≡ false
    → contains g 0 ≡ false
    → contains v 0 ≡ false
    → ((let (lo, hi) = prefix c f e in in_range lo hi (key d g v id)) ≡ true)
      ↔ ((c ≡ d) × (f ≡ g) × (e ≡ v))
unfolding key
in_range-key c f e d g v id hc hf he hd hg hv = (
  λ h.
      let (r, k) =
        begins-cases (stem c f e ++ 0 ∷ []) (key d g v id)
          (sym (range_of_prefix c f e (key d g v id)) ∙ h) in
      let same : d ++ 0 ∷ (g ++ 0 ∷ (v ++ 0 ∷ id)) ≡ c ++ 0 ∷ (f ++ 0 ∷ (e ++ 0 ∷ r)) =
        k ∙ (append_assoc (stem c f e) (0 ∷ []) r ∙ sym (stem-append c f e (0 ∷ r))) in
      let s1 = split_at_nul d c _ _ hd hc same in
      let s2 = split_at_nul g f _ _ hg hf s1.1 in
      let s3 = split_at_nul v e _ _ hv he s2.1 in (sym s1.0, sym s2.0, sym s3.0),
  λ h. rw (sym h.0, sym h.1, sym h.2) (range_of_append c f e id),
)
