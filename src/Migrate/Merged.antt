-- ===== src/Migrate/Merged.antt =====
-- The pure part of `run` of crates/nookdb-core/src/migrate.rs: which versions the merged ledger holds.
use nookdb.Prelude.{
  all, true, ℕ, ◌≤◌, ◌≡◌, refl, ◌||◌, List, [], ◌∷◌, ◌++◌, length, ◌==◌, if◌then◌else◌, arith,
  Bool-cases, inl, inr, length-append, ==_iff,
}
use nookdb.Migrate.{member, push_new, sort_insert, sort_unstable, dedup_onto, dedup}

member-append : (v u : ℕ) (a : List ℕ) → member v (a ++ u ∷ []) ≡ (member v a || (u == v))
member-append v u [] = ground arith
member-append v u (w ∷ a) = ground (arith, member-append v u a)

-- The loop adds the versions of its argument.
pub member-push_new :
    (v : ℕ) (a all : List ℕ) → member v (push_new a all) ≡ (member v a || member v all)
unfolding push_new
member-push_new v a [] = ground arith
member-push_new v a (u ∷ all) = ground (
  arith,
  member-push_new v (if member u a then a else a ++ u ∷ []) all,
  member-append v u a,
  ==_iff u v,
)

length-push_new : (a all : List ℕ) → length a ≤ length (push_new a all)
unfolding push_new
length-push_new a [] = omega arith
length-push_new a (u ∷ all) = elim (Bool-cases (member u a)) [
  | inl p ↦ rw p (length-push_new a all)
  | inr p ↦ rw p (omega (arith, length-push_new (a ++ u ∷ []) all, length-append a (u ∷ [])))
]

-- A loop that pushes nothing leaves the list as it was.
pub push_new-same : (a all : List ℕ) → length (push_new a all) ≡ length a → push_new a all ≡ a
unfolding push_new
push_new-same a [] h = refl
push_new-same a (u ∷ all) h = elim (Bool-cases (member u a)) [
  | inl p ↦ rw p (push_new-same a all (rw p at h))
  | inr p ↦ absurd (
      let k : length (push_new (a ++ u ∷ []) all) ≡ length a = rw p at h in
      omega (arith, k, length-push_new (a ++ u ∷ []) all, length-append a (u ∷ [])))
]

member-sort_insert : (v u : ℕ) (a : List ℕ) → member v (sort_insert u a) ≡ ((u == v) || member v a)
unfolding sort_insert
member-sort_insert v u [] = ground arith
member-sort_insert v u (w ∷ a) = ground (arith, member-sort_insert v u a)

member-sort_unstable : (v : ℕ) (a : List ℕ) → member v (sort_unstable a) ≡ member v a
unfolding sort_unstable
member-sort_unstable v [] = refl
member-sort_unstable v (u ∷ a) =
    ground (arith, member-sort_unstable v a, member-sort_insert v u (sort_unstable a))

member-dedup_onto : (v u : ℕ) (a : List ℕ) → member v (dedup_onto u a) ≡ ((u == v) || member v a)
unfolding dedup_onto
member-dedup_onto v u [] = ground arith
member-dedup_onto v u (w ∷ a) = ground (arith, member-dedup_onto v w a, ==_iff u w)

member-dedup : (v : ℕ) (a : List ℕ) → member v (dedup a) ≡ member v a
unfolding dedup
member-dedup v [] = refl
member-dedup v (u ∷ a) = ground (arith, member-dedup_onto v u a)

-- Sorting and deduplication keep the versions.
pub member-stored : (v : ℕ) (a : List ℕ) → member v (dedup (sort_unstable a)) ≡ member v a
member-stored v a = ground (arith, member-dedup v (sort_unstable a), member-sort_unstable v a)

-- A loop over versions that are all there pushes nothing.
pub push_new-known : (a vs : List ℕ) → all (λ v. member v a) vs ≡ true → push_new a vs ≡ a
unfolding push_new
push_new-known a [] h = refl
push_new-known a (u ∷ vs) h = ground (arith, push_new-known a vs)
