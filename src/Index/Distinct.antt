-- ===== src/Index/Distinct.antt =====
-- About the keys of crates/nookdb-core/src/index/engine.rs for ids without NUL, as `insert` requires
-- them: what a key and what a range determine, also where a value holds a NUL.
use nookdb.Prelude.{
  ◌∙◌, append_assoc, ◌≡◌, refl, ap, true, false, [], ◌∷◌, ◌++◌, ◌⊎◌, inl, inr, arith, Bool-cases,
  ◌==◌, ◌↔◌,
}
use nookdb.Bytes.{beq, Bytes, contains}
use nookdb.Codec.Keys.{split_at_nul}
use nookdb.Index.{key}
use nookdb.Index.Exact.{stem, stem-append}

pub holds_nul : (a b : Bytes) → contains (a ++ 0 ∷ b) 0 ≡ true
holds_nul [] b = refl
holds_nul (x ∷ a) b = ground (arith, holds_nul a b)

-- A value and an id without NUL are told apart at the last NUL.
pub split_last :
    (a c b d : Bytes)
    → contains b 0 ≡ false
    → contains d 0 ≡ false
    → a ++ 0 ∷ b ≡ c ++ 0 ∷ d
    → (a ≡ c) × (b ≡ d)
split_last [] [] b d h g e = ground arith
split_last [] (y ∷ c) b d h g e = ground (arith, holds_nul c d)
split_last (x ∷ a) [] b d h g e = ground (arith, holds_nul a b)
split_last (x ∷ a) (y ∷ c) b d h g e = ground (arith, split_last a c b d)

-- What stands before and after the last NUL, where there is one.
pub record AtLast (r : Bytes) : Type 0 where
  pub before : Bytes
  pub after : Bytes
  pub joined : r ≡ before ++ 0 ∷ after
  pub nul_free : contains after 0 ≡ false

pub last-cases : (r : Bytes) → (contains r 0 ≡ false) ⊎ AtLast r
last-cases [] = inl refl
last-cases (x ∷ r) = elim (last-cases r) [
  | inr s ↦ inr (record {
    before = x ∷ s.before;
    after = s.after;
    joined = ap (λ z. x ∷ z) s.joined;
    nul_free = s.nul_free;
  })
  | inl h ↦ elim (Bool-cases (x == 0)) [
    | inl z ↦ inr (record { before = []; after = r; joined = ground (arith, z); nul_free = h })
    | inr z ↦ inl (ground (arith, z, h))
  ]
]

-- For field names and ids without NUL, two index keys of a collection are the same exactly if the
-- field, the encoded value and the id are.
pub key_iff :
    (c f e i g d j : Bytes)
    → contains c 0 ≡ false
    → contains f 0 ≡ false
    → contains g 0 ≡ false
    → contains i 0 ≡ false
    → contains j 0 ≡ false
    → (key c f e i ≡ key c g d j) ↔ ((f ≡ g) × (e ≡ d) × (i ≡ j))
unfolding key
key_iff c f e i g d j hc hf hg hi hj = (
  λ h.
      let s1 = split_at_nul c c _ _ hc hc h in
      let s2 = split_at_nul f g _ _ hf hg s1.1 in
      let s3 = split_last e d i j hi hj s2.1 in (s2.0, s3.0, s3.1),
  λ h. rw (h.0, h.1, h.2) refl,
)

-- The keys of one value, and of the values that continue it after a NUL, have its stem.
pub key-stem : (c f e r : Bytes) → key c f e r ≡ stem c f e ++ 0 ∷ r
unfolding key
key-stem c f e r = stem-append c f e (0 ∷ r)

pub key-stem_last : (c f e r s : Bytes) → key c f (e ++ 0 ∷ r) s ≡ stem c f e ++ 0 ∷ (r ++ 0 ∷ s)
unfolding key
key-stem_last c f e r s =
    ap (λ z. c ++ 0 ∷ (f ++ 0 ∷ z)) (append_assoc e (0 ∷ r) (0 ∷ s))
    ∙ stem-append c f e (0 ∷ (r ++ 0 ∷ s))

-- A value is not the same as one that continues it.
pub longer : (e r : Bytes) → beq e (e ++ 0 ∷ r) ≡ false
unfolding beq
longer [] r = refl
longer (y ∷ e) r = ground (arith, longer e r)
