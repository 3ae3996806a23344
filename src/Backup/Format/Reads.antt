-- ===== src/Backup/Format/Reads.antt =====
-- Rules for the pieces that a reader of crates/nookdb-core/src/backup.rs takes from the stream.
pub mod Header
pub mod Entries
pub mod Ends
use nookdb.Prelude.{
  inl, inr, ◌⊎◌, ◌<◌, ◌&&◌, ◌==◌, ℕ, zero, suc, ◌+◌, ◌≡◌, ◌∙◌, refl, sym, ap, Bool, true, false,
  Option, [], ◌∷◌, ◌++◌, take, drop, length, length-append, append_assoc, append-nil, leb, arith,
}
use nookdb.Bytes.{Bytes}
use nookdb.Error.{NookError}
use nookdb.Backup.{at_end, failed, finished, On, ◌>>=◌, ◌>>◌, pure, fail_if, In, read_exact}

abbrev pub at : Bytes → ℕ → Bytes → In
at r c h = record { rest = r; count = c; hashed = h }

-- `r` is a beginning of `p`, but not the whole of it.
abbrev pub cut : Bytes → Bytes → Bool
cut r [] = false
cut [] (b ∷ p) = true
cut (a ∷ r) (b ∷ p) = a == b && cut r p

pub cut-take : (k : ℕ) (p : Bytes) → k < length p → cut (take k p) p ≡ true
cut-take k [] h = absurd (omega arith)
cut-take zero (b ∷ p) h = refl
cut-take (suc k) (b ∷ p) h = ground (arith, cut-take k p (omega arith))

pub length-cut : (r p : Bytes) → cut r p ≡ true → length r < length p
length-cut r [] h = ground (arith, h)
length-cut [] (b ∷ p) h = omega arith
length-cut (a ∷ r) (b ∷ p) h = ground (arith, h, length-cut r p)

-- A stream that is cut short ends in the first part, or in the second.
pub cut-append :
    (p q r : Bytes)
    → cut r (p ++ q) ≡ true
    → (cut r p ≡ true) ⊎ ((t : Bytes) × (r ≡ p ++ t) × (cut t q ≡ true))
cut-append [] q r h = inr (r, refl, h)
cut-append (b ∷ p) q [] h = inl refl
cut-append (b ∷ p) q (a ∷ r) h =
    let same : a ≡ b = ground (arith, h) in
    elim (cut-append p q r (ground (arith, h))) [
      | inl i ↦ inl (ground (arith, i, same))
      | inr (t, e, i) ↦ inr (t, rw (same, e) refl, i)
    ]

-- Where `p` comes next, `m` takes exactly `p`, and returns `a`; where the stream ends before that,
-- it meets the end.
pub record Reads {A : Type 0} (fault : Option ℕ) (m : On In A) (p : Bytes) (a : A) : Type 0 where
  pub reads :
      (c : ℕ) (h r : Bytes) → m (at (p ++ r) c h) ≡ finished (a, at r (c + length p) (h ++ p))
  pub starves : (c : ℕ) (h r : Bytes) → cut r p ≡ true → m (at r c h) ≡ failed (at_end fault)

take-append : (p r : Bytes) → take (length p) (p ++ r) ≡ p
take-append [] r = refl
take-append (b ∷ p) r = ap (λ t. b ∷ t) (take-append p r)

drop-append : (p r : Bytes) → drop (length p) (p ++ r) ≡ r
drop-append [] r = refl
drop-append (b ∷ p) r = drop-append p r

fits-append : (p r : Bytes) → leb (length p) (length (p ++ r)) ≡ true
fits-append p r = ground (arith, length-append p r)

pub read_exact-Reads :
    (fault : Option ℕ) (p : Bytes) → Reads fault (read_exact fault (length p)) p p
unfolding read_exact
read_exact-Reads fault p = record {
  reads = λ c h r. rw (fits-append p r, take-append p r, drop-append p r);
  starves = λ c h r i. ground (arith, length-cut r p i);
}

pub read_n-Reads :
    (fault : Option ℕ) (n : ℕ) (p : Bytes) → length p ≡ n → Reads fault (read_exact fault n) p p
read_n-Reads fault n p e = rw (← e) (read_exact-Reads fault p)

zero_right : (c : ℕ) → c + 0 ≡ c
zero_right c = omega arith

module _ {A B : Type 0} where
  pub bind_ok :
      (m : On In A) (f : A → On In B) (s t : In) (a : A)
      → m s ≡ finished (a, t)
      → (m >>= f) s ≡ f a t
  unfolding ◌>>=◌
  bind_ok m f s t a e = ground (arith, e)

  pub bind_failed :
      (m : On In A) (f : A → On In B) (s : In) (e : NookError)
      → m s ≡ failed e
      → (m >>= f) s ≡ failed e
  unfolding ◌>>=◌
  bind_failed m f s e h = ground (arith, h)

  pub bind-Reads :
      {fault : Option ℕ} {m : On In A} (f : A → On In B) {p q : Bytes} {a : A} {b : B}
      → Reads fault m p a
      → Reads fault (f a) q b
      → Reads fault (m >>= f) (p ++ q) b
  bind-Reads {m = m} f {p = p} {q = q} {a = a} x y = record {
    reads = λ c h r.
        let n : (c + length p) + length q ≡ c + length (p ++ q) =
          omega (arith, length-append p q) in
        rw (append_assoc p q r) (
          bind_ok m f _ _ a (x.reads c h (q ++ r))
          ∙ rw (← n, ← append_assoc h p q) (y.reads (c + length p) (h ++ p) r));
    starves = λ c h r i. elim (cut-append p q r i) [
      | inl j ↦ bind_failed m f _ _ (x.starves c h r j)
      | inr (t, e, j) ↦
          rw e (bind_ok m f _ _ a (x.reads c h t) ∙ y.starves (c + length p) (h ++ p) t j)
    ];
  }

pub pure-Reads : {A : Type 0} {fault : Option ℕ} (a : A) → Reads fault (pure a) [] a
unfolding pure
pure-Reads a = record {
  reads = λ c h r. rw (append-nil h, zero_right c);
  starves = λ c h r i. ground (arith, i);
}

-- A check that passes takes nothing.
pub fail_if-Reads :
    {fault : Option ℕ} (b : Bool) (e : NookError) → b ≡ false → Reads fault (fail_if b e) [] tt
unfolding fail_if
fail_if-Reads b e n = record {
  reads = λ c h r. rw (n, append-nil h, zero_right c);
  starves = λ c h r i. ground (arith, i);
}
