-- ===== src/Backup/Format/Reads/Ends.antt =====
-- That the readers of crates/nookdb-core/src/backup.rs come to an end, and what they leave.
use nookdb.Prelude.{
  ◌==◌, Bool-cases, ℕ, zero, suc, ◌+◌, ◌≤◌, ◌<◌, ◌≡◌, refl, Bool, true, false, inl, inr, Option,
  List, [], ◌∷◌, ◌++◌, drop, length, leb, arith,
}
use nookdb.Bytes.{Bytes}
use nookdb.Error.{NookError}
use nookdb.Rows.{Row}
use nookdb.Backup.{
  Run, finished, failed, panicked, endless, On, ◌>>=◌, pure, fail, fail_if, In, read_exact,
  read_footer,
}
use nookdb.Backup.Format.{
  first_byte, from_be, ReadEntry, entry, sentinel, present_hash, read_from, read_body, read_entry,
  read_entries, read_all, step_entries, finish_and_verify,
}

-- The call came back with a result or an error.
abbrev pub returns : {A : Type 0} → Run A → Bool
returns (finished a) = true
returns (failed e) = true
returns panicked = false
returns endless = false

-- It came back, and if with a result, with at least `k` bytes less than `n` to read.
abbrev pub sheds : {A : Type 0} → ℕ → ℕ → Run (A × In) → Bool
sheds k n (finished (a, t)) = leb (length t.rest + k) n
sheds k n (failed e) = true
sheds k n panicked = false
sheds k n endless = false

pub record Sheds {A : Type 0} (m : On In A) (k : ℕ) : Type 0 where
  pub shed : (s : In) → sheds k (length s.rest) (m s) ≡ true

length-drop : (n : ℕ) (s : Bytes) → n ≤ length s → length (drop n s) + n ≡ length s
length-drop zero s h = omega arith
length-drop (suc n) [] h = omega arith
length-drop (suc n) (b ∷ s) h = omega (arith, length-drop n s (omega arith))

sheds_more :
    {B : Type 0} (x : Run (B × In)) (j k n l : ℕ)
    → leb (l + j) n ≡ true
    → sheds k l x ≡ true
    → sheds (j + k) n x ≡ true
sheds_more (finished (b, t)) j k n l h g = ground (arith, h, g)
sheds_more (failed e) j k n l h g = refl
sheds_more panicked j k n l h g = g
sheds_more endless j k n l h g = g

module _ {A B : Type 0} where
  sheds_bind :
      (x : Run (A × In)) (f : A → On In B) (j k n : ℕ)
      → sheds j n x ≡ true
      → ((a : A) (t : In) → sheds k (length t.rest) (f a t) ≡ true)
      → sheds (j + k) n (elim x [
        | finished r ↦ f r.0 r.1
        | failed e ↦ failed e
        | panicked ↦ panicked
        | endless ↦ endless
      ])
        ≡ true
  sheds_bind (finished (a, t)) f j k n h g = sheds_more (f a t) j k n (length t.rest) h (g a t)
  sheds_bind (failed e) f j k n h g = refl
  sheds_bind panicked f j k n h g = ground arith
  sheds_bind endless f j k n h g = ground arith

  pub bind-Sheds :
      {m : On In A} (f : A → On In B) {j k : ℕ}
      → Sheds m j
      → ((a : A) → Sheds (f a) k)
      → Sheds (m >>= f) (j + k)
  unfolding ◌>>=◌
  bind-Sheds {m} f {j} {k} x y = record {
    shed = λ s. sheds_bind (m s) f j k (length s.rest) (x.shed s) (λ a t. (y a).shed t);
  }

less-Sheds : {A : Type 0} {m : On In A} {j k : ℕ} → k ≤ j → Sheds m j → Sheds m k
less-Sheds {m = m} {j} {k} h x = record { shed = λ s. lower (m s) (length s.rest) (x.shed s) }
  where
    lower : {A : Type 0} (y : Run (A × In)) (n : ℕ) → sheds j n y ≡ true → sheds k n y ≡ true
    lower (finished (a, t)) n g = ground (arith, g, h)
    lower (failed e) n g = refl
    lower panicked n g = g
    lower endless n g = g

pub pure-Sheds : {A : Type 0} (a : A) → Sheds (pure a) 0
unfolding pure
pure-Sheds a = record { shed = λ s. ground arith }

pub fail_if-Sheds : (b : Bool) (e : NookError) → Sheds (fail_if b e) 0
unfolding fail_if
fail_if-Sheds true e = record { shed = λ s. refl }
fail_if-Sheds false e = record { shed = λ s. ground arith }

present_hash-Sheds : (b : ℕ) (h : Bytes) → Sheds (present_hash b h) 0
unfolding pure fail
present_hash-Sheds b h = record { shed = λ s. ground arith }

module _ (fault : Option ℕ) where
  read_exact-Sheds : (n : ℕ) → Sheds (read_exact fault n) n
  unfolding read_exact
  read_exact-Sheds n = record { shed = λ s. ground (arith, length-drop n s.rest) }

  read_footer-Sheds : Sheds (read_footer fault) 4
  unfolding read_footer
  read_footer-Sheds = record { shed = λ s. ground (arith, length-drop 4 s.rest) }

  -- A word, and what is made of it.
  word-Sheds :
      {B : Type 0} (n : ℕ) (f : Bytes → On In B)
      → ((b : Bytes) → Sheds (f b) 0)
      → Sheds (read_exact fault n >>= f) 0
  word-Sheds n f g = less-Sheds (omega arith) (bind-Sheds f (read_exact-Sheds n) g)

  pub read_from-Sheds : Sheds (read_from fault) 0
  unfolding read_from
  read_from-Sheds = word-Sheds 8 _ λ m. bind-Sheds _ (fail_if-Sheds _ _) λ _. word-Sheds 2 _ λ fv.
      bind-Sheds _ (fail_if-Sheds _ _) λ _. word-Sheds 8 _ λ cm. word-Sheds 1 _ λ sp.
        word-Sheds 32 _ λ sh.
          bind-Sheds _ (present_hash-Sheds (first_byte sp) sh)
            λ hash. word-Sheds 4 _ λ rm. word-Sheds 8 _ λ ec. pure-Sheds _

  read_body-Sheds : (n : ℕ) → Sheds (read_body fault n) 0
  unfolding read_body
  read_body-Sheds n = elim (Bool-cases (n == 0)) [
    | inl e ↦ rw e (pure-Sheds sentinel)
    | inr e ↦ rw e (
        word-Sheds n _ λ key.
          word-Sheds 4 _ λ vl. word-Sheds (from_be vl) _ λ value. pure-Sheds (entry key value))
  ]

  read_entry-Sheds : Sheds (read_entry fault) 4
  unfolding read_entry
  read_entry-Sheds = bind-Sheds _ (read_exact-Sheds 4) λ kl. read_body-Sheds (from_be kl)

  -- After an entry, the rounds that are left are enough.
  sheds_step :
      (fuel n : ℕ) (acc : List Row) (x : Run (ReadEntry × In))
      → n < suc fuel
      → ((more : List Row) (t : In)
          → length t.rest < fuel
          → sheds 0 (length t.rest) (read_entries fault fuel more t) ≡ true)
      → sheds 4 n x ≡ true
      → sheds 0 n (elim x [
        | finished r ↦ step_entries (read_entries fault fuel) acc r.0 r.1
        | failed e ↦ failed e
        | panicked ↦ panicked
        | endless ↦ endless
      ])
        ≡ true
  unfolding pure
  sheds_step fuel n acc (finished (sentinel, t)) h f g = ground (arith, g)
  sheds_step fuel n acc (finished (entry key value, t)) h f g =
      let l : length t.rest + 4 ≤ n = ground (arith, g) in
      sheds_more (read_entries fault fuel (acc ++ (key, value) ∷ []) t) 0 0 n (length t.rest)
        (ground (arith, l)) (f (acc ++ (key, value) ∷ []) t (omega arith))
  sheds_step fuel n acc (failed e) h f g = refl
  sheds_step fuel n acc panicked h f g = ground (arith, g)
  sheds_step fuel n acc endless h f g = ground (arith, g)

  -- More rounds than bytes are enough: each round that goes on has taken a length.
  read_entries_ends :
      (fuel : ℕ) (acc : List Row) (s : In)
      → length s.rest < fuel
      → sheds 0 (length s.rest) (read_entries fault fuel acc s) ≡ true
  unfolding read_entries ◌>>=◌
  read_entries_ends zero acc s h = absurd (omega arith)
  read_entries_ends (suc fuel) acc s h =
      sheds_step fuel (length s.rest) acc (read_entry fault s) h (read_entries_ends fuel)
        (read_entry-Sheds.shed s)

  pub read_all-Sheds : Sheds (read_all fault) 0
  unfolding read_all
  read_all-Sheds = record { shed = λ s. read_entries_ends (suc (length s.rest)) [] s (omega arith) }

  pub finish_and_verify-Sheds : (crc32 : Bytes → ℕ) → Sheds (finish_and_verify fault crc32) 0
  unfolding finish_and_verify
  finish_and_verify-Sheds crc32 = record {
    shed = λ s.
        (less-Sheds (omega arith)
            (bind-Sheds _ read_footer-Sheds (λ footer. fail_if-Sheds _ _))).shed
          s;
  }
