-- ===== src/Migrate.antt =====
-- crates/nookdb-core/src/migrate.rs: the runner over the ledger of applied versions, which is one
-- value of the reserved collection.
pub mod Merged
pub mod Runs
use nookdb.Prelude.{
  ℕ, Bool, not, Option, none, some, List, [], ◌∷◌, ◌++◌, any, filter, length, leb, ◌==◌,
  if◌then◌else◌,
}
use nookdb.Bytes.{Bytes, bytes}
use nookdb.Database.{Database, Outcome, read, write}
use nookdb.Error
use nookdb.Error.{Result, ok, err, bad_migration, corrupt_ledger, unserializable, ok_or}
use nookdb.Notify.{Observers}
use nookdb.Redb.{Redb}
use nookdb.Storage.Read
use nookdb.Storage.Write
use nookdb.Storage.Tx.{Tx, ◌>>=◌, ◌>>◌, pure, lift}

-- `serde_json` on `Vec<u32>`: the writer, and the reader, which may refuse a text.
pub record LedgerJson : Type 0 where
  pub to_vec : List ℕ → Option Bytes
  pub from_slice : Bytes → Option (List ℕ)

abbrev pub meta_collection : Bytes
meta_collection = bytes "_meta"

abbrev pub applied_key : Bytes
applied_key = bytes "applied_versions"

pub record MigrationStatus : Type 0 where
  pub current_version : ℕ
  pub applied_count : ℕ

-- `iter().copied().max().unwrap_or(0)`
unfoldable pub maximum : List ℕ → ℕ
maximum [] = 0
maximum (v ∷ vs) = let m = maximum vs in if leb v m then m else v

abbrev pub member : ℕ → List ℕ → Bool
member v a = any (λ u. u == v) a

-- the loop that pushes the versions that are not there
unfoldable pub push_new : List ℕ → List ℕ → List ℕ
push_new a [] = a
push_new a (v ∷ all) = push_new (if member v a then a else a ++ v ∷ []) all

-- `sort_unstable` on numbers
unfoldable pub sort_insert : ℕ → List ℕ → List ℕ
sort_insert v [] = v ∷ []
sort_insert v (u ∷ us) = let rest = sort_insert v us in if leb v u then v ∷ u ∷ us else u ∷ rest

unfoldable pub sort_unstable : List ℕ → List ℕ
unfolding sort_insert
sort_unstable [] = []
sort_unstable (v ∷ vs) = sort_insert v (sort_unstable vs)

-- `dedup`: of each run of equal elements one is left
unfoldable pub dedup_onto : ℕ → List ℕ → List ℕ
dedup_onto v [] = v ∷ []
dedup_onto v (u ∷ us) = let rest = dedup_onto u us in if v == u then rest else v ∷ rest

unfoldable pub dedup : List ℕ → List ℕ
unfolding dedup_onto
dedup [] = []
dedup (v ∷ vs) = dedup_onto v vs

module _ (j : LedgerJson) where
  abbrev pub decode_ledger : Option Bytes → Result (List ℕ)
  decode_ledger none = ok []
  decode_ledger (some b) = ok_or (j.from_slice b) (bad_migration corrupt_ledger)

  module _ {T : Type 0} (r : Redb T) where
    unfoldable pub applied : Database T → Result (List ℕ)
    applied db =
        Error.◌>>=◌ (read r db λ tx. Read.get r tx meta_collection applied_key)
          λ raw. decode_ledger raw

    unfoldable pub list_applied : Database T → Result (List ℕ)
    unfolding applied
    list_applied db = applied db

    unfoldable pub status : Database T → Result MigrationStatus
    unfolding applied maximum
    status db =
        Error.◌>>=◌ (applied db)
          λ a. ok (record { current_version = maximum a; applied_count = length a })

    unfoldable pub list_pending : Database T → List ℕ → Result (List ℕ)
    unfolding applied
    list_pending db all = Error.◌>>=◌ (applied db) λ a. ok (filter (λ v. not (member v a)) all)

    -- the ledger is written only if the loop has pushed a version
    unfoldable pub store_merged : List ℕ → List ℕ → Tx T (Unit {0})
    unfolding sort_unstable dedup
    store_merged a merged = if length merged == length a then pure tt else (do
      bytes ← lift (ok_or (j.to_vec (dedup (sort_unstable merged))) (bad_migration unserializable))
      Write.put r meta_collection applied_key bytes)

    -- the closure of `run`
    unfoldable pub run_in_tx : List ℕ → Tx T (Unit {0})
    unfolding store_merged push_new
    run_in_tx all = do
      raw ← Write.get r meta_collection applied_key
      a ← lift (decode_ledger raw)
      store_merged a (push_new a all)

    unfoldable pub run :
        {W : Type 0} (obs : Observers W) → Database T → W → List ℕ → Outcome r obs (Unit {0})
    unfolding run_in_tx
    run obs db w all = write r obs db w (run_in_tx all)
