-- ===== src/Examples/Ledger.antt =====
-- Witnesses: the ledger of migrations.
use nookdb.Prelude.{◌≡◌, ◌||◌, refl, ℕ, List, [], ◌∷◌, some}
use nookdb.Database.{Database}
use nookdb.Error.{ok}
use nookdb.Examples.{log, empty_db}
use nookdb.Migrate.{LedgerJson, member, applied, run}
use nookdb.Migrate.Runs.{IsFaithful, run-applied}
use nookdb.Redb.Memory.{Table, memory, memory-IsLawful}

-- A ledger of versions below 256 is written as its bytes.
abbrev pub plain_json : LedgerJson
plain_json = record { to_vec = λ a. some a; from_slice = λ b. some b }

plain_json-IsFaithful : IsFaithful plain_json
plain_json-IsFaithful = record { text = λ a. a; to_vec_ok = λ a. refl; from_slice_ok = λ a. refl }

nothing_applied : applied plain_json memory empty_db ≡ ok []
unfolding applied nookdb.Database.read nookdb.Storage.Read.new nookdb.Storage.Read.get
    nookdb.Codec.encode_key
nothing_applied = refl

-- the database after the run of two versions
abbrev ran : Database Table
ran = (run plain_json memory log empty_db [] (2 ∷ 1 ∷ [])).1

two_applied : applied plain_json memory ran ≡ ok (1 ∷ 2 ∷ [])
unfolding applied run nookdb.Database.read nookdb.Storage.Read.new nookdb.Database.write
    nookdb.Storage.Write.new nookdb.Storage.Write.get nookdb.Codec.encode_key nookdb.Rows.lookup
    nookdb.Storage.Write.put nookdb.Storage.Read.get nookdb.Storage.Write.take_touched
    nookdb.Rows.insert nookdb.Bytes.beq
two_applied = refl

run-applied_example :
    (let out = run plain_json memory log empty_db [] (2 ∷ 1 ∷ []) in
      (out.0 ≡ ok tt)
      × ((a' : List ℕ) × (applied plain_json memory out.1 ≡ ok a')
          × ((v : ℕ) → member v a' ≡ (member v [] || member v (2 ∷ 1 ∷ [])))))
run-applied_example =
    run-applied plain_json memory memory-IsLawful log empty_db [] plain_json-IsFaithful (2 ∷ 1 ∷ [])
      [] nothing_applied
